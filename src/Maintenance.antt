-- ===== src/Maintenance.antt =====
-- What the server's loop does every five seconds: `perform_maintenance` of
-- chamlon_server/src/packet_processor.c, with `sweep_reassembly_table` of chamlon_server/src/fragment.c
-- over the tables of all sessions. The clock is read once; the k-th call of `malloc` for a keepalive
-- succeeds if `memory k` says so. The counter of closed connections is left out.
pub mod Liveness
mod Examples
use chamlon.Base.{
  ℕ, ◌+◌, ◌-◌, Bool, true, false, ◌&&◌, List, [], ◌∷◌, Option, none, some, map, leb, if◌then◌else◌,
}
use chamlon.Wire.{pkt_ctrl_disconnect}
use chamlon.Reassembly.{sweep_reassembly_table}
use chamlon.Crypto.{Sodium}
use chamlon.Sessions.{Session, cleanup_expired_sessions}
use chamlon.Datagram.{send_control_packet, send_keepalive_to_client}

abbrev pub keepalive_interval_sec : ℕ
keepalive_interval_sec = 10

abbrev pub swept : ℕ → Session → Session
swept now s = record s { g_reassembly_table = sweep_reassembly_table now s.g_reassembly_table }

abbrev pub due : ℕ → Session → Bool
due now s = s.active && leb keepalive_interval_sec (now - s.last_activity_keepalive)

abbrev pub kept_alive : ℕ → Session → Session
kept_alive now s = record s { last_activity_keepalive = now; last_activity = now }

abbrev sent_packets : Option (List ℕ) → List (List ℕ) → List (List ℕ)
sent_packets none rest = rest
sent_packets (some pkt) rest = pkt ∷ rest

-- The keepalives that are sent, and the table.
unfoldable pub send_keepalives :
    Sodium → (ℕ → Bool) → ℕ → ℕ → List Session → List (List ℕ) × List Session
send_keepalives c memory k now [] = ([], [])
send_keepalives c memory k now (s ∷ ss) =
    let (pkt, s') = send_keepalive_to_client c (memory k) s in
    let (pkts, ss') = send_keepalives c memory (k + 1) now ss in
    if due now s then (sent_packets pkt pkts, kept_alive now s' ∷ ss') else (pkts, s ∷ ss')

-- The disconnects to the sessions that expired.
abbrev pub disconnect_packets : Sodium → List ℕ → List Session → List (List ℕ)
disconnect_packets c stale [] = []
disconnect_packets c stale (s ∷ ss) =
    sent_packets (send_control_packet c stale pkt_ctrl_disconnect s).0
      (disconnect_packets c stale ss)

-- All that is sent, and the table.
unfoldable pub perform_maintenance :
    Sodium → (ℕ → Bool) → List ℕ → ℕ → List Session → (List (List ℕ) × List (List ℕ)) × List Session
perform_maintenance c memory stale now t =
    let r = cleanup_expired_sessions now t in
    let (pkts, t') = send_keepalives c memory 0 now (map (swept now) r.table) in
    ((disconnect_packets c stale r.disconnects, pkts), t')

-- The loop over a time in which nothing else happens.
unfoldable pub run_maintenance : Sodium → (ℕ → Bool) → List ℕ → List ℕ → List Session → List Session
run_maintenance c memory stale [] t = t
run_maintenance c memory stale (now ∷ times) t =
    run_maintenance c memory stale times (perform_maintenance c memory stale now t).1
