-- ===== src/Outbound/Delivery.antt =====
-- An IP packet from the server's TUN device to the client's.
use chamlon.Base.{
  ℕ, ◌+◌, ◌-◌, ◌<◌, ◌≤◌, ◌^◌, ◌≡◌, refl, ap, ◌∙◌, Bool, true, false, List, [], ◌∷◌, ◌++◌, some, map,
  arith, length, take, drop, replicate, get_elem?, ltb, ◌==◌,
}
use chamlon.ReplayWindow.History.{latest}
use chamlon.ReplayWindow.Refine.{Stands}
use chamlon.Reassembly.{Table, Outcome, stored, delivered}
use chamlon.Reassembly.Table.{Absent, Free}
use chamlon.Fragment.{fragment_next_packet_id}
use chamlon.Fragment.Plain.{IsFrag}
use chamlon.Tunnel.RoundTrip.{receive_all-fragment_packet}
use chamlon.Crypto.{Sodium}
use chamlon.Crypto.Contract.{IsSodium}
use chamlon.Sessions.{Session, letter_y, session_by_vpnip}
use chamlon.ClientLink.{Link, handle_udp_packets}
use chamlon.ClientLink.Opening.{handle_udp_packets-IsSealed}
use chamlon.Outbound.{sent, params_of, handle_outbound_tun_buf}
use chamlon.Outbound.Sealing.{send_fragments-IsSealed, fragment_packet_count}

-- The client's end goes with a session of the server, whose next number is ahead of the window.
pub record IsLinked (s : Session) (l : Link) : Type 0 where
  pub same_key : l.k_recv ≡ s.k_send
  pub same_id : l.session_id ≡ s.session_id
  pub id_len : length s.session_id ≡ 16
  pub hist : List ℕ
  pub stands : Stands l.rw_window hist
  pub ahead : latest hist < s.send_seq

next_id_small : (counter : ℕ) → counter < 2 ^ 16 → (fragment_next_packet_id counter).0 < 2 ^ 16
unfolding fragment_next_packet_id
next_id_small counter h = ground arith

-- A packet of 20 to 1600 bytes for the address of an active session without constant bit rate, read from
-- the server's TUN device, comes out of the client's TUN device whole, after all its fragments but the
-- last were stored: when libsodium keeps its promises, `malloc` gives memory, the two ends share the key
-- and the identifier, the sequence numbers are ahead of the client's window and do not run out, the datagrams
-- arrive in order, and the client has no fragment of the same packet id and a free entry.
pub handle_outbound_tun_buf-delivered :
    (c : Sodium) (memory : ℕ → Bool) (counter : ℕ) (buf : List ℕ) (clock : ℕ → ℕ) (t : List Session)
    (i : ℕ) (s : Session) (l : Link) (j : ℕ)
    → IsSodium c
    → ((n : ℕ) → memory n ≡ true)
    → counter < 2 ^ 16
    → 20 ≤ length buf
    → length buf ≤ 1600
    → session_by_vpnip (take 4 (drop 16 buf)) t ≡ some i
    → get_elem? t i ≡ some s
    → (s.argv_cbr == letter_y) ≡ false
    → IsFrag (params_of s)
    → IsLinked s l
    → s.send_seq + 1600 < 2 ^ 64 - 64
    → Absent (fragment_next_packet_id counter).0 l.g_reassembly_table
    → Free j l.g_reassembly_table
    → (pkts : List (List ℕ)) × (before : ℕ) × ((handle_outbound_tun_buf c memory counter buf t).0
        ≡ some (map sent pkts))
      × ((handle_udp_packets c clock 0 pkts l).0 ≡ replicate before stored ++ delivered buf ∷ [])
unfolding handle_outbound_tun_buf
handle_outbound_tun_buf-delivered c memory counter buf clock t i s l j good room small long short
      found there direct frag linked fits absent free =
    let id = (fragment_next_packet_id counter).0 in
    let (plains, before, last, cut, back, idle) =
      receive_all-fragment_packet (params_of s) id buf clock j l.g_reassembly_table frag
        (next_id_small counter small) (omega (arith, long)) short absent free in
    let few = fragment_packet_count (params_of s) id buf plains cut in
    let (pkts, out, sealed) =
      send_fragments-IsSealed c memory 0 s.send_seq s plains buf good room direct refl
        (omega (arith, few, short, fits)) in
    let enough : ltb (length buf) 20 ≡ false = ground arith in
    let received =
      handle_udp_packets-IsSealed c clock s.k_send s.session_id 0 s.send_seq plains pkts l
        linked.hist good linked.same_key linked.same_id linked.id_len linked.stands linked.ahead
        (omega (arith, few, short, fits)) sealed in
    (
      pkts,
      before,
      rw (enough, found, there, cut) (ap some out),
      received.0 ∙ ap (λ (r : List Outcome × Table). r.0) back,
    )
