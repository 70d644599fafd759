-- ===== src/Pacing.antt =====
-- What goes out to a client at one tick of the scheduler: `execute_send` of
-- chamlon_server/src/scheduler.c. `stale` is what a control packet leaves uninitialised. The result is
-- `none` where the session has no queue, and C would read through a null pointer.
pub mod Constant
pub mod Queued
pub mod Start
pub mod Queues
mod Examples
use chamlon.Base.{
  ℕ, ◌+◌, ◌-◌, Bool, true, false, not, ◌&&◌, List, [], ◌∷◌, ◌++◌, Option, none, some, map, take,
  get_elem?, leb, ◌==◌, if◌then◌else◌,
}
use chamlon.Wire.{seq_bytes, pkt_ctrl_keepalive}
use chamlon.OutQueue.{Node, OutQueue, out_queue_pop, out_queue_size, drain}
use chamlon.Crypto.{Sodium, aead_encrypt}
use chamlon.Sessions.{Session, letter_y, session_by_id, update_slot}
use chamlon.Datagram.{next_seq, send_control_packet}
use chamlon.Maintenance.{keepalive_interval_sec}

-- A dummy packet; nothing goes out where the encryption fails.
unfoldable pub send_dummy : Sodium → Session → List (List ℕ) × Session
send_dummy c s =
    let s' = record s { send_seq = next_seq s.send_seq } in
    elim (aead_encrypt c s.k_send s.session_id s.send_seq (take s.argv_frag s.dummy_payload)) [
      | none ↦ ([], s')
      | some out ↦ ((s.final_pkt_dummy ++ (seq_bytes s.send_seq ++ out)) ∷ [], s')
    ]

-- With constant bit rate: one packet, real or dummy.
unfoldable pub send_constant : Sodium → OutQueue → Session → List (List ℕ) × Session
send_constant c q s =
    let (node, q') = out_queue_pop q in
    elim node [ some n ↦ (n.pkt ∷ [], record s { outq = some q' }) | none ↦ send_dummy c s ]

abbrev keepalive_due : ℕ → Session → Bool
keepalive_due now s =
    leb keepalive_interval_sec (now - s.last_activity)
    && leb keepalive_interval_sec (now - s.last_activity_keepalive)

abbrev as_list : Option (List ℕ) → List (List ℕ)
as_list none = []
as_list (some pkt) = pkt ∷ []

-- An idle session gets a keepalive.
unfoldable pub send_idle : Sodium → List ℕ → ℕ → Session → List (List ℕ) × Session
send_idle c stale now s =
    let (pkt, s') = send_control_packet c stale pkt_ctrl_keepalive s in
    if keepalive_due now s
    then (as_list pkt, record s' { last_activity_keepalive = now })
    else ([], s)

-- Without constant bit rate: all that is queued. The queue's size is enough fuel.
unfoldable pub send_queued :
    Sodium → List ℕ → ℕ → OutQueue → Session → Option (List (List ℕ) × Session)
send_queued c stale now q s = elim (drain (out_queue_size q + 1) q) [
  | none ↦ none
  | some (nodes, q') ↦ elim nodes [
    | [] ↦ some (send_idle c stale now (record s { outq = some q' }))
    | n ∷ ns ↦ some (map (λ m. m.pkt) (n ∷ ns), record s { outq = some q' })
  ]
]

unfoldable pub send_session : Sodium → List ℕ → ℕ → Session → Option (List (List ℕ) × Session)
send_session c stale now s = elim s.outq [
  | none ↦ none
  | some q ↦
      if s.argv_cbr == letter_y then some (send_constant c q s) else send_queued c stale now q s
]

-- The session is looked up by its identifier; a task of a session that is gone sends nothing.
unfoldable pub execute_send :
    Sodium → List ℕ → ℕ → List ℕ → List Session → Option (List (List ℕ) × List Session)
execute_send c stale now id t = elim (session_by_id id t) [
  | none ↦ some ([], t)
  | some i ↦ elim (get_elem? t i) [
    | none ↦ some ([], t)
    | some s ↦ elim (send_session c stale now s) [
      | none ↦ none
      | some (pkts, s') ↦ some (pkts, update_slot i (λ _. s') t)
    ]
  ]
]
