-- ===== src/Pacing/Queues.antt =====
-- No tick meets the fault, and the queues stay valid.
use chamlon.Base.{
  ℕ, ◌+◌, ◌≡◌, ◌≢◌, inl, inr, subst, refl, sym, ◌∙◌, true, ◌&&◌, List, [], ◌∷◌, Option, some, arith,
  map, get_elem?, ◌==◌, ==_iff, Bool-cases, Option-cases, if_elim,
}
use chamlon.Wire.{pkt_ctrl_keepalive}
use chamlon.OutQueue.{Node, OutQueue, out_queue_pop, out_queue_size, drain}
use chamlon.OutQueue.Lanes.{IsValid, order, out_queue_pop_lem}
use chamlon.OutQueue.Drain.{drain-IsValid}
use chamlon.Crypto.{Sodium}
use chamlon.Sessions.{Session, letter_y, same_bytes, session_by_id, update_slot}
use chamlon.Sessions.Slots.{first_slot-some, get_elem?-update_inv, get_elem?-update_ne}
use chamlon.Datagram.{send_control_packet}
use chamlon.Pacing.{
  send_dummy, send_constant, keepalive_due, send_idle, send_queued, send_session, execute_send,
}

pub record HasQueue (s : Session) : Type 0 where
  pub queue : OutQueue
  pub has_queue : s.outq ≡ some queue
  pub is_valid : IsValid queue

-- The active sessions have valid queues.
abbrev pub AllQueued : List Session → Type 0
AllQueued t = (i : ℕ) (s : Session) → get_elem? t i ≡ some s → s.active ≡ true → HasQueue s

abbrev SameQueue : Session → Session → Type 0
SameQueue s s' = s'.outq ≡ s.outq

HasQueue-SameQueue : (s s' : Session) → SameQueue s s' → HasQueue s → HasQueue s'
HasQueue-SameQueue s s' e h = record {
  queue = h.queue;
  has_queue = e ∙ h.has_queue;
  is_valid = h.is_valid;
}

send_dummy-SameQueue : (c : Sodium) (s : Session) → SameQueue s (send_dummy c s).1
unfolding send_dummy
send_dummy-SameQueue c s = ground arith

send_control_packet-SameQueue :
    (c : Sodium) (stale : List ℕ) (kind : ℕ) (s : Session)
    → SameQueue s (send_control_packet c stale kind s).1
unfolding send_control_packet
send_control_packet-SameQueue c stale kind s = ground arith

send_idle-SameQueue :
    (c : Sodium) (stale : List ℕ) (now : ℕ) (s : Session) → SameQueue s (send_idle c stale now s).1
unfolding send_idle
send_idle-SameQueue c stale now s =
    if_elim (λ (r : List (List ℕ) × Session). SameQueue s r.1) (keepalive_due now s) _ _
      (λ y. send_control_packet-SameQueue c stale pkt_ctrl_keepalive s) (λ y. refl)

send_constant-HasQueue :
    (c : Sodium) (q : OutQueue) (s : Session)
    → s.outq ≡ some q
    → IsValid q
    → HasQueue (send_constant c q s).1
unfolding send_constant
send_constant-HasQueue c q s e ok =
    let r = out_queue_pop_lem q ok in
    elim (Option-cases (out_queue_pop q).0) [
      | inl n ↦
          let idle : send_constant c q s ≡ send_dummy c s = simp (send_constant, n) refl in
          let kept = HasQueue-SameQueue s (send_dummy c s).1 (send_dummy-SameQueue c s) in
          subst (λ (x : List (List ℕ) × Session). HasQueue x.1) (sym idle)
            (kept (record { queue = q; has_queue = e; is_valid = ok }))
      | inr (node, n) ↦
          let busy : send_constant c q s
              ≡ (node.pkt ∷ [], record s { outq = some (out_queue_pop q).1 }) =
            simp (send_constant, n) refl in
          subst (λ (x : List (List ℕ) × Session). HasQueue x.1) (sym busy)
            (record { queue = (out_queue_pop q).1; has_queue = refl; is_valid = r.2 })
    ]

-- A result that is not the fault, with a session that has a valid queue.
abbrev Sends : Option (List (List ℕ) × Session) → Type 0
Sends r = (pkts : List (List ℕ)) × (s' : Session) × (r ≡ some (pkts, s')) × HasQueue s'

send_queued-Sends :
    (c : Sodium) (stale : List ℕ) (now : ℕ) (q : OutQueue) (s : Session)
    → IsValid q
    → Sends (send_queued c stale now q s)
unfolding send_queued
send_queued-Sends c stale now q s ok = let r = drain-IsValid q ok in by_order (order q) r.0 r.1 r.3
  where
    by_order :
        (ns : List Node) (q' : OutQueue)
        → drain (out_queue_size q + 1) q ≡ some (ns, q')
        → IsValid q'
        → Sends (send_queued c stale now q s)
    by_order [] q' run fine =
        let base : Session = record s { outq = some q' } in
        let idle = send_idle c stale now base in
        (
          idle.0,
          idle.1,
          rw (send_queued, run) refl,
          HasQueue-SameQueue base idle.1 (send_idle-SameQueue c stale now base)
              (record { queue = q'; has_queue = refl; is_valid = fine }),
        )
    by_order (n ∷ ns) q' run fine = (
      map (λ m. m.pkt) (n ∷ ns),
      record s { outq = some q' },
      rw (send_queued, run) refl,
      record { queue = q'; has_queue = refl; is_valid = fine },
    )

send_session-Sends :
    (c : Sodium) (stale : List ℕ) (now : ℕ) (s : Session)
    → HasQueue s
    → Sends (send_session c stale now s)
unfolding send_session
send_session-Sends c stale now s h = elim (Bool-cases (s.argv_cbr == letter_y)) [
  | inl e ↦
      let r = send_constant c h.queue s in
      (
        r.0,
        r.1,
        simp (send_session, h.has_queue, e) refl,
        send_constant-HasQueue c h.queue s h.has_queue h.is_valid,
      )
  | inr e ↦
      let (pkts, s', run, fine) = send_queued-Sends c stale now h.queue s h.is_valid in
      (pkts, s', simp (send_session, h.has_queue, e) run, fine)
]

update-AllQueued :
    (i : ℕ) (s' : Session) (t : List Session)
    → HasQueue s'
    → AllQueued t
    → AllQueued (update_slot i (λ _. s') t)
update-AllQueued i s' t fine all j y g act = elim (Bool-cases (j == i)) [
  | inl e ↦
      let (x, there, same) = get_elem?-update_inv i j (λ _. s') t y ((==_iff j i).0 e) g in
      subst HasQueue (sym same) fine
  | inr e ↦
      let ne : j ≢ i = ground arith in
      all j y (sym (get_elem?-update_ne i j (λ _. s') t ne) ∙ g) act
]

-- Where each active session has a valid queue, a send reads through no null pointer, whatever session
-- it is for, and each active session has a valid queue afterwards.
pub execute_send-AllQueued :
    (c : Sodium) (stale : List ℕ) (now : ℕ) (id : List ℕ) (t : List Session)
    → AllQueued t
    → (pkts : List (List ℕ)) × (t' : List Session) × (execute_send c stale now id t
        ≡ some (pkts, t'))
      × AllQueued t'
unfolding execute_send session_by_id
execute_send-AllQueued c stale now id t all = elim (Option-cases (session_by_id id t)) [
  | inl n ↦ ([], t, rw (execute_send, n) refl, all)
  | inr (i, n) ↦
      let f = first_slot-some (λ s. s.active && same_bytes s.session_id id) t i n in
      let act : f.session.active ≡ true = ground (arith, f.passes) in
      let (pkts, s', run, fine) =
        send_session-Sends c stale now f.session (all i f.session f.there act) in
      (
        pkts,
        update_slot i (λ _. s') t,
        rw (execute_send, n, f.there, run) refl,
        update-AllQueued i s' t fine all,
      )
]
