-- ===== src/Maintenance/Liveness.antt =====
-- A session lives as long as the server's own maintenance runs.
use chamlon.Base.{
  ℕ, zero, suc, ◌+◌, ◌≤◌, ◌≡◌, inl, inr, refl, ap, ◌∙◌, Bool, true, false, List, [], ◌∷◌, some, map,
  arith, get_elem?, if◌then◌else◌, Bool-cases,
}
use chamlon.Crypto.{Sodium}
use chamlon.Sessions.{Session, cleanup_expired_sessions, expired}
use chamlon.Sessions.Expiry.{sweep_slot, after_sweep}
use chamlon.Datagram.{send_keepalive_to_client}
use chamlon.Maintenance.{
  swept, due, kept_alive, send_keepalives, perform_maintenance, run_maintenance,
}

-- A session that was active, or was sent a keepalive, in the last minute.
pub record IsLive (now : ℕ) (id : List ℕ) (s : Session) : Type 0 where
  pub active : s.active ≡ true
  pub same_id : s.session_id ≡ id
  pub ordered : s.last_activity_keepalive ≤ s.last_activity
  pub recent : now ≤ s.last_activity + 60

-- The slot after the keepalives.
abbrev after_keepalive : Sodium → ℕ → Session → Session
after_keepalive c now s =
    if due now s then kept_alive now (send_keepalive_to_client c true s).1 else s

keepalive_slot :
    (c : Sodium) (memory : ℕ → Bool) (k now j : ℕ) (t : List Session) (s : Session)
    → get_elem? t j ≡ some s
    → get_elem? (send_keepalives c memory k now t).1 j ≡ some (after_keepalive c now s)
unfolding send_keepalives send_keepalive_to_client
keepalive_slot c memory k now j [] s g = absurd cc
keepalive_slot c memory k now zero (x ∷ t) s g =
    let same : x ≡ s = cc in
    let own : get_elem? (send_keepalives c memory k now (x ∷ t)).1 0
        ≡ some (after_keepalive c now x) =
      elim (Bool-cases (due now x)) [
        | inl d ↦ rw (send_keepalives, d) refl
        | inr d ↦ rw (send_keepalives, d) refl
      ] in
    own ∙ ap (λ y. some (after_keepalive c now y)) same
keepalive_slot c memory k now (suc j) (x ∷ t) s g =
    let rest = keepalive_slot c memory (k + 1) now j t s g in
    elim (Bool-cases (due now x)) [ inl d ↦ rw d rest | inr d ↦ rw d rest ]

get_elem?-map :
    (f : Session → Session) (t : List Session) (j : ℕ) (s : Session)
    → get_elem? t j ≡ some s
    → get_elem? (map f t) j ≡ some (f s)
get_elem?-map f [] j s g = absurd cc
get_elem?-map f (x ∷ t) zero s g = let same : x ≡ s = cc in ap (λ y. some (f y)) same
get_elem?-map f (x ∷ t) (suc j) s g = get_elem?-map f t j s g

after_IsLive :
    (c : Sodium) (now : ℕ) (s : Session) (id : List ℕ)
    → IsLive now id s
    → IsLive (now + 50) id (after_keepalive c now (swept now s))
unfolding send_keepalive_to_client
after_IsLive c now s id live = elim (Bool-cases (due now (swept now s))) [
  | inl d ↦ rw d (record {
    active = live.active;
    same_id = live.same_id;
    ordered = omega arith;
    recent = omega arith;
  })
  | inr d ↦ rw d (record {
    active = live.active;
    same_id = live.same_id;
    ordered = live.ordered;
    recent = ground (arith, live.active, live.ordered);
  })
]

-- One round: the session stays, and ten seconds before the round's time it was active or was sent a
-- keepalive.
round_IsLive :
    (c : Sodium) (memory : ℕ → Bool) (stale : List ℕ) (now j : ℕ) (t : List Session) (s : Session)
    (id : List ℕ)
    → get_elem? t j ≡ some s
    → IsLive now id s
    → (s' : Session) × (get_elem? (perform_maintenance c memory stale now t).1 j ≡ some s')
      × IsLive (now + 50) id s'
unfolding perform_maintenance send_keepalive_to_client
round_IsLive c memory stale now j t s id g live =
    let stays : expired now s ≡ false = ground (arith, live.recent) in
    let r = cleanup_expired_sessions now t in
    let kept : get_elem? r.table j ≡ some s =
      sweep_slot now t j ∙ ap (after_sweep now) g ∙ rw stays refl in
    let mapped = get_elem?-map (swept now) r.table j s kept in
    let end = keepalive_slot c memory 0 now j (map (swept now) r.table) (swept now s) mapped in
    (after_keepalive c now (swept now s), end, after_IsLive c now s id live)

-- The times of the maintenance: each at most fifty seconds after the one before.
abbrev pub Spaced : ℕ → List ℕ → Type 0
Spaced last [] = Unit
Spaced last (now ∷ times) = (now ≤ last + 50) × Spaced now times

-- A session that is live at the first round stays active, with its identifier, through any number of rounds of
-- maintenance that are at most fifty seconds apart, though no packet ever comes from its client: the
-- server's keepalives count as activity, so the timeout of sixty seconds never ends the session.
pub run_maintenance-active :
    (c : Sodium) (memory : ℕ → Bool) (stale : List ℕ) (last j : ℕ) (times : List ℕ)
    (t : List Session) (s : Session) (id : List ℕ)
    → get_elem? t j ≡ some s
    → IsLive (last + 50) id s
    → Spaced last times
    → (s' : Session) × (get_elem? (run_maintenance c memory stale times t) j ≡ some s')
      × (s'.active ≡ true)
      × (s'.session_id ≡ id)
unfolding run_maintenance
run_maintenance-active c memory stale last j [] t s id g live spaced =
    (s, g, live.active, live.same_id)
run_maintenance-active c memory stale last j (now ∷ times) t s id g live (soon, spaced) =
    let now_live : IsLive now id s = record {
      active = live.active;
      same_id = live.same_id;
      ordered = live.ordered;
      recent = omega (arith, live.recent, soon);
    } in
    let (s', g', live') = round_IsLive c memory stale now j t s id g now_live in
    run_maintenance-active c memory stale now j times (perform_maintenance c memory stale now t).1
      s' id g' live' spaced
