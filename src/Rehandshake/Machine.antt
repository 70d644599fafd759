-- ===== src/Rehandshake/Machine.antt =====
-- The state machine over all the times at which a re-handshake is due.
use chamlon.Base.{
  ℕ, zero, suc, ◌+◌, ◌-◌, ◌^◌, ◌≤◌, ◌<◌, ◌≡◌, ◌≢◌, refl, Option, none, some, arith, ◌⊎◌, inl, inr,
}
use chamlon.Rehandshake.{
  Phase, ready, in_progress, backoff, failed, Advice, attempt, wait, give_up, Agreement, Server,
  backoff_after, should_attempt_rehandshake, rehandshake_client_with_state, rehandshake_tick,
}

-- The states that a client reaches: no attempt has been made at first.
pub data Reachable : Server → Type 0 where
  started : (s : Server) → s.rehandshake_state ≡ ready → s.rehandshake_attempts ≡ 0 → Reachable s
  due :
      (now : ℕ) (outcome : Option Agreement) (s : Server)
      → Reachable s
      → Reachable (rehandshake_tick now outcome s).1

-- What holds between two ticks.
abbrev pub IsSound : Server → Type 0
IsSound s =
    (s.rehandshake_state ≢ in_progress)
    × (s.rehandshake_state ≡ ready → s.rehandshake_attempts ≡ 0)
    × (s.rehandshake_state ≡ backoff
        → (0 < s.rehandshake_attempts)
          × (s.rehandshake_attempts ≤ 5)
          × (s.rehandshake_backoff_sec ≡ 2 ^ (s.rehandshake_attempts - 1)))
    × (s.rehandshake_state ≡ failed → s.rehandshake_attempts ≡ 5)

backoff_after_lem : (n : ℕ) → n ≤ 5 → backoff_after n ≡ 2 ^ (n - 1)
backoff_after_lem zero h = refl
backoff_after_lem (suc zero) h = refl
backoff_after_lem (suc (suc zero)) h = refl
backoff_after_lem (suc (suc (suc zero))) h = refl
backoff_after_lem (suc (suc (suc (suc zero)))) h = refl
backoff_after_lem (suc (suc (suc (suc (suc zero))))) h = refl
backoff_after_lem (suc (suc (suc (suc (suc (suc n)))))) h = absurd (omega arith)

outcome-IsSound :
    (now : ℕ) (outcome : Option Agreement) (s : Server)
    → s.rehandshake_attempts < 5
    → IsSound (rehandshake_client_with_state now outcome s).1
unfolding rehandshake_client_with_state
outcome-IsSound now none s h = ground (arith, backoff_after_lem (s.rehandshake_attempts + 1))
outcome-IsSound now (some k) s h = ground arith

advice_cases : (a : Advice) → (a ≡ attempt) ⊎ (a ≢ attempt)
advice_cases attempt = inl refl
advice_cases wait = inr (λ e. cc)
advice_cases give_up = inr (λ e. cc)

phase_cases : (p : Phase) → (p ≡ ready) ⊎ (p ≡ in_progress) ⊎ (p ≡ backoff) ⊎ (p ≡ failed)
phase_cases ready = inl refl
phase_cases in_progress = inr (inl refl)
phase_cases backoff = inr (inr (inl refl))
phase_cases failed = inr (inr (inr refl))

-- The advice on a state of which the invariant holds, and the state that it leaves.
advice-IsSound :
    (now : ℕ) (s : Server)
    → IsSound s
    → ((should_attempt_rehandshake now s).0 ≡ attempt
        → (should_attempt_rehandshake now s).1.rehandshake_attempts < 5)
      × ((should_attempt_rehandshake now s).0 ≢ attempt
          → IsSound (should_attempt_rehandshake now s).1)
unfolding should_attempt_rehandshake
advice-IsSound now s h = ground (arith, phase_cases s.rehandshake_state)

tick-IsSound :
    (now : ℕ) (outcome : Option Agreement) (s : Server)
    → IsSound s
    → IsSound (rehandshake_tick now outcome s).1
unfolding rehandshake_tick
tick-IsSound now outcome s h =
    let (few, sound) = advice-IsSound now s h in
    let s' = (should_attempt_rehandshake now s).1 in
    ground (
      arith,
      few,
      sound,
      advice_cases (should_attempt_rehandshake now s).0,
      outcome-IsSound now outcome s',
    )

-- In every state that a client reaches between two ticks it is not in the middle of an attempt; if
-- it is ready, no attempt has failed; if it is in backoff, one to five have, and after the n-th the
-- wait is 2 ^ (n - 1) seconds; and if it has failed, five have.
pub reachable-IsSound : (s : Server) → Reachable s → IsSound s
reachable-IsSound s (started s' e z) = ground arith
reachable-IsSound s (due now outcome s' r) = tick-IsSound now outcome s' (reachable-IsSound s' r)

-- Between two ticks a client that has failed five times gives up; one that has failed less often
-- waits, changing nothing, until its time is over, and after that makes an attempt.
pub rehandshake_tick_lem :
    (now : ℕ) (outcome : Option Agreement) (s : Server)
    → Reachable s
    → let n = s.rehandshake_attempts in
      let waited = now - s.rehandshake_last_attempt in
      (n ≡ 5 → (rehandshake_tick now outcome s).0 ≡ give_up)
      × (0 < n → n < 5 → waited < 2 ^ (n - 1) → rehandshake_tick now outcome s ≡ (wait, s))
      × (n < 5 → (0 < n → 2 ^ (n - 1) ≤ waited) → (rehandshake_tick now outcome s).0 ≡ attempt)
unfolding rehandshake_tick should_attempt_rehandshake
rehandshake_tick_lem now outcome s r =
    ground (arith, reachable-IsSound s r, phase_cases s.rehandshake_state)
