-- ===== src/Shutdown/Draining.antt =====
-- How long the server waits, and what it leaves behind.
use chamlon.Base.{
  ℕ, zero, suc, ◌+◌, ◌-◌, ◌<◌, ◌≡◌, refl, inl, inr, ◌⊎◌, true, false, List, [], ◌∷◌, map, arith,
  ltb, ◌==◌, Bool-cases,
}
use chamlon.Crypto.{Sodium}
use chamlon.Sessions.{Session, free_slot}
use chamlon.Shutdown.{
  complete, GracefulShutdown, count_active, graceful_shutdown_init, graceful_shutdown_initiate,
  graceful_shutdown_drain_sessions, graceful_shutdown_timeout_exceeded, graceful_shutdown_cleanup,
  drain_loop, shut_down,
}

count_active-map : (t : List Session) → count_active (map free_slot t) ≡ 0
count_active-map [] = refl
count_active-map (s ∷ t) = ground (arith, count_active-map t)

-- After the final clean-up the shutdown is complete and no session is active.
pub graceful_shutdown_cleanup_lem :
    (m : GracefulShutdown) (t : List Session)
    → ((graceful_shutdown_cleanup m t).0.state ≡ complete)
      × (count_active (graceful_shutdown_cleanup m t).1 ≡ 0)
unfolding graceful_shutdown_cleanup
graceful_shutdown_cleanup_lem m t = (refl, count_active-map t)

-- In every round some session is still active.
abbrev pub Busy : List (ℕ × List Session) → Type 0
Busy [] = Unit
Busy ((now, t) ∷ rounds) = (0 < count_active t) × Busy rounds

drain_loop-Busy :
    (m : GracefulShutdown) (n : ℕ) (rounds : List (ℕ × List Session))
    → m.shutdown_started ≡ 0
    → 0 < n
    → Busy rounds
    → (drain_loop m n rounds).0 ≡ false
unfolding drain_loop graceful_shutdown_timeout_exceeded
drain_loop-Busy m zero rounds e pos busy = absurd (omega arith)
drain_loop-Busy m (suc n) [] e pos busy = refl
drain_loop-Busy m (suc n) ((now, t) ∷ rounds) e pos (some_left, busy) =
    let never : (m.shutdown_started == 0) ≡ true = ground arith in
    rw never (drain_loop-Busy m (count_active t) rounds e some_left busy)

-- A shutdown that was never initiated, as `main` enters it, has no time limit: with a session active at
-- the start and after every round, the loop that waits goes on, however late the rounds are.
pub shut_down-Busy :
    (c : Sodium) (stale : List ℕ) (timeout : ℕ) (rounds : List (ℕ × List Session))
    (t : List Session)
    → 0 < count_active t
    → Busy rounds
    → (shut_down c stale rounds (graceful_shutdown_init timeout) t).0 ≡ false
unfolding shut_down graceful_shutdown_drain_sessions graceful_shutdown_init
shut_down-Busy c stale timeout rounds t pos busy =
    let first : ltb 0 (count_active t) ≡ true = ground arith in
    rw first (drain_loop-Busy _ (count_active t) rounds refl pos busy)

-- Some round is later than a time.
abbrev pub SomeAfter : ℕ → List (ℕ × List Session) → Type 0
SomeAfter limit [] = ⊥
SomeAfter limit ((now, t) ∷ rounds) = (limit < now) ⊎ SomeAfter limit rounds

drain_loop-SomeAfter :
    (m : GracefulShutdown) (n : ℕ) (rounds : List (ℕ × List Session))
    → (m.shutdown_started == 0) ≡ false
    → SomeAfter (m.shutdown_started + m.shutdown_timeout_sec) rounds
    → (drain_loop m n rounds).0 ≡ true
unfolding drain_loop graceful_shutdown_timeout_exceeded
drain_loop-SomeAfter m zero rounds e later = refl
drain_loop-SomeAfter m (suc n) [] e later = absurd later
drain_loop-SomeAfter m (suc n) ((now, t) ∷ rounds) e later =
    elim (Bool-cases (ltb m.shutdown_timeout_sec (now - m.shutdown_started))) [
      | inl over ↦ rw (e, over) refl
      | inr more ↦ elim later [
        | inl passed ↦ absurd (ground arith)
        | inr rest ↦ rw (e, more) (drain_loop-SomeAfter m (count_active t) rounds e rest)
      ]
    ]

-- A shutdown that was initiated at a time other than 0 ends: whatever the sessions do, the loop that
-- waits is over with any rounds of which one is later than the timeout allows.
pub shut_down-SomeAfter :
    (c : Sodium) (stale : List ℕ) (started timeout : ℕ) (rounds : List (ℕ × List Session))
    (t : List Session)
    → 0 < started
    → 0 < timeout
    → SomeAfter (started + timeout) rounds
    → (shut_down c stale rounds
        (graceful_shutdown_initiate started (graceful_shutdown_init timeout))
        t).0
      ≡ true
unfolding shut_down graceful_shutdown_drain_sessions graceful_shutdown_init
    graceful_shutdown_initiate
shut_down-SomeAfter c stale started timeout rounds t pos positive later =
    elim (Bool-cases (ltb 0 (count_active t))) [
      | inr none_left ↦ rw none_left refl
      | inl some_left ↦
          let given : ltb 0 timeout ≡ true = ground arith in
          let fixed : (started == 0) ≡ false = ground arith in
          rw (some_left, given) (drain_loop-SomeAfter _ (count_active t) rounds fixed later)
    ]
