-- ===== src/Shutdown/Examples.antt =====
-- Examples of shutdowns.
use chamlon.Base.{ℕ, ◌≡◌, inl, inr, true, false, List, [], ◌∷◌, arith, replicate}
use chamlon.Crypto.Toy.{toy}
use chamlon.Sessions.{Session, zero_session}
use chamlon.Shutdown.{graceful_shutdown_init, graceful_shutdown_initiate, shut_down}
use chamlon.Shutdown.Draining.{shut_down-Busy, shut_down-SomeAfter}

abbrev table : List Session
table = record zero_session { active = true } ∷ zero_session ∷ []

abbrev rounds : List (ℕ × List Session)
rounds = (100, table) ∷ (2000, table) ∷ []

shut_down-Busy_example :
    (shut_down toy (replicate 16 0) rounds (graceful_shutdown_init 10) table).0 ≡ false
shut_down-Busy_example =
    shut_down-Busy toy (replicate 16 0) 10 rounds table (omega arith)
      (omega arith, (omega arith, tt))

shut_down-SomeAfter_example :
    (shut_down toy
      (replicate 16 0)
      rounds
      (graceful_shutdown_initiate 100 (graceful_shutdown_init 10))
      table).0
    ≡ true
shut_down-SomeAfter_example =
    shut_down-SomeAfter toy (replicate 16 0) 100 10 rounds table (omega arith) (omega arith)
      (inr (inl (omega arith)))
