-- ===== src/ThreadPool/Examples.antt =====
-- An example of the sharded queues.
use chamlon.Base.{ℕ, List, [], ◌∷◌, arith}
use chamlon.ThreadPool.Order.{Event, submit, take_from}
use chamlon.ThreadPool.Interleaving.{Ran, AllOwned, at_start, thread_pool-order}

-- Two sessions on two shards, and two workers.
abbrev traffic : List (Event ℕ)
traffic =
    submit 10 4
    ∷ submit 11 7
    ∷ take_from 0
    ∷ submit 12 4
    ∷ take_from 1
    ∷ take_from 1
    ∷ submit 13 6
    ∷ []

traffic-AllOwned : AllOwned 2 traffic
traffic-AllOwned = ground arith

thread_pool-order_example : Ran 2 traffic (at_start 2)
thread_pool-order_example = thread_pool-order 2 traffic (ground arith) traffic-AllOwned
