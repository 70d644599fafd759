-- ===== src/ThreadPool/Interleaving.antt =====
-- All that happens to the shards, from the creation of the pool on.
use chamlon.Base.{
  ℕ, zero, suc, ◌<◌, ◌≡◌, refl, false, List, [], ◌∷◌, Option, none, some, arith, get_elem?,
  replicate, leb, length-replicate,
}
use chamlon.ThreadPool.{ShardQueue, empty_queue, thread_pool_create}
use chamlon.ThreadPool.Order.{Event, History, step, IsOrdered, IsOwned, step-IsOrdered}

module _ {ℓ} {A : Type ℓ} where
  abbrev run : List (Event A) → History A → Option (History A)
  run [] h = some h
  run (e ∷ es) h = elim (step e h) [ none ↦ none | some h' ↦ run es h' ]

  abbrev pub AllOwned : ℕ → List (Event A) → Type 0
  AllOwned n [] = Unit
  AllOwned n (e ∷ es) = IsOwned n e × AllOwned n es

  abbrev pub at_start : ℕ → History A
  at_start n = record { pool = thread_pool_create n; accepted = λ k. []; given = λ k. [] }

  pub record Ran (n : ℕ) (es : List (Event A)) (h : History A) : Type ℓ where
    last : History A
    runs : run es h ≡ some last
    ordered : IsOrdered n last

  run-IsOrdered :
      (n : ℕ) (es : List (Event A)) (h : History A) → IsOrdered n h → AllOwned n es → Ran n es h
  run-IsOrdered n [] h o w = record { last = h; runs = refl; ordered = o }
  run-IsOrdered n (e ∷ es) h o (w, ws) =
      let s = step-IsOrdered n e h o w in
      let r = run-IsOrdered n es s.next s.ordered ws in
      record { last = r.last; runs = rw (s.steps, run) r.runs; ordered = r.ordered }

  get_elem?-replicate :
      (n k : ℕ) (x y : ShardQueue A) → get_elem? (replicate n x) k ≡ some y → y ≡ x
  get_elem?-replicate zero k x y g = cc
  get_elem?-replicate (suc n) zero x y g = cc
  get_elem?-replicate (suc n) (suc k) x y g = get_elem?-replicate n k x y g

  start-IsOrdered : (n : ℕ) → 0 < n → IsOrdered n (at_start n)
  unfolding thread_pool_create
  start-IsOrdered n pos =
      let some_threads : leb n 0 ≡ false = ground arith in
      record {
        threads = rw some_threads refl;
        some_thread = pos;
        slots = rw some_threads (length-replicate n empty_queue);
        facts = λ k q g.
            let g' : get_elem? (replicate n empty_queue) k ≡ some q =
              ground (arith, some_threads, g) in
            let eq = get_elem?-replicate n k empty_queue q g' in
            rw eq (record { order = refl; counted = refl; bounded = omega arith; capped = refl });
      }

  -- In a pool of n threads, n > 0, whatever jobs are submitted under whatever keys while the n workers
  -- take jobs in any order, no index leaves the array; and on each shard the jobs that were taken in
  -- are those given to its worker and then those that wait, in one order, with at most 4096 that wait.
  pub thread_pool-order :
      (n : ℕ) (es : List (Event A)) → 0 < n → AllOwned n es → Ran n es (at_start n)
  thread_pool-order n es pos w = run-IsOrdered n es (at_start n) (start-IsOrdered n pos) w
