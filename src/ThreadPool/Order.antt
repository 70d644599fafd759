-- ===== src/ThreadPool/Order.antt =====
-- The order of jobs on a shard, over any interleaving of submissions and workers.
use chamlon.Base.{
  ℕ, ◌%◌, ◌≤◌, ◌<◌, ◌≡◌, ◌≢◌, refl, sym, ◌∙◌, ◌⊎◌, inl, inr, Bool, List, [], ◌∷◌, ◌++◌,
  append_assoc, Option, none, some, arith, length, get_elem?, set, leb, ◌==◌, if◌then◌else◌,
  Bool-cases, ==_iff, get_elem?-lt, get_elem?-set_self, get_elem?-set_ne, length-set, length-append,
}
use chamlon.ThreadPool.{
  ShardQueue, ThreadPool, shard_cap, enqueue, dequeue, enqueue_to_shard, thread_pool_submit_sharded,
  worker_take,
}

pub data Event {ℓ} (A : Type ℓ) : Type ℓ where
  submit : A → ℕ → Event A
  take_from : ℕ → Event A

module _ {ℓ} (A : Type ℓ) where
  -- The pool, and the jobs that each shard has taken in and given out, oldest first.
  pub record History : Type ℓ where
    pub pool : ThreadPool A
    pub accepted : ℕ → List A
    pub given : ℕ → List A

module _ {ℓ} {A : Type ℓ} where
  abbrev append_at : ℕ → Option A → (ℕ → List A) → ℕ → List A
  append_at k none f j = f j
  append_at k (some a) f j = if j == k then f j ++ a ∷ [] else f j

  abbrev pub step : Event A → History A → Option (History A)
  step (submit job key) h = submitted (thread_pool_submit_sharded job key h.pool)
    where
      submitted : Option (Bool × ThreadPool A) → Option (History A)
      submitted none = none
      submitted (some (ok, pool')) =
          let shard = key % h.pool.num_threads in
          some (record {
            pool = pool';
            accepted = append_at shard (if ok then some job else none) h.accepted;
            given = h.given;
          })
  step (take_from shard) h = took (worker_take shard h.pool)
    where
      took : Option (Option A × ThreadPool A) → Option (History A)
      took none = none
      took (some (job, pool')) =
          some (record { pool = pool'; accepted = h.accepted; given = append_at shard job h.given })

  append_at_ne : (k j : ℕ) (o : Option A) (f : ℕ → List A) → j ≢ k → append_at k o f j ≡ f j
  append_at_ne k j none f ne = refl
  append_at_ne k j (some a) f ne = ground arith

  List-cases : (l : List A) → (l ≡ []) ⊎ ((x : A) × (xs : List A) × (l ≡ x ∷ xs))
  List-cases [] = inl refl
  List-cases (x ∷ xs) = inr (x, xs, refl)

  pub record QueueFacts (q : ShardQueue A) (accepted given : List A) : Type ℓ where
    pub order : accepted ≡ given ++ q.jobs
    pub counted : q.size ≡ length q.jobs
    pub bounded : q.size ≤ shard_cap
    pub capped : q.max_size ≡ shard_cap

  pub record IsOrdered (n : ℕ) (h : History A) : Type ℓ where
    pub threads : h.pool.num_threads ≡ n
    pub some_thread : 0 < n
    pub slots : length h.pool.shards ≡ n
    pub facts :
        (k : ℕ) (q : ShardQueue A)
        → get_elem? h.pool.shards k ≡ some q
        → QueueFacts q (h.accepted k) (h.given k)

  enqueue-QueueFacts :
      (job : A) (q : ShardQueue A) (given : List A) (k : ℕ) (f : ℕ → List A)
      → QueueFacts q (f k) given
      → let (ok, q') = enqueue job q in
        QueueFacts q' (append_at k (if ok then some job else none) f k) given
  unfolding enqueue
  enqueue-QueueFacts job q given k f facts = elim (Bool-cases (leb q.max_size q.size)) [
    | inl e ↦ rw e facts
    | inr e ↦ rw e (record {
      order = ground (arith, facts.order, append_assoc given q.jobs (job ∷ []));
      counted = ground (arith, facts.counted, length-append q.jobs (job ∷ []));
      bounded = ground (arith, facts.capped, facts.bounded);
      capped = facts.capped;
    })
  ]

  dequeue-QueueFacts :
      (q : ShardQueue A) (accepted given : List A) (k : ℕ) (f : ℕ → List A)
      → f k ≡ given
      → QueueFacts q accepted given
      → let (job, q') = dequeue q in QueueFacts q' accepted (append_at k job f k)
  unfolding dequeue
  dequeue-QueueFacts q accepted given k f e facts = elim (List-cases q.jobs) [
    | inl n ↦ record {
      order = ground (arith, n, e, facts.order);
      counted = ground (arith, n, facts.counted);
      bounded = ground (arith, n, facts.bounded);
      capped = ground (arith, n, facts.capped);
    }
    | inr (job, rest, c) ↦ record {
      order = ground (arith, c, e, facts.order, append_assoc given (job ∷ []) rest);
      counted = ground (arith, c, facts.counted);
      bounded = ground (arith, c, facts.bounded);
      capped = ground (arith, c, facts.capped);
    }
  ]

  abbrev pub IsOwned : ℕ → Event A → Type 0
  IsOwned n (submit job key) = Unit
  IsOwned n (take_from shard) = shard < n

  pub record Stepped (n : ℕ) (e : Event A) (h : History A) : Type ℓ where
    pub next : History A
    pub steps : step e h ≡ some next
    pub ordered : IsOrdered n next

  -- Writing queue k leaves the facts of the others.
  at_slot :
      (n k : ℕ) (h : History A) (q' : ShardQueue A) (accepted given : ℕ → List A)
      → IsOrdered n h
      → k < n
      → QueueFacts q' (accepted k) (given k)
      → ((j : ℕ) → j ≢ k → accepted j ≡ h.accepted j)
      → ((j : ℕ) → j ≢ k → given j ≡ h.given j)
      → IsOrdered n (record {
        pool = record h.pool { shards = set h.pool.shards k q' };
        accepted = accepted;
        given = given;
      })
  at_slot n k h q' accepted given o lt f ea eg = record {
    threads = o.threads;
    some_thread = o.some_thread;
    slots = length-set h.pool.shards k q' ∙ o.slots;
    facts = λ j q g. elim (Bool-cases (j == k)) [
      | inl e ↦
          let same : j ≡ k = (==_iff j k).0 e in
          let found = get_elem?-set_self h.pool.shards k q' (omega (arith, o.slots, lt)) in
          let eq : q ≡ q' = ground (arith, same, found, g) in rw same (rw eq f)
      | inr e ↦
          let ne : j ≢ k = ground arith in
          let kept = get_elem?-set_ne h.pool.shards q' (λ e. ne (sym e)) in
          let old = o.facts j q (ground (arith, kept, g)) in rw (ea j ne) (rw (eg j ne) old)
    ];
  }

  pub step-IsOrdered :
      (n : ℕ) (e : Event A) (h : History A) → IsOrdered n h → IsOwned n e → Stepped n e h
  unfolding thread_pool_submit_sharded enqueue_to_shard worker_take
  step-IsOrdered n (submit job key) h o w =
      let k = key % h.pool.num_threads in
      let lt : k < n = omega (arith, o.threads, o.some_thread) in
      let (q, there) = get_elem?-lt h.pool.shards k (omega (arith, o.slots, lt)) in
      let (ok, q') = enqueue job q in
      let facts = enqueue-QueueFacts job q (h.given k) k h.accepted (o.facts k q there) in
      let accepted = append_at k (if ok then some job else none) h.accepted in
      record {
        next = record {
          pool = record h.pool { shards = set h.pool.shards k q' };
          accepted = accepted;
          given = h.given;
        };
        steps = rw there refl;
        ordered =
            at_slot n k h q' accepted h.given o lt facts
              (λ j ne. append_at_ne k j (if ok then some job else none) h.accepted ne)
              (λ j ne. refl);
      }
  step-IsOrdered n (take_from shard) h o w =
      let (q, there) = get_elem?-lt h.pool.shards shard (omega (arith, o.slots, w)) in
      let (job, q') = dequeue q in
      let given = append_at shard job h.given in
      let facts =
        dequeue-QueueFacts q (h.accepted shard) (h.given shard) shard h.given refl
          (o.facts shard q there) in
      record {
        next = record {
          pool = record h.pool { shards = set h.pool.shards shard q' };
          accepted = h.accepted;
          given = given;
        };
        steps = rw there refl;
        ordered =
            at_slot n shard h q' h.accepted given o w facts (λ j ne. refl)
              (λ j ne. append_at_ne shard j job h.given ne);
      }
