-- ===== src/MainLoop/Burst.antt =====
-- The datagrams of a turn go to the queues of the workers in their order.
use chamlon.Base.{
  ℕ, suc, ◌+◌, ◌-◌, ◌%◌, ◌<◌, ◌≤◌, ◌≡◌, ◌≢◌, refl, sym, ap, ap₂, ◌∙◌, inl, inr, Bool, true, List,
  [], ◌∷◌, ◌++◌, append_assoc, append-nil, Option, none, some, arith, length, subst, take,
  get_elem?, set, ◌==◌, if◌then◌else◌, Bool-cases, Option-cases, ==_iff, get_elem?-lt,
  get_elem?-set_self, get_elem?-set_ne, length-set,
}
use chamlon.Datagram.{buffer_size}
use chamlon.Sessions.{Client}
use chamlon.ThreadPool.{
  ShardQueue, ThreadPool, enqueue, enqueue_to_shard, thread_pool_submit_sharded,
}
use chamlon.MainLoop.{Job, inbound, accept_datagram, submit, receive_datagram, receive_datagrams}

-- A pool of n workers with room for m more jobs in each queue.
pub record HasRoom (n m : ℕ) (pool : ThreadPool Job) : Type 0 where
  pub threads : pool.num_threads ≡ n
  pub some_thread : 0 < n
  pub slots : length pool.shards ≡ n
  pub room :
      (k : ℕ) (q : ShardQueue Job) → get_elem? pool.shards k ≡ some q → q.size + m ≤ q.max_size

-- The jobs of queue k, if there is such a queue.
abbrev pub content : Option (ShardQueue Job) → List Job
content none = []
content (some q) = q.jobs

abbrev pub jobs_at : ℕ → ThreadPool Job → List Job
jobs_at k pool = content (get_elem? pool.shards k)

abbrev pub added : ℕ → ℕ → Job → List Job
added k shard job = if k == shard then job ∷ [] else []

-- Queue `shard` takes the job.
abbrev taken : Job → ShardQueue Job → ShardQueue Job
taken job q = record q { jobs = q.jobs ++ job ∷ []; size = q.size + 1 }

module _ (n m shard : ℕ) (job : Job) (pool : ThreadPool Job) (q : ShardQueue Job)
    (h : HasRoom n (suc m) pool) (at : get_elem? pool.shards shard ≡ some q)
    (below : shard < length pool.shards) where
  abbrev filled : ThreadPool Job
  filled = record pool { shards = set pool.shards shard (taken job q) }

  at_shard : get_elem? filled.shards shard ≡ some (taken job q)
  at_shard = get_elem?-set_self pool.shards shard (taken job q) below

  at_other : (k : ℕ) → k ≢ shard → get_elem? filled.shards k ≡ get_elem? pool.shards k
  at_other k ne = get_elem?-set_ne pool.shards (taken job q) (λ e. ne (sym e))

  filled-HasRoom : HasRoom n m filled
  filled-HasRoom = record {
    threads = h.threads;
    some_thread = h.some_thread;
    slots = length-set pool.shards shard (taken job q) ∙ h.slots;
    room = λ k r e. elim (Bool-cases (k == shard)) [
      | inl y ↦
          let same : k ≡ shard = (==_iff k shard).0 y in
          let e' : some (taken job q) ≡ some r =
            sym at_shard ∙ subst (λ j. get_elem? filled.shards j ≡ some r) same e in
          let r' : taken job q ≡ r = cc in
          ground (arith, h.room shard q at, ap (λ x. x.size) r', ap (λ x. x.max_size) r')
      | inr no' ↦
          let ne : k ≢ shard = λ y. let t = (==_iff k shard).1 y in cc in
          ground (arith, h.room k r (sym (at_other k ne) ∙ e))
    ];
  }

  filled-jobs_at : (k : ℕ) → jobs_at k filled ≡ jobs_at k pool ++ added k shard job
  filled-jobs_at k = elim (Bool-cases (k == shard)) [
    | inl y ↦
        let same : k ≡ shard = (==_iff k shard).0 y in
        let new : jobs_at k filled ≡ q.jobs ++ job ∷ [] =
          ap (λ j. jobs_at j filled) same ∙ ap content at_shard in
        let old : jobs_at k pool ≡ q.jobs = ap (λ j. jobs_at j pool) same ∙ ap content at in
        new ∙ ap₂ ◌++◌ (sym old) (sym (rw y refl))
    | inr no' ↦
        let ne : k ≢ shard = λ e. let t = (==_iff k shard).1 e in cc in
        ap content (at_other k ne) ∙ sym (rw no' (append-nil (jobs_at k pool)))
  ]

submit-jobs_at :
    (n m key : ℕ) (job : Job) (pool : ThreadPool Job)
    → HasRoom n (suc m) pool
    → (pool' : ThreadPool Job) × (submit job key pool ≡ some pool')
      × HasRoom n m pool'
      × ((k : ℕ) → jobs_at k pool' ≡ jobs_at k pool ++ added k (key % n) job)
unfolding submit thread_pool_submit_sharded enqueue_to_shard enqueue
submit-jobs_at n m key job pool h =
    let shard = key % pool.num_threads in
    let below : shard < length pool.shards = grind (arith, h.threads, h.some_thread, h.slots) in
    let (q, at) = get_elem?-lt pool.shards shard below in
    let space = h.room shard q at in
    let put : enqueue job q ≡ (true, taken job q) = ground arith in
    (
      filled n m shard job pool q h at below,
      rw (submit, thread_pool_submit_sharded, enqueue_to_shard, at, put) refl,
      filled-HasRoom n m shard job pool q h at below,
      λ k.
          filled-jobs_at n m shard job pool q h at below k
          ∙ ap (λ w. jobs_at k pool ++ added k (key % w) job) h.threads,
    )

-- What a datagram adds to queue k of n, by the key that it has.
abbrev pub job_for : ℕ → ℕ → Job → Option ℕ → List Job
job_for n k job none = []
job_for n k job (some key) = added k (key % n) job

-- The jobs that the datagrams make for queue k of n, in their order, up to one of no bytes.
abbrev pub jobs_for : ℕ → ℕ → List (List ℕ × Client) → List Job
jobs_for n k [] = []
jobs_for n k (([], src) ∷ rest) = []
jobs_for n k ((b ∷ buf, src) ∷ rest) =
    let cut = take (buffer_size - 1) (b ∷ buf) in
    job_for n k (inbound cut src) (accept_datagram cut) ++ jobs_for n k rest

-- Room for more is room for fewer.
HasRoom-suc : (n m : ℕ) (pool : ThreadPool Job) → HasRoom n (suc m) pool → HasRoom n m pool
HasRoom-suc n m pool h = record {
  threads = h.threads;
  some_thread = h.some_thread;
  slots = h.slots;
  room = λ k q e. let r = h.room k q e in omega arith;
}

-- The datagrams of a turn, when there is memory and each queue has room for them, become jobs in their
-- order: each queue gets behind its jobs those whose headers are not refused and whose key chooses it. A datagram
-- of no bytes ends the turn's burst.
pub receive_datagrams-jobs_at :
    (memory : ℕ → Bool) (i n : ℕ) (bufs : List (List ℕ × Client)) (pool : ThreadPool Job)
    → ((k : ℕ) → memory k ≡ true)
    → HasRoom n (length bufs) pool
    → (pool' : ThreadPool Job) × (receive_datagrams memory i bufs pool ≡ some pool')
      × ((k : ℕ) → jobs_at k pool' ≡ jobs_at k pool ++ jobs_for n k bufs)
unfolding receive_datagrams receive_datagram
receive_datagrams-jobs_at memory i n [] pool room h =
    (pool, refl, λ k. sym (append-nil (jobs_at k pool)))
receive_datagrams-jobs_at memory i n (([], src) ∷ rest) pool room h =
    (pool, refl, λ k. sym (append-nil (jobs_at k pool)))
receive_datagrams-jobs_at memory i n ((b ∷ buf, src) ∷ rest) pool room h =
    let cut = take (buffer_size - 1) (b ∷ buf) in
    elim (Option-cases (accept_datagram cut)) [
      | inl e ↦
          let (pool', run, jobs) =
            receive_datagrams-jobs_at memory (i + 1) n rest pool room
              (HasRoom-suc n (length rest) pool h) in
          (
            pool',
            rw (receive_datagrams, receive_datagram, e) run,
            λ k.
                jobs k
                ∙ ap (λ o. jobs_at k pool ++ (job_for n k (inbound cut src) o ++ jobs_for n k rest))
                    (sym e),
          )
      | inr (key, e) ↦
          let (pool1, put, space, one) =
            submit-jobs_at n (length rest) key (inbound cut src) pool h in
          let (pool', run, jobs) =
            receive_datagrams-jobs_at memory (i + 1) n rest pool1 room space in
          (
            pool',
            rw (receive_datagrams, receive_datagram, e, room i, put) run,
            λ k.
                jobs k
                ∙ ap (λ l. l ++ jobs_for n k rest) (one k)
                ∙ append_assoc (jobs_at k pool) (added k (key % n) (inbound cut src))
                    (jobs_for n k rest)
                ∙ ap (λ o. jobs_at k pool ++ (job_for n k (inbound cut src) o ++ jobs_for n k rest))
                    (sym e),
          )
    ]
