-- ===== src/ThreadPool.antt =====
-- The sharded job queues of chamlon_server/src/thread_pool.c: one queue for each worker, with a limit
-- on its size. A lock makes each operation on a queue one step. What a worker does with a job is not
-- part of this file, so the content of a job is the parameter A.
pub mod Order
pub mod Interleaving
mod Examples
use chamlon.Base.{
  ℕ, zero, suc, ◌+◌, ◌-◌, ◌%◌, Bool, true, false, List, [], ◌∷◌, ◌++◌, Option, none, some, length,
  get_elem?, set, replicate, leb, ◌==◌, if◌then◌else◌,
}

abbrev pub shard_cap : ℕ
shard_cap = 4096

module _ {ℓ} (A : Type ℓ) where
  pub record ShardQueue : Type ℓ where
    pub jobs : List A
    pub size : ℕ
    pub max_size : ℕ

  pub record ThreadPool : Type ℓ where
    pub shards : List ShardQueue
    pub num_threads : ℕ
    pub shutdown : Bool

module _ {ℓ} {A : Type ℓ} where
  abbrev pub empty_queue : ShardQueue A
  empty_queue = record { jobs = []; size = 0; max_size = shard_cap }

  unfoldable pub thread_pool_create : ℕ → ThreadPool A
  thread_pool_create threads =
      let n = if leb threads 0 then 4 else threads in
      record { shards = replicate n empty_queue; num_threads = n; shutdown = false }

  -- `false` is the result -1: the queue is full, and the job stays with the caller.
  unfoldable pub enqueue : A → ShardQueue A → Bool × ShardQueue A
  enqueue job q =
      if leb q.max_size q.size
      then (false, q)
      else (true, record q { jobs = q.jobs ++ job ∷ []; size = q.size + 1 })

  -- What a worker takes from its queue.
  unfoldable pub dequeue : ShardQueue A → Option A × ShardQueue A
  dequeue q = taken q.jobs
    where
      taken : List A → Option A × ShardQueue A
      taken [] = (none, q)
      taken (job ∷ rest) = (some job, record q { jobs = rest; size = q.size - 1 })

  -- An index outside the array is a fault, and `none`.
  unfoldable pub enqueue_to_shard : A → ℕ → ThreadPool A → Option (Bool × ThreadPool A)
  enqueue_to_shard job shard pool = at_queue (get_elem? pool.shards shard)
    where
      at_queue : Option (ShardQueue A) → Option (Bool × ThreadPool A)
      at_queue none = none
      at_queue (some q) =
          let (ok, q') = enqueue job q in
          some (ok, record pool { shards = set pool.shards shard q' })

  unfoldable pub thread_pool_submit_sharded : A → ℕ → ThreadPool A → Option (Bool × ThreadPool A)
  thread_pool_submit_sharded job shard_key pool =
      enqueue_to_shard job (shard_key % pool.num_threads) pool

  -- One turn of the loop of worker `shard`.
  unfoldable pub worker_take : ℕ → ThreadPool A → Option (Option A × ThreadPool A)
  worker_take shard pool = at_queue (get_elem? pool.shards shard)
    where
      at_queue : Option (ShardQueue A) → Option (Option A × ThreadPool A)
      at_queue none = none
      at_queue (some q) =
          let (job, q') = dequeue q in some (job, record pool { shards = set pool.shards shard q' })

  unfoldable pub thread_pool_pending_jobs : List (ShardQueue A) → ℕ
  thread_pool_pending_jobs [] = 0
  thread_pool_pending_jobs (q ∷ qs) = q.size + thread_pool_pending_jobs qs
