-- ===== src/SendWorker.antt =====
-- The workers that send at the times of the scheduler: `scheduler_worker_fn`, `scheduler_add_session` and
-- the interval of `add_mbps_interval_to_timespec` in chamlon_server/src/scheduler.c, for one shard. The
-- arithmetic on `double` is a parameter: `interval_ns` and `skip_ns` say which operations the source
-- does, in its order. The times and the outcome of `realloc` are arguments. A turn begins when the worker
-- wakes up, and no other thread comes in between its two locks.
pub mod Tasks
pub mod Cadence
mod Examples
use chamlon.Base.{
  ℕ, ◌+◌, ◌-◌, ◌*◌, ◌/◌, ◌%◌, Bool, List, [], Option, none, some, get_elem?, get_or, take, ltb,
  ◌==◌, if◌then◌else◌,
}
use chamlon.Scheduler.{
  Timespec, SchedulerTask, PriorityQueue, timespec_compare, is_earlier, pq_peek, pq_pop, pq_push,
  carry_seconds, add_interval_to_timespec,
}
use chamlon.Scheduler.Time.{nanos}
use chamlon.Wire.{session_id_len}
use chamlon.Crypto.{Sodium}
use chamlon.Sessions.{Session, letter_y, session_by_id}
use chamlon.Maintenance.{keepalive_interval_sec}
use chamlon.Pacing.{execute_send}

abbrev pub num_shards : ℕ
num_shards = 4

-- The arithmetic on `double` of the platform. `literal m e` is the constant m / 10 ^ e, `trunc` is the
-- conversion to an integer, and nothing is assumed of any of them.
pub record Float : Type 1 where
  pub Double : Type 0
  pub literal : ℕ → ℕ → Double
  pub of_int : ℕ → Double
  pub add : Double → Double → Double
  pub mul : Double → Double → Double
  pub div : Double → Double → Double
  pub lt : Double → Double → Bool
  pub trunc : Double → ℕ

abbrev pub int : (k : Float) → ℕ → k.Double
int k n = k.literal n 0

-- The headers around the payload.
abbrev wire_len : (k : Float) → k.Double → k.Double
wire_len k payload = k.add (k.add (k.add payload (int k 14)) (int k 20)) (int k 8)

abbrev seconds : (k : Float) → ℕ → k.Double → k.Double
seconds k mbps len = k.div (k.mul len (int k 8)) (k.mul (k.of_int mbps) (int k 1000000))

-- `ns` of `add_mbps_interval_to_timespec`. The payload is added up as an integer.
unfoldable pub interval_ns : Float → ℕ → ℕ → ℕ
interval_ns k mbps frag =
    let sec = seconds k mbps (wire_len k (k.of_int (frag + 16 + 16 + 8))) in
    k.trunc (k.mul (if k.lt sec (k.literal 1 5) then k.literal 1 5 else sec) (int k 1000000000))

-- `skip_ns` of the worker for a task that is `behind` nanoseconds late, 0 where no interval is skipped.
unfoldable pub skip_ns : Float → ℕ → ℕ → ℕ → ℕ
skip_ns k mbps frag behind =
    let payload = k.add (k.add (k.add (k.of_int frag) (int k 16)) (int k 16)) (int k 8) in
    let ns = k.mul (seconds k mbps (wire_len k payload)) (int k 1000000000) in
    let interval = if k.lt ns (int k 10000) then int k 10000 else ns in
    let skipped = k.trunc (k.div (k.of_int behind) interval) in
    if ltb 0 skipped then k.trunc (k.mul (k.of_int skipped) interval) else 0

-- The two remainders are added, and the loop carries the seconds.
unfoldable pub add_skip : ℕ → Timespec → Timespec
add_skip ns ts =
    let nsec = ts.tv_nsec + ns % 1000000000 in
    carry_seconds nsec (record { tv_sec = ts.tv_sec + ns / 1000000000; tv_nsec = nsec })

-- The next time of a task of constant bit rate. A skip of no interval adds nothing.
unfoldable pub keep_cadence : Float → ℕ → ℕ → Timespec → Timespec → Timespec
keep_cadence k mbps frag now ts =
    let due = add_interval_to_timespec (interval_ns k mbps frag) ts in
    if ltb (nanos due) (nanos now)
    then add_skip (skip_ns k mbps frag (nanos now - nanos due)) due
    else due

unfoldable pub rearm : Float → Timespec → Session → SchedulerTask → SchedulerTask
rearm k now s task =
    if s.argv_cbr == letter_y
    then record task { next_run = keep_cadence k s.argv_mbps s.argv_frag now task.next_run }
    else record task {
      next_run = record { tv_sec = now.tv_sec + keepalive_interval_sec; tv_nsec = now.tv_nsec };
    }

-- The task that is due, if there is one.
unfoldable pub take_due : Timespec → PriorityQueue → Option SchedulerTask × PriorityQueue
take_due now pq = elim (pq_peek pq) [
  | none ↦ (none, pq)
  | some task ↦ if is_earlier (timespec_compare now task.next_run) then (none, pq) else pq_pop pq
]

abbrev pub live : List ℕ → List Session → Option Session
live id t = elim (session_by_id id t) [ none ↦ none | some i ↦ get_elem? t i ]

-- The task goes back to the queue while its session lives.
unfoldable pub put_back :
    Float → Timespec → Bool → SchedulerTask → PriorityQueue → Option Session → PriorityQueue
put_back k now grown task pq none = pq
put_back k now grown task pq (some s) = pq_push grown pq (rearm k now s task)

-- From the end of the first lock on, at the time `time` of the wall, and `after` once the packets are sent:
-- what is sent, the queue and the table. `none` is the fault of `execute_send`.
unfoldable pub serve :
    Sodium
    → Float
    → List ℕ
    → ℕ
    → Timespec
    → Bool
    → List Session
    → Option SchedulerTask × PriorityQueue
    → Option (List (List ℕ) × (PriorityQueue × List Session))
serve c k stale time after grown t (none, pq) = some ([], (pq, t))
serve c k stale time after grown t (some task, pq) =
    elim (execute_send c stale time task.session_id t) [
      | none ↦ none
      | some (pkts, t') ↦
          some (pkts, (put_back k after grown task pq (live task.session_id t'), t'))
    ]

-- One turn, at the time `now` of the clock of the tasks.
unfoldable pub worker_turn :
    Sodium
    → Float
    → List ℕ
    → ℕ
    → Timespec
    → Timespec
    → Bool
    → PriorityQueue
    → List Session
    → Option (List (List ℕ) × (PriorityQueue × List Session))
worker_turn c k stale time now after grown pq t =
    serve c k stale time after grown t (take_due now pq)

-- A new session is due at once, in the shard of the first byte of its identifier.
unfoldable pub scheduler_add_session :
    Bool → Bool → Timespec → List ℕ → (ℕ → PriorityQueue) → ℕ → PriorityQueue
scheduler_add_session allocated grown now id shards j =
    let task : SchedulerTask = record { next_run = now; session_id = take session_id_len id } in
    let shard = get_or id 0 0 % num_shards in
    if allocated then (if j == shard then pq_push grown (shards j) task else shards j) else shards j
