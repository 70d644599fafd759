-- ===== src/Scheduler.antt =====
-- The send scheduler of chamlon_server/src/scheduler.c: a binary min-heap of tasks, ordered by the
-- time of their next run, in the array `nodes`. The array is a function from an index to what the
-- cell holds, with `size` the number of cells in use; `realloc` may fail, and whether it does is an
-- argument of `pq_push`. The loops run on fuel; a run that has as much as is left of the array ends
-- by the loop's own test.
use chamlon.Base.{
  ℕ, zero, suc, ◌+◌, ◌*◌, ◌-◌, ◌/◌, Bool, true, false, List, Option, none, some, ltb, leb, ◌==◌,
  ◌&&◌, not, if◌then◌else◌,
}
pub mod Time
pub mod Heap
pub mod Sink
pub mod Contents
pub mod Queue
mod Examples

pub record Timespec : Type 0 where
  pub tv_sec : ℕ
  pub tv_nsec : ℕ

pub record SchedulerTask : Type 0 where
  pub next_run : Timespec
  pub session_id : List ℕ

pub record PriorityQueue : Type 0 where
  pub nodes : ℕ → SchedulerTask
  pub size : ℕ
  pub capacity : ℕ

-- The three results of a comparison: -1, 0 and 1.
pub data Comparison : Type 0 where
  earlier : Comparison
  same : Comparison
  later : Comparison

unfoldable pub timespec_compare : Timespec → Timespec → Comparison
timespec_compare a b =
    if a.tv_sec == b.tv_sec
    then (if a.tv_nsec == b.tv_nsec
        then same
        else (if ltb b.tv_nsec a.tv_nsec then later else earlier))
    else (if ltb b.tv_sec a.tv_sec then later else earlier)

abbrev pub is_earlier : Comparison → Bool
is_earlier earlier = true
is_earlier same = false
is_earlier later = false

abbrev pub is_later : Comparison → Bool
is_later earlier = false
is_later same = false
is_later later = true

-- `compare(a, b) < 0` and `compare(a, b) <= 0` on two tasks.
abbrev pub runs_before : SchedulerTask → SchedulerTask → Bool
runs_before a b = is_earlier (timespec_compare a.next_run b.next_run)

abbrev pub runs_by : SchedulerTask → SchedulerTask → Bool
runs_by a b = not (is_later (timespec_compare a.next_run b.next_run))

-- `nodes[i] = t`.
abbrev pub put : ℕ → SchedulerTask → (ℕ → SchedulerTask) → ℕ → SchedulerTask
put i t nodes j = if j == i then t else nodes j

abbrev pub parent : ℕ → ℕ
parent i = (i - 1) / 2

-- The loop of `pq_push`, from the free cell i up, and the write that ends it.
unfoldable pub sift_up : ℕ → ℕ → SchedulerTask → (ℕ → SchedulerTask) → ℕ → SchedulerTask
sift_up zero i task nodes = put i task nodes
sift_up (suc fuel) i task nodes =
    let p = parent i in
    let rest = sift_up fuel p task (put i (nodes p) nodes) in
    if i == 0
    then put i task nodes
    else (if not (runs_before task (nodes p)) then put i task nodes else rest)

-- The child of cell i that runs first.
unfoldable pub first_child : ℕ → ℕ → (ℕ → SchedulerTask) → ℕ
first_child size i nodes =
    let child = i * 2 + 1 in
    if ltb (child + 1) size && runs_before (nodes (child + 1)) (nodes child)
    then child + 1
    else child

-- The loop of `pq_pop`, from the free cell i down, and the write that ends it.
unfoldable pub sift_down : ℕ → ℕ → ℕ → SchedulerTask → (ℕ → SchedulerTask) → ℕ → SchedulerTask
sift_down zero size i last nodes = put i last nodes
sift_down (suc fuel) size i last nodes =
    let child = first_child size i nodes in
    let rest = sift_down fuel size child last (put i (nodes child) nodes) in
    if ltb (i * 2 + 1) size
    then (if runs_by last (nodes child) then put i last nodes else rest)
    else put i last nodes

unfoldable pub pq_is_empty : PriorityQueue → Bool
pq_is_empty pq = pq.size == 0

unfoldable pub pq_peek : PriorityQueue → Option SchedulerTask
pq_peek pq = if pq_is_empty pq then none else some (pq.nodes 0)

-- `grown` says whether the `realloc` of a full queue succeeds.
unfoldable pub pq_push : Bool → PriorityQueue → SchedulerTask → PriorityQueue
pq_push grown pq task =
    let nodes' = sift_up pq.size pq.size task pq.nodes in
    if pq.size == pq.capacity
    then (if grown
        then record { nodes = nodes'; size = pq.size + 1; capacity = pq.capacity * 2 }
        else pq)
    else record { nodes = nodes'; size = pq.size + 1; capacity = pq.capacity }

unfoldable pub pq_pop : PriorityQueue → Option SchedulerTask × PriorityQueue
pq_pop pq =
    let n = pq.size - 1 in
    let nodes' = sift_down n n 0 (pq.nodes n) pq.nodes in
    if pq.size == 0
    then (none, pq)
    else (some (pq.nodes 0), record { nodes = nodes'; size = n; capacity = pq.capacity })

-- The `while` that carries whole seconds out of `tv_nsec`.
unfoldable pub carry_seconds : ℕ → Timespec → Timespec
carry_seconds zero ts = ts
carry_seconds (suc fuel) ts =
    let rest =
      carry_seconds fuel (record { tv_sec = ts.tv_sec + 1; tv_nsec = ts.tv_nsec - 1000000000 }) in
    if leb 1000000000 ts.tv_nsec then rest else ts

-- `add_mbps_interval_to_timespec`, from the interval in nanoseconds, which the source computes in
-- floating point.
unfoldable pub add_interval_to_timespec : ℕ → Timespec → Timespec
add_interval_to_timespec ns ts =
    let later_ts : Timespec = record { tv_sec = ts.tv_sec; tv_nsec = ts.tv_nsec + ns } in
    carry_seconds (ts.tv_nsec + ns) later_ts
