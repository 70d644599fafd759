-- ===== src/Scheduler/Queue.antt =====
-- What the queue as a whole promises: a priority queue of tasks.
use chamlon.Base.{
  ℕ, zero, suc, ◌+◌, ◌-◌, ◌≤◌, ◌<◌, ◌≡◌, refl, sym, ap, ap₂, ◌∙◌, Bool, ◌⊎◌, ◌&&◌, true, false,
  arith, inl, inr, ◌==◌, Bool-cases, if◌then◌else◌, not, none, some,
}
use chamlon.Scheduler.{
  SchedulerTask, PriorityQueue, runs_by, parent, sift_up, sift_down, pq_push, pq_pop,
}
use chamlon.Scheduler.Time.{runs_by_trans, runs_by_refl}
use chamlon.Scheduler.Heap.{IsHeap, sift_up-IsHeap, IsUpper-start}
use chamlon.Scheduler.Sink.{sift_down-IsHeap, IsLower-start}
use chamlon.Scheduler.Contents.{one_if, count, count-put, count-sift_up, count-sift_down}

-- The number of tasks in the queue that a test accepts.
abbrev pub tasks : (SchedulerTask → Bool) → PriorityQueue → ℕ
tasks q pq = count q pq.nodes pq.size

-- A heap that fits its array.
pub record IsQueue (pq : PriorityQueue) : Type 0 where
  pub heap : IsHeap pq.size pq.nodes
  pub fits : pq.size ≤ pq.capacity
  pub room : 0 < pq.capacity

root_first :
    (n : ℕ) (f : ℕ → SchedulerTask) (fuel j : ℕ)
    → IsHeap n f
    → j ≤ fuel
    → j < n
    → runs_by (f 0) (f j) ≡ true
root_first n f zero j h le lt = ground (arith, runs_by_refl (f 0))
root_first n f (suc fuel) j h le lt = elim (Bool-cases (j == 0)) [
  | inl e ↦ ground (arith, runs_by_refl (f 0))
  | inr e ↦
      let up = root_first n f fuel (parent j) h (ground arith) (ground arith) in
      runs_by_trans (f 0) (f (parent j)) (f j) up (h j lt (ground arith))
]

pushed-IsQueue :
    (grown : Bool) (pq : PriorityQueue) (t : SchedulerTask)
    → IsQueue pq
    → IsHeap (pq.size + 1) (sift_up pq.size pq.size t pq.nodes)
    → ((pq.size == pq.capacity) && not grown) ≡ false
    → IsQueue (pq_push grown pq t)
unfolding pq_push
pushed-IsQueue grown pq t v heap e = elim (Bool-cases (pq.size == pq.capacity)) [
  | inl f ↦
      let g : grown ≡ true = ground arith in
      rw f
        (rw g (record { heap = heap; fits = ground (arith, v.room); room = omega (arith, v.room) }))
  | inr f ↦ rw f (record { heap = heap; fits = ground (arith, v.fits); room = v.room })
]

pushed_contents :
    (grown : Bool) (pq : PriorityQueue) (t : SchedulerTask) (q : SchedulerTask → Bool)
    → ((pq.size == pq.capacity) && not grown) ≡ false
    → tasks q (pq_push grown pq t) ≡ tasks q pq + one_if (q t)
unfolding pq_push
pushed_contents grown pq t q e = ground (
  arith,
  count-sift_up q pq.size pq.size t pq.nodes (pq.size + 1),
  count-put q pq.size t pq.nodes (pq.size + 1),
)

-- A push keeps the heap, and adds the task to the contents; only a full queue whose `realloc` fails
-- stays as it was.
pub pq_push_lem :
    (grown : Bool) (pq : PriorityQueue) (t : SchedulerTask)
    → IsQueue pq
    → IsQueue (pq_push grown pq t)
      × ((q : SchedulerTask → Bool)
          → tasks q (pq_push grown pq t) ≡ (
              if (pq.size == pq.capacity) && not grown
              then tasks q pq
              else tasks q pq + one_if (q t)))
unfolding pq_push
pq_push_lem grown pq t v = elim (Bool-cases ((pq.size == pq.capacity) && not grown)) [
  | inl e ↦ ground (arith, e, v)
  | inr e ↦
      let nodes' = sift_up pq.size pq.size t pq.nodes in
      let heap =
        sift_up-IsHeap pq.size (pq.size + 1) pq.size t pq.nodes (omega arith) (omega arith)
          (IsUpper-start pq.size t pq.nodes v.heap) in
      (pushed-IsQueue grown pq t v heap (ground arith), λ q. rw e (pushed_contents grown pq t q e))
]

popped_contents :
    (q : SchedulerTask → Bool) (f : ℕ → SchedulerTask) (n : ℕ)
    → count q f (n + 1) ≡ count q (sift_down n n 0 (f n) f) n + one_if (q (f 0))
popped_contents q f zero = ground arith
popped_contents q f (suc n) =
    ground (
      arith,
      count-sift_down q (suc n) (suc n) 0 (f (suc n)) f,
      count-put q 0 (f (suc n)) f (suc n),
    )

count_none :
    (q : SchedulerTask → Bool) (f : ℕ → SchedulerTask) (n : ℕ)
    → ((j : ℕ) → j < n → q (f j) ≡ false)
    → count q f n ≡ 0
count_none q f zero h = refl
count_none q f (suc n) h =
    ground (arith, h n (omega arith), count_none q f n (λ j lt. h j (omega arith)))

count_none_at :
    (q : SchedulerTask → Bool) (f : ℕ → SchedulerTask) (n j : ℕ)
    → count q f n ≡ 0
    → j < n
    → q (f j) ≡ false
count_none_at q f zero j h lt = absurd (omega arith)
count_none_at q f (suc n) j h lt = elim (Bool-cases (j == n)) [
  | inl e ↦ ground arith
  | inr e ↦ count_none_at q f n j (ground arith) (ground arith)
]

-- What a pop of a queue that is not empty gives.
pub record PopsFirst (pq : PriorityQueue) : Type 0 where
  pub task : SchedulerTask
  pub rest : PriorityQueue
  pub popped : pq_pop pq ≡ (some task, rest)
  pub queue : IsQueue rest
  pub first : (j : ℕ) → j < pq.size → runs_by task (pq.nodes j) ≡ true
  pub contents : (q : SchedulerTask → Bool) → tasks q pq ≡ tasks q rest + one_if (q task)

-- A pop of an empty queue gives nothing and changes nothing. Any other pop gives a task that runs by
-- the time of every task of the queue, keeps the heap, and takes just that task out of the contents.
pub pq_pop_lem :
    (pq : PriorityQueue) → IsQueue pq → ((pq.size ≡ 0) × (pq_pop pq ≡ (none, pq))) ⊎ PopsFirst pq
unfolding pq_pop
pq_pop_lem pq v = elim (Bool-cases (pq.size == 0)) [
  | inl e ↦ inl (ground arith)
  | inr e ↦
      let n = pq.size - 1 in
      let size_suc : pq.size ≡ n + 1 = ground arith in
      let l = pq.nodes n in
      let heap_suc : IsHeap (n + 1) pq.nodes = λ j lt pos. v.heap j (omega (arith, lt)) pos in
      let heap =
        sift_down-IsHeap n n 0 l pq.nodes (omega arith) (IsLower-start n l pq.nodes heap_suc) in
      inr (record {
        task = pq.nodes 0;
        rest = record { nodes = sift_down n n 0 l pq.nodes; size = n; capacity = pq.capacity };
        popped = rw e refl;
        queue = record { heap = heap; fits = omega (arith, v.fits); room = v.room };
        first = λ j lt. root_first pq.size pq.nodes j j v.heap (omega arith) lt;
        contents = λ q. ground (arith, size_suc, popped_contents q pq.nodes n);
      })
]

popped_root :
    (pq rest : PriorityQueue) (t : SchedulerTask)
    → pq_pop pq ≡ (some t, rest)
    → (0 < pq.size) × (pq.nodes 0 ≡ t)
unfolding pq_pop
popped_root pq rest t h = elim (Bool-cases (pq.size == 0)) [
  | inl e ↦ absurd (ground arith)
  | inr e ↦ ground arith
]

-- A pop gives a task that runs by the time of the task that the next pop gives.
pub pq_pop_ordered :
    (pq rest last : PriorityQueue) (first second : SchedulerTask)
    → IsQueue pq
    → pq_pop pq ≡ (some first, rest)
    → pq_pop rest ≡ (some second, last)
    → runs_by first second ≡ true
pq_pop_ordered pq rest last first second v p q = elim (pq_pop_lem pq v) [
  | inl (e, n) ↦ absurd (ground arith)
  | inr s ↦
      let test : SchedulerTask → Bool = λ x. not (runs_by s.task x) in
      let none_late = count_none test pq.nodes pq.size (λ j lt. ground (arith, s.first j lt)) in
      let none_left = s.contents test in
      let next = count_none_at test s.rest.nodes s.rest.size 0 in
      let same_pop : (some s.task, s.rest) ≡ (some first, rest) = sym s.popped ∙ p in
      let same_task : s.task ≡ first = cc in
      let same_rest : s.rest ≡ rest = cc in
      let (nonempty, root) = popped_root rest last second q in
      let nonempty' : 0 < s.rest.size = rw same_rest nonempty in
      let same_root : s.rest.nodes 0 ≡ second = ap (λ r. r.nodes 0) same_rest ∙ root in
      let by_root : runs_by s.task (s.rest.nodes 0) ≡ true =
        ground (arith, next (ground (arith, none_left, none_late)) nonempty') in
      sym (ap₂ runs_by same_task same_root) ∙ by_root
]
