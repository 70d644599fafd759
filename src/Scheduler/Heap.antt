-- ===== src/Scheduler/Heap.antt =====
-- The heap order through the two loops.
use chamlon.Base.{ℕ, zero, suc, ◌+◌, ◌≤◌, ◌<◌, ◌≡◌, ◌≢◌, true, arith, inl, inr, ◌==◌, Bool-cases}
use chamlon.Scheduler.{SchedulerTask, runs_by, runs_before, put, parent, sift_up}
use chamlon.Scheduler.Time.{runs_by_trans, runs_before-runs_by, runs_before_total}

-- No cell runs before the one above it.
abbrev pub IsHeap : ℕ → (ℕ → SchedulerTask) → Type 0
IsHeap n f = (j : ℕ) → j < n → 0 < j → runs_by (f (parent j)) (f j) ≡ true

-- The state of the loop that goes up, with the new task in the free cell i.
abbrev pub IsUpper : ℕ → ℕ → (ℕ → SchedulerTask) → Type 0
IsUpper n i g =
    ((j : ℕ) → j < n → 0 < j → j ≢ i → runs_by (g (parent j)) (g j) ≡ true)
    × ((j : ℕ) → j < n → 0 < j → 0 < i → parent j ≡ i → runs_by (g (parent i)) (g j) ≡ true)

-- The state of the loop that goes down, with the last task in the free cell i.
abbrev pub IsLower : ℕ → ℕ → (ℕ → SchedulerTask) → Type 0
IsLower n i g =
    ((j : ℕ) → j < n → 0 < j → parent j ≢ i → runs_by (g (parent j)) (g j) ≡ true)
    × ((j : ℕ) → j < n → 0 < j → 0 < i → parent j ≡ i → runs_by (g (parent i)) (g j) ≡ true)

put_self : (i : ℕ) (t : SchedulerTask) (f : ℕ → SchedulerTask) → put i t f i ≡ t
put_self i t f = ground arith

put_other : (i j : ℕ) (t : SchedulerTask) (f : ℕ → SchedulerTask) → j ≢ i → put i t f j ≡ f j
put_other i j t f ne = ground arith

IsUpper-IsHeap :
    (n i : ℕ) (t : SchedulerTask) (f : ℕ → SchedulerTask)
    → IsUpper n i (put i t f)
    → (0 < i → runs_by (f (parent i)) t ≡ true)
    → IsHeap n (put i t f)
IsUpper-IsHeap n i t f (a, b) h j lt pos = elim (Bool-cases (j == i)) [
  | inl e ↦ ground (arith, h)
  | inr e ↦ a j lt pos (ground arith)
]

IsUpper-step :
    (n i : ℕ) (t : SchedulerTask) (f : ℕ → SchedulerTask)
    → 0 < i
    → i < n
    → runs_by t (f (parent i)) ≡ true
    → IsUpper n i (put i t f)
    → IsUpper n (parent i) (put (parent i) t (put i (f (parent i)) f))
IsUpper-step n i t f pos lt le (a, b) = (order, below)
  where
    p : ℕ
    p = parent i

    order :
        (j : ℕ)
        → j < n
        → 0 < j
        → j ≢ p
        → runs_by (put p t (put i (f p) f) (parent j)) (put p t (put i (f p) f) j) ≡ true
    order j ltj posj ne = elim (Bool-cases (j == i)) [
      | inl e ↦ ground arith
      | inr e ↦ ground (arith, a j ltj posj, b j ltj posj pos, runs_by_trans t (f p) (f j))
    ]

    below :
        (j : ℕ)
        → j < n
        → 0 < j
        → 0 < p
        → parent j ≡ p
        → runs_by (put p t (put i (f p) f) (parent p)) (put p t (put i (f p) f) j) ≡ true
    below j ltj posj posp eq =
        ground (arith, a j ltj posj, a p, runs_by_trans (f (parent p)) (f p) (f j))

pub sift_up-IsHeap :
    (fuel n i : ℕ) (t : SchedulerTask) (f : ℕ → SchedulerTask)
    → i ≤ fuel
    → i < n
    → IsUpper n i (put i t f)
    → IsHeap n (sift_up fuel i t f)
unfolding sift_up
sift_up-IsHeap zero n i t f le lt inv = IsUpper-IsHeap n i t f inv (λ pos. absurd (omega arith))
sift_up-IsHeap (suc fuel) n i t f le lt inv = elim (Bool-cases (i == 0)) [
  | inl e ↦ rw e (IsUpper-IsHeap n i t f inv (ground arith))
  | inr e ↦ elim (Bool-cases (runs_before t (f (parent i)))) [
    | inl b ↦
        let step =
          IsUpper-step n i t f (ground arith) lt (runs_before-runs_by t (f (parent i)) b) inv in
        rw e (
          rw b (
            sift_up-IsHeap fuel n (parent i) t (put i (f (parent i)) f) (ground arith)
              (ground arith) step))
    | inr b ↦ rw e (rw b (IsUpper-IsHeap n i t f inv (λ pos. runs_before_total t (f (parent i)) b)))
  ]
]

pub IsUpper-start :
    (n : ℕ) (t : SchedulerTask) (f : ℕ → SchedulerTask) → IsHeap n f → IsUpper (n + 1) n (put n t f)
IsUpper-start n t f h = (λ j lt pos ne. ground (arith, h j), λ j lt pos posn eq. ground arith)
