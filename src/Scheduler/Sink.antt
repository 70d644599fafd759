-- ===== src/Scheduler/Sink.antt =====
-- The heap order through the loop of `pq_pop`, which goes down.
use chamlon.Base.{
  ℕ, zero, suc, ◌+◌, ◌*◌, ◌≤◌, ◌<◌, ◌≡◌, ◌≢◌, true, arith, inl, inr, ltb, ◌==◌, Bool-cases, ◌&&◌,
}
use chamlon.Scheduler.{SchedulerTask, runs_by, runs_before, put, parent, first_child, sift_down}
use chamlon.Scheduler.Time.{runs_by_trans, runs_before-runs_by, runs_before_total, runs_by_total}
use chamlon.Scheduler.Heap.{IsHeap, IsLower}

-- Of the children of cell i, the one that `first_child` picks runs by all the others.
record IsFirst (n i : ℕ) (f : ℕ → SchedulerTask) (c : ℕ) : Type 0 where
  inside : c < n
  child : parent c ≡ i
  below : i < c
  first : (j : ℕ) → j < n → 0 < j → parent j ≡ i → j ≢ c → runs_by (f c) (f j) ≡ true

first_child-IsFirst :
    (n i : ℕ) (f : ℕ → SchedulerTask) → i * 2 + 1 < n → IsFirst n i f (first_child n i f)
unfolding first_child
first_child-IsFirst n i f lt =
    elim (Bool-cases (ltb (i * 2 + 1 + 1) n && runs_before (f (i * 2 + 1 + 1)) (f (i * 2 + 1)))) [
      | inl e ↦ rw e (record {
        inside = ground arith;
        child = omega arith;
        below = omega arith;
        first = λ j ltj posj eq ne.
            ground (arith, runs_before-runs_by (f (i * 2 + 1 + 1)) (f (i * 2 + 1)));
      })
      | inr e ↦ rw e (record {
        inside = ground arith;
        child = omega arith;
        below = omega arith;
        first = λ j ltj posj eq ne.
            ground (arith, runs_before_total (f (i * 2 + 1 + 1)) (f (i * 2 + 1)));
      })
    ]

IsLower-IsHeap :
    (n i : ℕ) (l : SchedulerTask) (f : ℕ → SchedulerTask)
    → IsLower n i (put i l f)
    → ((j : ℕ) → j < n → 0 < j → parent j ≡ i → runs_by l (f j) ≡ true)
    → IsHeap n (put i l f)
IsLower-IsHeap n i l f (a, b) h j lt pos = elim (Bool-cases (parent j == i)) [
  | inl e ↦ ground (arith, h j)
  | inr e ↦ a j lt pos (ground arith)
]

IsLower-step :
    (n i : ℕ) (l : SchedulerTask) (f : ℕ → SchedulerTask) (c : ℕ)
    → IsFirst n i f c
    → runs_by (f c) l ≡ true
    → IsLower n i (put i l f)
    → IsLower n c (put c l (put i (f c) f))
IsLower-step n i l f c s le (a, b) = (order, under)
  where
    order :
        (j : ℕ)
        → j < n
        → 0 < j
        → parent j ≢ c
        → runs_by (put c l (put i (f c) f) (parent j)) (put c l (put i (f c) f) j) ≡ true
    order j ltj posj ne = elim (Bool-cases (j == i)) [
      | inl e ↦ ground (arith, s.child, s.below, b c s.inside)
      | inr e ↦ elim (Bool-cases (parent j == i)) [
        | inl q ↦ ground (arith, s.child, s.below, s.first j ltj posj)
        | inr q ↦ ground (arith, s.child, s.below, a j ltj posj)
      ]
    ]

    under :
        (j : ℕ)
        → j < n
        → 0 < j
        → 0 < c
        → parent j ≡ c
        → runs_by (put c l (put i (f c) f) (parent c)) (put c l (put i (f c) f) j) ≡ true
    under j ltj posj posc eq = ground (arith, s.child, s.below, a j ltj posj)

pub sift_down-IsHeap :
    (fuel n i : ℕ) (l : SchedulerTask) (f : ℕ → SchedulerTask)
    → n ≤ fuel + i
    → IsLower n i (put i l f)
    → IsHeap n (sift_down fuel n i l f)
unfolding sift_down
sift_down-IsHeap zero n i l f le inv =
    IsLower-IsHeap n i l f inv (λ j lt pos eq. absurd (omega arith))
sift_down-IsHeap (suc fuel) n i l f le inv = elim (Bool-cases (ltb (i * 2 + 1) n)) [
  | inr e ↦ rw e (IsLower-IsHeap n i l f inv (λ j lt pos eq. absurd (ground arith)))
  | inl e ↦
      let c = first_child n i f in
      let s = first_child-IsFirst n i f (ground arith) in
      elim (Bool-cases (runs_by l (f c))) [
        | inl b ↦ rw e (
            rw b (
              IsLower-IsHeap n i l f inv
                (λ j lt pos eq. ground (arith, s.first j lt pos eq, runs_by_trans l (f c) (f j)))))
        | inr b ↦
            let step = IsLower-step n i l f c s (runs_by_total l (f c) b) inv in
            rw e (rw b (sift_down-IsHeap fuel n c l (put i (f c) f) (omega (arith, s.below)) step))
      ]
]

pub IsLower-start :
    (n : ℕ) (l : SchedulerTask) (f : ℕ → SchedulerTask) → IsHeap (n + 1) f → IsLower n 0 (put 0 l f)
IsLower-start n l f h =
    (λ j lt pos ne. ground (arith, h j), λ j lt pos pos0 eq. absurd (omega arith))
