-- ===== src/Scheduler/Contents.antt =====
-- What is in the queue, as the number of its tasks that a test accepts.
use chamlon.Base.{
  ℕ, zero, suc, ◌+◌, ◌*◌, ◌≤◌, ◌<◌, ◌≡◌, refl, Bool, true, false, arith, inl, inr, ltb, ◌==◌,
  Bool-cases,
}
use chamlon.Scheduler.{SchedulerTask, runs_before, put, parent, sift_up, first_child, sift_down}

abbrev pub one_if : Bool → ℕ
one_if true = 1
one_if false = 0

abbrev pub count : (SchedulerTask → Bool) → (ℕ → SchedulerTask) → ℕ → ℕ
count q f zero = 0
count q f (suc n) = one_if (q (f n)) + count q f n

count-put_outside :
    (q : SchedulerTask → Bool) (i : ℕ) (t : SchedulerTask) (f : ℕ → SchedulerTask) (n : ℕ)
    → n ≤ i
    → count q (put i t f) n ≡ count q f n
count-put_outside q i t f zero le = refl
count-put_outside q i t f (suc n) le = ground (arith, count-put_outside q i t f n (omega arith))

pub count-put :
    (q : SchedulerTask → Bool) (i : ℕ) (t : SchedulerTask) (f : ℕ → SchedulerTask) (n : ℕ)
    → i < n
    → count q (put i t f) n + one_if (q (f i)) ≡ count q f n + one_if (q t)
count-put q i t f zero lt = omega arith
count-put q i t f (suc n) lt = elim (Bool-cases (n == i)) [
  | inl e ↦ ground (arith, count-put_outside q i t f n)
  | inr e ↦ ground (arith, count-put q i t f n)
]

-- Moving a task into the free cell and freeing its own changes nothing.
count-move :
    (q : SchedulerTask → Bool) (i p : ℕ) (t : SchedulerTask) (f : ℕ → SchedulerTask) (n : ℕ)
    → i < n
    → p < n
    → (p == i) ≡ false
    → count q (put p t (put i (f p) f)) n ≡ count q (put i t f) n
count-move q i p t f n lti ltp ne = ground (
  arith,
  count-put q p t (put i (f p) f) n ltp,
  count-put q i (f p) f n lti,
  count-put q i t f n lti,
)

pub count-sift_up :
    (q : SchedulerTask → Bool) (fuel i : ℕ) (t : SchedulerTask) (f : ℕ → SchedulerTask) (n : ℕ)
    → i < n
    → count q (sift_up fuel i t f) n ≡ count q (put i t f) n
unfolding sift_up
count-sift_up q zero i t f n lt = refl
count-sift_up q (suc fuel) i t f n lt =
    let p = parent i in
    let rest = count-sift_up q fuel p t (put i (f p) f) n (omega arith) in
    elim (Bool-cases (i == 0)) [
      | inl e ↦ rw e refl
      | inr e ↦ elim (Bool-cases (runs_before t (f p))) [
        | inl b ↦
            let move = count-move q i p t f n lt (omega arith) (ground arith) in
            ground (arith, rest, move)
        | inr b ↦ rw e (rw b refl)
      ]
    ]

first_child_inside :
    (n i : ℕ) (f : ℕ → SchedulerTask)
    → i * 2 + 1 < n
    → (first_child n i f < n) × (i < first_child n i f)
unfolding first_child
first_child_inside n i f lt = ground arith

pub count-sift_down :
    (q : SchedulerTask → Bool) (fuel n i : ℕ) (l : SchedulerTask) (f : ℕ → SchedulerTask)
    → i < n
    → count q (sift_down fuel n i l f) n ≡ count q (put i l f) n
unfolding sift_down
count-sift_down q zero n i l f lt = refl
count-sift_down q (suc fuel) n i l f lt =
    let c = first_child n i f in
    elim (Bool-cases (ltb (i * 2 + 1) n)) [
      | inr e ↦ rw e refl
      | inl e ↦
          let (inside, below) = first_child_inside n i f (ground arith) in
          let rest = count-sift_down q fuel n c l (put i (f c) f) inside in
          let move = count-move q i c l f n lt inside (ground arith) in ground (arith, rest, move)
    ]
