-- ===== src/Scheduler/Time.antt =====
-- The order of tasks by the time of their next run, and the arithmetic on these times.
use chamlon.Base.{
  ℕ, zero, suc, ◌+◌, ◌*◌, ◌-◌, ◌≤◌, ◌<◌, ◌≡◌, true, false, arith, inl, inr, leb, Bool-cases,
}
use chamlon.Scheduler.{
  Timespec, SchedulerTask, timespec_compare, runs_by, runs_before, carry_seconds,
  add_interval_to_timespec,
}

pub runs_by_refl : (a : SchedulerTask) → runs_by a a ≡ true
unfolding timespec_compare
runs_by_refl a = ground arith

pub runs_by_trans :
    (a b c : SchedulerTask) → runs_by a b ≡ true → runs_by b c ≡ true → runs_by a c ≡ true
unfolding timespec_compare
runs_by_trans a b c p q = ground arith

-- A task that runs before another one runs by its time, and the other does not run by the first.
pub runs_before-runs_by : (a b : SchedulerTask) → runs_before a b ≡ true → runs_by a b ≡ true
unfolding timespec_compare
runs_before-runs_by a b p = ground arith

pub runs_before_total : (a b : SchedulerTask) → runs_before a b ≡ false → runs_by b a ≡ true
unfolding timespec_compare
runs_before_total a b p = ground arith

pub runs_by_total : (a b : SchedulerTask) → runs_by a b ≡ false → runs_by b a ≡ true
unfolding timespec_compare
runs_by_total a b p = ground arith

abbrev pub nanos : Timespec → ℕ
nanos ts = ts.tv_sec * 1000000000 + ts.tv_nsec

abbrev pub IsNormal : Timespec → Type 0
IsNormal ts = ts.tv_nsec < 1000000000

pub carry_seconds_lem :
    (fuel : ℕ) (ts : Timespec)
    → ts.tv_nsec ≤ fuel
    → let r = carry_seconds fuel ts in
      (r.tv_sec * 1000000000 + r.tv_nsec ≡ ts.tv_sec * 1000000000 + ts.tv_nsec)
      × (r.tv_nsec < 1000000000)
unfolding carry_seconds
carry_seconds_lem zero ts h = ground arith
carry_seconds_lem (suc fuel) ts h = elim (Bool-cases (leb 1000000000 ts.tv_nsec)) [
  | inl e ↦
      let rest =
        carry_seconds_lem fuel
          (record { tv_sec = ts.tv_sec + 1; tv_nsec = ts.tv_nsec - 1000000000 }) (ground arith) in
      ground (arith, rest)
  | inr e ↦ ground arith
]

-- Adding an interval moves the time on by exactly that many nanoseconds and leaves fewer than a
-- second of them in `tv_nsec`.
pub add_interval_to_timespec_lem :
    (ns : ℕ) (ts : Timespec)
    → let r = add_interval_to_timespec ns ts in
      (r.tv_sec * 1000000000 + r.tv_nsec ≡ ts.tv_sec * 1000000000 + ts.tv_nsec + ns)
      × (r.tv_nsec < 1000000000)
unfolding add_interval_to_timespec
add_interval_to_timespec_lem ns ts = ground (
  arith,
  carry_seconds_lem (ts.tv_nsec + ns) (record { tv_sec = ts.tv_sec; tv_nsec = ts.tv_nsec + ns })
      (omega arith),
)
