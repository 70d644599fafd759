-- ===== src/SendWorker/Cadence.antt =====
-- The times at which a session of constant bit rate sends.
use chamlon.Base.{ℕ, ◌+◌, ◌-◌, ◌/◌, ◌%◌, ◌≤◌, ◌≡◌, inl, inr, arith, ltb, Bool-cases}
use chamlon.Scheduler.{Timespec, add_interval_to_timespec}
use chamlon.Scheduler.Time.{nanos, IsNormal, carry_seconds_lem, add_interval_to_timespec_lem}
use chamlon.SendWorker.{Float, interval_ns, skip_ns, add_skip, keep_cadence}

add_skip_lem :
    (ns : ℕ) (ts : Timespec) → (nanos (add_skip ns ts) ≡ nanos ts + ns) × IsNormal (add_skip ns ts)
unfolding add_skip
add_skip_lem ns ts =
    let nsec = ts.tv_nsec + ns % 1000000000 in
    let (e, ok) =
      carry_seconds_lem nsec (record { tv_sec = ts.tv_sec + ns / 1000000000; tv_nsec = nsec })
        (omega arith) in
    (omega (arith, e), ok)

-- Whatever the arithmetic on `double` gives, the next time of a session of constant bit rate is one interval
-- after the last one at least, just one interval if that has not passed, and its nanoseconds stay below
-- a second.
pub keep_cadence_least :
    (k : Float) (mbps frag : ℕ) (now ts : Timespec)
    → let r = keep_cadence k mbps frag now ts in
      (nanos ts + interval_ns k mbps frag ≤ nanos r)
      × (nanos now ≤ nanos ts + interval_ns k mbps frag
          → nanos r ≡ nanos ts + interval_ns k mbps frag)
      × IsNormal r
unfolding keep_cadence
keep_cadence_least k mbps frag now ts =
    let due = add_interval_to_timespec (interval_ns k mbps frag) ts in
    let (e, normal) = add_interval_to_timespec_lem (interval_ns k mbps frag) ts in
    let (f, still) = add_skip_lem (skip_ns k mbps frag (nanos now - nanos due)) due in
    elim (Bool-cases (ltb (nanos due) (nanos now))) [
      | inl late ↦ rw (keep_cadence, late) (ground arith)
      | inr early ↦ rw (keep_cadence, early) (ground arith)
    ]
