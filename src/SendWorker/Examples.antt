-- ===== src/SendWorker/Examples.antt =====
-- Examples of the worker of the scheduler.
use chamlon.Base.{
  ℕ, zero, suc, sym, ap, ◌+◌, ◌*◌, ◌/◌, ◌^◌, ltb, ◌≡◌, ◌⊎◌, refl, true, false, List, [], ◌∷◌,
  Option, none, some, arith, replicate,
}
use chamlon.Scheduler.{Timespec, SchedulerTask, PriorityQueue}
use chamlon.Scheduler.Queue.{IsQueue}
use chamlon.OutQueue.{out_queue_init}
use chamlon.Crypto.Toy.{toy}
use chamlon.Sessions.{Session, zero_session, letter_y}
use chamlon.Pacing.{execute_send}
use chamlon.Pacing.Queues.{AllQueued}
use chamlon.OutQueue.Lanes.{IsValid}
use chamlon.SendWorker.{Float, interval_ns, skip_ns, worker_turn}
use chamlon.SendWorker.Tasks.{Idle, Served, worker_turn-Served}

-- Fractions, as an arithmetic that can be computed.
abbrev fractions : Float
fractions = record {
  Double = ℕ × ℕ;
  literal = λ m e. (m, 10 ^ e);
  of_int = λ n. (n, 1);
  add = λ x y. (x.0 * y.1 + y.0 * x.1, x.1 * y.1);
  mul = λ x y. (x.0 * y.0, x.1 * y.1);
  div = λ x y. (x.0 * y.1, x.1 * y.0);
  lt = λ x y. ltb (x.0 * y.1) (y.0 * x.1);
  trunc = λ x. x.0 / x.1;
}

-- 382 bytes at 3 Mbps, and three intervals and some that are skipped.
an_interval : interval_ns fractions 3 300 ≡ 1018666
unfolding interval_ns
an_interval = refl

a_skip : skip_ns fractions 3 300 3100000 ≡ 3056000
unfolding skip_ns
a_skip = refl

abbrev at : ℕ → ℕ → Timespec
at sec nsec = record { tv_sec = sec; tv_nsec = nsec }

abbrev session : Session
session = record zero_session {
  active = true;
  session_id = 4 ∷ replicate 15 0;
  argv_cbr = letter_y;
  argv_mbps = 5;
  argv_frag = 1024;
  outq = some out_queue_init;
}

abbrev task : SchedulerTask
task = record { next_run = at 7 0; session_id = 4 ∷ replicate 15 0 }

abbrev queue : PriorityQueue
queue = record { nodes = λ j. task; size = 1; capacity = 1 }

queue-IsQueue : IsQueue queue
queue-IsQueue = record {
  heap = λ j lt pos. absurd (omega arith);
  fits = omega arith;
  room = omega arith;
}

empty-IsValid : IsValid out_queue_init
unfolding out_queue_init
empty-IsValid = record {
  high_ok = record { counted = refl; bounded = ground arith };
  normal_ok = record { counted = refl; bounded = ground arith };
}

sessions-AllQueued : AllQueued (session ∷ [])
sessions-AllQueued zero s g act = record {
  queue = out_queue_init;
  has_queue = ap (λ (o : Option Session). elim o [ some x ↦ x.outq | none ↦ none ]) (sym g);
  is_valid = empty-IsValid;
}
sessions-AllQueued (suc i) s g act = cc

worker_turn-Served_example :
    (pkts : List (List ℕ)) × (pq' : PriorityQueue) × (t' : List Session) × (worker_turn toy
        fractions [] 100
        (at 7 10)
        (at 7 20)
        false
        queue
        (session ∷ [])
      ≡ some (pkts, (pq', t')))
    × IsQueue pq'
    × AllQueued t'
    × ((Idle (at 7 10) queue × (pkts ≡ []) × (pq' ≡ queue) × (t' ≡ session ∷ []))
        ⊎ ((task : SchedulerTask) × (execute_send toy [] 100 task.session_id (session ∷ [])
              ≡ some (pkts, t'))
            × Served fractions (at 7 10) (at 7 20) queue pq' t' task))
worker_turn-Served_example =
    worker_turn-Served toy fractions [] 100 (at 7 10) (at 7 20) false queue (session ∷ [])
      queue-IsQueue sessions-AllQueued
