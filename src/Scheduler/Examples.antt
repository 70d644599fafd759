-- ===== src/Scheduler/Examples.antt =====
-- Tests and examples of the scheduler.
use chamlon.Base.{ℕ, ◌≡◌, ◌⊎◌, refl, true, [], ◌∷◌, none, some, arith}
use chamlon.Scheduler.{
  SchedulerTask, PriorityQueue, pq_push, pq_pop, sift_up, sift_down, first_child, timespec_compare,
}
use chamlon.Scheduler.Queue.{IsQueue, PopsFirst, pq_push_lem, pq_pop_lem}

abbrev task : ℕ → ℕ → SchedulerTask
task sec id = record { next_run = record { tv_sec = sec; tv_nsec = 5 }; session_id = id ∷ [] }

abbrev no_tasks : PriorityQueue
no_tasks = record { nodes = λ i. task 0 0; size = 0; capacity = 1 }

no_tasks-IsQueue : IsQueue no_tasks
no_tasks-IsQueue = record {
  heap = λ j lt pos. absurd (omega arith);
  fits = ground arith;
  room = ground arith;
}

-- Three tasks, each ahead of the one before, in an array that has to grow.
abbrev three_tasks : PriorityQueue
three_tasks =
    pq_push true (pq_push true (pq_push true no_tasks (task 30 1)) (task 20 2)) (task 10 3)

three_tasks-IsQueue : IsQueue three_tasks
three_tasks-IsQueue =
    let one = (pq_push_lem true no_tasks (task 30 1) no_tasks-IsQueue).0 in
    let two = (pq_push_lem true (pq_push true no_tasks (task 30 1)) (task 20 2) one).0 in
    (pq_push_lem true (pq_push true (pq_push true no_tasks (task 30 1)) (task 20 2)) (task 10 3)
      two).0

first_popped : (pq_pop three_tasks).0 ≡ some (task 10 3)
unfolding pq_pop pq_push sift_up sift_down first_child timespec_compare
first_popped = refl

second_popped : (pq_pop (pq_pop three_tasks).1).0 ≡ some (task 20 2)
unfolding pq_pop pq_push sift_up sift_down first_child timespec_compare
second_popped = refl

pq_pop_lem_example :
    ((three_tasks.size ≡ 0) × (pq_pop three_tasks ≡ (none, three_tasks))) ⊎ PopsFirst three_tasks
pq_pop_lem_example = pq_pop_lem three_tasks three_tasks-IsQueue

pop_first : pq_pop three_tasks ≡ (some (task 10 3), (pq_pop three_tasks).1)
unfolding pq_pop pq_push sift_up sift_down first_child timespec_compare
pop_first = refl

pop_second : pq_pop (pq_pop three_tasks).1 ≡ (some (task 20 2), (pq_pop (pq_pop three_tasks).1).1)
unfolding pq_pop pq_push sift_up sift_down first_child timespec_compare
pop_second = refl
