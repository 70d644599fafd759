-- ===== src/SendWorker/Tasks.antt =====
-- A turn of the worker loses no task of a session that lives.
use chamlon.Base.{
  ℕ, ◌+◌, ◌<◌, ◌≡◌, refl, ap, sym, subst, ◌∙◌, ◌⊎◌, inl, inr, Bool, true, false, not, ◌&&◌, List,
  [], Option, none, some, arith, ◌==◌, Bool-cases,
}
use chamlon.Scheduler.{
  Timespec, SchedulerTask, PriorityQueue, timespec_compare, is_earlier, runs_by, pq_is_empty,
  pq_peek, pq_pop,
}
use chamlon.Scheduler.Contents.{one_if}
use chamlon.Scheduler.Queue.{IsQueue, PopsFirst, tasks, pq_push_lem, pq_pop_lem}
use chamlon.Crypto.{Sodium}
use chamlon.Sessions.{Session}
use chamlon.Pacing.{execute_send}
use chamlon.Pacing.Queues.{AllQueued, execute_send-AllQueued}
use chamlon.SendWorker.{Float, rearm, take_due, live, put_back, serve, worker_turn}

-- What the task counts for in the queue afterwards: nothing if its session is gone.
abbrev pub again : Float → Timespec → (SchedulerTask → Bool) → SchedulerTask → Option Session → ℕ
again k after q task none = 0
again k after q task (some s) = one_if (q (rearm k after s task))

-- Time a comes before time b.
abbrev pub Before : Timespec → Timespec → Type 0
Before a b = (a.tv_sec < b.tv_sec) ⊎ ((a.tv_sec ≡ b.tv_sec) × (a.tv_nsec < b.tv_nsec))

-- No task is due.
abbrev pub Idle : Timespec → PriorityQueue → Type 0
Idle now pq = (j : ℕ) → j < pq.size → Before now (pq.nodes j).next_run

-- A task that is due, the first of the queue, was taken and put back.
pub record Served (k : Float) (now after : Timespec) (pq pq' : PriorityQueue) (t' : List Session)
    (task : SchedulerTask) : Type 0 where
  pub due : ¬ Before now task.next_run
  pub first : (j : ℕ) → j < pq.size → ¬ Before (pq.nodes j).next_run task.next_run
  pub contents :
      (q : SchedulerTask → Bool)
      → tasks q pq' + one_if (q task) ≡ tasks q pq + again k after q task (live task.session_id t')

is_earlier-Before : (a b : Timespec) → is_earlier (timespec_compare a b) ≡ true → Before a b
unfolding timespec_compare
is_earlier-Before a b h = ground arith

not-Before : (a b : Timespec) → is_earlier (timespec_compare a b) ≡ false → ¬ Before a b
unfolding timespec_compare
not-Before a b h (inl x) = ground arith
not-Before a b h (inr (x, y)) = ground arith

runs_by-Before : (a b : SchedulerTask) → runs_by a b ≡ true → ¬ Before b.next_run a.next_run
unfolding timespec_compare
runs_by-Before a b h x = ground arith

Before-runs_by :
    (now : Timespec) (a b : SchedulerTask)
    → Before now a.next_run
    → runs_by a b ≡ true
    → Before now b.next_run
unfolding timespec_compare
Before-runs_by now a b x h = ground arith

pop_size :
    (pq : PriorityQueue) (task : SchedulerTask) (rest : PriorityQueue)
    → IsQueue pq
    → pq_pop pq ≡ (some task, rest)
    → rest.size < rest.capacity
unfolding pq_pop
pop_size pq task rest v h = elim (Bool-cases (pq.size == 0)) [
  | inl e ↦ absurd (ground arith)
  | inr e ↦ ground (arith, v.fits)
]

put_back_lem :
    (k : Float) (after : Timespec) (grown : Bool) (task : SchedulerTask) (rest : PriorityQueue)
    (o : Option Session)
    → IsQueue rest
    → rest.size < rest.capacity
    → IsQueue (put_back k after grown task rest o)
      × ((q : SchedulerTask → Bool)
          → tasks q (put_back k after grown task rest o) ≡ tasks q rest + again k after q task o)
unfolding put_back
put_back_lem k after grown task rest none v small = (v, λ q. omega arith)
put_back_lem k after grown task rest (some s) v small =
    let (queue, contents) = pq_push_lem grown rest (rearm k after s task) v in
    let room : ((rest.size == rest.capacity) && not grown) ≡ false = ground arith in
    (queue, λ q. contents q ∙ rw room refl)

pop_first :
    (pq rest : PriorityQueue) (task : SchedulerTask)
    → (pq.size == 0) ≡ false
    → pq_pop pq ≡ (some task, rest)
    → task ≡ pq.nodes 0
unfolding pq_pop
pop_first pq rest task e h =
    let root : (pq_pop pq).0 ≡ some (pq.nodes 0) = rw (pq_pop, e) refl in
    let first : ◌≡◌ {A = Option SchedulerTask} (some (pq.nodes 0)) (some task) =
      sym root ∙ ap (λ r. r.0) h in
    sym cc

-- The task that a turn takes.
take_due_cases :
    (now : Timespec) (pq : PriorityQueue)
    → IsQueue pq
    → ((take_due now pq ≡ (none, pq)) × Idle now pq)
      ⊎ ((s : PopsFirst pq) × (take_due now pq ≡ (some s.task, s.rest))
          × ¬ Before now s.task.next_run)
unfolding take_due pq_peek pq_is_empty
take_due_cases now pq v = elim (Bool-cases (pq.size == 0)) [
  | inl e ↦ inl (rw (take_due, pq_peek, pq_is_empty, e) refl, λ j lt. absurd (ground arith))
  | inr e ↦ elim (pq_pop_lem pq v) [
    | inl (z, n) ↦ absurd (ground arith)
    | inr s ↦
        let root = pop_first pq s.rest s.task e s.popped in
        elim (Bool-cases (is_earlier (timespec_compare now (pq.nodes 0).next_run))) [
          | inl f ↦
              let soon = is_earlier-Before now (pq.nodes 0).next_run f in
              inl (
                rw (take_due, pq_peek, pq_is_empty, e, f) refl,
                λ j lt.
                    Before-runs_by now (pq.nodes 0) (pq.nodes j) soon
                      (subst (λ x. runs_by x (pq.nodes j) ≡ true) root (s.first j lt)),
              )
          | inr f ↦ inr (
            s,
            rw (take_due, pq_peek, pq_is_empty, e, f) s.popped,
            subst (λ x. ¬ Before now x.next_run) (sym root)
                (not-Before now (pq.nodes 0).next_run f),
          )
        ]
  ]
]

-- A turn of the worker does not meet the fault of `execute_send`. Where the times of all tasks are still to
-- come, it changes nothing. Else it takes a task whose time has come, and than which no other is earlier,
-- and sends for it; the task is put back with its next time if its session is still there, and
-- is given up if it is not, and all other tasks stay. The queue stays a heap that fits, no `realloc` is needed,
-- whether one would succeed or not, and each active session has a valid queue of packets, as it had
-- before.
pub worker_turn-Served :
    (c : Sodium) (k : Float) (stale : List ℕ) (time : ℕ) (now after : Timespec) (grown : Bool)
    (pq : PriorityQueue) (t : List Session)
    → IsQueue pq
    → AllQueued t
    → (pkts : List (List ℕ)) × (pq' : PriorityQueue) × (t' : List Session) × (worker_turn c k stale
          time now after grown pq t
        ≡ some (pkts, (pq', t')))
      × IsQueue pq'
      × AllQueued t'
      × ((Idle now pq × (pkts ≡ []) × (pq' ≡ pq) × (t' ≡ t))
          ⊎ ((task : SchedulerTask) × (execute_send c stale time task.session_id t
                ≡ some (pkts, t'))
              × Served k now after pq pq' t' task))
unfolding worker_turn serve
worker_turn-Served c k stale time now after grown pq t v all = elim (take_due_cases now pq v) [
  | inl (e, idle) ↦
      ([], pq, t, ap (serve c k stale time after grown t) e, v, all, inl (idle, refl, refl, refl))
  | inr (s, e, due) ↦
      let id = s.task.session_id in
      let (pkts, t', sent, still) = execute_send-AllQueued c stale time id t all in
      let (queue, contents) =
        put_back_lem k after grown s.task s.rest (live id t') s.queue
          (pop_size pq s.task s.rest v s.popped) in
      (
        pkts,
        put_back k after grown s.task s.rest (live id t'),
        t',
        ap (serve c k stale time after grown t) e ∙ rw (serve, sent) refl,
        queue,
        still,
        inr (
          s.task,
          sent,
          record {
            due = due;
            first = λ j lt. runs_by-Before s.task (pq.nodes j) (s.first j lt);
            contents = λ f. let x = contents f in let y = s.contents f in omega (arith, x, y);
          },
        ),
      )
]
