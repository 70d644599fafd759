-- ===== src/MainLoop/Timers.antt =====
-- The timer of the loop and the gauge of active sessions.
use chamlon.Base.{
  ℕ, zero, suc, ◌+◌, ◌^◌, ◌<◌, ◌≤◌, ◌≡◌, refl, Bool, true, List, [], ◌∷◌, map, arith, u64,
}
use chamlon.Metrics.{Metrics, metrics_record_connection_closed, metrics_set_active_connections}
use chamlon.Crypto.{Sodium}
use chamlon.Sessions.{Session, cleanup_expired_sessions}
use chamlon.Datagram.{send_keepalive_to_client}
use chamlon.Maintenance.{swept, send_keepalives, perform_maintenance}
use chamlon.Shutdown.{count_active}
use chamlon.MainLoop.{State, count_closed, maintain, on_timer, cleanup_due}

count_active-cleanup :
    (now : ℕ) (t : List Session)
    → count_active (cleanup_expired_sessions now t).table + (cleanup_expired_sessions now t).freed
      ≡ count_active t
unfolding cleanup_expired_sessions
count_active-cleanup now [] = refl
count_active-cleanup now (s ∷ ss) = ground (arith, count_active-cleanup now ss)

count_active-swept :
    (now : ℕ) (t : List Session) → count_active (map (swept now) t) ≡ count_active t
count_active-swept now [] = refl
count_active-swept now (s ∷ ss) = ground (arith, count_active-swept now ss)

count_active-keepalives :
    (c : Sodium) (memory : ℕ → Bool) (k now : ℕ) (t : List Session)
    → count_active (send_keepalives c memory k now t).1 ≡ count_active t
unfolding send_keepalives send_keepalive_to_client
count_active-keepalives c memory k now [] = refl
count_active-keepalives c memory k now (s ∷ ss) =
    ground (arith, count_active-keepalives c memory (k + 1) now ss)

-- Maintenance ends the sessions that it reports, and no other.
count_active-maintenance :
    (c : Sodium) (memory : ℕ → Bool) (stale : List ℕ) (now : ℕ) (t : List Session)
    → count_active (perform_maintenance c memory stale now t).1
        + (cleanup_expired_sessions now t).freed
      ≡ count_active t
unfolding perform_maintenance
count_active-maintenance c memory stale now t =
    let r = (cleanup_expired_sessions now t).table in
    omega (
      arith,
      count_active-keepalives c memory 0 now (map (swept now) r),
      count_active-swept now r,
      count_active-cleanup now t,
    )

total-count_closed :
    (n : ℕ) (m : Metrics)
    → m.total_disconnections < 2 ^ 64
    → (count_closed n m).total_disconnections ≡ u64 (m.total_disconnections + n)
unfolding count_closed metrics_record_connection_closed
total-count_closed zero m h = omega arith
total-count_closed (suc n) m h =
    ground (arith, total-count_closed n (metrics_record_connection_closed m))

-- What the timer leaves, with `ended` sessions closed.
pub record Counted (before after : State) (ended : ℕ) : Type 0 where
  pub gauge : after.server.metrics.active_connections ≡ count_active after.server.sessions
  pub balance : count_active after.server.sessions + ended ≡ count_active before.server.sessions
  pub total :
      after.server.metrics.total_disconnections
      ≡ u64 (before.server.metrics.total_disconnections + ended)

-- When five seconds have gone by, the timer makes the gauge of active connections the number of active
-- sessions, whatever it was, and counts as disconnections exactly the sessions that it ends, modulo
-- 2 ^ 64: those that are left and those that ended are the sessions of before. The jobs in the queues stay.
pub on_timer-Counted :
    (c : Sodium) (memory : ℕ → Bool) (stale : List ℕ) (now : ℕ) (s : State)
    → s.last_cleanup + 5 ≤ now
    → s.server.metrics.total_disconnections < 2 ^ 64
    → (ended : ℕ) × Counted s (on_timer c memory stale now s) ended
      × ((on_timer c memory stale now s).last_cleanup ≡ now)
      × ((on_timer c memory stale now s).pool ≡ s.pool)
unfolding on_timer maintain metrics_set_active_connections
on_timer-Counted c memory stale now s five small =
    let is_due : cleanup_due now s ≡ true = ground arith in
    let ended = (cleanup_expired_sessions now s.server.sessions).freed in
    (
      ended,
      rw (on_timer, is_due)
          (record {
            gauge = refl;
            balance = count_active-maintenance c memory stale now s.server.sessions;
            total = total-count_closed ended s.server.metrics small;
          }),
      rw is_due refl,
      rw is_due refl,
    )
