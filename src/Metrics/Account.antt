-- ===== src/Metrics/Account.antt =====
-- The account of connections.
use chamlon.Base.{ℕ, ◌+◌, ◌-◌, ◌<◌, ◌≡◌, ◌^◌, List, [], ◌∷◌, arith, length}
use chamlon.Metrics.{
  Metrics, metrics_init, metrics_record_connection_established, metrics_record_connection_closed,
  metrics_reset,
}

-- A connection that is established, one that is closed, and a reset at a time.
pub data Change : Type 0 where
  opens closes : Change
  resets : ℕ → Change

abbrev pub apply : Change → Metrics → Metrics
apply opens m = metrics_record_connection_established m
apply closes m = metrics_record_connection_closed m
apply (resets now) m = metrics_reset now m

abbrev pub apply_all : List Change → Metrics → Metrics
apply_all [] m = m
apply_all (c ∷ cs) m = apply_all cs (apply c m)

abbrev pub opened : List Change → ℕ
opened [] = 0
opened (opens ∷ cs) = 1 + opened cs
opened (closes ∷ cs) = opened cs
opened (resets now ∷ cs) = opened cs

abbrev pub closed : List Change → ℕ
closed [] = 0
closed (opens ∷ cs) = closed cs
closed (closes ∷ cs) = 1 + closed cs
closed (resets now ∷ cs) = closed cs

-- At no point have more connections been closed than there are, `active` being those at first.
abbrev pub IsCovered : ℕ → List Change → Type 0
IsCovered active [] = Unit
IsCovered active (opens ∷ cs) = IsCovered (active + 1) cs
IsCovered active (closes ∷ cs) = (0 < active) × IsCovered (active - 1) cs
IsCovered active (resets now ∷ cs) = IsCovered active cs

account :
    (cs : List Change) (m : Metrics)
    → m.total_connections + length cs < 2 ^ 64
    → m.total_disconnections + length cs < 2 ^ 64
    → IsCovered m.active_connections cs
    → let r = apply_all cs m in
      (r.total_connections ≡ m.total_connections + opened cs)
      × (r.total_disconnections ≡ m.total_disconnections + closed cs)
      × (r.active_connections + closed cs ≡ m.active_connections + opened cs)
unfolding metrics_record_connection_established metrics_record_connection_closed metrics_reset
account [] m a b c = ground arith
account (opens ∷ cs) m a b c = ground (arith, account cs (metrics_record_connection_established m))
account (closes ∷ cs) m a b c = ground (arith, account cs (metrics_record_connection_closed m))
account (resets now ∷ cs) m a b c = ground (arith, account cs (metrics_reset now m))

-- From the start of the server on, with fewer than 2 ^ 64 events and none closed that is not open,
-- the connections that are active are those established less those closed, and both totals are
-- exact, also across resets of the other counters.
pub connections_account :
    (start : ℕ) (cs : List Change)
    → length cs < 2 ^ 64
    → IsCovered 0 cs
    → let r = apply_all cs (metrics_init start) in
      (r.total_connections ≡ opened cs)
      × (r.total_disconnections ≡ closed cs)
      × (r.active_connections + closed cs ≡ opened cs)
unfolding metrics_init
connections_account start cs few covered = ground (arith, account cs (metrics_init start))
