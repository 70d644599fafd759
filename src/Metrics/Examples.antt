-- ===== src/Metrics/Examples.antt =====
-- Tests and examples of the counters.
use chamlon.Base.{ℕ, ◌≡◌, refl, List, [], ◌∷◌, arith, Bool, true}
use chamlon.Metrics.{
  metrics_init, metrics_get_health_status, metrics_record_handshake_completed,
  metrics_record_handshake_failed,
}
use chamlon.Metrics.Account.{Change, opens, closes, resets, IsCovered}

abbrev changes : List Change
changes = opens ∷ opens ∷ closes ∷ resets 50 ∷ opens ∷ closes ∷ []

changes-IsCovered : IsCovered 0 changes
changes-IsCovered = ground arith

-- One handshake of three fails, and the server still counts as healthy.
abbrev handshakes_of : ℕ → Bool
handshakes_of now =
    (metrics_get_health_status now (
      metrics_record_handshake_failed (
        metrics_record_handshake_completed
          (metrics_record_handshake_completed (metrics_init 0))))).is_healthy

one_of_three : handshakes_of 10 ≡ true
unfolding metrics_get_health_status metrics_record_handshake_failed
    metrics_record_handshake_completed metrics_init
one_of_three = refl
