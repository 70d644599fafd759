-- ===== src/Metrics.antt =====
-- The counters of chamlon_server/src/metrics.c with chamlon_server/include/metrics.h. The counters are
-- `uint64_t`, so each sum wraps. The clock is an argument; the lock makes each operation one step. The
-- printed reports are left out.
pub mod Account
mod Examples
use chamlon.Base.{
  ℕ, zero, suc, ◌+◌, ◌-◌, ◌*◌, ◌/◌, ◌^◌, Bool, true, false, not, ◌&&◌, List, [], ◌∷◌, ltb, ◌==◌,
  if◌then◌else◌, u64,
}

pub record Metrics : Type 0 where
  pub packets_received : ℕ
  pub packets_sent : ℕ
  pub packets_dropped : ℕ
  pub bytes_received : ℕ
  pub bytes_sent : ℕ
  pub handshakes_initiated : ℕ
  pub handshakes_completed : ℕ
  pub handshakes_failed : ℕ
  pub active_connections : ℕ
  pub total_connections : ℕ
  pub total_disconnections : ℕ
  pub max_queue_depth : ℕ
  pub queue_drops : ℕ
  pub backpressure_events : ℕ
  pub total_latency_ms : ℕ
  pub latency_samples : ℕ
  pub max_latency_ms : ℕ
  pub min_latency_ms : ℕ
  pub crypto_errors : ℕ
  pub validation_errors : ℕ
  pub rate_limit_drops : ℕ
  pub black_listed_ips : ℕ
  pub startup_time : ℕ
  pub last_reset : ℕ

abbrev pub no_latency : ℕ
no_latency = 2 ^ 64 - 1

abbrev blank : Metrics
blank = record {
  packets_received = 0;
  packets_sent = 0;
  packets_dropped = 0;
  bytes_received = 0;
  bytes_sent = 0;
  handshakes_initiated = 0;
  handshakes_completed = 0;
  handshakes_failed = 0;
  active_connections = 0;
  total_connections = 0;
  total_disconnections = 0;
  max_queue_depth = 0;
  queue_drops = 0;
  backpressure_events = 0;
  total_latency_ms = 0;
  latency_samples = 0;
  max_latency_ms = 0;
  min_latency_ms = 0;
  crypto_errors = 0;
  validation_errors = 0;
  rate_limit_drops = 0;
  black_listed_ips = 0;
  startup_time = 0;
  last_reset = 0;
}

unfoldable pub metrics_init : ℕ → Metrics
metrics_init now = record blank {
  startup_time = now;
  last_reset = now;
  min_latency_ms = no_latency;
}

unfoldable pub metrics_record_packet_received : ℕ → Metrics → Metrics
metrics_record_packet_received len m = record m {
  packets_received = u64 (m.packets_received + 1);
  bytes_received = u64 (m.bytes_received + len);
}

unfoldable pub metrics_record_packet_sent : ℕ → Metrics → Metrics
metrics_record_packet_sent len m = record m {
  packets_sent = u64 (m.packets_sent + 1);
  bytes_sent = u64 (m.bytes_sent + len);
}

unfoldable pub metrics_record_packet_dropped : Metrics → Metrics
metrics_record_packet_dropped m = record m { packets_dropped = u64 (m.packets_dropped + 1) }

unfoldable pub metrics_record_handshake_initiated : Metrics → Metrics
metrics_record_handshake_initiated m = record m {
  handshakes_initiated = u64 (m.handshakes_initiated + 1);
}

unfoldable pub metrics_record_handshake_completed : Metrics → Metrics
metrics_record_handshake_completed m = record m {
  handshakes_completed = u64 (m.handshakes_completed + 1);
}

unfoldable pub metrics_record_handshake_failed : Metrics → Metrics
metrics_record_handshake_failed m = record m { handshakes_failed = u64 (m.handshakes_failed + 1) }

unfoldable pub metrics_record_connection_established : Metrics → Metrics
metrics_record_connection_established m = record m {
  total_connections = u64 (m.total_connections + 1);
  active_connections = m.active_connections + 1;
}

unfoldable pub metrics_record_connection_closed : Metrics → Metrics
metrics_record_connection_closed m = record m {
  active_connections =
      if ltb 0 m.active_connections then m.active_connections - 1 else m.active_connections;
  total_disconnections = u64 (m.total_disconnections + 1);
}

unfoldable pub metrics_record_queue_depth : ℕ → Metrics → Metrics
metrics_record_queue_depth depth m = record m {
  max_queue_depth = if ltb m.max_queue_depth depth then depth else m.max_queue_depth;
}

unfoldable pub metrics_record_queue_drop : Metrics → Metrics
metrics_record_queue_drop m = record m { queue_drops = u64 (m.queue_drops + 1) }

unfoldable pub metrics_record_backpressure : Metrics → Metrics
metrics_record_backpressure m = record m { backpressure_events = u64 (m.backpressure_events + 1) }

unfoldable pub metrics_record_latency_ms : ℕ → Metrics → Metrics
metrics_record_latency_ms latency m = record m {
  total_latency_ms = u64 (m.total_latency_ms + latency);
  latency_samples = u64 (m.latency_samples + 1);
  max_latency_ms = if ltb m.max_latency_ms latency then latency else m.max_latency_ms;
  min_latency_ms = if ltb latency m.min_latency_ms then latency else m.min_latency_ms;
}

unfoldable pub metrics_record_crypto_error : Metrics → Metrics
metrics_record_crypto_error m = record m { crypto_errors = u64 (m.crypto_errors + 1) }

unfoldable pub metrics_record_validation_error : Metrics → Metrics
metrics_record_validation_error m = record m { validation_errors = u64 (m.validation_errors + 1) }

unfoldable pub metrics_record_rate_limit_drop : Metrics → Metrics
metrics_record_rate_limit_drop m = record m { rate_limit_drops = u64 (m.rate_limit_drops + 1) }

unfoldable pub metrics_record_blacklist_event : Metrics → Metrics
metrics_record_blacklist_event m = record m { black_listed_ips = u64 (m.black_listed_ips + 1) }

unfoldable pub metrics_set_active_connections : ℕ → Metrics → Metrics
metrics_set_active_connections count m = record m { active_connections = count }

unfoldable pub metrics_reset : ℕ → Metrics → Metrics
metrics_reset now m = record (metrics_init now) {
  total_connections = m.total_connections;
  total_disconnections = m.total_disconnections;
  active_connections = m.active_connections;
}

pub record HealthStatus : Type 0 where
  pub is_healthy : Bool
  pub active_clients : ℕ
  pub packets_per_sec : ℕ
  pub bytes_per_sec : ℕ
  pub packet_drop_rate : ℕ
  pub avg_latency_ms : ℕ
  pub queue_fill_ratio : ℕ
  pub uptime_seconds : ℕ

-- A quotient that is left at 0 where there is nothing to divide by.
abbrev pub per : ℕ → ℕ → ℕ
per n d = if d == 0 then 0 else n / d

abbrev pub drop_rate : Metrics → ℕ
drop_rate m = per (u64 (m.packets_dropped * 100)) (u64 (m.packets_received + m.packets_dropped))

unfoldable pub metrics_get_health_status : ℕ → Metrics → HealthStatus
metrics_get_health_status now m =
    let uptime = now - m.startup_time in
    record {
      is_healthy =
          not (ltb 5 (drop_rate m))
          && (not (ltb (m.handshakes_completed / 2) m.handshakes_failed)
              && not (ltb 100 m.black_listed_ips));
      active_clients = m.active_connections;
      packets_per_sec = per m.packets_received uptime;
      bytes_per_sec = per m.bytes_received uptime;
      packet_drop_rate = drop_rate m;
      avg_latency_ms = per m.total_latency_ms m.latency_samples;
      queue_fill_ratio = 0;
      uptime_seconds = uptime;
    }
