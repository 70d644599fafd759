-- ===== src/Rehandshake/Examples.antt =====
-- Tests and examples of the re-handshake.
use chamlon.Base.{◌-◌, ◌^◌, ◌<◌, ◌≤◌, ◌≡◌, refl, none, []}
use chamlon.Rehandshake.{
  ready, attempt, wait, give_up, Keys, Server, rehandshake_tick, should_attempt_rehandshake,
  rehandshake_client_with_state,
}
use chamlon.Rehandshake.Machine.{Reachable, started, due, rehandshake_tick_lem}

abbrev no_keys : Keys
no_keys = record { session_id = []; k_send = []; k_recv = [] }

abbrev at_first : Server
at_first = record {
  keys = no_keys;
  send_seq = 9;
  bytes_sent = 900;
  session_start_time = 10;
  rehandshake_state = ready;
  rehandshake_attempts = 0;
  rehandshake_last_attempt = 0;
  rehandshake_backoff_sec = 1;
}

-- An attempt that fails at time 100, and one at 101.
abbrev failed_once : Server
failed_once = (rehandshake_tick 100 none at_first).1

abbrev failed_twice : Server
failed_twice = (rehandshake_tick 101 none failed_once).1

failed_twice-Reachable : Reachable failed_twice
failed_twice-Reachable =
    due 101 none failed_once (due 100 none at_first (started at_first refl refl))

failed_twice_lem :
    (failed_twice.rehandshake_attempts ≡ 2) × (failed_twice.rehandshake_backoff_sec ≡ 2)
unfolding rehandshake_tick should_attempt_rehandshake rehandshake_client_with_state
failed_twice_lem = (refl, refl)

rehandshake_tick_lem_example :
    let n = failed_twice.rehandshake_attempts in
    let waited = 102 - failed_twice.rehandshake_last_attempt in
    (n ≡ 5 → (rehandshake_tick 102 none failed_twice).0 ≡ give_up)
    × (0 < n
        → n < 5
        → waited < 2 ^ (n - 1)
        → rehandshake_tick 102 none failed_twice ≡ (wait, failed_twice))
    × (n < 5
        → (0 < n → 2 ^ (n - 1) ≤ waited)
        → (rehandshake_tick 102 none failed_twice).0 ≡ attempt)
rehandshake_tick_lem_example = rehandshake_tick_lem 102 none failed_twice failed_twice-Reachable
