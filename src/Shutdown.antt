-- ===== src/Shutdown.antt =====
-- The end of the server: chamlon_server/src/graceful_shutdown.c, and the loop of `main` in
-- chamlon_server/src/vpn_server.c that waits for the sessions to end. The clock is an argument, and a
-- timeout of 0 stands for any `int` that is not positive. The counter of closed connections is left out.
pub mod Draining
mod Examples
use chamlon.Base.{
  ℕ, zero, suc, ◌+◌, ◌-◌, Bool, true, false, not, List, [], ◌∷◌, Option, none, some, map, ltb, ◌==◌,
  if◌then◌else◌,
}
use chamlon.Wire.{pkt_ctrl_disconnect}
use chamlon.Crypto.{Sodium}
use chamlon.Sessions.{Session, free_slot}
use chamlon.Datagram.{send_control_packet}

pub data ShutdownState : Type 0 where
  idle initiated draining force_timeout complete : ShutdownState

pub record GracefulShutdown : Type 0 where
  pub state : ShutdownState
  pub shutdown_started : ℕ
  pub shutdown_timeout_sec : ℕ
  pub session_disconnect_count : ℕ
  pub session_closed_count : ℕ

abbrev pub default_timeout_sec : ℕ
default_timeout_sec = 10

unfoldable pub graceful_shutdown_init : ℕ → GracefulShutdown
graceful_shutdown_init timeout_sec = record {
  state = idle;
  shutdown_started = 0;
  shutdown_timeout_sec = if ltb 0 timeout_sec then timeout_sec else default_timeout_sec;
  session_disconnect_count = 0;
  session_closed_count = 0;
}

unfoldable pub graceful_shutdown_initiate : ℕ → GracefulShutdown → GracefulShutdown
graceful_shutdown_initiate now m = elim m.state [
  | idle ↦ record m { state = initiated; shutdown_started = now }
  | initiated ↦ m
  | draining ↦ m
  | force_timeout ↦ m
  | complete ↦ m
]

abbrev pub count_active : List Session → ℕ
count_active [] = 0
count_active (s ∷ ss) = let rest = count_active ss in if s.active then suc rest else rest

-- The disconnects that are sent, and the table.
unfoldable pub notify_all : Sodium → List ℕ → List Session → List (Option (List ℕ)) × List Session
notify_all c stale [] = ([], [])
notify_all c stale (s ∷ ss) =
    let (pkts, ss') = notify_all c stale ss in
    let (pkt, s') = send_control_packet c stale pkt_ctrl_disconnect s in
    if s.active then (pkt ∷ pkts, s' ∷ ss') else (pkts, s ∷ ss')

abbrev pub drained : ShutdownState → ShutdownState
drained idle = draining
drained initiated = initiated
drained draining = draining
drained force_timeout = draining
drained complete = draining

unfoldable pub graceful_shutdown_drain_sessions :
    Sodium
    → List ℕ
    → GracefulShutdown
    → List Session
    → List (Option (List ℕ)) × (GracefulShutdown × List Session)
graceful_shutdown_drain_sessions c stale m t =
    let (pkts, t') = notify_all c stale t in
    (pkts, (record m { state = drained m.state; session_disconnect_count = count_active t }, t'))

unfoldable pub graceful_shutdown_timeout_exceeded : ℕ → GracefulShutdown → Bool × GracefulShutdown
graceful_shutdown_timeout_exceeded now m =
    if m.shutdown_started == 0
    then (false, m)
    else (if ltb m.shutdown_timeout_sec (now - m.shutdown_started)
        then (true, record m { state = force_timeout })
        else (false, m))

-- `free_session` leaves a slot that is not active alone.
unfoldable pub graceful_shutdown_cleanup :
    GracefulShutdown → List Session → GracefulShutdown × List Session
graceful_shutdown_cleanup m t = (record m { state = complete }, map free_slot t)

-- `while (outstanding > 0 && !timeout_exceeded())`, over the rounds: the time at which the condition is
-- tested, and the table after the packets of the round. The result says if the loop ends with them.
unfoldable pub drain_loop : GracefulShutdown → ℕ → List (ℕ × List Session) → Bool × GracefulShutdown
drain_loop m zero rounds = (true, m)
drain_loop m (suc outstanding) [] = (false, m)
drain_loop m (suc outstanding) ((now, t) ∷ rounds) =
    let (over, m') = graceful_shutdown_timeout_exceeded now m in
    let rest = drain_loop m' (count_active t) rounds in if over then (true, m') else rest

-- The sequence of `main` after its loop, up to the loop that waits.
unfoldable pub shut_down :
    Sodium
    → List ℕ
    → List (ℕ × List Session)
    → GracefulShutdown
    → List Session
    → Bool × GracefulShutdown
shut_down c stale rounds m t =
    let (pkts, after) = graceful_shutdown_drain_sessions c stale m t in
    let (m', t') = after in
    if ltb 0 (count_active t) then drain_loop m' (count_active t) rounds else (true, m)
