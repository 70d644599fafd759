-- ===== src/EventLoop/GivingUp.antt =====
-- What the client does when its attempts are used up.
use chamlon.Base.{
  ℕ, ◌+◌, ◌-◌, ◌<◌, ◌≤◌, ◌≡◌, refl, ap, ◌∙◌, true, false, List, [], ◌∷◌, Option, none, arith, leb,
  if_elim, Bool, if◌then◌else◌,
}
use chamlon.Crypto.{Sodium}
use chamlon.Rehandshake.{failed, should_attempt_rehandshake}
use chamlon.Uplink.{send_disconnect}
use chamlon.EventLoop.{
  Client, Turn, Next, exits, goes_on, uplink_of, keepalive_tick, rehandshake_step, tun_event,
  udp_event, sweep_tick, handle_events, watch_server, loop_turn, event_loop_run,
}

-- A turn in which a re-handshake is due, nothing comes, and the server is not silent for too long.
pub record IsQuiet (t : Turn) (cl : Client) : Type 0 where
  pub no_packet : t.tun ≡ none
  pub no_datagram : t.datagrams ≡ []
  pub not_requested : cl.disconnect_requested ≡ false
  pub in_time : t.now < cl.last_server_keepalive_time + 125
  pub is_due : cl.last_rehandshake + cl.argv_rehandshake_interval ≤ t.now

keepalive_tick-kept :
    (c : Sodium) (t : Turn) (cl : Client)
    → let cl' = (keepalive_tick c t cl).1 in
      (cl'.last_server_keepalive_time ≡ cl.last_server_keepalive_time)
      × (cl'.last_rehandshake ≡ cl.last_rehandshake)
      × (cl'.argv_rehandshake_interval ≡ cl.argv_rehandshake_interval)
      × (cl'.server.rehandshake_attempts ≡ cl.server.rehandshake_attempts)
unfolding keepalive_tick
keepalive_tick-kept c t cl = ground arith

-- The advice is to give up.
rehandshake_step-requested :
    (t : Turn) (cl : Client)
    → cl.last_rehandshake + cl.argv_rehandshake_interval ≤ t.now
    → 5 ≤ cl.server.rehandshake_attempts
    → rehandshake_step t cl ≡ record cl {
      server = record cl.server { rehandshake_state = failed };
      disconnect_requested = true;
    }
unfolding rehandshake_step should_attempt_rehandshake
rehandshake_step-requested t cl due many = ground arith

quiet_events :
    (c : Sodium) (t : Turn) (cl : Client)
    → t.tun ≡ none
    → t.datagrams ≡ []
    → handle_events c t cl ≡ goes_on (sweep_tick t.now cl)
unfolding handle_events tun_event udp_event
quiet_events c t cl a b = rw (handle_events, tun_event, a, udp_event, b) refl

sweep_tick-kept :
    (now : ℕ) (cl : Client)
    → ((sweep_tick now cl).disconnect_requested ≡ cl.disconnect_requested)
      × ((sweep_tick now cl).server ≡ cl.server)
unfolding sweep_tick
sweep_tick-kept now cl =
    if_elim
      (λ (x : Client). (x.disconnect_requested ≡ cl.disconnect_requested) × (x.server ≡ cl.server))
      (leb 5 (now - cl.last_sweep)) _ _ (λ y. (refl, refl)) (λ y. (refl, refl))

abbrev if_pair : Bool → List (List ℕ) → Option (List ℕ) → Next → Next
if_pair b bye pkt next =
    let r : Option (List ℕ) × Next = if b then (none, exits bye) else (pkt, next) in r.1

-- A turn in which the end is asked for.
loop_turn-requested :
    (c : Sodium) (t : Turn) (cl : Client)
    → cl.disconnect_requested ≡ true
    → (loop_turn c t cl).1 ≡ exits (send_disconnect c (t.stale 0) cl.g_session_id (uplink_of cl)).0
unfolding loop_turn
loop_turn-requested c t cl e =
    let (bye, u) = send_disconnect c (t.stale 0) cl.g_session_id (uplink_of cl) in
    let (pkt, cl') = keepalive_tick c t cl in ap (λ b. if_pair b bye pkt (watch_server c t cl')) e

loop_turn-not_requested :
    (c : Sodium) (t : Turn) (cl : Client)
    → cl.disconnect_requested ≡ false
    → (loop_turn c t cl).1 ≡ watch_server c t (keepalive_tick c t cl).1
unfolding loop_turn
loop_turn-not_requested c t cl e =
    let (bye, u) = send_disconnect c (t.stale 0) cl.g_session_id (uplink_of cl) in
    let (pkt, cl') = keepalive_tick c t cl in ap (λ b. if_pair b bye pkt (watch_server c t cl')) e

-- A turn that goes on is followed by the next ones, one that exits by none.
run-goes_on :
    (c : Sodium) (t : Turn) (ts : List Turn) (cl cl' : Client)
    → (loop_turn c t cl).1 ≡ goes_on cl'
    → event_loop_run c (t ∷ ts) cl ≡ event_loop_run c ts cl'
unfolding event_loop_run
run-goes_on c t ts cl cl' e = rw (event_loop_run, e) refl

run-exits :
    (c : Sodium) (t : Turn) (ts : List Turn) (cl : Client) (pkts : List (List ℕ))
    → (loop_turn c t cl).1 ≡ exits pkts
    → event_loop_run c (t ∷ ts) cl ≡ exits pkts
unfolding event_loop_run
run-exits c t ts cl pkts e = rw (event_loop_run, e) refl

-- Once five attempts in a row have failed, the turn in which a re-handshake is due asks for the end, and
-- the next one ends the process: it sends nothing but the disconnect packets, under the keys as they are.
-- This is for a turn in which nothing comes and the server's last keepalive is less than 125 seconds old.
pub event_loop_run-gives_up :
    (c : Sodium) (t t2 : Turn) (ts : List Turn) (cl : Client)
    → IsQuiet t cl
    → 5 ≤ cl.server.rehandshake_attempts
    → (cl' : Client) × ((loop_turn c t cl).1 ≡ goes_on cl')
      × (cl'.server.rehandshake_state ≡ failed)
      × (event_loop_run c (t ∷ t2 ∷ ts) cl
          ≡ exits (send_disconnect c (t2.stale 0) cl'.g_session_id (uplink_of cl')).0)
unfolding watch_server
event_loop_run-gives_up c t t2 ts cl q many =
    let cl1 = (keepalive_tick c t cl).1 in
    let (heard, last, interval, attempts) = keepalive_tick-kept c t cl in
    let fine : leb 125 (t.now - cl1.last_server_keepalive_time) ≡ false =
      ground (arith, q.in_time) in
    let asked =
      rehandshake_step-requested t cl1 (omega (arith, q.is_due)) (omega (arith, attempts)) in
    let cl2 : Client = record cl1 {
      server = record cl1.server { rehandshake_state = failed };
      disconnect_requested = true;
    } in
    let cl' = sweep_tick t.now cl2 in
    let (wanted, kept) = sweep_tick-kept t.now cl2 in
    let watched : watch_server c t cl1 ≡ goes_on cl' =
      rw (watch_server, fine)
        (ap (handle_events c t) asked ∙ quiet_events c t cl2 q.no_packet q.no_datagram) in
    let turn = loop_turn-not_requested c t cl q.not_requested ∙ watched in
    (
      cl',
      turn,
      ap (λ s. s.rehandshake_state) kept,
      run-goes_on c t (t2 ∷ ts) cl cl' turn
          ∙ run-exits c t2 ts cl' _ (loop_turn-requested c t2 cl' wanted),
    )
