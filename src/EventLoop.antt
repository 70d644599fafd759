-- ===== src/EventLoop.antt =====
-- The client's event loop: `event_loop_run` of chamlon_client/src/vpn_event_loop.c. What the sockets and
-- the TUN device have in a turn is an argument, and so are the time, which is read once, and the outcome
-- of a handshake. The keys and the counter of `server_t` stand once; the handlers see them as parts of
-- their own records. The routes that are set back are left out.
pub mod Silence
pub mod GivingUp
mod Examples
use chamlon.Base.{
  ℕ, ◌+◌, ◌-◌, ◌^◌, Bool, true, false, ◌||◌, List, [], ◌∷◌, Option, none, some, take, leb,
  if◌then◌else◌,
}
use chamlon.ReplayWindow.{ReplayWindow, fresh}
use chamlon.Reassembly.{Outcome, disconnect, Table, sweep_reassembly_table}
use chamlon.OutQueue.{OutQueue}
use chamlon.Crypto.{Sodium}
use chamlon.ClientLink.{Link, handle_udp_packet}
use chamlon.Uplink.{Uplink, handle_tun_packet, send_keepalive, send_disconnect}
use chamlon.Rehandshake.{
  Advice, attempt, wait, give_up, Agreement, Keys, Server, should_attempt_rehandshake,
  rehandshake_client_with_state,
}

abbrev pub keepalive_interval_sec : ℕ
keepalive_interval_sec = 25

abbrev pub server_keepalive_timeout : ℕ
server_keepalive_timeout = 125

abbrev pub max_burst : ℕ
max_burst = 64

abbrev pub rehandshake_bytes_limit : ℕ
rehandshake_bytes_limit = 2 ^ 30

abbrev pub rehandshake_seq_limit : ℕ
rehandshake_seq_limit = 2 ^ 32

pub record Client : Type 0 where
  pub server : Server
  pub g_session_id : List ℕ
  pub g_next_packet_id : ℕ
  pub g_outq : OutQueue
  pub argv_frag : ℕ
  pub argv_pad : ℕ
  pub argv_rehandshake_interval : ℕ
  pub rw_window : ReplayWindow
  pub g_reassembly_table : Table
  pub disconnect_requested : Bool
  -- The keys that are left for the sender thread.
  pub pending : Option Keys
  pub last_server_keepalive_time : ℕ
  pub last_keepalive : ℕ
  pub last_sweep : ℕ
  pub last_rehandshake : ℕ

abbrev pub uplink_of : Client → Uplink
uplink_of cl = record {
  k_send = cl.server.keys.k_send;
  session_id = cl.server.keys.session_id;
  send_seq = cl.server.send_seq;
  g_next_packet_id = cl.g_next_packet_id;
  argv_frag = cl.argv_frag;
  argv_pad = cl.argv_pad;
  g_outq = cl.g_outq;
}

abbrev pub with_uplink : Uplink → Client → Client
with_uplink u cl = record cl {
  server = record cl.server { send_seq = u.send_seq };
  g_next_packet_id = u.g_next_packet_id;
  g_outq = u.g_outq;
}

abbrev pub link_of : Client → Link
link_of cl = record {
  k_recv = cl.server.keys.k_recv;
  session_id = cl.server.keys.session_id;
  rw_window = cl.rw_window;
  g_reassembly_table = cl.g_reassembly_table;
  last_server_keepalive_time = cl.last_server_keepalive_time;
}

abbrev pub with_link : Link → Client → Client
with_link l cl = record cl {
  rw_window = l.rw_window;
  g_reassembly_table = l.g_reassembly_table;
  last_server_keepalive_time = l.last_server_keepalive_time;
}

-- What a turn meets: the time, the outcome of a handshake if there is one, whether the sender thread's
-- arguments are there, the packet of the TUN device, the datagrams that are read, the allocations and the
-- stack. The loop over the datagrams ends by `errno`, which a read that succeeds leaves as it is, so it may
-- read fewer than there are. `g_rehandshake_in_progress` is always 0 and `g_stop` too.
pub record Turn : Type 0 where
  pub now : ℕ
  pub outcome : Option Agreement
  pub has_sender : Bool
  pub tun : Option (List ℕ)
  pub datagrams : List (List ℕ)
  pub memory : ℕ → Bool
  pub stale : ℕ → List ℕ

-- How a turn ends: the process exits, after the packets that it sends; the loop returns -1; it goes on; or
-- a queue is used behind its end.
pub data Next : Type 0 where
  exits : List (List ℕ) → Next
  returns : Client → Next
  goes_on : Client → Next
  fault : Next

unfoldable pub keepalive_tick : Sodium → Turn → Client → Option (List ℕ) × Client
keepalive_tick c t cl =
    let (pkt, u) = send_keepalive c (t.stale 0) (uplink_of cl) in
    if leb keepalive_interval_sec (t.now - cl.last_keepalive)
    then (pkt, record (with_uplink u cl) { last_keepalive = t.now })
    else (none, cl)

abbrev pub rehandshake_due : ℕ → Client → Bool
rehandshake_due now cl =
    leb cl.argv_rehandshake_interval (now - cl.last_rehandshake)
    || (leb rehandshake_bytes_limit cl.server.bytes_sent
        || leb rehandshake_seq_limit cl.server.send_seq)

-- A handshake that succeeds leaves its keys for the sender thread, and the window and the time of the last
-- keepalive start again.
abbrev pub shake_hands : ℕ → Option Agreement → Client → Client
shake_hands now none cl = record cl {
  server = (rehandshake_client_with_state now none cl.server).1;
}
shake_hands now (some agreed) cl = record cl {
  server = (rehandshake_client_with_state now (some agreed) cl.server).1;
  pending = some agreed.keys;
  rw_window = fresh;
  last_server_keepalive_time = agreed.finished;
  last_rehandshake = now;
}

abbrev pub advised : Turn → Client → Advice × Server → Client
advised t cl (give_up, srv) = record cl { server = srv; disconnect_requested = true }
advised t cl (wait, srv) = record cl { server = srv }
advised t cl (attempt, srv) =
    if t.has_sender
    then shake_hands t.now t.outcome (record cl { server = srv })
    else record cl { server = srv }

unfoldable pub rehandshake_step : Turn → Client → Client
rehandshake_step t cl =
    if rehandshake_due t.now cl
    then advised t cl (should_attempt_rehandshake t.now cl.server)
    else cl

-- The datagrams that wait; a disconnect ends the process, and is `none`.
unfoldable pub receive : Sodium → ℕ → List (List ℕ) → Link → Option Link
receive c now [] l = some l
receive c now (buf ∷ bufs) l =
    let (o, l') = handle_udp_packet c now buf l in
    let rest = receive c now bufs l' in elim o [ disconnect ↦ none | other ↦ rest ]

abbrev quiet_if : Bool → ℕ → Client → Client
quiet_if b now cl = if b then record cl { last_server_keepalive_time = now } else cl

-- The event of the socket, if there is one.
unfoldable pub udp_event : Sodium → Turn → Client → Option Client
udp_event c t cl = elim t.datagrams [
  | [] ↦ some cl
  | buf ∷ bufs ↦ elim (receive c t.now (take max_burst (buf ∷ bufs)) (link_of cl)) [
    | none ↦ none
    | some l ↦ some (quiet_if cl.disconnect_requested t.now (with_link l cl))
  ]
]

-- The event of the TUN device, if there is one; `none` is a fault of the queue.
unfoldable pub tun_event : Sodium → Turn → Client → Option Client
tun_event c t cl = elim t.tun [
  | none ↦ some cl
  | some buf ↦ elim (handle_tun_packet c t.memory t.stale buf (uplink_of cl)) [
    | none ↦ none
    | some u ↦ some (with_uplink u cl)
  ]
]

unfoldable pub sweep_tick : ℕ → Client → Client
sweep_tick now cl =
    if leb 5 (now - cl.last_sweep)
    then record cl {
      g_reassembly_table = sweep_reassembly_table now cl.g_reassembly_table;
      last_sweep = now;
    }
    else cl

-- The events and the sweep. The TUN device is first.
unfoldable pub handle_events : Sodium → Turn → Client → Next
handle_events c t cl = elim (tun_event c t cl) [
  | none ↦ fault
  | some cl' ↦ elim (udp_event c t cl') [
    | none ↦ exits []
    | some cl'' ↦ goes_on (sweep_tick t.now cl'')
  ]
]

-- From the keepalive on.
unfoldable pub watch_server : Sodium → Turn → Client → Next
watch_server c t cl =
    if leb server_keepalive_timeout (t.now - cl.last_server_keepalive_time)
    then returns cl
    else handle_events c t (rehandshake_step t cl)

-- One turn of the loop; the keepalive that it sends, and how it ends.
unfoldable pub loop_turn : Sodium → Turn → Client → Option (List ℕ) × Next
loop_turn c t cl =
    let (bye, u) = send_disconnect c (t.stale 0) cl.g_session_id (uplink_of cl) in
    let (pkt, cl') = keepalive_tick c t cl in
    if cl.disconnect_requested then (none, exits bye) else (pkt, watch_server c t cl')

-- The turns of the loop, until it ends.
unfoldable pub event_loop_run : Sodium → List Turn → Client → Next
event_loop_run c [] cl = goes_on cl
event_loop_run c (t ∷ ts) cl = elim (loop_turn c t cl).1 [
  | exits pkts ↦ exits pkts
  | returns cl' ↦ returns cl'
  | goes_on cl' ↦ event_loop_run c ts cl'
  | fault ↦ fault
]
