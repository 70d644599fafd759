-- ===== src/EventLoop/Examples.antt =====
-- Examples of the client's event loop.
use chamlon.Base.{ℕ, ◌≡◌, refl, true, false, [], ◌∷◌, none, inl, inr, arith, replicate}
use chamlon.ReplayWindow.{fresh}
use chamlon.OutQueue.{OutQueue}
use chamlon.Crypto.Toy.{toy}
use chamlon.Rehandshake.{Server, ready, failed}
use chamlon.Uplink.{send_disconnect}
use chamlon.EventLoop.{Client, Turn, goes_on, exits, uplink_of, loop_turn, event_loop_run}
use chamlon.EventLoop.Silence.{IsSilent, Ended, event_loop_run-Ended}
use chamlon.EventLoop.GivingUp.{IsQuiet, event_loop_run-gives_up}

abbrev queue : OutQueue
queue = record {
  high_lane = record { nodes = []; size = 0 };
  normal_lane = record { nodes = []; size = 0 };
}

-- Five attempts have failed.
abbrev server : Server
server = record {
  keys = record {
    session_id = 4 ∷ replicate 15 0;
    k_send = 3 ∷ replicate 31 0;
    k_recv = 5 ∷ replicate 31 0;
  };
  send_seq = 7;
  bytes_sent = 0;
  session_start_time = 10;
  rehandshake_state = ready;
  rehandshake_attempts = 5;
  rehandshake_last_attempt = 900;
  rehandshake_backoff_sec = 16;
}

abbrev client : Client
client = record {
  server = server;
  g_session_id = 4 ∷ replicate 15 0;
  g_next_packet_id = 1;
  g_outq = queue;
  argv_frag = 500;
  argv_pad = 110;
  argv_rehandshake_interval = 900;
  rw_window = fresh;
  g_reassembly_table = [];
  disconnect_requested = false;
  pending = none;
  last_server_keepalive_time = 1000;
  last_keepalive = 990;
  last_sweep = 1000;
  last_rehandshake = 100;
}

abbrev turn_at : ℕ → Turn
turn_at s = record {
  now = s;
  outcome = none;
  has_sender = true;
  tun = none;
  datagrams = [];
  memory = λ n. true;
  stale = λ n. [];
}

IsSilent-turn_at : (s : ℕ) → IsSilent (turn_at s)
IsSilent-turn_at s = record { nothing = refl; failed = refl }

event_loop_run-Ended_example : Ended (event_loop_run toy (turn_at 1050 ∷ turn_at 1130 ∷ []) client)
event_loop_run-Ended_example =
    event_loop_run-Ended toy (turn_at 1050 ∷ turn_at 1130 ∷ []) client
      (IsSilent-turn_at 1050, (IsSilent-turn_at 1130, tt)) (inr (inl (omega arith)))

quiet : IsQuiet (turn_at 1010) client
quiet = record {
  no_packet = refl;
  no_datagram = refl;
  not_requested = refl;
  in_time = omega arith;
  is_due = omega arith;
}

event_loop_run-gives_up_example :
    (cl' : Client) × ((loop_turn toy (turn_at 1010) client).1 ≡ goes_on cl')
    × (cl'.server.rehandshake_state ≡ failed)
    × (event_loop_run toy (turn_at 1010 ∷ turn_at 1011 ∷ []) client
        ≡ exits (send_disconnect toy [] cl'.g_session_id (uplink_of cl')).0)
event_loop_run-gives_up_example =
    event_loop_run-gives_up toy (turn_at 1010) (turn_at 1011) [] client quiet (omega arith)
