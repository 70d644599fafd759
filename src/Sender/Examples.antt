-- ===== src/Sender/Examples.antt =====
-- Examples of the sender thread.
use chamlon.Base.{
  ℕ, ◌≤◌, ◌≡◌, refl, ap, get_or, true, false, List, [], ◌∷◌, ◌++◌, inl, some, arith, replicate,
}
use chamlon.Wire.{encode_proto}
use chamlon.RateLimiter.{
  ok, packets, rate_limiter_init, check_rate_limit, find_or_create_ip_entry, find_ip, check_entry,
  spend, refill_tokens,
}
use chamlon.Metrics.{metrics_init}
use chamlon.ReplayWindow.{check_replay}
use chamlon.OutQueue.{OutQueue, high}
use chamlon.OutQueue.Lanes.{IsValid}
use chamlon.Scheduler.{Timespec}
use chamlon.Crypto.{aead_encrypt}
use chamlon.Crypto.Toy.{toy, toy-IsSodium}
use chamlon.Sessions.{Session, Client, zero_session, letter_y, data_header, session_by_id}
use chamlon.Datagram.{data_packet, seal}
use chamlon.Handshake.{Entropy, Calls, Server}
use chamlon.Inbound.{handle_inbound_udp}
use chamlon.Sender.{SenderArgs, prepare_dummy_static_parts, Round, take_keys, sender_round}
use chamlon.ReplayWindow.Refine.{fresh-Stands}
use chamlon.Sender.Dummy.{
  Discarded, dummy_plain, IsPrepared, Sends, queued, sender_round-Sends, handle_inbound_udp-dummy,
}
use chamlon.Scheduler.Time.{nanos}
use chamlon.Sender.Deadline.{Waits, waiting, sender_round-Waits}
use chamlon.Sender.Rekey.{
  World, Step, AllDistinct, Use, apply_keys, offer_keys, swap_keys, seal_real, seal_dummy, dummy,
  real, applied, offered, swapped, here, next, Run-AllDistinct,
}
use chamlon.Sender.Reuse.{reused_nonce}

-- One packet waits, and new keys are left.
abbrev queue : OutQueue
queue = record {
  high_lane = record { nodes = record { pkt = 8 ∷ []; seq = 4; priority = high } ∷ []; size = 1 };
  normal_lane = record { nodes = []; size = 0 };
}

queue-IsValid : IsValid queue
queue-IsValid = record {
  high_ok = record { counted = refl; bounded = ground arith };
  normal_ok = record { counted = refl; bounded = ground arith };
}

abbrev sender : SenderArgs
sender = record {
  session_id = 4 ∷ replicate 15 0;
  k_send = 3 ∷ replicate 31 0;
  outq = queue;
  interval = record { tv_sec = 0; tv_nsec = 700000000 };
  pending_k_send = 6 ∷ replicate 31 0;
  pending_session_id = 7 ∷ replicate 15 0;
  pending_rekey = true;
  send_seq = 5;
  g_session_id = 4 ∷ replicate 15 0;
  final_pkt_dummy = encode_proto data_header ++ (4 ∷ replicate 15 0);
  dummy_payload = dummy_plain 64;
  argv_frag = 64;
  argv_cbr = letter_y;
  data_real = 0;
  data_dummy = 0;
  last_double_dummy_real = 0;
}

sender-IsPrepared : IsPrepared sender
sender-IsPrepared = record { header = refl; payload = refl; least = omega arith }

abbrev at : ℕ → Timespec
at s = record { tv_sec = s; tv_nsec = 500000000 }

sender_round-Sends_example :
    (r : Round) × (sender_round toy (at 9) (at 9) (at 8) sender ≡ some r)
    × Sends toy (queued queue) (take_keys sender).k_send (take_keys sender).session_id 5 64 r
sender_round-Sends_example =
    sender_round-Sends toy (at 9) (at 9) (at 8) sender toy-IsSodium sender-IsPrepared queue-IsValid
      refl

sender_round-Waits_example :
    (r : Round) × (sender_round toy (at 9) (at 9) (at 8) sender ≡ some r)
    × Waits (waiting queue) (at 9) sender.interval (at 8) r
    × (nanos (at 9) ≤ nanos r.next)
sender_round-Waits_example =
    sender_round-Waits toy (at 9) (at 9) (at 8) sender toy-IsSodium sender-IsPrepared queue-IsValid
      refl (omega arith) (omega arith) (omega arith)

-- The server's side of a dummy packet.
abbrev session : Session
session = record zero_session {
  active = true;
  session_id = 4 ∷ replicate 15 0;
  k_recv = 3 ∷ replicate 31 0;
}

abbrev server : Server
server = record {
  sign_sk_loaded = true;
  sign_sk = 9 ∷ [];
  server_sk = 9 ∷ replicate 31 0;
  limiter = rate_limiter_init 100;
  metrics = metrics_init 100;
  sessions = session ∷ [];
  scheduled = [];
}

abbrev client : Client
client = record { sin_family = 2; sin_addr = 77; sin_port = 5000 }

abbrev packet : List ℕ
packet = data_packet (4 ∷ replicate 15 0) 1 (replicate 16 0 ++ dummy_plain 64)

sealed : seal toy (3 ∷ replicate 31 0) (4 ∷ replicate 15 0) 1 (dummy_plain 64) ≡ some packet
unfolding seal aead_encrypt
sealed = refl

admitted : (check_rate_limit packets 100 77 (rate_limiter_init 100)).0 ≡ ok
unfolding check_rate_limit find_or_create_ip_entry find_ip check_entry spend refill_tokens
    rate_limiter_init
admitted = refl

found : session_by_id (4 ∷ replicate 15 0) (session ∷ []) ≡ some 0
unfolding session_by_id
found = refl

new : check_replay 1 session.rw_window ≡ false
unfolding check_replay
new = refl

abbrev entropy : Entropy
entropy = record { s_priv = 5 ∷ []; s_nonce = 8 ∷ replicate 7 0 }

abbrev calls : Calls
calls = record { allocated = true; sent = true }

handle_inbound_udp-dummy_example :
    Discarded 100 1 [] client packet 0 session server
      (handle_inbound_udp toy entropy entropy calls 100 client packet [] server)
handle_inbound_udp-dummy_example =
    handle_inbound_udp-dummy toy entropy entropy calls 100 1 64 [] client packet [] server 0 session
      toy-IsSodium (omega arith) (omega arith) (omega arith) refl admitted found refl fresh-Stands
      new sealed

-- The two threads: nothing is used at first.
abbrev world : List Use → World
world used = record {
  sender = record sender { pending_rekey = false; send_seq = 1 };
  k_send = 3 ∷ replicate 31 0;
  session_id = 4 ∷ replicate 15 0;
  offering = false;
  used = used;
}

-- A packet, a change of keys and a dummy packet under the new ones.
abbrev changed : World
changed = offer_keys (apply_keys (6 ∷ replicate 31 0) (7 ∷ replicate 15 0) (seal_real (world [])))

no_key : ◌≡◌ {A = List ℕ} (3 ∷ replicate 31 0) (6 ∷ replicate 31 0) → ⊥
no_key e = let first : ◌≡◌ {A = ℕ} 3 6 = ap (λ l. get_or l 0 0) e in omega arith

Run-AllDistinct_example : AllDistinct (seal_dummy toy (swap_keys changed)).used
unfolding seal_real apply_keys offer_keys swap_keys take_keys prepare_dummy_static_parts
Run-AllDistinct_example =
    Run-AllDistinct {c = toy} {w0 = world []} {w = seal_dummy toy (swap_keys changed)} tt tt refl
      refl
      (next
        (next
          (next
            (next (next here (real refl) (omega arith))
              (applied (6 ∷ replicate 31 0) (7 ∷ replicate 15 0) refl) (λ e. no_key e, tt))
            (offered refl) tt)
          swapped tt)
        (dummy refl) (refl, refl, omega arith))

reused_nonce_example :
    (w' : World) × Step toy
      (world ((3 ∷ replicate 31 0, 0) ∷ []))
      (apply_keys (6 ∷ replicate 31 0) (7 ∷ []) (world ((3 ∷ replicate 31 0, 0) ∷ [])))
    × Step toy (apply_keys (6 ∷ replicate 31 0) (7 ∷ []) (world ((3 ∷ replicate 31 0, 0) ∷ []))) w'
    × ¬ AllDistinct w'.used
reused_nonce_example =
    reused_nonce toy (world ((3 ∷ replicate 31 0, 0) ∷ [])) (6 ∷ replicate 31 0) (7 ∷ []) refl refl
      (inl (refl, refl))
