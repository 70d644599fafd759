-- ===== src/MainLoop/Examples.antt =====
-- Examples of the loop of the server.
use chamlon.Base.{
  ℕ, zero, suc, ◌+◌, ◌≤◌, ◌≡◌, refl, true, false, List, [], ◌∷◌, ◌++◌, none, some, arith, replicate,
  get_elem?,
}
use chamlon.Wire.{decode_proto}
use chamlon.Datagram.{data_packet}
use chamlon.RateLimiter.{rate_limiter_init}
use chamlon.Metrics.{metrics_init}
use chamlon.Crypto.Toy.{toy}
use chamlon.Sessions.{Session, Client, zero_session}
use chamlon.Handshake.{Entropy, Calls, Server}
use chamlon.ThreadPool.{ShardQueue, ThreadPool}
use chamlon.Inbound.{ignored, handle_inbound_udp}
use chamlon.MainLoop.Filter.{handle_inbound_udp-refused}
use chamlon.MainLoop.{Job, State, accept_datagram, receive_datagrams, on_timer}
use chamlon.MainLoop.Burst.{HasRoom, jobs_at, jobs_for, receive_datagrams-jobs_at}
use chamlon.MainLoop.Timers.{Counted, on_timer-Counted}

abbrev session : Session
session = record zero_session { active = true; session_id = 4 ∷ replicate 15 0; last_activity = 10 }

abbrev server : Server
server = record {
  sign_sk_loaded = true;
  sign_sk = 9 ∷ [];
  server_sk = 9 ∷ replicate 31 0;
  limiter = rate_limiter_init 100;
  metrics = metrics_init 100;
  sessions = session ∷ [];
  scheduled = [];
}

abbrev client : Client
client = record { sin_family = 2; sin_addr = 77; sin_port = 5000 }

abbrev entropy : Entropy
entropy = record { s_priv = 5 ∷ []; s_nonce = 8 ∷ replicate 7 0 }

abbrev calls : Calls
calls = record { allocated = true; sent = true }

-- A datagram with a wrong header.
abbrev noise : List ℕ
noise = replicate 30 1

refused : accept_datagram noise ≡ none
unfolding accept_datagram decode_proto
refused = refl

handle_inbound_udp-refused_example :
    handle_inbound_udp toy entropy entropy calls 100 client noise [] server ≡ (ignored, server)
handle_inbound_udp-refused_example =
    handle_inbound_udp-refused toy entropy entropy calls 100 client noise [] server refused

abbrev idle : ShardQueue Job
idle = record { jobs = []; size = 0; max_size = 4096 }

abbrev pool : ThreadPool Job
pool = record { shards = idle ∷ idle ∷ []; num_threads = 2; shutdown = false }

-- Each queue of the pool is idle.
idle_at : (k : ℕ) (q : ShardQueue Job) → get_elem? pool.shards k ≡ some q → q.size + 2 ≤ q.max_size
idle_at zero q e = ground arith
idle_at (suc zero) q e = ground arith
idle_at (suc (suc k)) q e = ground arith

pool-HasRoom : HasRoom 2 2 pool
pool-HasRoom = record { threads = refl; some_thread = omega arith; slots = refl; room = idle_at }

abbrev datagrams : List (List ℕ × Client)
datagrams = (noise, client) ∷ (data_packet (4 ∷ replicate 15 0) 1 (replicate 40 0), client) ∷ []

receive_datagrams-jobs_at_example :
    (pool' : ThreadPool Job) × (receive_datagrams (λ n. true) 0 datagrams pool ≡ some pool')
    × ((k : ℕ) → jobs_at k pool' ≡ jobs_at k pool ++ jobs_for 2 k datagrams)
receive_datagrams-jobs_at_example =
    receive_datagrams-jobs_at (λ n. true) 0 2 datagrams pool (λ k. refl) pool-HasRoom

abbrev state : State
state = record { server = server; g_next_packet_id = 1; pool = pool; last_cleanup = 100 }

on_timer-Counted_example :
    (ended : ℕ) × Counted state (on_timer toy (λ n. true) [] 200 state) ended
    × ((on_timer toy (λ n. true) [] 200 state).last_cleanup ≡ 200)
    × ((on_timer toy (λ n. true) [] 200 state).pool ≡ pool)
unfolding metrics_init
on_timer-Counted_example = on_timer-Counted toy (λ n. true) [] 200 state (omega arith) (omega arith)
