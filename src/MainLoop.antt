-- ===== src/MainLoop.antt =====
-- The loop of `main` in chamlon_server/src/vpn_server.c, with `handle_outbound_tun` of
-- chamlon_server/src/packet_processor.c, and the turn of a worker with the jobs of
-- chamlon_server/src/thread_pool.c. The sockets and the TUN device are lists of what they have;
-- `memory k` says whether the buffer and the job of the k-th of them can be allocated. The time is read
-- once in a turn. The printed reports are left out.
pub mod Filter
pub mod Burst
pub mod Timers
mod Examples
use chamlon.Base.{
  ℕ, zero, suc, ◌+◌, ◌-◌, Bool, true, false, not, ◌||◌, List, [], ◌∷◌, Option, none, some, length,
  take, drop, get_or, ltb, leb, ◌==◌, if◌then◌else◌,
}
use chamlon.Wire.{decode_proto, pkt_magic, pkt_version, proto_header_len}
use chamlon.Metrics.{Metrics, metrics_record_connection_closed, metrics_set_active_connections}
use chamlon.RateLimiter.{rate_limiter_cleanup}
use chamlon.Crypto.{Sodium}
use chamlon.Sessions.{Session, Client, session_by_vpnip, cleanup_expired_sessions}
use chamlon.Datagram.{buffer_size}
use chamlon.Handshake.{Entropy, Calls, Server}
use chamlon.Inbound.{Effect, shard_key_of, handle_inbound_udp}
use chamlon.Outbound.{Sent, handle_outbound_tun_buf}
use chamlon.Maintenance.{perform_maintenance}
use chamlon.Shutdown.{count_active}
use chamlon.ThreadPool.{ThreadPool, thread_pool_submit_sharded, worker_take}

pub data Job : Type 0 where
  inbound : List ℕ → Client → Job
  outbound : List ℕ → Job

pub record State : Type 0 where
  pub server : Server
  pub g_next_packet_id : ℕ
  pub pool : ThreadPool Job
  pub last_cleanup : ℕ

abbrev pub max_burst : ℕ
max_burst = 64

-- The key of the worker for a datagram, or `none` where its header is refused.
unfoldable pub accept_datagram : List ℕ → Option ℕ
accept_datagram buf =
    let h = decode_proto buf in
    if ltb (length buf) proto_header_len
    then none
    else if not (h.magic == pkt_magic) || not (h.version == pkt_version)
    then none
    else some (shard_key_of buf)

-- A job that the queue has no room for is dropped. `none` is a fault.
unfoldable pub submit : Job → ℕ → ThreadPool Job → Option (ThreadPool Job)
submit job key pool = elim (thread_pool_submit_sharded job key pool) [
  | none ↦ none
  | some (done, pool') ↦ some pool'
]

unfoldable pub receive_datagram : Bool → List ℕ → Client → ThreadPool Job → Option (ThreadPool Job)
receive_datagram allocated buf src pool = elim (accept_datagram buf) [
  | none ↦ some pool
  | some key ↦ if allocated then submit (inbound buf src) key pool else some pool
]

-- The datagrams that wait, from the k-th on, each cut off at the size of the buffer less one. One of no
-- bytes ends the burst, like a failed read.
unfoldable pub receive_datagrams :
    (ℕ → Bool) → ℕ → List (List ℕ × Client) → ThreadPool Job → Option (ThreadPool Job)
receive_datagrams memory k [] pool = some pool
receive_datagrams memory k (([], src) ∷ rest) pool = some pool
receive_datagrams memory k ((b ∷ buf, src) ∷ rest) pool =
    elim (receive_datagram (memory k) (take (buffer_size - 1) (b ∷ buf)) src pool) [
      | none ↦ none
      | some pool' ↦ receive_datagrams memory (k + 1) rest pool'
    ]

-- `read` gives `none` where it fails or has nothing. The result says whether the loop goes on.
unfoldable pub handle_outbound_tun :
    Bool → Option (List ℕ) → List Session → ThreadPool Job → Option (Bool × ThreadPool Job)
handle_outbound_tun allocated none t pool = some (false, pool)
handle_outbound_tun allocated (some buf) t pool =
    if ltb (length buf) 20
    then some (true, pool)
    else elim (session_by_vpnip (take 4 (drop 16 buf)) t) [
      | none ↦ some (true, pool)
      | some i ↦
          if allocated
          then elim (submit (outbound buf) (get_or buf 19 0) pool) [
            | none ↦ none
            | some pool' ↦ some (true, pool')
          ]
          else some (true, pool)
    ]

-- The packets that the TUN device has.
unfoldable pub read_packets :
    (ℕ → Bool) → ℕ → List (List ℕ) → List Session → ThreadPool Job → Option (ThreadPool Job)
read_packets memory k [] t pool = some pool
read_packets memory k (buf ∷ bufs) t pool =
    elim (handle_outbound_tun (memory k) (some buf) t pool) [
      | none ↦ none
      | some (more, pool') ↦ read_packets memory (k + 1) bufs t pool'
    ]

-- `free_session` counts each session that is closed.
unfoldable pub count_closed : ℕ → Metrics → Metrics
count_closed zero m = m
count_closed (suc n) m = count_closed n (metrics_record_connection_closed m)

-- What is due every five seconds: what is sent, and the server.
unfoldable pub maintain :
    Sodium → (ℕ → Bool) → List ℕ → ℕ → Server → (List (List ℕ) × List (List ℕ)) × Server
maintain c memory stale now srv =
    let (sent, t) = perform_maintenance c memory stale now srv.sessions in
    let closed = count_closed (cleanup_expired_sessions now srv.sessions).freed srv.metrics in
    (
      sent,
      record srv {
        sessions = t;
        limiter = rate_limiter_cleanup now srv.limiter;
        metrics = metrics_set_active_connections (count_active t) closed;
      },
    )

abbrev pub cleanup_due : ℕ → State → Bool
cleanup_due now s = leb 5 (now - s.last_cleanup)

-- The first part of a turn.
unfoldable pub on_timer : Sodium → (ℕ → Bool) → List ℕ → ℕ → State → State
on_timer c memory stale now s =
    if cleanup_due now s
    then record s { server = (maintain c memory stale now s.server).1; last_cleanup = now }
    else s

-- One turn of the loop: the timer, the datagrams and the packets. `none` is a fault.
unfoldable pub main_turn :
    Sodium → (ℕ → Bool) → List ℕ → ℕ → List (List ℕ × Client) → List (List ℕ) → State → Option State
main_turn c memory stale now datagrams packets s =
    let s' = on_timer c memory stale now s in
    elim (receive_datagrams memory 0 (take max_burst datagrams) s'.pool) [
      | none ↦ none
      | some pool ↦
          elim (read_packets memory max_burst (take max_burst packets) s'.server.sessions pool) [
            | none ↦ none
            | some pool' ↦ some (record s' { pool = pool' })
          ]
    ]

-- What the outside gives to a job: the random generator, the allocations, the time and the stack.
pub record Ambient : Type 0 where
  pub e : Entropy
  pub again : Entropy
  pub calls : Calls
  pub memory : ℕ → Bool
  pub now : ℕ
  pub stale : List ℕ

pub data Done : Type 0 where
  handled : Effect → Done
  sent_out : Option (List Sent) → Done

unfoldable pub run_job : Sodium → Ambient → Job → State → Done × State
run_job c a (inbound buf src) s =
    let (effect, srv) = handle_inbound_udp c a.e a.again a.calls a.now src buf a.stale s.server in
    (handled effect, record s { server = srv })
run_job c a (outbound buf) s =
    let (out, rest) = handle_outbound_tun_buf c a.memory s.g_next_packet_id buf s.server.sessions in
    let srv : Server = record s.server { sessions = rest.1 } in
    (sent_out out, record s { server = srv; g_next_packet_id = rest.0 })

-- A worker takes a job from its queue and runs it; the inner `none` is an empty queue.
unfoldable pub worker_turn : Sodium → Ambient → ℕ → State → Option (Option Done × State)
worker_turn c a shard s = elim (worker_take shard s.pool) [
  | none ↦ none
  | some (job, pool) ↦ elim job [
    | none ↦ some (none, record s { pool = pool })
    | some j ↦ let (done, s') = run_job c a j (record s { pool = pool }) in some (some done, s')
  ]
]
