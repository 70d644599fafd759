-- ===== src/Rehandshake.antt =====
-- The client's re-handshake: chamlon_client/src/vpn_handshake.c, with the state of `server_t` in
-- chamlon_client/include/session.h. The exchange of messages is in `client_handshake`, whose outcome
-- is an argument here: the keys that it agrees on, or `none` where it fails. The clock is an argument
-- as well. The buffer of packets that wait is left out: it is freed on both paths.
pub mod Machine
mod Examples
use chamlon.Base.{
  ℕ, zero, suc, ◌+◌, ◌-◌, ◌*◌, ◌^◌, Bool, true, false, List, [], ◌∷◌, Option, none, some, ltb, leb,
  ◌==◌, if◌then◌else◌,
}

pub data Phase : Type 0 where
  ready in_progress backoff failed : Phase

-- The results 1, 0 and -1.
pub data Advice : Type 0 where
  attempt wait give_up : Advice

pub record Keys : Type 0 where
  pub session_id : List ℕ
  pub k_send : List ℕ
  pub k_recv : List ℕ

-- What a handshake that succeeds agrees on, and when it is over.
pub record Agreement : Type 0 where
  pub keys : Keys
  pub finished : ℕ

pub record Server : Type 0 where
  pub keys : Keys
  pub send_seq : ℕ
  pub bytes_sent : ℕ
  pub session_start_time : ℕ
  pub rehandshake_state : Phase
  pub rehandshake_attempts : ℕ
  pub rehandshake_last_attempt : ℕ
  pub rehandshake_backoff_sec : ℕ

abbrev pub max_attempts : ℕ
max_attempts = 5

abbrev pub max_backoff : ℕ
max_backoff = 60

unfoldable pub should_attempt_rehandshake : ℕ → Server → Advice × Server
should_attempt_rehandshake now srv =
    if leb max_attempts srv.rehandshake_attempts
    then (give_up, record srv { rehandshake_state = failed })
    else by_state srv.rehandshake_state
  where
    by_state : Phase → Advice × Server
    by_state ready = (attempt, srv)
    by_state in_progress = (wait, srv)
    by_state backoff =
        if leb srv.rehandshake_backoff_sec (now - srv.rehandshake_last_attempt)
        then (attempt, record srv { rehandshake_state = ready })
        else (wait, srv)
    by_state failed = (give_up, srv)

-- `1 << (attempts - 1)`, at most a minute.
abbrev pub backoff_after : ℕ → ℕ
backoff_after attempts =
    let shifted = 2 ^ (attempts - 1) in if ltb max_backoff shifted then max_backoff else shifted

-- `true` is success, the result 0.
unfoldable pub rehandshake_client_with_state : ℕ → Option Agreement → Server → Bool × Server
rehandshake_client_with_state now none srv =
    let attempts = srv.rehandshake_attempts + 1 in
    (
      false,
      record srv {
        rehandshake_last_attempt = now;
        rehandshake_attempts = attempts;
        rehandshake_backoff_sec = backoff_after attempts;
        rehandshake_state = backoff;
      },
    )
rehandshake_client_with_state now (some agreed) srv = (
  true,
  record srv {
    keys = agreed.keys;
    send_seq = 0;
    session_start_time = agreed.finished;
    bytes_sent = 0;
    rehandshake_last_attempt = now;
    rehandshake_attempts = 0;
    rehandshake_backoff_sec = 1;
    rehandshake_state = ready;
  },
)

-- What the event loop does when a re-handshake is due.
unfoldable pub rehandshake_tick : ℕ → Option Agreement → Server → Advice × Server
rehandshake_tick now outcome srv = follow (should_attempt_rehandshake now srv)
  where
    follow : Advice × Server → Advice × Server
    follow (attempt, s) = (attempt, (rehandshake_client_with_state now outcome s).1)
    follow (wait, s) = (wait, s)
    follow (give_up, s) = (give_up, s)
