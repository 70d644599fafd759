-- ===== src/Handshake.antt =====
-- The handshake: `handle_msg1` and `handle_rehandshake_msg1` of chamlon_server/src/handshake.c. What the
-- random generator gives, what the clock says, and whether `malloc` and `sendto` succeed are arguments,
-- and libsodium is a parameter. The reply is `none` where the function returns -1.
pub mod ClientSide
pub mod Fields
pub mod Opening
pub mod Outcome
pub mod Agreement
pub mod Rotation
pub mod Invariant
mod Examples
use chamlon.Base.{
  ℕ, suc, ◌+◌, Bool, true, false, not, ◌&&◌, List, [], ◌∷◌, ◌++◌, Option, none, some, length, take,
  drop, get_elem?, get_or, ◌==◌, if◌then◌else◌,
}
use chamlon.Wire.{
  ProtoHeader, encode_proto, pkt_magic, pkt_version, pkt_type_handshake, bytes_of_u32, u32_at,
  session_id_len,
}
use chamlon.Crypto.{Sodium, derive_two_keys}
use chamlon.RateLimiter.{
  RateLimiter, Verdict, ok, exceeded, blacklisted, handshakes, check_rate_limit,
}
use chamlon.Metrics.{
  Metrics, metrics_record_handshake_initiated, metrics_record_handshake_failed,
  metrics_record_blacklist_event, metrics_record_handshake_completed,
  metrics_record_connection_established, metrics_record_connection_closed,
}
use chamlon.ReplayWindow.{fresh}
use chamlon.OutQueue.{out_queue_init}
use chamlon.Sessions.{
  Session, Client, Wanted, Agreed, same_client, first_slot, update_slot, vpn_ip_of, claim_slot,
  keyed, connected, retire_old, free_session, prepare_dummy_static_parts,
}

abbrev pub pubkey_len : ℕ
pubkey_len = 32

abbrev pub msg1_len : ℕ
msg1_len = 56

-- The fields of MSG1.
pub record Hello : Type 0 where
  pub c_pub : List ℕ
  pub c_nonce : List ℕ
  pub wanted : Wanted

abbrev pub handshake_header : ProtoHeader
handshake_header = record { magic = pkt_magic; version = pkt_version; type = pkt_type_handshake }

unfoldable pub parse_msg1 : List ℕ → Hello
parse_msg1 msg1 = record {
  c_pub = take pubkey_len (drop 6 msg1);
  c_nonce = take 8 (drop 38 msg1);
  wanted = record {
    mbps = u32_at msg1 46;
    frag = u32_at msg1 50;
    cbr = get_or msg1 54 0;
    pad = get_or msg1 55 0;
  };
}

-- What the random generator gives to the server.
pub record Entropy : Type 0 where
  pub s_priv : List ℕ
  pub s_nonce : List ℕ

pub record Server : Type 0 where
  pub sign_sk_loaded : Bool
  pub sign_sk : List ℕ
  pub server_sk : List ℕ
  pub limiter : RateLimiter
  pub metrics : Metrics
  pub sessions : List Session
  pub scheduled : List (List ℕ)

-- Whether the queue can be allocated, and MSG2 sent.
pub record Calls : Type 0 where
  pub allocated : Bool
  pub sent : Bool

-- The blob that the server signs.
abbrev pub to_sign : List ℕ → List ℕ → List ℕ → List ℕ → List ℕ
to_sign s_pub s_nonce c_pub c_nonce = s_pub ++ (s_nonce ++ (c_pub ++ c_nonce))

abbrev pub encode_msg2 : List ℕ → List ℕ → List ℕ → List ℕ → List ℕ
encode_msg2 s_pub s_nonce vpn_ip sig =
    encode_proto handshake_header ++ (s_pub ++ (s_nonce ++ (vpn_ip ++ sig)))

-- The first key, the second key and the session id of an exchange.
pub record Material : Type 0 where
  pub k1 : List ℕ
  pub k2 : List ℕ
  pub sid : List ℕ

abbrev pub key_material : Sodium → List ℕ → List ℕ → List ℕ → List ℕ → List ℕ → List ℕ → Material
key_material c dh1 dh2 c_nonce s_nonce c_pub s_pub =
    let (k1, k2) = derive_two_keys c (dh1 ++ dh2) (c_nonce ++ s_nonce) in
    let sid_input = (dh1 ++ dh2) ++ (c_nonce ++ (s_nonce ++ (c_pub ++ s_pub))) in
    record { k1 = k1; k2 = k2; sid = c.generichash session_id_len sid_input }

-- The signature and the keys; `none` where a call of libsodium fails.
unfoldable pub negotiate : Sodium → Entropy → Server → Hello → Option (List ℕ × Material)
negotiate c e srv h =
    let s_pub = c.public_of e.s_priv in
    elim (c.sign_detached srv.sign_sk (to_sign s_pub e.s_nonce h.c_pub h.c_nonce)) [
      | none ↦ none
      | some sig ↦ elim (c.scalarmult e.s_priv h.c_pub) [
        | none ↦ none
        | some dh1 ↦ elim (c.scalarmult srv.server_sk h.c_pub) [
          | none ↦ none
          | some dh2 ↦ some (sig, key_material c dh1 dh2 h.c_nonce e.s_nonce h.c_pub s_pub)
        ]
      ]
    ]

abbrev pub agreed_of : Hello → Material → Client → ℕ → Agreed
agreed_of h m src now = record {
  id = m.sid;
  recv_key = m.k1;
  send_key = m.k2;
  wanted = h.wanted;
  src = src;
  now = now;
}

-- Whether the loop over the other slots finds one to retire.
abbrev pub retires : Client → ℕ → ℕ → List Session → Bool
retires src i j [] = false
retires src i j (s ∷ ss) =
    let rest = retires src i (suc j) ss in
    if j == i then rest else (if s.active && same_client s.client_addr src then true else rest)

abbrev closed_if : Bool → Metrics → Metrics
closed_if true m = metrics_record_connection_closed m
closed_if false m = m

-- The slot before its queue is there, and before MSG2 is sent.
abbrev pub located : Agreed → Session → Session
located a s = record s { client_addr = a.src; last_activity = a.now }

abbrev pub queued : Agreed → Session → Session
queued a s = record s { client_addr = a.src; last_activity = a.now; outq = some out_queue_init }

-- From the agreed keys on, for slot i.
unfoldable pub finish_msg1 :
    Calls → Agreed → ℕ → List ℕ → List Session → Server → Option (List ℕ) × Server
finish_msg1 calls a i msg2 t srv =
    let keys = update_slot i (keyed a) t in
    let rest = retire_old a.src i 0 keys in
    let metrics' = closed_if (retires a.src i 0 keys) srv.metrics in
    if not calls.allocated
    then (
      none,
      record srv {
        sessions = free_session i (update_slot i (located a) rest);
        metrics = metrics_record_connection_closed metrics';
      },
    )
    else (if not calls.sent
        then (
          none,
          record srv {
            sessions = free_session i (update_slot i (queued a) rest);
            metrics = metrics_record_connection_closed metrics';
            scheduled = a.id ∷ srv.scheduled;
          },
        )
        else (
          some msg2,
          record srv {
            sessions = update_slot i (connected a) rest;
            metrics =
                metrics_record_connection_established (metrics_record_handshake_completed metrics');
            scheduled = a.id ∷ srv.scheduled;
          },
        ))

-- From the slot on.
unfoldable pub answer_msg1 :
    Sodium
    → Entropy
    → Calls
    → ℕ
    → Client
    → Hello
    → Server
    → ℕ
    → List Session
    → Option (List ℕ) × Server
answer_msg1 c e calls now src h srv i t = answered (negotiate c e srv h)
  where
    answered : Option (List ℕ × Material) → Option (List ℕ) × Server
    answered none = (none, record srv { sessions = free_session i t })
    answered (some (sig, m)) =
        finish_msg1 calls (agreed_of h m src now) i
          (encode_msg2 (c.public_of e.s_priv) e.s_nonce (vpn_ip_of i) sig) t srv

-- From the checks on.
unfoldable pub admit_msg1 :
    Sodium → Entropy → Calls → ℕ → Client → Hello → Server → Option (List ℕ) × Server
admit_msg1 c e calls now src h srv = claimed (claim_slot h.wanted srv.sessions)
  where
    claimed : Option ℕ × List Session → Option (List ℕ) × Server
    claimed (none, t) =
        (none, record srv { sessions = t; metrics = metrics_record_handshake_failed srv.metrics })
    claimed (some i, t) = answer_msg1 c e calls now src h srv i t

unfoldable pub handle_msg1 :
    Sodium → Entropy → Calls → ℕ → Client → List ℕ → Server → Option (List ℕ) × Server
handle_msg1 c e calls now src msg1 srv =
    let (v, limiter') = check_rate_limit handshakes now src.sin_addr srv.limiter in
    let initiated : Server = record srv {
      metrics = metrics_record_handshake_initiated srv.metrics;
      limiter = limiter';
    } in
    let failed : Server = record initiated {
      metrics = metrics_record_handshake_failed initiated.metrics;
    } in
    let blocked : Server = record failed {
      metrics = metrics_record_blacklist_event failed.metrics;
    } in
    if not srv.sign_sk_loaded then (none, srv) else elim v [
      | blacklisted ↦ (none, blocked)
      | exceeded ↦ (none, failed)
      | ok ↦
          if length msg1 == msg1_len
          then admit_msg1 c e calls now src (parse_msg1 msg1) initiated
          else (none, initiated)
    ]

-- The session of a client that rotates its keys: the address and the slot stay.
abbrev pub rotated : Bool → ℕ → Material → Session → Session
rotated allocated now m s =
    record (prepare_dummy_static_parts (record s {
      k_recv = m.k1;
      k_send = m.k2;
      session_id = m.sid;
      outq = if allocated then some out_queue_init else none;
    })) { send_seq = 0; rw_window = fresh; last_recv_seq = 0; last_activity = now }

abbrev pub session_by_client : Client → List Session → Option ℕ
session_by_client src t = first_slot (λ s. s.active && same_client s.client_addr src) t

abbrev pub vpn_ip_at : List Session → ℕ → List ℕ
vpn_ip_at t i = elim (get_elem? t i) [ none ↦ [] | some s ↦ s.vpn_ip ]

-- `again` is what the random generator gives to `handle_msg1`, where the function falls back on it.
unfoldable pub handle_rehandshake_msg1 :
    Sodium → Entropy → Entropy → Calls → ℕ → Client → List ℕ → Server → Option (List ℕ) × Server
handle_rehandshake_msg1 c e again calls now src msg1 srv =
    let h = parse_msg1 msg1 in
    let fallback = handle_msg1 c again calls now src msg1 srv in
    if not (length msg1 == msg1_len)
    then (none, srv)
    else elim (session_by_client src srv.sessions) [
      | none ↦ fallback
      | some i ↦ elim (negotiate c e srv h) [
        | none ↦ fallback
        | some (sig, m) ↦ (
          some (encode_msg2 (c.public_of e.s_priv) e.s_nonce (vpn_ip_at srv.sessions i) sig),
          record srv {
            sessions = update_slot i (rotated calls.allocated now m) srv.sessions;
            scheduled = m.sid ∷ srv.scheduled;
          },
        )
      ]
    ]
