-- ===== src/Inbound.antt =====
-- Datagrams that the server receives: `handle_inbound_udp` of chamlon_server/src/packet_processor.c, and
-- how the loop of `main` in chamlon_server/src/vpn_server.c chooses the worker for them. `buf` is the
-- block of as many bytes as were received, and `stale` what stands on the stack behind the decrypted
-- bytes. The clock is read once.
pub mod Passing
pub mod Opening
pub mod Sealed
pub mod Dispatch
mod Examples
use chamlon.Base.{
  ℕ, ◌+◌, ◌-◌, Bool, true, false, not, ◌&&◌, ◌||◌, List, Option, none, some, length, get_elem?,
  get_or, ltb, ◌==◌, if◌then◌else◌,
}
use chamlon.Wire.{
  decode_proto, pkt_magic, pkt_version, pkt_type_data, pkt_type_handshake, session_id_len,
  proto_header_len,
}
use chamlon.RateLimiter.{Verdict, ok, exceeded, blacklisted, packets, check_rate_limit}
use chamlon.Metrics.{
  metrics_record_packet_dropped, metrics_record_rate_limit_drop, metrics_record_packet_received,
  metrics_record_validation_error, metrics_record_connection_closed, Metrics,
}
use chamlon.ReplayWindow.{check_replay, update_window}
use chamlon.Reassembly.{Outcome, disconnect, handle_plain_server, Table}
use chamlon.Crypto.{Sodium, aead_decrypt}
use chamlon.Sessions.{Session, Client, session_by_id, first_slot, update_slot, free_session}
use chamlon.Handshake.{
  Entropy, Calls, Server, msg1_len, session_by_client, handle_msg1, handle_rehandshake_msg1,
}
use chamlon.Datagram.{buffer_size, data_header_len, session_id_at, seq_at, cipher_at}

-- What a datagram leads to: it is ignored, it was a handshake with or without an answer, or it was an
-- authentic tunnel packet. `overread` is a read behind the bytes received, which C leaves undefined.
pub data Effect : Type 0 where
  ignored overread : Effect
  handshake : Option (List ℕ) → Effect
  tunnel : Outcome → Effect

abbrev pub touched : ℕ → Session → Session
touched now s = record s { last_activity = now }

abbrev pub received : ℕ → ℕ → Table → Session → Session
received now seq t s = record s {
  last_activity = now;
  rw_window = update_window seq s.rw_window;
  g_reassembly_table = t;
}

-- A disconnect frees the session.
abbrev pub closed_by : Outcome → ℕ → List Session → List Session
closed_by disconnect i t = free_session i t
closed_by o i t = t

-- `free_session` counts a session that was active, as each session that is found is.
abbrev pub closed_metrics : Outcome → Metrics → Metrics
closed_metrics disconnect m = metrics_record_connection_closed m
closed_metrics o m = m

-- From the session in slot i on.
unfoldable pub open_data : Sodium → ℕ → List ℕ → List ℕ → ℕ → Session → Server → Effect × Server
open_data c now buf stale i s srv =
    let seq = seq_at buf in
    let seen : Server = record srv { sessions = update_slot i (touched now) srv.sessions } in
    if ltb (length buf) data_header_len
    then (overread, seen)
    else if check_replay seq s.rw_window
    then (ignored, record seen { metrics = metrics_record_validation_error seen.metrics })
    else if ltb (buffer_size - data_header_len) (length buf - data_header_len)
    then (ignored, seen)
    else elim (aead_decrypt c s.k_recv s.session_id seq (cipher_at buf)) [
      | none ↦ (ignored, seen)
      | some plain ↦
          if ltb buffer_size (length plain)
          then (ignored, seen)
          else (let (o, t) = handle_plain_server now plain stale s.g_reassembly_table in
              (
                tunnel o,
                record srv {
                  sessions = closed_by o i (update_slot i (received now seq t) srv.sessions);
                  metrics = closed_metrics o srv.metrics;
                },
              ))
    ]

abbrev pub any_active : List Session → Bool
any_active t = elim (first_slot (λ s. s.active) t) [ none ↦ false | some i ↦ true ]

-- From the metrics of received packets on. The search compares the identifiers of active sessions with
-- the 16 bytes behind the header.
unfoldable pub handle_data : Sodium → ℕ → List ℕ → List ℕ → Server → Effect × Server
handle_data c now buf stale srv =
    let counted : Server = record srv {
      metrics = metrics_record_packet_received (length buf) srv.metrics;
    } in
    if ltb (length buf) (proto_header_len + session_id_len) && any_active srv.sessions
    then (overread, counted)
    else elim (session_by_id (session_id_at buf) srv.sessions) [
      | none ↦ (ignored, counted)
      | some i ↦ elim (get_elem? srv.sessions i) [
        | none ↦ (ignored, counted)
        | some s ↦ open_data c now buf stale i s counted
      ]
    ]

abbrev handshake_of : Option (List ℕ) × Server → Effect × Server
handshake_of (reply, srv) = (handshake reply, srv)

-- A packet of the length of MSG1 goes to the handler that the client's address calls for.
unfoldable pub handle_handshake :
    Sodium → Entropy → Entropy → Calls → ℕ → Client → List ℕ → Server → Effect × Server
handle_handshake c e again calls now src buf srv =
    if length buf == msg1_len
    then elim (session_by_client src srv.sessions) [
      | some i ↦ handshake_of (handle_rehandshake_msg1 c e again calls now src buf srv)
      | none ↦ handshake_of (handle_msg1 c e calls now src buf srv)
    ]
    else (ignored, srv)

-- Data packets are limited; other types of packets are not.
unfoldable pub limited_data : Sodium → ℕ → Client → List ℕ → List ℕ → Server → Effect × Server
limited_data c now src buf stale srv =
    let (v, limiter') = check_rate_limit packets now src.sin_addr srv.limiter in
    let refused : Server = record srv {
      limiter = limiter';
      metrics = metrics_record_rate_limit_drop (metrics_record_packet_dropped srv.metrics);
    } in
    elim v [
      | ok ↦ handle_data c now buf stale (record srv { limiter = limiter' })
      | exceeded ↦ (ignored, refused)
      | blacklisted ↦ (ignored, refused)
    ]

unfoldable pub handle_inbound_udp :
    Sodium → Entropy → Entropy → Calls → ℕ → Client → List ℕ → List ℕ → Server → Effect × Server
handle_inbound_udp c e again calls now src buf stale srv =
    let h = decode_proto buf in
    if ltb (length buf) proto_header_len
    then (ignored, srv)
    else if ltb buffer_size (length buf)
    then (ignored, srv)
    else if not (h.magic == pkt_magic) || not (h.version == pkt_version)
    then (ignored, srv)
    else if h.type == pkt_type_data
    then limited_data c now src buf stale srv
    else if h.type == pkt_type_handshake
    then handle_handshake c e again calls now src buf srv
    else handle_data c now buf stale srv

-- The key by which the loop of `main` chooses the worker for a packet that passes the header's check.
unfoldable pub shard_key_of : List ℕ → ℕ
shard_key_of buf =
    if get_or buf 5 0 == pkt_type_data && not (ltb (length buf) (proto_header_len + session_id_len))
    then get_or buf 6 0
    else 0
