-- ===== src/Inbound/Opening.antt =====
-- The way of a packet that a client sealed through the handler.
use chamlon.Base.{
  ℕ, ◌+◌, ◌-◌, ◌<◌, ◌≤◌, ◌^◌, ◌≡◌, refl, ap, ◌∙◌, false, List, some, arith, length, get_elem?, ltb,
}
use chamlon.Wire.{decode_proto}
use chamlon.RateLimiter.{ok, packets, check_rate_limit}
use chamlon.ReplayWindow.{check_replay}
use chamlon.Reassembly.{handle_plain_server}
use chamlon.Metrics.{metrics_record_packet_received}
use chamlon.Crypto.{Sodium}
use chamlon.Crypto.Contract.{IsSodium, aead_decrypt-aead_encrypt, length-aead_encrypt}
use chamlon.Sessions.{Session, Client, session_by_id, update_slot}
use chamlon.Handshake.{Entropy, Calls, Server}
use chamlon.Datagram.{session_id_at, seq_at, cipher_at, seal}
use chamlon.Datagram.Fields.{
  decode_proto-data_packet, session_id_at-data_packet, seq_at-data_packet, cipher_at-data_packet,
  length-data_packet,
}
use chamlon.ClientLink.Opening.{seal_lem}
use chamlon.Inbound.{
  Effect, tunnel, received, closed_by, closed_metrics, open_data, handle_data, limited_data,
  handle_inbound_udp,
}

-- The state of the server after an authentic packet.
abbrev pub after :
    ℕ → Client → List ℕ → List ℕ → List ℕ → ℕ → ℕ → Session → Server → Effect × Server
after now src pkt plain stale seq i s srv =
    let (o, t) = handle_plain_server now plain stale s.g_reassembly_table in
    (
      tunnel o,
      record srv {
        limiter = (check_rate_limit packets now src.sin_addr srv.limiter).1;
        metrics = closed_metrics o (metrics_record_packet_received (length pkt) srv.metrics);
        sessions = closed_by o i (update_slot i (received now seq t) srv.sessions);
      },
    )

-- No guard refuses the packet.
pub handle_inbound_udp-after :
    (c : Sodium) (e again : Entropy) (calls : Calls) (now seq : ℕ) (src : Client)
    (plain pkt stale : List ℕ) (srv : Server) (i : ℕ) (s : Session)
    → IsSodium c
    → seq < 2 ^ 64
    → length plain + 46 ≤ 1600
    → length s.session_id ≡ 16
    → (check_rate_limit packets now src.sin_addr srv.limiter).0 ≡ ok
    → session_by_id s.session_id srv.sessions ≡ some i
    → get_elem? srv.sessions i ≡ some s
    → check_replay seq s.rw_window ≡ false
    → seal c s.k_recv s.session_id seq plain ≡ some pkt
    → handle_inbound_udp c e again calls now src pkt stale srv
      ≡ after now src pkt plain stale seq i s srv
unfolding handle_inbound_udp limited_data handle_data open_data
handle_inbound_udp-after c e again calls now seq src plain pkt stale srv i s good fits short sixteen
      admitted found there passes sealed =
    let id = s.session_id in
    let (out, enc, same) = seal_lem c s.k_recv id seq plain pkt sealed in
    let long = length-aead_encrypt c s.k_recv id seq plain out good enc in
    let opens = aead_decrypt-aead_encrypt c s.k_recv id seq plain out good enc in
    let len : length pkt ≡ 30 + length out =
      ap length same ∙ length-data_packet id seq out sixteen in
    let t1 : ltb (length pkt) 6 ≡ false = grind (arith, len) in
    let t2 : ltb 1600 (length pkt) ≡ false = grind (arith, len, long, short) in
    let t3 : ltb (length pkt) 22 ≡ false = grind (arith, len) in
    let t4 : ltb (length pkt) 30 ≡ false = grind (arith, len) in
    let t5 : ltb 1570 (length pkt - 30) ≡ false = grind (arith, len, long, short) in
    let t6 : ltb 1600 (length plain) ≡ false = grind (arith, short) in
    let h = ap decode_proto same ∙ decode_proto-data_packet id seq out sixteen in
    let f1 = ap session_id_at same ∙ session_id_at-data_packet id seq out sixteen in
    let f2 = ap seq_at same ∙ seq_at-data_packet id seq out sixteen fits in
    let f3 = ap cipher_at same ∙ cipher_at-data_packet id seq out sixteen in
    let srv1 : Server = record srv {
      limiter = (check_rate_limit packets now src.sin_addr srv.limiter).1;
    } in
    let srv2 : Server = record srv1 {
      metrics = metrics_record_packet_received (length pkt) srv.metrics;
    } in
    let s1 : handle_inbound_udp c e again calls now src pkt stale srv
        ≡ limited_data c now src pkt stale srv =
      rw (handle_inbound_udp, h, t1, t2) refl in
    let s2 : limited_data c now src pkt stale srv ≡ handle_data c now pkt stale srv1 =
      rw (limited_data, admitted) refl in
    let s3 : handle_data c now pkt stale srv1 ≡ open_data c now pkt stale i s srv2 =
      rw (handle_data, t3, f1, found, there) refl in
    let s4 : open_data c now pkt stale i s srv2 ≡ after now src pkt plain stale seq i s srv =
      rw (open_data, t4, f2, passes, t5, f3, opens, t6)
        (ap (λ n. after now src pkt plain stale n i s srv) f2) in
    s1 ∙ s2 ∙ s3 ∙ s4
