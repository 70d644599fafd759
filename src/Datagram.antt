-- ===== src/Datagram.antt =====
-- The data packets of both directions: the header, the session identifier, the sequence number and the
-- sealed tunnel packet, as `send_outbound_packet` of chamlon_server/src/packet_processor.c and
-- `handle_tun_packet` of chamlon_client/src/vpn_packet_handler.c write them and as the two handlers of
-- received packets read them; and the control packets that both sides send. A `tunnel_header_t` that
-- is not initialised leaves its 16 bytes of `session_id` as they were on the stack: they are an argument.
pub mod Fields
use chamlon.Base.{
  ℕ, ◌+◌, ◌-◌, Bool, true, false, not, ◌||◌, List, ◌++◌, Option, none, some, length, take, drop,
  replicate, ltb, if◌then◌else◌, u64,
}
use chamlon.Wire.{
  TunnelHeader, encode_proto, encode_tunnel, seq_bytes, read_seq, session_id_len, tunnel_header_len,
  pkt_ctrl_keepalive, pkt_ctrl_disconnect,
}
use chamlon.Crypto.{Sodium, aead_encrypt}
use chamlon.Sessions.{Session, data_header}

abbrev pub buffer_size : ℕ
buffer_size = 1600

abbrev pub data_header_len : ℕ
data_header_len = 30

unfoldable pub data_packet : List ℕ → ℕ → List ℕ → List ℕ
data_packet session_id seq out =
    encode_proto data_header ++ (take session_id_len session_id ++ (seq_bytes seq ++ out))

abbrev pub session_id_at : List ℕ → List ℕ
session_id_at buf = take session_id_len (drop 6 buf)

abbrev pub seq_at : List ℕ → ℕ
seq_at buf = read_seq 0 (take 8 (drop 22 buf))

abbrev pub cipher_at : List ℕ → List ℕ
cipher_at buf = drop data_header_len buf

-- A tunnel packet that is encrypted and framed; `none` where the encryption fails.
unfoldable pub seal : Sodium → List ℕ → List ℕ → ℕ → List ℕ → Option (List ℕ)
seal c key session_id seq plain = elim (aead_encrypt c key session_id seq plain) [
  | none ↦ none
  | some out ↦ some (data_packet session_id seq out)
]

abbrev pub next_seq : ℕ → ℕ
next_seq seq = u64 (seq + 1)

abbrev control_header : ℕ → List ℕ → TunnelHeader
control_header flags stale = record {
  packet_id = 1;
  fragment_offset = 1;
  total_ip_len = 1;
  flags = flags;
  session_id = stale;
}

-- A control packet of `frag` bytes, the rest of them `filler`.
abbrev pub control_plain : ℕ → ℕ → ℕ → List ℕ → List ℕ
control_plain flags filler frag stale =
    encode_tunnel (control_header flags stale) ++ replicate (frag - tunnel_header_len) filler

-- A packet that would not fit the buffer is not sent.
unfoldable pub send_control_packet : Sodium → List ℕ → ℕ → Session → Option (List ℕ) × Session
send_control_packet c stale ctrl_type s =
    let sealed =
      seal c s.k_send s.session_id s.send_seq (control_plain ctrl_type 0x77 s.argv_frag stale) in
    let s' = record s { send_seq = next_seq s.send_seq } in
    if not s.active
    then (none, s)
    else (if ltb 1600 s.argv_frag || ltb s.argv_frag 64 then (none, s) else elim sealed [
      | none ↦ (none, s')
      | some pkt ↦ (if ltb buffer_size (length pkt) then none else some pkt, s')
    ])

-- The keepalive of the server: the header alone, with all its other fields 0.
abbrev pub keepalive_header : TunnelHeader
keepalive_header = record {
  packet_id = 0;
  fragment_offset = 0;
  total_ip_len = 0;
  flags = pkt_ctrl_keepalive;
  session_id = replicate session_id_len 0;
}

unfoldable pub send_keepalive_to_client : Sodium → Bool → Session → Option (List ℕ) × Session
send_keepalive_to_client c allocated s =
    let sealed = seal c s.k_send s.session_id s.send_seq (encode_tunnel keepalive_header) in
    (if allocated then sealed else none, record s { send_seq = next_seq s.send_seq })
