-- ===== src/Wire.antt =====
-- The packed structs that go over the wire: `proto_header_t` and `tunnel_header_t` of
-- chamlon_server/include/vpn_common.h (chamlon_client/include/packet.h has the same), the
-- big-endian sequence numbers, and the nonce of vpn_crypto.c. A struct is copied by `memcpy` on a
-- little-endian machine. A byte is a number below 256.
pub mod RoundTrip
mod Examples
use chamlon.Base.{
  ℕ, zero, suc, ◌+◌, ◌-◌, ◌*◌, ◌/◌, ◌%◌, ◌^◌, Bool, List, [], ◌∷◌, ◌++◌, Option, none, some, take,
  drop, length, get_or, replicate, bit_or, bit_and, shl_u64, shr, u64,
}

abbrev pub session_id_len : ℕ
session_id_len = 16

abbrev pub pkt_magic : ℕ
pkt_magic = 0x77E1DA

abbrev pub pkt_version : ℕ
pkt_version = 1

abbrev pub pkt_type_handshake : ℕ
pkt_type_handshake = 222

abbrev pub pkt_type_data : ℕ
pkt_type_data = 111

abbrev pub pkt_ctrl_keepalive : ℕ
pkt_ctrl_keepalive = 0x02

abbrev pub pkt_ctrl_disconnect : ℕ
pkt_ctrl_disconnect = 0x03

abbrev pub pkt_dummy : ℕ
pkt_dummy = 0xFF

abbrev pub more_fragments : ℕ
more_fragments = 0x8000

pub record ProtoHeader : Type 0 where
  pub magic : ℕ
  pub version : ℕ
  pub type : ℕ

pub record TunnelHeader : Type 0 where
  pub packet_id : ℕ
  pub fragment_offset : ℕ
  pub total_ip_len : ℕ
  pub flags : ℕ
  pub session_id : List ℕ

abbrev pub proto_header_len : ℕ
proto_header_len = 6

abbrev pub tunnel_header_len : ℕ
tunnel_header_len = 24

-- A `uint16_t` and a `uint32_t` in memory.
abbrev pub bytes_of_u16 : ℕ → List ℕ
bytes_of_u16 n = n % 256 ∷ n / 256 % 256 ∷ []

abbrev pub u16_at : List ℕ → ℕ → ℕ
u16_at b i = get_or b i 0 + 256 * get_or b (i + 1) 0

abbrev pub bytes_of_u32 : ℕ → List ℕ
bytes_of_u32 n = n % 256 ∷ n / 256 % 256 ∷ n / 65536 % 256 ∷ n / 16777216 % 256 ∷ []

abbrev pub u32_at : List ℕ → ℕ → ℕ
u32_at b i = u16_at b i + 65536 * u16_at b (i + 2)

unfoldable pub encode_proto : ProtoHeader → List ℕ
encode_proto h = bytes_of_u32 h.magic ++ (h.version % 256 ∷ h.type % 256 ∷ [])

unfoldable pub decode_proto : List ℕ → ProtoHeader
decode_proto b = record { magic = u32_at b 0; version = get_or b 4 0; type = get_or b 5 0 }

unfoldable pub encode_tunnel : TunnelHeader → List ℕ
encode_tunnel h =
    bytes_of_u16 h.packet_id
    ++ (bytes_of_u16 h.fragment_offset
        ++ (bytes_of_u16 h.total_ip_len ++ (bytes_of_u16 h.flags ++ h.session_id)))

pub decode_tunnel : List ℕ → TunnelHeader
decode_tunnel b = record {
  packet_id = u16_at b 0;
  fragment_offset = u16_at b 2;
  total_ip_len = u16_at b 4;
  flags = u16_at b 6;
  session_id = take session_id_len (drop 8 b);
}

-- `htobe64(seq)`, and the bytes `(seq >> (56 - 8 * i)) & 0xFF` of `build_nonce` and of the
-- associated data: `n` bytes from the top, with the lowest shift 0.
unfoldable pub be_bytes : ℕ → ℕ → List ℕ
be_bytes zero seq = []
be_bytes (suc n) seq = bit_and (shr seq (8 * n)) 0xFF ∷ be_bytes n seq

abbrev pub seq_bytes : ℕ → List ℕ
seq_bytes = be_bytes 8

-- `for (i = 0; i < 8; ++i) pkt_seq = (pkt_seq << 8) | p[i]`, over the bytes that are left.
unfoldable pub read_seq : ℕ → List ℕ → ℕ
read_seq acc [] = acc
read_seq acc (b ∷ bs) = read_seq (bit_or (shl_u64 acc 8) b) bs

pub build_nonce : List ℕ → ℕ → List ℕ
unfolding be_bytes
build_nonce key seq = take 4 key ++ seq_bytes seq

-- The associated data of `aead_encrypt` and `aead_decrypt`.
pub associated_data : List ℕ → ℕ → List ℕ
unfolding be_bytes
associated_data session_id seq = take session_id_len session_id ++ seq_bytes seq
