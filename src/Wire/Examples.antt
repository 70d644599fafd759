-- ===== src/Wire/Examples.antt =====
-- Tests and examples of the wire formats.
use chamlon.Base.{◌≡◌, refl, [], ◌∷◌, replicate}
use chamlon.Wire.{
  ProtoHeader, TunnelHeader, encode_proto, pkt_magic, pkt_version, pkt_type_data, more_fragments,
}

abbrev a_header : TunnelHeader
a_header = record {
  packet_id = 513;
  fragment_offset = 1000;
  total_ip_len = 1400;
  flags = more_fragments;
  session_id = replicate 16 0;
}

abbrev a_data_header : ProtoHeader
a_data_header = record { magic = pkt_magic; version = pkt_version; type = pkt_type_data }

encode_data_header : encode_proto a_data_header ≡ 0xDA ∷ 0xE1 ∷ 0x77 ∷ 0 ∷ 1 ∷ 111 ∷ []
unfolding encode_proto
encode_data_header = refl
