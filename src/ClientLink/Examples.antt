-- ===== src/ClientLink/Examples.antt =====
-- An example of packets that the client receives.
use chamlon.Base.{ℕ, refl, List, [], ◌∷◌, ◌++◌, replicate}
use chamlon.Wire.{encode_tunnel}
use chamlon.ReplayWindow.{fresh}
use chamlon.Reassembly.{zeroed}
use chamlon.Crypto.{aead_encrypt}
use chamlon.Crypto.Toy.{toy}
use chamlon.Datagram.{data_packet, seal, keepalive_header}
use chamlon.ClientLink.{Link}
use chamlon.ClientLink.Opening.{IsSealed, nothing, next}

abbrev key : List ℕ
key = 3 ∷ replicate 31 0

abbrev id : List ℕ
id = 4 ∷ replicate 15 0

abbrev link : Link
link = record {
  k_recv = key;
  session_id = id;
  rw_window = fresh;
  g_reassembly_table = zeroed ∷ [];
  last_server_keepalive_time = 0;
}

abbrev plain : List ℕ
plain = encode_tunnel keepalive_header

abbrev packet : List ℕ
packet = data_packet id 1 (replicate 16 0 ++ plain)

sealed : IsSealed toy key id 1 (plain ∷ []) (packet ∷ [])
unfolding seal aead_encrypt
sealed = next 1 plain packet [] [] refl (nothing 2)
