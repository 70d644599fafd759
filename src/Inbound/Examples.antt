-- ===== src/Inbound/Examples.antt =====
-- Tests and examples of received datagrams.
use chamlon.Base.{
  ℕ, ◌+◌, ◌≤◌, length, ◌≡◌, refl, true, false, List, [], ◌∷◌, ◌++◌, some, arith, replicate,
}
use chamlon.Wire.{encode_tunnel}
use chamlon.RateLimiter.{
  ok, packets, rate_limiter_init, check_rate_limit, find_or_create_ip_entry, find_ip, check_entry,
  spend, refill_tokens,
}
use chamlon.Metrics.{metrics_init}
use chamlon.ReplayWindow.{check_replay}
use chamlon.ReplayWindow.Refine.{fresh-Stands}
use chamlon.Crypto.{aead_encrypt}
use chamlon.Crypto.Toy.{toy, toy-IsSodium}
use chamlon.Sessions.{Session, zero_session, session_by_id}
use chamlon.Handshake.{Entropy, Calls, Server}
use chamlon.Datagram.{data_packet, seal, keepalive_header}
use chamlon.Inbound.{handle_inbound_udp, handle_data}
use chamlon.Inbound.Passing.{Passed, handle_data-Passed}
use chamlon.Inbound.Sealed.{Taken, handle_inbound_udp-seal}

abbrev session : Session
session = record zero_session {
  active = true;
  session_id = 4 ∷ replicate 15 0;
  k_recv = 3 ∷ replicate 31 0;
  client_addr = record { sin_family = 2; sin_addr = 77; sin_port = 5000 };
  vpn_ip = 10 ∷ 10 ∷ 0 ∷ 2 ∷ [];
}

abbrev server : Server
server = record {
  sign_sk_loaded = true;
  sign_sk = 9 ∷ [];
  server_sk = 9 ∷ replicate 31 0;
  limiter = rate_limiter_init 100;
  metrics = metrics_init 100;
  sessions = session ∷ [];
  scheduled = [];
}

abbrev plain : List ℕ
plain = encode_tunnel keepalive_header

abbrev packet : List ℕ
packet = data_packet (4 ∷ replicate 15 0) 1 (replicate 16 0 ++ plain)

sealed : seal toy (3 ∷ replicate 31 0) (4 ∷ replicate 15 0) 1 plain ≡ some packet
unfolding seal aead_encrypt
sealed = refl

admitted : (check_rate_limit packets 100 77 (rate_limiter_init 100)).0 ≡ ok
unfolding check_rate_limit find_or_create_ip_entry find_ip check_entry spend refill_tokens
    rate_limiter_init
admitted = refl

found : session_by_id (4 ∷ replicate 15 0) (session ∷ []) ≡ some 0
unfolding session_by_id
found = refl

new : check_replay 1 session.rw_window ≡ false
unfolding check_replay
new = refl

abbrev entropy : Entropy
entropy = record { s_priv = 5 ∷ []; s_nonce = 8 ∷ replicate 7 0 }

abbrev calls : Calls
calls = record { allocated = true; sent = true }

encoded_len : length plain + 46 ≤ 1600
unfolding encode_tunnel
encoded_len = omega arith

handle_inbound_udp-seal_example :
    Taken 100 1 [] session.client_addr packet plain [] 0 session server
      (handle_inbound_udp toy entropy entropy calls 100 session.client_addr packet [] server)
handle_inbound_udp-seal_example =
    handle_inbound_udp-seal toy entropy entropy calls 100 1 [] session.client_addr plain packet []
      server 0 session toy-IsSodium (omega arith) encoded_len refl admitted found refl fresh-Stands
      new sealed

handle_data-Passed_example :
    Passed toy 100 packet [] (session ∷ []) (handle_data toy 100 packet [] server)
handle_data-Passed_example = handle_data-Passed toy 100 packet [] server

abbrev other_packet : List ℕ
other_packet = replicate 5 0 ++ (111 ∷ 4 ∷ replicate 15 0)
