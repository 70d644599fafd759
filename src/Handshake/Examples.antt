-- ===== src/Handshake/Examples.antt =====
-- Tests and examples of the handshake, with the concrete instance of libsodium's calls.
use chamlon.Base.{
  ℕ, zero, suc, ◌≡◌, refl, sym, ap, true, List, [], ◌∷◌, ◌++◌, some, arith, length, replicate,
}
use chamlon.Wire.{encode_proto}
use chamlon.Crypto.Toy.{toy, toy-IsSodium}
use chamlon.RateLimiter.{
  rate_limiter_init, check_rate_limit, find_or_create_ip_entry, find_ip, check_entry, spend,
  refill_tokens,
}
use chamlon.Metrics.{metrics_init}
use chamlon.Sessions.{
  Client, Session, zero_session, letter_y, claim_slot, allocate_session, vpn_ip_of,
}
use chamlon.Handshake.{
  Hello, Entropy, Calls, Server, handle_msg1, handle_rehandshake_msg1, admit_msg1, answer_msg1,
  finish_msg1, negotiate, parse_msg1, encode_msg2,
}
use chamlon.Handshake.ClientSide.{
  encode_msg1, ClientKeys, finish_msg2, Arrival, again, datagram, keep_packet, await_msg2, IsWaited,
  await_msg2-IsWaited,
}
use chamlon.Handshake.Fields.{IsHello}
use chamlon.Handshake.Agreement.{IsPair, Shared, handle_msg1-Shared}
use chamlon.Sessions.Addresses.{IsAddressed}
use chamlon.Sessions.Clients.{IsOnePerClient}
use chamlon.Handshake.Rotation.{handle_rehandshake_msg1-Shared}
use chamlon.Handshake.Invariant.{IsTable, handle_msg1-IsTable}
use chamlon.Handshake.Outcome.{Outcome, handle_msg1-Outcome}

abbrev client : Client
client = record { sin_family = 2; sin_addr = 77; sin_port = 5000 }

abbrev secret : List ℕ
secret = 3 ∷ replicate 31 0

abbrev hello : Hello
hello = record {
  c_pub = 3 ∷ replicate 31 0;
  c_nonce = 1 ∷ 2 ∷ 3 ∷ 4 ∷ 5 ∷ 6 ∷ 7 ∷ 8 ∷ [];
  wanted = record { mbps = 9; frag = 900; cbr = letter_y; pad = 0 };
}

abbrev entropy : Entropy
entropy = record { s_priv = 5 ∷ []; s_nonce = 8 ∷ replicate 7 0 }

abbrev server : Server
server = record {
  sign_sk_loaded = true;
  sign_sk = 9 ∷ [];
  server_sk = 9 ∷ replicate 31 0;
  limiter = rate_limiter_init 100;
  metrics = metrics_init 100;
  sessions = zero_session ∷ zero_session ∷ [];
  scheduled = [];
}

abbrev calls : Calls
calls = record { allocated = true; sent = true }

abbrev answer : List ℕ
answer = encode_msg2 (5 ∷ replicate 31 0) (8 ∷ replicate 7 0) (vpn_ip_of 0) (replicate 64 7)

hello-IsHello : IsHello hello
hello-IsHello = record {
  pub_len = refl;
  nonce_len = refl;
  mbps_small = omega arith;
  frag_small = omega arith;
}

pair : IsPair toy entropy server secret (9 ∷ replicate 31 0) hello
pair = record { own = refl; server_key = refl; converted = refl; nonce_len = refl }

answered : (handle_msg1 toy entropy calls 100 client (encode_msg1 hello) server).0 ≡ some answer
unfolding handle_msg1 admit_msg1 answer_msg1 finish_msg1 negotiate parse_msg1 encode_msg1
    check_rate_limit find_or_create_ip_entry find_ip check_entry spend refill_tokens
    rate_limiter_init claim_slot allocate_session encode_proto
answered = refl

handle_msg1-Shared_example :
    (keys : ClientKeys) × (finish_msg2 toy
        (9 ∷ replicate 31 1)
        (9 ∷ replicate 31 0)
        secret
        hello.c_nonce
        answer
      ≡ some keys)
    × Shared keys (handle_msg1 toy entropy calls 100 client (encode_msg1 hello) server).1.sessions
handle_msg1-Shared_example =
    handle_msg1-Shared toy entropy calls 100 client hello server secret (9 ∷ replicate 31 0) answer
      toy-IsSodium hello-IsHello pair answered

length-hello : length (encode_msg1 hello) ≡ 56
unfolding encode_msg1 encode_proto
length-hello = refl

-- The client rotates its keys: its session is the one that the first handshake opened.
abbrev later : Entropy
later = record { s_priv = 6 ∷ []; s_nonce = 9 ∷ replicate 7 0 }

abbrev joined : Session
joined = record zero_session { active = true; client_addr = client; vpn_ip = vpn_ip_of 0 }

abbrev busy : Server
busy = record server { sessions = joined ∷ zero_session ∷ [] }

busy-IsAddressed : IsAddressed busy.sessions
busy-IsAddressed zero s g act = let same : joined ≡ s = cc in ap (λ x. x.vpn_ip) (sym same)
busy-IsAddressed (suc zero) s g act = absurd cc
busy-IsAddressed (suc (suc i)) s g act = absurd cc

busy-IsOnePerClient : IsOnePerClient busy.sessions
busy-IsOnePerClient zero zero x y gx gy ax ay same = refl
busy-IsOnePerClient zero (suc zero) x y gx gy ax ay same = absurd cc
busy-IsOnePerClient zero (suc (suc j)) x y gx gy ax ay same = absurd cc
busy-IsOnePerClient (suc zero) j x y gx gy ax ay same = absurd cc
busy-IsOnePerClient (suc (suc i)) j x y gx gy ax ay same = absurd cc

later-IsPair : IsPair toy later busy secret (9 ∷ replicate 31 0) hello
later-IsPair = record { own = refl; server_key = refl; converted = refl; nonce_len = refl }

busy-IsPair : IsPair toy entropy busy secret (9 ∷ replicate 31 0) hello
busy-IsPair = record { own = refl; server_key = refl; converted = refl; nonce_len = refl }

abbrev new_answer : List ℕ
new_answer = encode_msg2 (6 ∷ replicate 31 0) (9 ∷ replicate 7 0) (vpn_ip_of 0) (replicate 64 7)

rotates :
    (handle_rehandshake_msg1 toy later entropy calls 100 client (encode_msg1 hello) busy).0
    ≡ some new_answer
unfolding handle_rehandshake_msg1 negotiate parse_msg1 encode_msg1 encode_proto
rotates = refl

handle_rehandshake_msg1-Shared_example :
    (keys : ClientKeys) × (finish_msg2 toy
        (9 ∷ replicate 31 1)
        (9 ∷ replicate 31 0)
        secret
        hello.c_nonce
        new_answer
      ≡ some keys)
    × Shared keys
        (handle_rehandshake_msg1 toy later entropy calls 100 client
          (encode_msg1 hello)
          busy).1.sessions
handle_rehandshake_msg1-Shared_example =
    handle_rehandshake_msg1-Shared toy later entropy calls 100 client hello busy secret
      (9 ∷ replicate 31 0) new_answer toy-IsSodium hello-IsHello later-IsPair busy-IsPair
      busy-IsAddressed rotates

handle_msg1-IsTable_example :
    IsTable (handle_msg1 toy entropy calls 100 client (encode_msg1 hello) busy).1.sessions
handle_msg1-IsTable_example =
    handle_msg1-IsTable toy entropy calls 100 client (encode_msg1 hello) busy
      (busy-IsAddressed, busy-IsOnePerClient)

handle_msg1-Outcome_example :
    Outcome toy entropy 100 client
      (parse_msg1 (encode_msg1 hello))
      server
      (handle_msg1 toy entropy calls 100 client (encode_msg1 hello) server)
handle_msg1-Outcome_example =
    handle_msg1-Outcome toy entropy calls 100 client (encode_msg1 hello) server

abbrev rounds : List (ℕ × Arrival)
rounds =
    (100, again)
    ∷ (101, datagram (replicate 5 0 ++ 111 ∷ []) true)
    ∷ (102, datagram (replicate 5 0 ++ 222 ∷ replicate 108 1) true)
    ∷ []

found_msg2 :
    await_msg2 128 100 115 rounds (replicate 114 0) []
    ≡ (some (replicate 5 0 ++ 222 ∷ replicate 108 1), (replicate 5 0 ++ 111 ∷ []) ∷ [])
unfolding await_msg2 keep_packet
found_msg2 = refl

await_msg2-IsWaited_example : IsWaited 128 (await_msg2 128 100 115 rounds (replicate 114 0) [])
await_msg2-IsWaited_example =
    await_msg2-IsWaited 128 100 115 rounds (replicate 114 0) [] (omega arith)
