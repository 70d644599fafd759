-- ===== src/Outbound/Examples.antt =====
-- An example of a packet on its way to a client.
use chamlon.Base.{ℕ, ◌≡◌, refl, true, List, [], ◌∷◌, ◌++◌, some, map, arith, replicate}
use chamlon.ReplayWindow.{fresh}
use chamlon.ReplayWindow.Refine.{fresh-Stands}
use chamlon.Reassembly.{zeroed, find_first, stored, delivered}
use chamlon.Crypto.Toy.{toy, toy-IsSodium}
use chamlon.Sessions.{Session, zero_session, letter_n, session_by_vpnip}
use chamlon.ClientLink.{Link, handle_udp_packets}
use chamlon.Outbound.{sent, handle_outbound_tun_buf}
use chamlon.Outbound.Delivery.{IsLinked, handle_outbound_tun_buf-delivered}

abbrev session : Session
session = record zero_session {
  active = true;
  session_id = 4 ∷ replicate 15 0;
  k_send = 3 ∷ replicate 31 0;
  send_seq = 1;
  vpn_ip = 10 ∷ 10 ∷ 0 ∷ 2 ∷ [];
  argv_frag = 64;
  argv_cbr = letter_n;
  argv_pad = letter_n;
}

abbrev link : Link
link = record {
  k_recv = 3 ∷ replicate 31 0;
  session_id = 4 ∷ replicate 15 0;
  rw_window = fresh;
  g_reassembly_table = zeroed ∷ [];
  last_server_keepalive_time = 0;
}

link-IsLinked : IsLinked session link
link-IsLinked = record {
  same_key = refl;
  same_id = refl;
  id_len = refl;
  hist = [];
  stands = fresh-Stands;
  ahead = omega arith;
}

abbrev packet : List ℕ
packet = replicate 16 0 ++ (10 ∷ 10 ∷ 0 ∷ 2 ∷ replicate 30 7)

found : session_by_vpnip (10 ∷ 10 ∷ 0 ∷ 2 ∷ []) (session ∷ []) ≡ some 0
unfolding session_by_vpnip
found = refl

handle_outbound_tun_buf-delivered_example :
    (pkts : List (List ℕ)) × (before : ℕ) × ((handle_outbound_tun_buf toy
        (λ n. true)
        1
        packet
        (session ∷ [])).0
      ≡ some (map sent pkts))
    × ((handle_udp_packets toy (λ n. 100) 0 pkts link).0
        ≡ replicate before stored ++ delivered packet ∷ [])
unfolding find_first
handle_outbound_tun_buf-delivered_example =
    handle_outbound_tun_buf-delivered toy (λ n. true) 1 packet (λ n. 100) (session ∷ []) 0 session
      link 0 toy-IsSodium (λ n. refl) (omega arith) (omega arith) (omega arith) found refl refl
      (record { least = omega arith; most = omega arith }) link-IsLinked (omega arith) refl refl
