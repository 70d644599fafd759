-- ===== src/Uplink/Examples.antt =====
-- An example of a packet on its way to the server.
use chamlon.Base.{
  ℕ, ◌+◌, ◌≡◌, refl, false, List, [], ◌∷◌, ◌++◌, some, arith, length, set, replicate,
}
use chamlon.Reassembly.{Entry, zeroed, find_first, stored, delivered}
use chamlon.Tunnel.{receive_all_server}
use chamlon.OutQueue.{out_queue_init}
use chamlon.Sessions.{letter_n}
use chamlon.Uplink.{Uplink, params_of, tun_fragments}
use chamlon.Uplink.Fragments.{receive_all_server-tun_fragments}

abbrev uplink : Uplink
uplink = record {
  k_send = 3 ∷ replicate 31 0;
  session_id = 4 ∷ replicate 15 0;
  send_seq = 1;
  g_next_packet_id = 1;
  argv_frag = 64;
  argv_pad = letter_n;
  g_outq = out_queue_init;
}

abbrev packet : List ℕ
packet = replicate 100 7

receive_all_server-tun_fragments_example :
    (ps : List (List ℕ)) × (before : ℕ) × (last : Entry) × (tun_fragments
        (length packet + 1)
        (params_of uplink)
        (λ n. replicate 16 9)
        1
        packet
        0
      ≡ some ps)
    × (receive_all_server (λ n. 50) (λ n. 5 ∷ []) 0 ps (zeroed ∷ [])
        ≡ (replicate before stored ++ delivered packet ∷ [], set (zeroed ∷ []) 0 last))
    × (last.is_active ≡ false)
unfolding find_first
receive_all_server-tun_fragments_example =
    receive_all_server-tun_fragments uplink (λ n. replicate 16 9) (λ n. 5 ∷ []) 1 packet (λ n. 50) 0
      (zeroed ∷ []) (λ n. refl) (record { least = omega arith; most = omega arith }) (omega arith)
      (omega arith) (omega arith) refl refl
