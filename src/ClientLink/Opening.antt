-- ===== src/ClientLink/Opening.antt =====
-- What is sealed on one side is opened on the other.
use chamlon.Base.{
  ℕ, suc, ◌+◌, ◌-◌, ◌<◌, ◌^◌, ◌≡◌, refl, sym, ap, ◌∙◌, inl, inr, false, List, [], ◌∷◌, Option, none,
  some, arith, length, leb, Option-cases,
}
use chamlon.ReplayWindow.{check_replay}
use chamlon.ReplayWindow.History.{latest}
use chamlon.ReplayWindow.Refine.{Stands, update-Stands}
use chamlon.ReplayWindow.NoReplay.{check_iff}
use chamlon.Tunnel.{receive_all}
use chamlon.Crypto.{Sodium, aead_encrypt}
use chamlon.Crypto.Contract.{IsSodium, aead_decrypt-aead_encrypt, length-aead_encrypt}
use chamlon.Sessions.Addresses.{same_bytes_refl}
use chamlon.Datagram.{data_packet, seq_at, seal}
use chamlon.Datagram.Fields.{
  decode_proto-data_packet, session_id_at-data_packet, seq_at-data_packet, cipher_at-data_packet,
  length-data_packet,
}
use chamlon.ClientLink.{Link, opened, handle_udp_packet, handle_udp_packets}

-- What a sealed packet is made of.
pub seal_lem :
    (c : Sodium) (key id : List ℕ) (seq : ℕ) (plain pkt : List ℕ)
    → seal c key id seq plain ≡ some pkt
    → (out : List ℕ) × (aead_encrypt c key id seq plain ≡ some out) × (pkt ≡ data_packet id seq out)
unfolding seal
seal_lem c key id seq plain pkt h = elim (Option-cases (aead_encrypt c key id seq plain)) [
  | inl n ↦
      let no : ◌≡◌ {A = Option (List ℕ)} none (some pkt) = sym (rw (seal, n) refl) ∙ h in absurd cc
  | inr (out, p) ↦
      let both : some (data_packet id seq out) ≡ some pkt = sym (rw (seal, p) refl) ∙ h in
      let same : data_packet id seq out ≡ pkt = cc in (out, p, sym same)
]

-- A packet that the other end sealed under the link's keys, with a number that the window lets through,
-- is opened: the handler goes on with what was sealed.
pub handle_udp_packet-seal :
    (c : Sodium) (now seq : ℕ) (plain pkt : List ℕ) (l : Link)
    → IsSodium c
    → length l.session_id ≡ 16
    → seq < 2 ^ 64
    → check_replay seq l.rw_window ≡ false
    → seal c l.k_recv l.session_id seq plain ≡ some pkt
    → handle_udp_packet c now pkt l ≡ opened now seq plain l
unfolding handle_udp_packet
handle_udp_packet-seal c now seq plain pkt l good sixteen fits passes sealed =
    let (out, e, same) = seal_lem c l.k_recv l.session_id seq plain pkt sealed in
    let id = l.session_id in
    let long = length-aead_encrypt c l.k_recv id seq plain out good e in
    let opens = aead_decrypt-aead_encrypt c l.k_recv id seq plain out good e in
    let enough : leb (length (data_packet id seq out)) 30 ≡ false =
      grind (arith, length-data_packet id seq out sixteen) in
    rw same (
      rw
        (
          decode_proto-data_packet id seq out sixteen,
          enough,
          session_id_at-data_packet id seq out sixteen,
          seq_at-data_packet id seq out sixteen fits,
          cipher_at-data_packet id seq out sixteen,
          same_bytes_refl id,
          passes,
          opens,
        )
        (ap (λ n. opened now n plain l)
          (ap seq_at same ∙ seq_at-data_packet id seq out sixteen fits)))

-- The plain packets, sealed one after another from a sequence number on.
pub data IsSealed (c : Sodium) (key id : List ℕ) : ℕ → List (List ℕ) → List (List ℕ) → Type 0 where
  nothing : (seq : ℕ) → IsSealed c key id seq [] []
  next :
      (seq : ℕ) (plain pkt : List ℕ) (plains pkts : List (List ℕ))
      → seal c key id seq plain ≡ some pkt
      → IsSealed c key id (suc seq) plains pkts
      → IsSealed c key id seq (plain ∷ plains) (pkt ∷ pkts)

-- Packets that the other end sealed under the link's keys with consecutive numbers, all ahead of what the
-- window has seen and below 2 ^ 64 - 64, arrive in that order: the handler opens each of them, and what
-- comes out is what the tunnel packets themselves lead to.
pub handle_udp_packets-IsSealed :
    (c : Sodium) (clock : ℕ → ℕ) (key id : List ℕ) (k seq : ℕ) (plains pkts : List (List ℕ))
    (l : Link) (hist : List ℕ)
    → IsSodium c
    → l.k_recv ≡ key
    → l.session_id ≡ id
    → length id ≡ 16
    → Stands l.rw_window hist
    → latest hist < seq
    → seq + length plains < 2 ^ 64 - 64
    → IsSealed c key id seq plains pkts
    → ((handle_udp_packets c clock k pkts l).0
        ≡ (receive_all clock k plains l.g_reassembly_table).0)
      × ((handle_udp_packets c clock k pkts l).1.g_reassembly_table
          ≡ (receive_all clock k plains l.g_reassembly_table).1)
unfolding handle_udp_packets receive_all
handle_udp_packets-IsSealed c clock key id k seq plains pkts l hist good ek ei sixteen stands ahead
      fits (nothing n) =
    (refl, refl)
handle_udp_packets-IsSealed c clock key id k seq plains pkts l hist good ek ei sixteen stands ahead
      fits (next n plain pkt rest rest' sealed more) =
    let l' = (opened (clock k) seq plain l).1 in
    let passes : check_replay seq l.rw_window ≡ false =
      (check_iff seq stands (omega (arith, fits))).1 (omega (arith, ahead), inl ahead) in
    let sealed' : seal c l.k_recv l.session_id seq plain ≡ some pkt = rw (ek, ei) sealed in
    let first =
      handle_udp_packet-seal c (clock k) seq plain pkt l good (ap length ei ∙ sixteen)
        (omega (arith, fits)) passes sealed' in
    let moved = update-Stands seq stands (omega (arith, fits)) passes in
    let ih =
      handle_udp_packets-IsSealed c clock key id (k + 1) (suc seq) rest rest' l' (seq ∷ hist) good
        ek ei sixteen moved (omega (arith, ahead)) (omega (arith, fits)) more in
    rw first (ap (◌∷◌ (opened (clock k) seq plain l).0) ih.0, ih.1)
