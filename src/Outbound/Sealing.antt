-- ===== src/Outbound/Sealing.antt =====
-- Without constant bit rate the fragments go out sealed, in order.
use chamlon.Base.{
  ℕ, zero, suc, ◌+◌, ◌<◌, ◌≤◌, ◌^◌, ◌≡◌, refl, inl, inr, sym, ap, ◌∙◌, Bool, true, false, List, [],
  ◌∷◌, some, map, arith, length, ◌==◌, Option-cases,
}
use chamlon.Fragment.{Params, chunk_at, fragments, fragment_packet}
use chamlon.Crypto.{Sodium}
use chamlon.Crypto.Contract.{IsSodium, aead_encrypt-some}
use chamlon.Sessions.{Session, letter_y}
use chamlon.Datagram.{data_packet, seal, next_seq}
use chamlon.ClientLink.Opening.{IsSealed, nothing, next}
use chamlon.Outbound.{sent, send_outbound_packet, send_fragments}

seal-some :
    (c : Sodium) (key id : List ℕ) (seq : ℕ) (plain : List ℕ)
    → IsSodium c
    → (pkt : List ℕ) × (seal c key id seq plain ≡ some pkt)
unfolding seal
seal-some c key id seq plain good =
    let (out, e) = aead_encrypt-some c key id seq plain good in
    (data_packet id seq out, rw (seal, e) refl)

-- While `malloc` gives memory and the sequence numbers do not wrap, a session without constant bit rate
-- sends all tunnel packets, sealed under its key with the numbers from its counter on.
pub send_fragments-IsSealed :
    (c : Sodium) (memory : ℕ → Bool) (k seq : ℕ) (s : Session) (plains : List (List ℕ))
    (ip : List ℕ)
    → IsSodium c
    → ((n : ℕ) → memory n ≡ true)
    → (s.argv_cbr == letter_y) ≡ false
    → s.send_seq ≡ seq
    → seq + length plains < 2 ^ 64
    → (pkts : List (List ℕ)) × ((send_fragments c memory k s plains ip).0 ≡ map sent pkts)
      × IsSealed c s.k_send s.session_id seq plains pkts
unfolding send_fragments send_outbound_packet
send_fragments-IsSealed c memory k seq s [] ip good room direct e fits = ([], refl, nothing seq)
send_fragments-IsSealed c memory k seq s (plain ∷ plains) ip good room direct e fits =
    let (pkt, sealed) = seal-some c s.k_send s.session_id s.send_seq plain good in
    let s' = record s { send_seq = next_seq s.send_seq } in
    let counted : s'.send_seq ≡ suc seq = omega (arith, e, fits) in
    let (pkts, out, rest) =
      send_fragments-IsSealed c memory (k + 2) (suc seq) s' plains ip good room direct counted
        (omega (arith, fits)) in
    let first : send_outbound_packet c (memory k) (memory (k + 1)) s plain ip ≡ (sent pkt, s') =
      rw (send_outbound_packet, sealed, room k, direct) refl in
    (
      pkt ∷ pkts,
      rw first (ap (◌∷◌ (sent pkt)) out),
      next seq plain pkt plains pkts
          (ap (λ n. seal c s.k_send s.session_id n plain) (sym e) ∙ sealed) rest,
    )

-- A packet has no more fragments than bytes.
fragments_count :
    (fuel : ℕ) (p : Params) (id : ℕ) (buf : List ℕ) (offset : ℕ) (ps : List (List ℕ))
    → fragments fuel p id buf offset ≡ some ps
    → length ps < fuel
unfolding fragments
fragments_count zero p id buf offset ps h = absurd cc
fragments_count (suc fuel) p id buf offset ps h =
    let after = offset + chunk_at p (length buf) offset in
    elim (Option-cases (fragments fuel p id buf after)) [
      | inl n ↦ ground arith
      | inr (rest, e) ↦ let fewer = fragments_count fuel p id buf after rest e in ground arith
    ]

pub fragment_packet_count :
    (p : Params) (id : ℕ) (buf : List ℕ) (ps : List (List ℕ))
    → fragment_packet p id buf ≡ some ps
    → length ps ≤ length buf
unfolding fragment_packet
fragment_packet_count p id buf ps h =
    omega (arith, fragments_count (length buf + 1) p id buf 0 ps h)
