-- ===== src/Pacing/Start.antt =====
-- A session with constant bit rate, from its opening through the packets that are sent over it.
use chamlon.Base.{
  ℕ, ◌-◌, ◌≡◌, ◌≢◌, refl, sym, ap, subst, inl, inr, Bool, List, some, arith, length, take_all,
  length-replicate, Bool-cases, Option-cases,
}
use chamlon.Wire.{encode_proto, encode_tunnel}
use chamlon.OutQueue.{out_queue_init, packet_queue_push}
use chamlon.Crypto.{Sodium}
use chamlon.Crypto.Contract.{IsSodium, length-aead_encrypt}
use chamlon.Sessions.{Session, Agreed, Wanted, letter_y, configured, keyed, connected}
use chamlon.Datagram.{next_seq, seal}
use chamlon.Datagram.Fields.{length-data_packet}
use chamlon.ClientLink.Opening.{seal_lem}
use chamlon.Outbound.{Sent, sent, queued, lost, fault, send_outbound_packet}
use chamlon.Pacing.Constant.{wire_len, IsConstant}
use chamlon.Pacing.Queued.{packet_queue_push-IsQueue}

-- Nothing goes to the socket, and the session stays one with constant bit rate.
pub record Held (r : Sent × Session) : Type 0 where
  pub unsent : (pkt : List ℕ) → r.0 ≢ sent pkt
  pub still : IsConstant r.1

counted-IsConstant :
    (s : Session) → IsConstant s → IsConstant (record s { send_seq = next_seq s.send_seq })
counted-IsConstant s ok = record {
  constant = ok.constant;
  id_len = ok.id_len;
  payload_len = ok.payload_len;
  static_len = ok.static_len;
  queue = ok.queue;
  has_queue = ok.has_queue;
  is_queue = ok.is_queue;
}

sealed_len :
    (c : Sodium) (s : Session) (plain pkt : List ℕ)
    → IsSodium c
    → IsConstant s
    → length plain ≡ s.argv_frag
    → seal c s.k_send s.session_id s.send_seq plain ≡ some pkt
    → length pkt ≡ wire_len s.argv_frag
sealed_len c s plain pkt good ok full sealed =
    let (out, e, same) = seal_lem c s.k_send s.session_id s.send_seq plain pkt sealed in
    let long = length-aead_encrypt c s.k_send s.session_id s.send_seq plain out good e in
    let whole = length-data_packet s.session_id s.send_seq out ok.id_len in
    omega (arith, ap length same, long, whole, full)

-- A fragment of a session with constant bit rate, padded to the fragment size, is never sent at once: it
-- is queued at the length of the other packets, or lost, and the session stays one with constant bit rate.
pub send_outbound_packet-Held :
    (c : Sodium) (allocated node : Bool) (s : Session) (plain ip : List ℕ)
    → IsSodium c
    → IsConstant s
    → length plain ≡ s.argv_frag
    → Held (send_outbound_packet c allocated node s plain ip)
unfolding send_outbound_packet
send_outbound_packet-Held c allocated node s plain ip good ok full =
    let s' = record s { send_seq = next_seq s.send_seq } in
    let counted = counted-IsConstant s ok in
    let dropped : Held (lost, s') = record { unsent = λ p e. cc; still = counted } in
    elim (Option-cases (seal c s.k_send s.session_id s.send_seq plain)) [
      | inl n ↦ subst Held (sym (simp (send_outbound_packet, n) refl)) dropped
      | inr (pkt, sealed) ↦ elim (Bool-cases allocated) [
        | inr f ↦ subst Held (sym (simp (send_outbound_packet, sealed, f) refl)) dropped
        | inl f ↦ elim (Option-cases (packet_queue_push node ok.queue pkt s.send_seq ip)) [
          | inl n ↦
              let overrun : Held (fault, s') = record { unsent = λ p e. cc; still = counted } in
              subst Held
                (sym (simp (send_outbound_packet, sealed, f, ok.constant, ok.has_queue, n) refl))
                overrun
          | inr ((d, q), p) ↦
              let held : Held (queued, record s' { outq = some q }) = record {
                unsent = λ p e. cc;
                still = record {
                  constant = ok.constant;
                  id_len = ok.id_len;
                  payload_len = ok.payload_len;
                  static_len = ok.static_len;
                  queue = q;
                  has_queue = refl;
                  is_queue =
                      packet_queue_push-IsQueue node s.argv_frag ok.queue pkt s.send_seq ip d q
                        ok.is_queue (sealed_len c s plain pkt good ok full sealed) p;
                };
              } in
              subst Held
                (sym (simp (send_outbound_packet, sealed, f, ok.constant, ok.has_queue, p) refl))
                held
        ]
      ]
    ]

-- The session that a handshake opens with constant bit rate asked for is one with constant bit rate: its
-- dummy packet has the fragment size, and its queue is empty.
pub connected-IsConstant :
    (a : Agreed) (w : Wanted) (s : Session)
    → w.cbr ≡ letter_y
    → length a.id ≡ 16
    → IsConstant (connected a (keyed a (configured w s)))
unfolding encode_proto encode_tunnel out_queue_init
connected-IsConstant a w s cbr sixteen = record {
  constant = ground arith;
  id_len = sixteen;
  payload_len =
      let frag = (configured w s).argv_frag in
      ground (arith, length-replicate {A = ℕ} (frag - 24) 0x99);
  static_len = omega (arith, sixteen, ap length (take_all 16 a.id (omega (arith, sixteen))));
  queue = out_queue_init;
  has_queue = refl;
  is_queue = record { high_sized = tt; normal_sized = tt };
}
