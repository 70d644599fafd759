-- ===== src/Wire/RoundTrip.antt =====
-- What is encoded is what is decoded.
use mathlib.Core.List.{append_cancel_left}
use native.Mathlib.Nat.{pow-suc, mul_comm, div-div-eq-div-mul, div-le_self}
use chamlon.Base.{
  sym, ℕ, zero, suc, ◌*◌, ◌/◌, ◌%◌, ◌^◌, ◌<◌, ◌≡◌, refl, ap, ◌∙◌, List, ◌++◌, arith, take, length,
  take-append_exact, bit_or, bit_and, shl_u64, shr,
}
use chamlon.Base.Bits.{bit_or_field, bit_and_mask}
use chamlon.Wire.{
  ProtoHeader, TunnelHeader, encode_proto, decode_proto, encode_tunnel, decode_tunnel, seq_bytes,
  be_bytes, read_seq, session_id_len, build_nonce,
}

-- A header of fields that fit their types comes back from its 24 bytes, whatever follows them.
pub decode-encode_tunnel :
    (h : TunnelHeader) (rest : List ℕ)
    → h.packet_id < 2 ^ 16
    → h.fragment_offset < 2 ^ 16
    → h.total_ip_len < 2 ^ 16
    → h.flags < 2 ^ 16
    → length h.session_id ≡ session_id_len
    → decode_tunnel (encode_tunnel h ++ rest) ≡ h
unfolding decode_tunnel encode_tunnel
decode-encode_tunnel h rest p q r s e = ground (arith, take-append_exact 16 h.session_id rest e)

pub length-encode_tunnel :
    (h : TunnelHeader) → length h.session_id ≡ session_id_len → length (encode_tunnel h) ≡ 24
unfolding encode_tunnel
length-encode_tunnel h e = omega arith

-- The protocol header comes back from its 6 bytes, whatever follows them.
pub decode-encode_proto :
    (h : ProtoHeader) (rest : List ℕ)
    → h.magic < 2 ^ 32
    → h.version < 2 ^ 8
    → h.type < 2 ^ 8
    → decode_proto (encode_proto h ++ rest) ≡ h
unfolding decode_proto encode_proto
decode-encode_proto h rest p q r = ground arith

-- One round: the number so far is what stands above the byte that is read.
push_byte : (a q : ℕ) → a ≡ q / 256 → q < 2 ^ 64 → bit_or (shl_u64 a 8) (bit_and q 0xFF) ≡ q
push_byte a q e h =
    let top : shl_u64 a 8 ≡ a * 2 ^ 8 = omega arith in
    rw (top, bit_and_mask 8 q, bit_or_field 8 a (q % 2 ^ 8) (omega arith)) (omega arith)

pow_byte : (n : ℕ) → 2 ^ (8 * suc n) ≡ 256 * 2 ^ (8 * n)
pow_byte n =
    let e : 8 * suc n ≡ suc (suc (suc (suc (suc (suc (suc (suc (8 * n)))))))) = omega arith in
    rw e (simp pow-suc (omega arith))

read_seq-be_bytes :
    (n seq acc : ℕ) → acc ≡ seq / 2 ^ (8 * n) → seq < 2 ^ 64 → read_seq acc (be_bytes n seq) ≡ seq
unfolding read_seq be_bytes
read_seq-be_bytes zero seq acc e h = omega arith
read_seq-be_bytes (suc n) seq acc e h =
    let above : acc ≡ shr seq (8 * n) / 256 =
      e
      ∙ ap (λ (t : ℕ). seq / t) (pow_byte n ∙ mul_comm 256 (2 ^ (8 * n)))
      ∙ sym (div-div-eq-div-mul seq (2 ^ (8 * n)) 256) in
    let small : shr seq (8 * n) < 2 ^ 64 = omega (arith, div-le_self seq (2 ^ (8 * n))) in
    ap (λ a. read_seq a (be_bytes n seq)) (push_byte acc (shr seq (8 * n)) above small)
    ∙ read_seq-be_bytes n seq (shr seq (8 * n)) refl h

-- Reading the eight big-endian bytes of a 64-bit number, as the handlers do, gives back the number.
pub read_seq-seq_bytes : (seq : ℕ) → seq < 2 ^ 64 → read_seq 0 (seq_bytes seq) ≡ seq
read_seq-seq_bytes seq h = read_seq-be_bytes 8 seq 0 (omega arith) h

-- Under one key two different 64-bit sequence numbers never give one nonce.
pub build_nonce-injective :
    (key : List ℕ) (s t : ℕ)
    → s < 2 ^ 64
    → t < 2 ^ 64
    → build_nonce key s ≡ build_nonce key t
    → s ≡ t
unfolding build_nonce
build_nonce-injective key s t hs ht e =
    sym (read_seq-seq_bytes s hs)
    ∙ ap (read_seq 0) (append_cancel_left (take 4 key) (seq_bytes s) (seq_bytes t) e)
    ∙ read_seq-seq_bytes t ht
