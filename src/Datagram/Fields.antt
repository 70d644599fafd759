-- ===== src/Datagram/Fields.antt =====
-- The fields of a data packet come back from its bytes.
use chamlon.Base.{
  ℕ, ◌+◌, ◌<◌, ◌^◌, ◌≡◌, refl, ap, ◌∙◌, List, ◌++◌, arith, length, take, drop, take_all,
  take-append_exact, drop-append_exact, drop-add, length-append,
}
use chamlon.Wire.{be_bytes, encode_proto, decode_proto, seq_bytes, read_seq, session_id_len}
use chamlon.Wire.RoundTrip.{read_seq-seq_bytes}
use chamlon.Sessions.{data_header}
use chamlon.Datagram.{data_packet, session_id_at, seq_at, cipher_at}

module _ (id : List ℕ) (seq : ℕ) (out : List ℕ) (sixteen : length id ≡ 16) where
  whole : take session_id_len id ≡ id
  whole = take_all 16 id (omega arith)

  pub decode_proto-data_packet : decode_proto (data_packet id seq out) ≡ data_header
  unfolding decode_proto data_packet encode_proto
  decode_proto-data_packet = refl

  pub session_id_at-data_packet : session_id_at (data_packet id seq out) ≡ id
  unfolding data_packet encode_proto
  session_id_at-data_packet = rw whole (take-append_exact 16 id (seq_bytes seq ++ out) sixteen)

  behind : drop 22 (data_packet id seq out) ≡ seq_bytes seq ++ out
  unfolding data_packet encode_proto
  behind = rw whole (drop-append_exact 16 id (seq_bytes seq ++ out) sixteen)

  length-seq_bytes : length (seq_bytes seq) ≡ 8
  unfolding be_bytes
  length-seq_bytes = refl

  pub seq_at-data_packet : seq < 2 ^ 64 → seq_at (data_packet id seq out) ≡ seq
  seq_at-data_packet fits =
      ap (λ b. read_seq 0 (take 8 b)) behind
      ∙ ap (read_seq 0) (take-append_exact 8 (seq_bytes seq) out length-seq_bytes)
      ∙ read_seq-seq_bytes seq fits

  pub cipher_at-data_packet : cipher_at (data_packet id seq out) ≡ out
  cipher_at-data_packet =
      drop-add 22 8 (data_packet id seq out)
      ∙ ap (drop 8) behind
      ∙ drop-append_exact 8 (seq_bytes seq) out length-seq_bytes

  pub length-data_packet : length (data_packet id seq out) ≡ 30 + length out
  unfolding data_packet encode_proto be_bytes
  length-data_packet = rw whole (
      omega (
        arith,
        sixteen,
        length-append id (seq_bytes seq ++ out),
        length-append (seq_bytes seq) out,
      ))
