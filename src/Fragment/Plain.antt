-- ===== src/Fragment/Plain.antt =====
-- What is encrypted of one fragment: header, chunk, and padding.
use chamlon.Base.{
  ℕ, ◌+◌, ◌-◌, ◌≤◌, ◌≡◌, refl, sym, ap, ◌∙◌, ◌||◌, List, ◌++◌, arith, length, take, drop, replicate,
  if◌then◌else◌, append-nil, append_assoc, length-append, length-replicate, take-append_exact,
  take_all, length-take, length-drop,
}
use chamlon.Wire.{TunnelHeader, encode_tunnel}
use chamlon.Wire.RoundTrip.{length-encode_tunnel}
use chamlon.Fragment.{Params, packet_padding, plaintext, fill, header_for, fragment_at}

-- The bytes of padding behind a chunk.
abbrev pub pad_len : Params → ℕ → ℕ
pad_len p chunk = if p.pad || p.cbr then p.frag - (24 + chunk) else 0

-- A fragment size that the handshake can leave in a session.
pub record IsFrag (p : Params) : Type 0 where
  pub least : 64 ≤ p.frag
  pub most : p.frag ≤ 1200

module _ (p : Params) (ok : IsFrag p) (h : TunnelHeader) (c : List ℕ)
    (id_len : length h.session_id ≡ 16) (fits : 24 + length c ≤ p.frag) where
  abbrev pub head : List ℕ
  head = encode_tunnel h ++ c

  length-head : length head ≡ 24 + length c
  length-head = omega (arith, length-append (encode_tunnel h) c, length-encode_tunnel h id_len)

  pub fill-head : fill p h c ≡ head ++ replicate (p.frag - (24 + length c)) 0
  unfolding fill
  fill-head = rw append_assoc

  pub take-fill : take (24 + length c) (fill p h c) ≡ head
  take-fill = rw fill-head (take-append_exact (24 + length c) head _ length-head)

  length-fill : length (fill p h c) ≡ p.frag
  length-fill =
      let e = length-append head (replicate (p.frag - (24 + length c)) 0) in
      let k = length-replicate {A = ℕ} (p.frag - (24 + length c)) 0 in
      rw fill-head (omega (arith, e, k, length-head))

  pub take-fill_all : take p.frag (fill p h c) ≡ fill p h c
  take-fill_all = take_all p.frag (fill p h c) (omega (arith, length-fill))

  padding-fill : packet_padding (fill p h c) (24 + length c) p.frag ≡ fill p h c
  unfolding packet_padding
  padding-fill = ground (arith, take-fill, fill-head, ok.least, ok.most)

  fill_lem : fill p h c ≡ encode_tunnel h ++ (c ++ replicate (p.frag - (24 + length c)) 0)
  unfolding fill
  fill_lem = refl

  bare : (k : ℕ) → k ≡ 0 → head ≡ encode_tunnel h ++ (c ++ replicate k 0)
  bare k e = rw (e, append-nil) refl

  pub plaintext-fill :
      plaintext p (fill p h c) (24 + length c)
      ≡ encode_tunnel h ++ (c ++ replicate (pad_len p (length c)) 0)
  unfolding plaintext
  plaintext-fill = ground (
    arith,
    padding-fill,
    take-fill,
    take-fill_all,
    fill_lem,
    bare 0,
    bare (p.frag - (24 + length c)),
  )

-- What is encrypted of the fragment at `o`.
pub fragment_at_lem :
    (p : Params) (id : ℕ) (buf : List ℕ) (o chunk : ℕ)
    → IsFrag p
    → o + chunk ≤ length buf
    → 24 + chunk ≤ p.frag
    → fragment_at p id buf o chunk
      ≡ encode_tunnel (header_for id (length buf) o chunk)
        ++ (take chunk (drop o buf) ++ replicate (pad_len p chunk) 0)
unfolding fragment_at
fragment_at_lem p id buf o chunk ok inside fits =
    let c = take chunk (drop o buf) in
    let size : length c ≡ chunk =
      omega (arith, length-take chunk (drop o buf), length-drop o buf) in
    let h = header_for id (length buf) o chunk in
    ap (λ k. plaintext p (fill p h c) (24 + k)) (sym size)
    ∙ plaintext-fill p ok h c refl (omega arith)
    ∙ ap (λ k. encode_tunnel h ++ (c ++ replicate (pad_len p k) 0)) size
