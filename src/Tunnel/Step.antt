-- ===== src/Tunnel/Step.antt =====
-- One fragment from the sender's loop into the receiver's table.
use chamlon.Base.{
  ℕ, ◌+◌, ◌^◌, ◌<◌, ◌≤◌, ◌≡◌, refl, ap, ◌∙◌, ◌⊎◌, List, ◌++◌, arith, length, take, drop, replicate,
  length-append, length-replicate, length-take, length-drop, take-append_exact,
}
use chamlon.Wire.{TunnelHeader, more_fragments}
use chamlon.Fragment.{Params, header_for, fragment_at, max_payload, chunk_at}
use chamlon.Fragment.Plain.{IsFrag, pad_len, fragment_at_lem}
use chamlon.Reassembly.{Table, handle_plain, store_fragment}
use chamlon.Reassembly.Store.{IsFragment}
use chamlon.Reassembly.Decode.{handle-encoded}

-- The offsets of the loop: a fragment with padding never leaves the reassembly buffer.
abbrev pub IsOffset : Params → ℕ → Type 0
IsOffset p o = (o ≡ 0) ⊎ (o ≡ max_payload p) ⊎ (max_payload p + max_payload p ≤ o)

pub next-IsOffset :
    (p : Params) (len o : ℕ)
    → IsFrag p
    → IsOffset p o
    → chunk_at p len o ≡ max_payload p
    → IsOffset p (o + chunk_at p len o)
next-IsOffset p len o ok at full = omega arith

pub payload_at : Params → List ℕ → ℕ → List ℕ
payload_at p buf o =
    let chunk = chunk_at p (length buf) o in
    take chunk (drop o buf) ++ replicate (pad_len p chunk) 0

module _ (p : Params) (id : ℕ) (buf : List ℕ) (ok : IsFrag p) (small : length buf ≤ 1600) where
  abbrev pub header_at : ℕ → TunnelHeader
  header_at o = header_for id (length buf) o (chunk_at p (length buf) o)

  -- The fragment at an offset of the loop is one of the packet.
  pub IsFragment-IsFragment :
      (o : ℕ)
      → o < length buf
      → IsOffset p o
      → IsFragment buf o
          (chunk_at p (length buf) o)
          (length (payload_at p buf o))
          (header_at o)
          (payload_at p buf o)
  unfolding payload_at
  IsFragment-IsFragment o lt at =
      let chunk = chunk_at p (length buf) o in
      let c = take chunk (drop o buf) in
      let k = pad_len p chunk in
      let size : length c ≡ chunk =
        ground (arith, length-take chunk (drop o buf), length-drop o buf) in
      let total = length-append c (replicate k 0) in
      let zeros = length-replicate {A = ℕ} k 0 in
      record {
        offset = ground arith;
        total = omega arith;
        size = refl;
        covers = omega (arith, size, total, zeros);
        inside = ground arith;
        fits = rw (total, size, zeros) (ground (arith, ok.least, ok.most));
        bytes = take-append_exact chunk c (replicate k 0) size;
      }

  -- Only the last fragment has padding.
  pub length-payload_full :
      (o : ℕ)
      → o + max_payload p < length buf
      → length (payload_at p buf o) ≡ chunk_at p (length buf) o
  unfolding payload_at
  length-payload_full o more =
      let chunk = chunk_at p (length buf) o in
      let k = pad_len p chunk in
      ground (
        arith,
        ok.least,
        length-append (take chunk (drop o buf)) (replicate k 0),
        length-replicate {A = ℕ} k 0,
        length-take chunk (drop o buf),
        length-drop o buf,
      )

  -- What the receiver does with it.
  pub handle-fragment :
      (now o : ℕ) (t : Table)
      → o < length buf
      → id < 2 ^ 16
      → handle_plain now (fragment_at p id buf o (chunk_at p (length buf) o)) t
        ≡ store_fragment now (header_at o) (payload_at p buf o) (length (payload_at p buf o)) t
  unfolding payload_at
  handle-fragment now o t lt id_fits =
      let chunk = chunk_at p (length buf) o in
      let inside : o + chunk ≤ length buf = ground arith in
      let fits : 24 + chunk ≤ p.frag = ground (arith, ok.least) in
      let flags : ((header_at o).flags ≡ 0) ⊎ ((header_at o).flags ≡ more_fragments) =
        ground arith in
      ap (λ b. handle_plain now b t) (fragment_at_lem p id buf o chunk ok inside fits)
      ∙ handle-encoded now (header_at o) (take chunk (drop o buf) ++ replicate (pad_len p chunk) 0)
          t id_fits (omega arith) (omega arith) flags refl
