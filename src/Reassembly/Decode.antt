-- ===== src/Reassembly/Decode.antt =====
-- The handlers take a tunnel packet apart.
use chamlon.Base.{
  ℕ, ◌^◌, ◌<◌, ◌≡◌, refl, ◌⊎◌, List, ◌++◌, arith, length, length-append, drop-append_exact, ◌+◌,
  true, leb, take_all, take-append_exact, append_assoc, sub_u64, inl, inr, Option-cases, get_elem?,
}
use chamlon.Wire.{TunnelHeader, encode_tunnel, more_fragments}
use chamlon.Wire.RoundTrip.{decode-encode_tunnel, length-encode_tunnel}
use chamlon.Reassembly.{
  Table, handle_plain, store_fragment, store, complete, handle_plain_server, memcpy, Entry,
  find_or_create_entry,
}

-- The client takes a tunnel packet apart into the header and the payload.
pub handle-encoded :
    (now : ℕ) (h : TunnelHeader) (payload : List ℕ) (t : Table)
    → h.packet_id < 2 ^ 16
    → h.fragment_offset < 2 ^ 16
    → h.total_ip_len < 2 ^ 16
    → (h.flags ≡ 0) ⊎ (h.flags ≡ more_fragments)
    → length h.session_id ≡ 16
    → handle_plain now (encode_tunnel h ++ payload) t
      ≡ store_fragment now h payload (length payload) t
unfolding handle_plain
handle-encoded now h payload t a b c d e = ground (
  arith,
  decode-encode_tunnel h payload a b c (omega arith) e,
  length-encode_tunnel h e,
  length-append (encode_tunnel h) payload,
  drop-append_exact 24 (encode_tunnel h) payload (length-encode_tunnel h e),
)

-- The receiver does not read the session identifier of the inner header.
pub store_fragment-session_id :
    (now : ℕ) (h : TunnelHeader) (id payload : List ℕ) (n : ℕ) (t : Table)
    → store_fragment now (record h { session_id = id }) payload n t
      ≡ store_fragment now h payload n t
unfolding store_fragment store complete
store_fragment-session_id now h id payload n t = refl

memcpy-append :
    (dst : List ℕ) (off : ℕ) (payload stale : List ℕ)
    → memcpy dst off (payload ++ stale) (length payload) ≡ memcpy dst off payload (length payload)
unfolding memcpy
memcpy-append dst off payload stale =
    let long : leb (length payload) (length (payload ++ stale)) ≡ true =
      ground (arith, length-append payload stale) in
    let all : leb (length payload) (length payload) ≡ true = ground arith in
    rw
      (
        long,
        all,
        take-append_exact (length payload) payload stale refl,
        take_all (length payload) payload (omega arith),
      )
      refl

store_fragment-append :
    (now : ℕ) (h : TunnelHeader) (payload stale : List ℕ) (t : Table)
    → store_fragment now h (payload ++ stale) (length payload) t
      ≡ store_fragment now h payload (length payload) t
unfolding store store_fragment
store_fragment-append now h payload stale t =
    let same : (e : Entry)
        → store h (payload ++ stale) (length payload) e ≡ store h payload (length payload) e =
      λ e. rw (memcpy-append e.buffer h.fragment_offset payload stale) refl in
    elim (Option-cases (find_or_create_entry now h.packet_id t)) [
      | inl n ↦ rw (store_fragment, n) refl
      | inr ((i, t'), found) ↦ elim (Option-cases (get_elem? t' i)) [
        | inl n ↦ rw (store_fragment, found, n) refl
        | inr (e, there) ↦ rw (store_fragment, found, there, same e) refl
      ]
    ]

-- The server does the same, whatever stands behind the tunnel packet.
pub handle_server-encoded :
    (now : ℕ) (h : TunnelHeader) (payload stale : List ℕ) (t : Table)
    → h.packet_id < 2 ^ 16
    → h.fragment_offset < 2 ^ 16
    → h.total_ip_len < 2 ^ 16
    → (h.flags ≡ 0) ⊎ (h.flags ≡ more_fragments)
    → length h.session_id ≡ 16
    → length payload < 2 ^ 32
    → handle_plain_server now (encode_tunnel h ++ payload) stale t
      ≡ store_fragment now h payload (length payload) t
unfolding handle_plain_server
handle_server-encoded now h payload stale t a b c d e small =
    let n : length (encode_tunnel h ++ payload) ≡ 24 + length payload =
      omega (arith, length-append (encode_tunnel h) payload, length-encode_tunnel h e) in
    let rest : sub_u64 (length (encode_tunnel h ++ payload)) 24 ≡ length payload =
      ground (arith, n) in
    ground (
      arith,
      rest,
      append_assoc (encode_tunnel h) payload stale,
      decode-encode_tunnel h (payload ++ stale) a b c (omega arith) e,
      drop-append_exact 24 (encode_tunnel h) (payload ++ stale) (length-encode_tunnel h e),
      store_fragment-append now h payload stale t,
    )
