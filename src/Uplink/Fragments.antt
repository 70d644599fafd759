-- ===== src/Uplink/Fragments.antt =====
-- The client's fragments against the server's.
use chamlon.Base.{
  ℕ, zero, suc, ◌+◌, ◌-◌, ◌^◌, ◌<◌, ◌≤◌, ◌≡◌, refl, sym, ap, ◌∙◌, false, List, [], ◌∷◌, ◌++◌, some,
  arith, length, take, drop, replicate, length-take, length-append, length-replicate, set,
  length-drop, inl, inr, ◌⊎◌, Option-cases, append_assoc, append-nil,
}
use chamlon.Wire.{TunnelHeader, encode_tunnel, more_fragments}
use chamlon.Fragment.{Params, chunk_at, fill, header_for, fragment_at, fragments, fragment_packet}
use chamlon.Fragment.Plain.{IsFrag, pad_len, fill-head, take-fill, take-fill_all, fragment_at_lem}
use chamlon.Reassembly.{Table, Entry, stored, delivered, handle_plain, handle_plain_server}
use chamlon.Reassembly.Decode.{handle-encoded, handle_server-encoded, store_fragment-session_id}
use native.Mathlib.Decide.{dec_lt}
use chamlon.Tunnel.{receive_all, receive_all_server}
use chamlon.Tunnel.RoundTrip.{receive_all-fragment_packet}
use chamlon.Reassembly.Table.{Absent, Free}
use chamlon.Uplink.{Uplink, params_of, packet_padding, tun_fragment, tun_fragments}

-- The header that the client writes.
abbrev tun_header : List ℕ → ℕ → List ℕ → ℕ → ℕ → TunnelHeader
tun_header stale id buf o chunk = record (header_for id (length buf) o chunk) { session_id = stale }

abbrev padded_chunk : Params → List ℕ → ℕ → ℕ → List ℕ
padded_chunk p buf o chunk = take chunk (drop o buf) ++ replicate (pad_len p chunk) 0

-- The client encrypts the header, the chunk and the padding, like the server without constant bit rate.
tun_fragment_lem :
    (p : Params) (stale : List ℕ) (id : ℕ) (buf : List ℕ) (o chunk : ℕ)
    → p.cbr ≡ false
    → length stale ≡ 16
    → o + chunk ≤ length buf
    → 24 + chunk ≤ p.frag
    → IsFrag p
    → tun_fragment p stale id buf o chunk
      ≡ encode_tunnel (tun_header stale id buf o chunk) ++ padded_chunk p buf o chunk
unfolding tun_fragment packet_padding
tun_fragment_lem p stale id buf o chunk plain sixteen inside fits ok =
    let c = take chunk (drop o buf) in
    let h = tun_header stale id buf o chunk in
    let size : length c ≡ chunk =
      omega (arith, length-take chunk (drop o buf), length-drop o buf) in
    let fits' : 24 + length c ≤ p.frag = omega (arith, size, fits) in
    let real : take (24 + chunk) (fill p h c) ≡ encode_tunnel h ++ c =
      ap (λ n. take (24 + n) (fill p h c)) (sym size) ∙ take-fill p ok h c sixteen fits' in
    let same : (encode_tunnel h ++ c) ++ replicate (p.frag - (24 + chunk)) 0 ≡ fill p h c =
      ap (λ n. (encode_tunnel h ++ c) ++ replicate (p.frag - (24 + n)) 0) (sym size)
      ∙ sym (fill-head p ok h c sixteen fits') in
    let all = take-fill_all p ok h c sixteen fits' in
    let assoc = append_assoc (encode_tunnel h) c (replicate (p.frag - (24 + chunk)) 0) in
    ground (arith, real, same, all, assoc, append-nil c)

-- The server does with a fragment of the client what the client does with one of the server.
handle-tun_fragment :
    (now : ℕ) (p : Params) (stale under : List ℕ) (id : ℕ) (buf : List ℕ) (o chunk : ℕ) (t : Table)
    → p.cbr ≡ false
    → length stale ≡ 16
    → o + chunk ≤ length buf
    → 24 + chunk ≤ p.frag
    → IsFrag p
    → id < 2 ^ 16
    → length buf ≤ 1600
    → handle_plain_server now (tun_fragment p stale id buf o chunk) under t
      ≡ handle_plain now (fragment_at p id buf o chunk) t
handle-tun_fragment now p stale under id buf o chunk t plain sixteen inside fits ok id_fits short =
    let h = header_for id (length buf) o chunk in
    let payload = padded_chunk p buf o chunk in
    let flags : (h.flags ≡ 0) ⊎ (h.flags ≡ more_fragments) = ground arith in
    let size : length payload < 2 ^ 32 = ground (
      arith,
      ok.least,
      ok.most,
      length-append (take chunk (drop o buf)) (replicate (pad_len p chunk) 0),
      length-replicate {A = ℕ} (pad_len p chunk) 0,
      length-take chunk (drop o buf),
      length-drop o buf,
    ) in
    ap (λ b. handle_plain_server now b under t)
      (tun_fragment_lem p stale id buf o chunk plain sixteen inside fits ok)
    ∙ handle_server-encoded now (tun_header stale id buf o chunk) payload under t id_fits
        (omega arith) (omega arith) flags sixteen size
    ∙ store_fragment-session_id now h stale payload (length payload) t
    ∙ sym (
        ap (λ b. handle_plain now b t) (fragment_at_lem p id buf o chunk ok inside fits)
        ∙ handle-encoded now h payload t id_fits (omega arith) (omega arith) flags refl)

receive_alike :
    (clock : ℕ → ℕ) (under : ℕ → List ℕ) (k : ℕ) (a b : List ℕ) (qs ps : List (List ℕ)) (t : Table)
    → handle_plain_server (clock k) a (under k) t ≡ handle_plain (clock k) b t
    → ((s : Table) → receive_all_server clock under (k + 1) qs s ≡ receive_all clock (k + 1) ps s)
    → receive_all_server clock under k (a ∷ qs) t ≡ receive_all clock k (b ∷ ps) t
unfolding receive_all receive_all_server
receive_alike clock under k a b qs ps t e f = rw (e, f (handle_plain (clock k) b t).1) refl

-- What the receiver does with the client's fragments of the packet is what it does with the server's.
alike :
    (fuel : ℕ) (p : Params) (stale : ℕ → List ℕ) (id : ℕ) (buf : List ℕ) (clock : ℕ → ℕ)
    (under : ℕ → List ℕ) (o : ℕ) (ps : List (List ℕ))
    → p.cbr ≡ false
    → ((n : ℕ) → length (stale n) ≡ 16)
    → IsFrag p
    → id < 2 ^ 16
    → length buf ≤ 1600
    → fragments fuel p id buf o ≡ some ps
    → (qs : List (List ℕ)) × (tun_fragments fuel p stale id buf o ≡ some qs)
      × ((k : ℕ) (t : Table) → receive_all_server clock under k qs t ≡ receive_all clock k ps t)
unfolding fragments tun_fragments receive_all receive_all_server
alike zero p stale id buf clock under o ps plain sixteen ok id_fits short h = absurd cc
alike (suc fuel) p stale id buf clock under o ps plain sixteen ok id_fits short h =
    let chunk = chunk_at p (length buf) o in
    elim (dec_lt o (length buf)) [
      | no over ↦
          let empty : ◌≡◌ {A = List (List ℕ)} [] ps = ground arith in
          ([], ground arith, λ k t. ap (λ x. receive_all clock k x t) empty)
      | yes lt ↦ elim (Option-cases (fragments fuel p id buf (o + chunk))) [
        | inl n ↦ absurd (ground arith)
        | inr (rest, e) ↦
            let (qs, f, same) =
              alike fuel p stale id buf clock under (o + chunk) rest plain sixteen ok id_fits short
                e in
            let first = tun_fragment p (stale o) id buf o chunk in
            let here : (now : ℕ) (x : List ℕ) (t : Table)
                → handle_plain_server now first x t
                  ≡ handle_plain now (fragment_at p id buf o chunk) t =
              λ now x t.
                handle-tun_fragment now p (stale o) x id buf o chunk t plain (sixteen o)
                  (ground arith) (ground (arith, ok.least)) ok id_fits short in
            let cons : fragment_at p id buf o chunk ∷ rest ≡ ps = ground arith in
            (
              first ∷ qs,
              ground arith,
              λ k t.
                  receive_alike clock under k first (fragment_at p id buf o chunk) qs rest t
                    (here (clock k) (under k) t) (same (k + 1))
                  ∙ ap (λ x. receive_all clock k x t) cons,
            )
      ]
    ]

-- A packet of 1 to 1600 bytes from the client's TUN device, fragmented at any size from 64 to 1200, with or
-- without padding and whatever the client's stack holds in place of the inner session identifiers, is put
-- together again by the server, whatever the server's stack holds behind the decrypted packets: the
-- client's loop ends, all its fragments but the last are stored, and the last one delivers exactly the
-- packet, at a table in which no entry is in use for the id and entry `i` is the first that is free.
pub receive_all_server-tun_fragments :
    (u : Uplink) (stale under : ℕ → List ℕ) (id : ℕ) (buf : List ℕ) (clock : ℕ → ℕ) (i : ℕ)
    (t : Table)
    → ((n : ℕ) → length (stale n) ≡ 16)
    → IsFrag (params_of u)
    → id < 2 ^ 16
    → 0 < length buf
    → length buf ≤ 1600
    → Absent id t
    → Free i t
    → (ps : List (List ℕ)) × (before : ℕ) × (last : Entry) × (tun_fragments
          (length buf + 1)
          (params_of u)
          stale
          id
          buf
          0
        ≡ some ps)
      × (receive_all_server clock under 0 ps t
          ≡ (replicate before stored ++ delivered buf ∷ [], set t i last))
      × (last.is_active ≡ false)
unfolding fragment_packet
receive_all_server-tun_fragments u stale under id buf clock i t sixteen ok id_fits pos short absent
      free =
    let p = params_of u in
    let (ps, before, last, cut, run, idle) =
      receive_all-fragment_packet p id buf clock i t ok id_fits pos short absent free in
    let (qs, mine, same) =
      alike (length buf + 1) p stale id buf clock under 0 ps refl sixteen ok id_fits short cut in
    (qs, before, last, mine, same 0 t ∙ run, idle)
