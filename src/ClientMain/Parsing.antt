-- ===== src/ClientMain/Parsing.antt =====
-- What the client's options can be.
use chamlon.Base.{
  ℕ, ◌-◌, zero, suc, ◌*◌, ◌≤◌, ◌≡◌, refl, ap, ◌∙◌, ◌⊎◌, inl, inr, true, List, [], ◌∷◌, Option, none,
  some, arith, length, length-take, take, drop, get_or, leb, ltb, ◌==◌, Bool-cases, Option-cases,
  if_elim, if◌then◌else◌,
}
use chamlon.Sessions.{letter_y, same_bytes}
use chamlon.ClientMain.{
  ℤ, pos, negsuc, Scanned, Libc, Options, ifnamsiz, hex_bytes, hex2bin, at_least, at_most,
  is_letter, key_mbps, key_frag, key_cbr, key_pad, key_rehandshake, key_tun, set_option,
  set_options, port_of, parse_arguments,
}

abbrev pub IsLetter : ℕ → Type 0
IsLetter b = (b ≡ 89) ⊎ (b ≡ 78)

abbrev pub Within : ℕ → ℕ → ℕ → Type 0
Within low high n = (low ≤ n) × (n ≤ high)

-- The ranges of the options.
abbrev pub IsOptions : Options → Type 0
IsOptions o =
    Within 1 15 o.argv_mbps
    × (Within 300 1200 o.argv_frag
        × (IsLetter o.argv_cbr
            × (IsLetter o.argv_pad
                × ((1 ≤ o.argv_rehandshake_interval) × (length o.argv_tun_name ≤ 15)))))

at_least_lem : (low : ℕ) (z : ℤ) → low ≤ at_least low z
at_least_lem low (pos n) = ground arith
at_least_lem low (negsuc n) = omega arith

at_most_lem :
    (low high n : ℕ) → low ≤ high → low ≤ n → (low ≤ at_most high n) × (at_most high n ≤ high)
at_most_lem low high n h k = ground arith

is_letter-IsLetter : (v : List ℕ) → is_letter v ≡ true → IsLetter (get_or v 0 0)
is_letter-IsLetter v h = elim (Bool-cases (get_or v 0 0 == letter_y)) [
  | inl e ↦ inl (ground arith)
  | inr e ↦ inr (ground arith)
]

mbps-IsOptions :
    (z : ℤ) (o : Options)
    → IsOptions o
    → IsOptions (record o { argv_mbps = at_most 15 (at_least 1 z) })
mbps-IsOptions z o (mbps, ok) =
    let (least, most) = at_most_lem 1 15 (at_least 1 z) (omega arith) (at_least_lem 1 z) in
    ((least, most), ok)

frag-IsOptions :
    (z : ℤ) (o : Options)
    → IsOptions o
    → IsOptions (record o { argv_frag = at_most 1200 (at_least 300 z) })
frag-IsOptions z o (mbps, (frag, ok)) =
    let (least, most) = at_most_lem 300 1200 (at_least 300 z) (omega arith) (at_least_lem 300 z) in
    (mbps, ((least, most), ok))

name-IsOptions :
    (v : List ℕ) (o : Options)
    → IsOptions o
    → IsOptions (record o { argv_tun_name = take (ifnamsiz - 1) v })
name-IsOptions v o (mbps, (frag, (cbr, (pad, (interval, name))))) =
    let fits : length (take 15 v) ≤ 15 = omega (arith, length-take 15 v) in
    (mbps, (frag, (cbr, (pad, (interval, fits)))))

set_option-IsOptions :
    (l : Libc) (s : Scanned) (o : Options) → IsOptions o → IsOptions (set_option l s o)
unfolding set_option
set_option-IsOptions l s o (mbps, (frag, (cbr, (pad, rest)))) =
    let ok : IsOptions o = (mbps, (frag, (cbr, (pad, rest)))) in
    if_elim IsOptions (same_bytes s.key key_mbps) _ _ (λ y. mbps-IsOptions (l.atoi s.v1) o ok)
      (λ y.
        if_elim IsOptions (same_bytes s.key key_frag) _ _
          (λ y.
            if_elim IsOptions (is_letter s.v1) _ _
              (λ y.
                if_elim IsOptions (s.count == 3) _ _ (λ y. frag-IsOptions (l.atoi s.v2) o ok)
                  (λ y. ok))
              (λ y. ok))
          (λ y.
            if_elim IsOptions (same_bytes s.key key_cbr) _ _
              (λ y.
                if_elim IsOptions (is_letter s.v1) _ _
                  (λ letter. (mbps, (frag, (is_letter-IsLetter s.v1 letter, (pad, rest)))))
                  (λ y. ok))
              (λ y.
                if_elim IsOptions (same_bytes s.key key_pad) _ _
                  (λ y.
                    if_elim IsOptions (is_letter s.v1) _ _
                      (λ letter. (mbps, (frag, (cbr, (is_letter-IsLetter s.v1 letter, rest)))))
                      (λ y. ok))
                  (λ y.
                    if_elim IsOptions (same_bytes s.key key_rehandshake) _ _
                      (λ y. (mbps, (frag, (cbr, (pad, (at_least_lem 1 (l.atoi s.v1), rest.1))))))
                      (λ y.
                        if_elim IsOptions (same_bytes s.key key_tun) _ _
                          (λ y. name-IsOptions s.v1 o ok) (λ y. ok))))))

set_options-IsOptions :
    (l : Libc) (args : List (List ℕ)) (o : Options) → IsOptions o → IsOptions (set_options l args o)
unfolding set_options
set_options-IsOptions l [] o ok = ok
set_options-IsOptions l (arg ∷ args) o ok =
    let s = l.sscanf_option arg in
    set_options-IsOptions l args _
      (if_elim IsOptions (leb 2 s.count) _ _ (λ y. set_option-IsOptions l s o ok) (λ y. ok))

-- Options leave the key alone.
set_option-pk : (l : Libc) (s : Scanned) (o : Options) → (set_option l s o).server_pk ≡ o.server_pk
unfolding set_option
set_option-pk l s o = ground arith

set_options-pk :
    (l : Libc) (args : List (List ℕ)) (o : Options) → (set_options l args o).server_pk ≡ o.server_pk
unfolding set_options
set_options-pk l [] o = refl
set_options-pk l (arg ∷ args) o =
    let s = l.sscanf_option arg in
    set_options-pk l args (if leb 2 s.count then set_option l s o else o)
    ∙ if_elim (λ (x : Options). x.server_pk ≡ o.server_pk) (leb 2 s.count) _ _
        (λ y. set_option-pk l s o) (λ y. refl)

length-hex_bytes :
    (l : Libc) (n : ℕ) (hex out : List ℕ) → hex_bytes l n hex ≡ some out → length out ≡ n
unfolding hex_bytes
length-hex_bytes l zero hex out h = ground arith
length-hex_bytes l (suc n) hex out h = elim (Option-cases (l.sscanf_hex hex)) [
  | inl e ↦ absurd (ground arith)
  | inr (v, e) ↦ elim (Option-cases (hex_bytes l n (drop 2 hex))) [
    | inl f ↦ absurd (ground arith)
    | inr (bs, f) ↦ let rest = length-hex_bytes l n (drop 2 hex) bs f in ground arith
  ]
]

length-hex2bin : (l : Libc) (hex out : List ℕ) (n : ℕ) → hex2bin l hex n ≡ some out → length out ≡ n
unfolding hex2bin
length-hex2bin l hex out n h = elim (Bool-cases (length hex == n * 2)) [
  | inl e ↦ length-hex_bytes l n hex out (ground arith)
  | inr e ↦ absurd (ground arith)
]

-- Options in their ranges, and a key of 32 bytes.
abbrev pub Parsed : Option Options → Type 0
Parsed none = Unit
Parsed (some o) = IsOptions o × (length o.server_pk ≡ 32)

-- Whatever the arguments are and whatever the C library makes of them, parsing either fails or leaves
-- options in their ranges: a rate from 1 to 15, a fragment size from 300 to 1200, the letters Y or N, an
-- interval of a second at least and a device name of at most 15 characters. The server's key has 32 bytes.
pub parse_arguments-Parsed :
    (l : Libc) (argv : List (List ℕ)) (o : Options)
    → IsOptions o
    → Parsed (parse_arguments l argv o)
unfolding parse_arguments
parse_arguments-Parsed l argv o ok =
    if_elim Parsed (ltb (length argv) 4) _ _ (λ y. tt)
      (λ y. elim (Option-cases (hex2bin l (get_or argv 3 []) 32)) [
        | inl e ↦ rw (parse_arguments, e) tt
        | inr (pk, e) ↦ elim (Option-cases (l.inet_aton (get_or argv 1 []))) [
          | inl f ↦ rw (parse_arguments, e, f) tt
          | inr (addr, f) ↦
              let start : Options = record o {
                server_pk = pk;
                sin_port = port_of (l.atoi (get_or argv 2 []));
                sin_addr = addr;
              } in
              let key = set_options-pk l (drop 4 argv) start in
              rw (parse_arguments, e, f)
                (
                  set_options-IsOptions l (drop 4 argv) start ok,
                  ap length key ∙ length-hex2bin l (get_or argv 3 []) pk 32 e,
                )
        ]
      ])
