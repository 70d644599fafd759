-- ===== src/ClientMain/Asking.antt =====
-- What the client asks for is what the server gives.
use chamlon.Base.{
  ℕ, ◌≡◌, refl, sym, ap₂, ◌∙◌, subst, inl, inr, List, some, arith, length, ◌==◌, if◌then◌else◌,
}
use chamlon.Sessions.{Session, configured, letter_y, letter_n}
use chamlon.Handshake.{Hello, parse_msg1}
use chamlon.Handshake.ClientSide.{encode_msg1}
use chamlon.Handshake.Fields.{IsHello, parse_msg1-encode_msg1}
use chamlon.Fragment.Plain.{IsFrag}
use chamlon.Outbound.{params_of}
use chamlon.ClientMain.{Libc, Options, default_options, parse_arguments, wanted_of}
use chamlon.ClientMain.Parsing.{IsLetter, IsOptions, Parsed, parse_arguments-Parsed}

-- MSG1 of a client with these options.
abbrev pub hello_of : Options → List ℕ → List ℕ → Hello
hello_of o c_pub c_nonce = record { c_pub = c_pub; c_nonce = c_nonce; wanted = wanted_of o }

-- The session has the settings of the options, and a fragment size that both sides can use.
abbrev pub Granted : Options → Session → Session → Type 0
Granted o s given =
    (given ≡ record s {
      argv_mbps = o.argv_mbps;
      argv_frag = o.argv_frag;
      argv_cbr = o.argv_cbr;
      argv_pad = o.argv_pad;
    })
    × IsFrag (params_of given)

pub default_options-IsOptions : IsOptions default_options
default_options-IsOptions = (
  (omega arith, omega arith),
  ((omega arith, omega arith), (inr refl, (inr refl, (omega arith, omega arith)))),
)

letter_kept : (b : ℕ) → IsLetter b → (if b == letter_y then letter_y else letter_n) ≡ b
letter_kept b (inl e) = ground (arith, e)
letter_kept b (inr e) = ground (arith, e)

configured-Granted :
    (o : Options) (s : Session) → IsOptions o → Granted o s (configured (wanted_of o) s)
configured-Granted o s (mbps, (frag, (cbr, (pad, rest)))) =
    let given = configured (wanted_of o) s in
    let a : given.argv_mbps ≡ o.argv_mbps = ground (arith, mbps.0, mbps.1) in
    let b : given.argv_frag ≡ o.argv_frag = ground (arith, frag.0, frag.1) in
    let c : given.argv_cbr ≡ o.argv_cbr = letter_kept o.argv_cbr cbr in
    let d : given.argv_pad ≡ o.argv_pad = letter_kept o.argv_pad pad in
    (
      ap₂ (λ m f. record given { argv_mbps = m; argv_frag = f }) a b
          ∙ ap₂
              (λ y z. record given {
                argv_mbps = o.argv_mbps;
                argv_frag = o.argv_frag;
                argv_cbr = y;
                argv_pad = z;
              })
              c d,
      record { least = omega (arith, b, frag.0); most = omega (arith, b, frag.1) },
    )

-- A client whose options come from the command line sends them in MSG1, and the server's session gets
-- just these, none replaced by a default; its fragment size is one that both sides can use.
pub configured-options :
    (l : Libc) (argv : List (List ℕ)) (o : Options) (c_pub c_nonce : List ℕ) (s : Session)
    → parse_arguments l argv default_options ≡ some o
    → length c_pub ≡ 32
    → length c_nonce ≡ 8
    → Granted o s (configured (parse_msg1 (encode_msg1 (hello_of o c_pub c_nonce))).wanted s)
configured-options l argv o c_pub c_nonce s h pub_len nonce_len =
    let (ok, key) =
      subst Parsed h (parse_arguments-Parsed l argv default_options default_options-IsOptions) in
    let (mbps, (frag, rest)) = ok in
    let hello : IsHello (hello_of o c_pub c_nonce) = record {
      pub_len = pub_len;
      nonce_len = nonce_len;
      mbps_small = omega (arith, mbps.1);
      frag_small = omega (arith, frag.1);
    } in
    subst (λ x. Granted o s (configured x.wanted s))
      (sym (parse_msg1-encode_msg1 (hello_of o c_pub c_nonce) hello)) (configured-Granted o s ok)
