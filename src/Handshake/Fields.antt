-- ===== src/Handshake/Fields.antt =====
-- The fields of MSG1 and MSG2 come back from the bytes that are sent.
use chamlon.Base.{
  ℕ, ◌+◌, ◌*◌, ◌<◌, ◌^◌, ◌≡◌, ap, ap₂, ◌∙◌, List, [], ◌∷◌, ◌++◌, arith, length, take, drop, get_or,
  length-append, take-append_exact, drop-append_exact, get_or-append_exact,
}
use chamlon.Wire.{encode_proto, u32_at, bytes_of_u32}
use chamlon.Handshake.{Hello, parse_msg1}
use chamlon.Handshake.ClientSide.{encode_msg1}

pub record IsHello (h : Hello) : Type 0 where
  pub pub_len : length h.c_pub ≡ 32
  pub nonce_len : length h.c_nonce ≡ 8
  pub mbps_small : h.wanted.mbps < 2 ^ 32
  pub frag_small : h.wanted.frag < 2 ^ 32

u32_at-append_exact :
    (n i : ℕ) (xs ys : List ℕ) → length xs ≡ n → u32_at (xs ++ ys) (n + i) ≡ u32_at ys i
u32_at-append_exact n i xs ys h =
    let at : (k : ℕ) → get_or (xs ++ ys) (n + i + k) 0 ≡ get_or ys (i + k) 0 = λ k.
      ap (λ j. get_or (xs ++ ys) j 0) (omega arith) ∙ get_or-append_exact n (i + k) xs ys 0 h in
    let at' : get_or (xs ++ ys) (n + i + 2 + 1) 0 ≡ get_or ys (i + 2 + 1) 0 =
      ap (λ j. get_or (xs ++ ys) j 0) (omega arith) ∙ get_or-append_exact n (i + 2 + 1) xs ys 0 h in
    ap₂ (λ a b. a + 65536 * b) (ap₂ (λ a b. a + 256 * b) (get_or-append_exact n i xs ys 0 h) (at 1))
      (ap₂ (λ a b. a + 256 * b) (at 2) at')

-- The fields behind the key and the nonce are read past both.
past :
    (i : ℕ) (p q ys : List ℕ)
    → length p ≡ 32
    → length q ≡ 8
    → u32_at (p ++ (q ++ ys)) (40 + i) ≡ u32_at ys i
past i p q ys hp hq =
    ap (u32_at (p ++ (q ++ ys))) (omega arith)
    ∙ u32_at-append_exact 32 (8 + i) p (q ++ ys) hp
    ∙ u32_at-append_exact 8 i q ys hq

byte_past :
    (i : ℕ) (p q ys : List ℕ)
    → length p ≡ 32
    → length q ≡ 8
    → get_or (p ++ (q ++ ys)) (40 + i) 0 ≡ get_or ys i 0
byte_past i p q ys hp hq =
    ap (λ k. get_or (p ++ (q ++ ys)) k 0) (omega arith)
    ∙ get_or-append_exact 32 (8 + i) p (q ++ ys) 0 hp
    ∙ get_or-append_exact 8 i q ys 0 hq

u32_at-bytes_of_u32 : (n : ℕ) (rest : List ℕ) → n < 2 ^ 32 → u32_at (bytes_of_u32 n ++ rest) 0 ≡ n
u32_at-bytes_of_u32 n rest h = omega arith

take-drop_second :
    (p q ys : List ℕ) → length p ≡ 32 → length q ≡ 8 → take 8 (drop 32 (p ++ (q ++ ys))) ≡ q
take-drop_second p q ys hp hq =
    ap (take 8) (drop-append_exact 32 p (q ++ ys) hp) ∙ take-append_exact 8 q ys hq

-- The server reads from MSG1 what the client wrote, when the key and the nonce have their lengths and the
-- two numbers fit 32 bits.
pub parse_msg1-encode_msg1 : (h : Hello) → IsHello h → parse_msg1 (encode_msg1 h) ≡ h
unfolding parse_msg1 encode_msg1 encode_proto
parse_msg1-encode_msg1 h ok =
    let tail : List ℕ = h.wanted.cbr ∷ h.wanted.pad ∷ [] in
    let numbers : List ℕ = bytes_of_u32 h.wanted.mbps ++ (bytes_of_u32 h.wanted.frag ++ tail) in
    let key = take-append_exact 32 h.c_pub (h.c_nonce ++ numbers) ok.pub_len in
    let nonce = take-drop_second h.c_pub h.c_nonce numbers ok.pub_len ok.nonce_len in
    let mbps =
      past 0 h.c_pub h.c_nonce numbers ok.pub_len ok.nonce_len
      ∙ u32_at-bytes_of_u32 h.wanted.mbps (bytes_of_u32 h.wanted.frag ++ tail) ok.mbps_small in
    let frag =
      past 4 h.c_pub h.c_nonce numbers ok.pub_len ok.nonce_len
      ∙ u32_at-bytes_of_u32 h.wanted.frag tail ok.frag_small in
    let cbr = byte_past 8 h.c_pub h.c_nonce numbers ok.pub_len ok.nonce_len in
    let pad = byte_past 9 h.c_pub h.c_nonce numbers ok.pub_len ok.nonce_len in
    λ i. record {
      c_pub = key i;
      c_nonce = nonce i;
      wanted = record { mbps = mbps i; frag = frag i; cbr = cbr i; pad = pad i };
    }

-- MSG1 has the length that the server asks for.
pub length-encode_msg1 : (h : Hello) → IsHello h → length (encode_msg1 h) ≡ 56
unfolding encode_msg1 encode_proto
length-encode_msg1 h ok = omega (
  arith,
  ok.pub_len,
  ok.nonce_len,
  length-append h.c_pub (h.c_nonce ++ _),
  length-append h.c_nonce _,
)
