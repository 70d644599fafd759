-- ===== src/Crypto/Toy.antt =====
-- A concrete instance of the calls, which keeps the contract: for the examples only.
use chamlon.Base.{
  ℕ, ◌+◌, ◌≡◌, refl, sym, ap, true, List, [], ◌∷◌, ◌++◌, some, arith, length, replicate, drop,
  length-append, length-replicate,
}
use chamlon.Crypto.{Sodium}
use chamlon.Crypto.Contract.{IsSodium}

-- Keys are numbers in 32 bytes, a point is the sum, and everything signed is verified.
abbrev first : List ℕ → ℕ
first [] = 0
first (x ∷ xs) = x

abbrev pub toy : Sodium
toy = record {
  public_of = λ sk. first sk ∷ replicate 31 0;
  scalarmult = λ sk pk. some ((first sk + first pk) ∷ replicate 31 0);
  generichash = λ n m. replicate n (first m);
  sign_detached = λ sk m. some (replicate 64 7);
  verify_detached = λ sig m pk. true;
  sign_public_of = λ sk. first sk ∷ replicate 31 1;
  sk_to_curve25519 = λ sk. some (first sk ∷ replicate 31 0);
  pk_to_curve25519 = λ pk. some (first pk ∷ replicate 31 0);
  chacha_encrypt = λ key nonce ad plain. some (replicate 16 0 ++ plain);
  chacha_decrypt = λ key nonce ad cipher. some (drop 16 cipher);
}

pub toy-IsSodium : IsSodium toy
toy-IsSodium = record {
  same_point = λ a b. ap (λ n. some (n ∷ replicate 31 0)) (omega arith);
  verifies = λ sk m sig h. refl;
  converts = λ sk x h. ground arith;
  opens = λ key nonce ad plain cipher h. ground arith;
  seals = λ key nonce ad plain. (replicate 16 0 ++ plain, refl);
  public_len = λ sk. refl;
  signature_len = λ sk m sig h. let same : replicate 64 7 ≡ sig = cc in ap length (sym same);
  hash_len = λ n m. length-replicate n (first m);
  cipher_len = λ key nonce ad plain cipher h.
      let same : replicate 16 0 ++ plain ≡ cipher = cc in
      omega (arith, ap length same, length-append {A = ℕ} (replicate 16 0) plain);
}
