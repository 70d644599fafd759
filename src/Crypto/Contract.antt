-- ===== src/Crypto/Contract.antt =====
-- What the documentation of libsodium promises of the calls.
use chamlon.Base.{ℕ, ◌+◌, ◌≡◌, true, List, some, length}
use chamlon.Crypto.{Sodium, aead_encrypt, aead_decrypt}

pub record IsSodium (c : Sodium) : Type 0 where
  -- Both sides of a Diffie-Hellman exchange get the same point.
  pub same_point : (a b : List ℕ) → c.scalarmult a (c.public_of b) ≡ c.scalarmult b (c.public_of a)
  -- A signature is verified with the public key of its secret key.
  pub verifies :
      (sk m sig : List ℕ)
      → c.sign_detached sk m ≡ some sig
      → c.verify_detached sig m (c.sign_public_of sk) ≡ true
  -- The conversions of a key pair to X25519 give a key pair.
  pub converts :
      (sk x : List ℕ)
      → c.sk_to_curve25519 sk ≡ some x
      → c.pk_to_curve25519 (c.sign_public_of sk) ≡ some (c.public_of x)
  -- What is encrypted is decrypted with the same key, nonce and additional data.
  pub opens :
      (key nonce ad plain cipher : List ℕ)
      → c.chacha_encrypt key nonce ad plain ≡ some cipher
      → c.chacha_decrypt key nonce ad cipher ≡ some plain
  -- Encryption does not fail.
  pub seals :
      (key nonce ad plain : List ℕ)
      → (cipher : List ℕ) × (c.chacha_encrypt key nonce ad plain ≡ some cipher)
  pub public_len : (sk : List ℕ) → length (c.public_of sk) ≡ 32
  pub signature_len : (sk m sig : List ℕ) → c.sign_detached sk m ≡ some sig → length sig ≡ 64
  pub hash_len : (n : ℕ) (m : List ℕ) → length (c.generichash n m) ≡ n
  pub cipher_len :
      (key nonce ad plain cipher : List ℕ)
      → c.chacha_encrypt key nonce ad plain ≡ some cipher
      → length cipher ≡ length plain + 16

pub aead_decrypt-aead_encrypt :
    (c : Sodium) (key session_id : List ℕ) (seq : ℕ) (plain cipher : List ℕ)
    → IsSodium c
    → aead_encrypt c key session_id seq plain ≡ some cipher
    → aead_decrypt c key session_id seq cipher ≡ some plain
unfolding aead_encrypt aead_decrypt
aead_decrypt-aead_encrypt c key session_id seq plain cipher ok h = ok.opens _ _ _ _ _ h

pub length-aead_encrypt :
    (c : Sodium) (key session_id : List ℕ) (seq : ℕ) (plain cipher : List ℕ)
    → IsSodium c
    → aead_encrypt c key session_id seq plain ≡ some cipher
    → length cipher ≡ length plain + 16
unfolding aead_encrypt
length-aead_encrypt c key session_id seq plain cipher ok h = ok.cipher_len _ _ _ _ _ h

pub aead_encrypt-some :
    (c : Sodium) (key session_id : List ℕ) (seq : ℕ) (plain : List ℕ)
    → IsSodium c
    → (cipher : List ℕ) × (aead_encrypt c key session_id seq plain ≡ some cipher)
unfolding aead_encrypt
aead_encrypt-some c key session_id seq plain ok = ok.seals _ _ _ _
