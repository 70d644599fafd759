-- ===== src/Crypto.antt =====
-- The keys and the cipher: chamlon_server/src/vpn_crypto.c and chamlon_client/src/vpn_crypto.c, which are
-- the same. The primitives are libsodium's, a parameter of everything that uses them; `Contract` has
-- what their documentation promises.
pub mod Contract
pub mod Toy
use chamlon.Base.{ℕ, Bool, List, [], ◌∷◌, ◌++◌, Option, none, some, take}
use chamlon.Wire.{build_nonce, associated_data}

-- The calls of libsodium; `none` is a result other than 0.
pub record Sodium : Type 0 where
  pub public_of : List ℕ → List ℕ
  pub scalarmult : List ℕ → List ℕ → Option (List ℕ)
  pub generichash : ℕ → List ℕ → List ℕ
  pub sign_detached : List ℕ → List ℕ → Option (List ℕ)
  pub verify_detached : List ℕ → List ℕ → List ℕ → Bool
  pub sign_public_of : List ℕ → List ℕ
  pub sk_to_curve25519 : List ℕ → Option (List ℕ)
  pub pk_to_curve25519 : List ℕ → Option (List ℕ)
  pub chacha_encrypt : List ℕ → List ℕ → List ℕ → List ℕ → Option (List ℕ)
  pub chacha_decrypt : List ℕ → List ℕ → List ℕ → List ℕ → Option (List ℕ)

abbrev pub aead_key_len : ℕ
aead_key_len = 32

abbrev pub mac_len : ℕ
mac_len = 16

-- `update` after `update` hashes the bytes one behind the other.
unfoldable pub derive_two_keys : Sodium → List ℕ → List ℕ → List ℕ × List ℕ
derive_two_keys c shared context =
    let tmp = c.generichash 64 (shared ++ (1 ∷ context)) in
    let tmp' = c.generichash 64 (take aead_key_len tmp ++ (2 ∷ context)) in
    (take aead_key_len tmp, take aead_key_len tmp')

unfoldable pub aead_encrypt : Sodium → List ℕ → List ℕ → ℕ → List ℕ → Option (List ℕ)
aead_encrypt c key session_id seq plain =
    c.chacha_encrypt key (build_nonce key seq) (associated_data session_id seq) plain

unfoldable pub aead_decrypt : Sodium → List ℕ → List ℕ → ℕ → List ℕ → Option (List ℕ)
aead_decrypt c key session_id seq cipher =
    c.chacha_decrypt key (build_nonce key seq) (associated_data session_id seq) cipher
