-- ===== src/KeyFile.antt =====
-- The key file of the server: `load_or_create_server_key` of chamlon_server/src/handshake.c. The file is
-- the list of its bytes, or `none` where it cannot be opened. What the random generator gives is an
-- argument, and so is what the disk does.
pub mod Reload
mod Examples
use chamlon.Base.{
  ℕ, Bool, not, List, ◌++◌, Option, none, some, length, take, drop, leb, if◌then◌else◌,
}
use chamlon.Crypto.{Sodium}
use chamlon.Sessions.{same_bytes}

-- `sk`, `pk` and `sign_pk`, and the signing key that the module keeps.
pub record ServerKeys : Type 0 where
  pub sk : List ℕ
  pub pk : List ℕ
  pub sign_pk : List ℕ
  pub sign_sk : List ℕ

-- What `crypto_sign_keypair` gives, whether the file can be opened and written, and what is left of a file
-- that cannot be written to its end.
pub record Outside : Type 0 where
  pub keypair : Option (List ℕ × List ℕ)
  pub opened : Bool
  pub written : Bool
  pub left : List ℕ

abbrev pub key_file_len : ℕ
key_file_len = 128

-- A file that is long enough; bytes behind the keys are not read.
unfoldable pub load_keys : Sodium → List ℕ → Option ServerKeys
load_keys c bytes =
    let ed_sk = take 64 bytes in
    elim (c.sk_to_curve25519 ed_sk) [
      | none ↦ none
      | some sk ↦ some (record {
        sk = sk;
        pk = take 32 (drop 96 bytes);
        sign_pk = take 32 (drop 64 bytes);
        sign_sk = ed_sk;
      })
    ]

-- Fresh keys, before they are written.
unfoldable pub generate_keys : Sodium → Option (List ℕ × List ℕ) → Option ServerKeys
generate_keys c none = none
generate_keys c (some (ed_sk, ed_pk)) = elim (c.sk_to_curve25519 ed_sk) [
  | none ↦ none
  | some sk ↦ elim (c.pk_to_curve25519 ed_pk) [
    | none ↦ none
    | some pk ↦
        if same_bytes pk ed_pk
        then none
        else some (record { sk = sk; pk = pk; sign_pk = ed_pk; sign_sk = ed_sk })
  ]
]

-- The file becomes empty when it is opened, and `none` stands for the result -1.
unfoldable pub create_keys :
    Sodium → Outside → Option (List ℕ) → Option ServerKeys × Option (List ℕ)
create_keys c out file = elim (generate_keys c out.keypair) [
  | none ↦ (none, file)
  | some k ↦
      if not out.opened
      then (none, file)
      else if out.written
      then (some k, some (k.sign_sk ++ (k.sign_pk ++ k.pk)))
      else (none, some out.left)
]

-- The keys, or `none` for the result -1, and the file afterwards.
unfoldable pub load_or_create_server_key :
    Sodium → Outside → Option (List ℕ) → Option ServerKeys × Option (List ℕ)
load_or_create_server_key c out none = create_keys c out none
load_or_create_server_key c out (some bytes) =
    if leb key_file_len (length bytes)
    then (load_keys c bytes, some bytes)
    else create_keys c out (some bytes)
