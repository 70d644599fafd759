-- ===== src/KeyFile/Reload.antt =====
-- The keys that are created come back from the file.
use chamlon.Base.{
  ℕ, ◌<◌, ◌≡◌, refl, sym, ap, ◌∙◌, subst, inl, inr, true, false, List, ◌++◌, Option, none, some,
  arith, length, length-append, take, drop, take-append_exact, drop-append_exact, take_all,
  append_assoc, ap₂, leb, Bool-cases, Option-cases,
}
use chamlon.Crypto.{Sodium}
use chamlon.Crypto.Contract.{IsSodium}
use chamlon.Sessions.{same_bytes}
use chamlon.KeyFile.{
  ServerKeys, Outside, load_keys, generate_keys, create_keys, load_or_create_server_key,
}

-- What libsodium documents of a pair of signing keys.
pub record IsPair (c : Sodium) (pair : Option (List ℕ × List ℕ)) : Type 0 where
  pub secret_len : (sk pk : List ℕ) → pair ≡ some (sk, pk) → length sk ≡ 64
  pub public_of_secret : (sk pk : List ℕ) → pair ≡ some (sk, pk) → pk ≡ c.sign_public_of sk
  pub public_len : (sk pk : List ℕ) → pair ≡ some (sk, pk) → length pk ≡ 32

-- The four keys belong together.
pub record AreKeys (c : Sodium) (k : ServerKeys) : Type 0 where
  pub from_signing : c.sk_to_curve25519 k.sign_sk ≡ some k.sk
  pub public : k.pk ≡ c.public_of k.sk
  pub signing_public : k.sign_pk ≡ c.sign_public_of k.sign_sk

-- There is no file, or one that is too short.
abbrev pub Absent : Option (List ℕ) → Type 0
Absent none = Unit
Absent (some bytes) = length bytes < 128

-- Keys of the lengths that the file has room for.
abbrev Sized : ServerKeys → Type 0
Sized k = (length k.sign_sk ≡ 64) × (length k.sign_pk ≡ 32) × (length k.pk ≡ 32)

generate_keys-AreKeys :
    (c : Sodium) (pair : Option (List ℕ × List ℕ)) (k : ServerKeys)
    → IsSodium c
    → IsPair c pair
    → generate_keys c pair ≡ some k
    → AreKeys c k × Sized k
unfolding generate_keys
generate_keys-AreKeys c none k good ok h = cc
generate_keys-AreKeys c (some (ed_sk, ed_pk)) k good ok h =
    elim (Option-cases (c.sk_to_curve25519 ed_sk)) [
      | inl n ↦ absurd (ground arith)
      | inr (x, e) ↦ elim (Option-cases (c.pk_to_curve25519 ed_pk)) [
        | inl n ↦ absurd (ground arith)
        | inr (y, f) ↦ elim (Bool-cases (same_bytes y ed_pk)) [
          | inl z ↦ absurd (ground arith)
          | inr z ↦
              let made : ServerKeys = record { sk = x; pk = y; sign_pk = ed_pk; sign_sk = ed_sk } in
              let run : generate_keys c (some (ed_sk, ed_pk)) ≡ some made =
                rw (generate_keys, e, f, z) refl in
              let both : ◌≡◌ {A = Option ServerKeys} (some made) (some k) = sym run ∙ h in
              let same : made ≡ k = cc in
              let pair = ok.public_of_secret ed_sk ed_pk refl in
              let converted = sym f ∙ (ap c.pk_to_curve25519 pair ∙ good.converts ed_sk x e) in
              let matching : y ≡ c.public_of x = cc in
              subst (λ k'. AreKeys c k' × Sized k') same
                (
                  record { from_signing = e; public = matching; signing_public = pair },
                  (
                    ok.secret_len ed_sk ed_pk refl,
                    ok.public_len ed_sk ed_pk refl,
                    ap length matching ∙ good.public_len x,
                  ),
                )
        ]
      ]
    ]

-- The file of the keys.
abbrev bytes_of : ServerKeys → List ℕ
bytes_of k = k.sign_sk ++ (k.sign_pk ++ k.pk)

load_keys-bytes_of :
    (c : Sodium) (k : ServerKeys) → AreKeys c k → Sized k → load_keys c (bytes_of k) ≡ some k
unfolding load_keys
load_keys-bytes_of c k keys (secret_len, signing_len, public_len) =
    let behind = drop-append_exact 64 k.sign_sk (k.sign_pk ++ k.pk) secret_len in
    let secret : take 64 (bytes_of k) ≡ k.sign_sk =
      take-append_exact 64 k.sign_sk (k.sign_pk ++ k.pk) secret_len in
    let signing : take 32 (drop 64 (bytes_of k)) ≡ k.sign_pk =
      ap (take 32) behind ∙ take-append_exact 32 k.sign_pk k.pk signing_len in
    let front : length (k.sign_sk ++ k.sign_pk) ≡ 96 =
      omega (arith, length-append k.sign_sk k.sign_pk, secret_len, signing_len) in
    let public : take 32 (drop 96 (bytes_of k)) ≡ k.pk =
      ap (λ b. take 32 (drop 96 b)) (sym (append_assoc k.sign_sk k.sign_pk k.pk))
      ∙ (ap (take 32) (drop-append_exact 96 (k.sign_sk ++ k.sign_pk) k.pk front)
          ∙ take_all 32 k.pk (omega (arith, public_len))) in
    let read = ap c.sk_to_curve25519 secret ∙ keys.from_signing in
    rw (load_keys, read)
      (ap₂ (λ p s. some (record { sk = k.sk; pk = p; sign_pk = s; sign_sk = take 64 (bytes_of k) }))
          public signing
        ∙ ap (λ s. some (record { sk = k.sk; pk = k.pk; sign_pk = k.sign_pk; sign_sk = s })) secret)

-- New keys, where they come out, were generated and written.
create_keys-created :
    (c : Sodium) (out : Outside) (file : Option (List ℕ)) (k : ServerKeys)
    → (create_keys c out file).0 ≡ some k
    → (generate_keys c out.keypair ≡ some k) × ((create_keys c out file).1 ≡ some (bytes_of k))
unfolding create_keys
create_keys-created c out file k h = elim (Option-cases (generate_keys c out.keypair)) [
  | inl n ↦ absurd (ground arith)
  | inr (k', e) ↦ elim (Bool-cases out.opened) [
    | inr z ↦ absurd (ground arith)
    | inl z ↦ elim (Bool-cases out.written) [
      | inr w ↦ absurd (ground arith)
      | inl w ↦
          let run : create_keys c out file ≡ (some k', some (bytes_of k')) =
            simp (create_keys, e, z, w) refl in
          let both : ◌≡◌ {A = Option ServerKeys} (some k') (some k) = sym (ap (λ r. r.0) run) ∙ h in
          let same : k' ≡ k = cc in
          (e ∙ ap some same, ap (λ r. r.1) run ∙ ap (λ x. some (bytes_of x)) same)
    ]
  ]
]

load_or_create_server_key-Absent :
    (c : Sodium) (out : Outside) (file : Option (List ℕ))
    → Absent file
    → load_or_create_server_key c out file ≡ create_keys c out file
unfolding load_or_create_server_key
load_or_create_server_key-Absent c out none absent = refl
load_or_create_server_key-Absent c out (some bytes) absent =
    let short : leb 128 (length bytes) ≡ false = ground arith in
    rw (load_or_create_server_key, short) refl

-- Keys that the server creates, because there is no key file or it is too short, belong together, and each
-- later start gets the same keys from the file and leaves it as it is, whatever else it meets. This is
-- when libsodium gives pairs of keys and keeps its promises.
pub load_or_create_server_key-again :
    (c : Sodium) (out later : Outside) (file : Option (List ℕ)) (k : ServerKeys)
    → IsSodium c
    → IsPair c out.keypair
    → Absent file
    → (load_or_create_server_key c out file).0 ≡ some k
    → AreKeys c k
      × (load_or_create_server_key c later (load_or_create_server_key c out file).1
          ≡ (some k, (load_or_create_server_key c out file).1))
unfolding load_or_create_server_key
load_or_create_server_key-again c out later file k good ok absent h =
    let fresh = load_or_create_server_key-Absent c out file absent in
    let (made, file') = create_keys-created c out file k (sym (ap (λ r. r.0) fresh) ∙ h) in
    let (keys, sized) = generate_keys-AreKeys c out.keypair k good ok made in
    let stored : (load_or_create_server_key c out file).1 ≡ some (bytes_of k) =
      ap (λ r. r.1) fresh ∙ file' in
    let full : leb 128 (length (bytes_of k)) ≡ true = ground (
      arith,
      length-append k.sign_sk (k.sign_pk ++ k.pk),
      length-append k.sign_pk k.pk,
      sized.0,
      sized.1,
      sized.2,
    ) in
    (
      keys,
      rw stored (
          rw (load_or_create_server_key, full)
            (ap (λ o. (o, some (bytes_of k))) (load_keys-bytes_of c k keys sized))),
    )
