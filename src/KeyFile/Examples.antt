-- ===== src/KeyFile/Examples.antt =====
-- An example of the key file.
use chamlon.Base.{
  ℕ, ◌≡◌, refl, sym, ap, ◌∙◌, true, List, [], ◌∷◌, Option, none, some, arith, length, replicate,
}
use chamlon.Crypto.Toy.{toy, toy-IsSodium}
use chamlon.KeyFile.{ServerKeys, Outside, load_or_create_server_key, create_keys, generate_keys}
use chamlon.KeyFile.Reload.{IsPair, AreKeys, load_or_create_server_key-again}

abbrev secret : List ℕ
secret = 9 ∷ replicate 63 1

abbrev outside : Outside
outside = record {
  keypair = some (secret, toy.sign_public_of secret);
  opened = true;
  written = true;
  left = [];
}

-- Another start, for which the generator gives no pair.
abbrev later : Outside
later = record { keypair = none; opened = true; written = true; left = [] }

abbrev Pair : Type 0
Pair = Option (List ℕ × List ℕ)

-- The pair that is meant.
abbrev first_of : Pair → List ℕ
first_of none = []
first_of (some (x, y)) = x

abbrev second_of : Pair → List ℕ
second_of none = []
second_of (some (x, y)) = y

outside-IsPair : IsPair toy outside.keypair
outside-IsPair = record {
  secret_len = λ sk pk h. ap (λ p. length (first_of p)) (sym h);
  public_of_secret = λ sk pk h. ap second_of (sym h) ∙ ap (λ p. toy.sign_public_of (first_of p)) h;
  public_len = λ sk pk h. ap (λ p. length (second_of p)) (sym h);
}

abbrev keys : ServerKeys
keys = record {
  sk = 9 ∷ replicate 31 0;
  pk = 9 ∷ replicate 31 0;
  sign_pk = toy.sign_public_of secret;
  sign_sk = secret;
}

-- The file is too short.
created : (load_or_create_server_key toy outside (some (1 ∷ 2 ∷ []))).0 ≡ some keys
unfolding load_or_create_server_key create_keys generate_keys
created = refl

load_or_create_server_key-again_example :
    AreKeys toy keys
    × (load_or_create_server_key toy later
          (load_or_create_server_key toy outside (some (1 ∷ 2 ∷ []))).1
        ≡ (some keys, (load_or_create_server_key toy outside (some (1 ∷ 2 ∷ []))).1))
load_or_create_server_key-again_example =
    load_or_create_server_key-again toy outside later (some (1 ∷ 2 ∷ [])) keys toy-IsSodium
      outside-IsPair (omega arith) created
