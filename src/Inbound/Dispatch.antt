-- ===== src/Inbound/Dispatch.antt =====
-- The choice of the worker.
use chamlon.Base.{
  ℕ, zero, suc, ◌≤◌, ◌≡◌, refl, sym, ap, ◌∙◌, List, [], ◌∷◌, arith, length, take, drop, get_or,
}
use chamlon.Wire.{pkt_type_data}
use chamlon.Datagram.{session_id_at}
use chamlon.Inbound.{shard_key_of}

first_of : (k n : ℕ) (xs : List ℕ) → 1 ≤ n → get_or (take n (drop k xs)) 0 0 ≡ get_or xs k 0
first_of zero zero xs h = absurd (omega arith)
first_of zero (suc n) [] h = refl
first_of zero (suc n) (x ∷ xs) h = refl
first_of (suc k) zero xs h = absurd (omega arith)
first_of (suc k) (suc n) [] h = refl
first_of (suc k) (suc n) (x ∷ xs) h = first_of k (suc n) xs h

-- Two data packets with room for a session identifier, and with the same one, have the same key, so they
-- go to the same worker.
pub shard_key_of-session :
    (b b' : List ℕ)
    → get_or b 5 0 ≡ pkt_type_data
    → get_or b' 5 0 ≡ pkt_type_data
    → 22 ≤ length b
    → 22 ≤ length b'
    → session_id_at b ≡ session_id_at b'
    → shard_key_of b ≡ shard_key_of b'
unfolding shard_key_of
shard_key_of-session b b' d d' l l' same =
    let first : get_or b 6 0 ≡ get_or b' 6 0 =
      sym (first_of 6 16 b (omega arith))
      ∙ ap (λ id. get_or id 0 0) same
      ∙ first_of 6 16 b' (omega arith) in
    ground arith
