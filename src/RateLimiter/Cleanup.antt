-- ===== src/RateLimiter/Cleanup.antt =====
-- The compaction in place is a filter.
use chamlon.Base.{
  ℕ, zero, suc, ◌+◌, ◌-◌, ◌≤◌, ◌<◌, ◌≡◌, refl, ap, ap₂, ◌∙◌, inl, inr, Bool, List, [], ◌∷◌, ◌++◌,
  some, arith, length, take, drop, set, get_elem?, ltb, ◌==◌, if◌then◌else◌, Bool-cases, length-set,
  get_elem?-lt, drop_all, append-nil, append_assoc, ==_iff,
}
use chamlon.RateLimiter.{IpEntry, RateLimiter, keeps, compact, rate_limiter_cleanup}

abbrev pub filter : (IpEntry → Bool) → List IpEntry → List IpEntry
filter test [] = []
filter test (e ∷ es) = if test e then e ∷ filter test es else filter test es

-- A write below `i` does not change what stands from `i` on, and one at `j` ends the first `j + 1`.
drop-set {ℓ} : {A : Type ℓ} (a : List A) (i j : ℕ) (x : A) → j < i → drop i (set a j x) ≡ drop i a
drop-set [] i j x h = refl
drop-set (y ∷ a) zero j x h = elim h [ ]
drop-set (y ∷ a) (suc i) zero x h = refl
drop-set (y ∷ a) (suc i) (suc j) x h = drop-set a i j x (omega arith)

take-set {ℓ} :
    {A : Type ℓ} (a : List A) (j : ℕ) (x : A)
    → j < length a
    → take (suc j) (set a j x) ≡ take j a ++ x ∷ []
take-set [] j x h = elim h [ ]
take-set (y ∷ a) zero x h = refl
take-set (y ∷ a) (suc j) x h = ap (◌∷◌ y) (take-set a j x (omega arith))

take-suc {ℓ} :
    {A : Type ℓ} (a : List A) (j : ℕ) (x : A)
    → get_elem? a j ≡ some x
    → take (suc j) a ≡ take j a ++ x ∷ []
take-suc [] j x h = cc
take-suc (y ∷ a) zero x h = ground arith
take-suc (y ∷ a) (suc j) x h = ap (◌∷◌ y) (take-suc a j x h)

drop_get {ℓ} :
    {A : Type ℓ} (a : List A) (i : ℕ) (x : A)
    → get_elem? a i ≡ some x
    → drop i a ≡ x ∷ drop (suc i) a
drop_get [] i x h = cc
drop_get (y ∷ a) zero x h = ground arith
drop_get (y ∷ a) (suc i) x h = drop_get a i x h

-- The array after an entry at `i` has moved down to `j`.
abbrev moved : ℕ → ℕ → IpEntry → List IpEntry → List IpEntry
moved i j x a = if i == j then a else set a j x

moved_lem :
    (i j : ℕ) (x : IpEntry) (a : List IpEntry)
    → j ≤ i
    → i < length a
    → get_elem? a i ≡ some x
    → (take (suc j) (moved i j x a) ≡ take j a ++ x ∷ [])
      × (drop (suc i) (moved i j x a) ≡ drop (suc i) a)
      × (length (moved i j x a) ≡ length a)
moved_lem i j x a h l g = elim (Bool-cases (i == j)) [
  | inl e ↦ rw e (take-suc a j x (rw (← (==_iff i j).0 e) g), refl, refl)
  | inr e ↦
      rw e (take-set a j x (omega arith), drop-set a (suc i) j x (omega arith), length-set a j x)
]

abbrev Kept : ℕ → ℕ → ℕ → ℕ → List IpEntry → Type 0
Kept now left i j a =
    let (a', j') = compact now left i j a in take j' a' ≡ take j a ++ filter (keeps now) (drop i a)

Kept-suc :
    (now left i j : ℕ) (a : List IpEntry) (x : IpEntry)
    → j ≤ i
    → i < length a
    → get_elem? a i ≡ some x
    → Kept now left (suc i) (suc j) (moved i j x a)
    → Kept now left (suc i) j a
    → Kept now (suc left) i j a
unfolding compact
Kept-suc now left i j a x h l g kept skipped = elim (Bool-cases (keeps now x)) [
  | inl k ↦
      let m = moved_lem i j x a h l g in
      let run : compact now (suc left) i j a ≡ compact now left (suc i) (suc j) (moved i j x a) =
        ground (arith, g, k) in
      rw (run, drop_get a i x g, k)
        (kept
          ∙ ap₂ (λ b c. b ++ filter (keeps now) c) m.0 m.1
          ∙ append_assoc (take j a) (x ∷ []) (filter (keeps now) (drop (suc i) a)))
  | inr k ↦
      let run : compact now (suc left) i j a ≡ compact now left (suc i) j a =
        ground (arith, g, k) in
      rw (run, drop_get a i x g, k) skipped
]

-- What the loop leaves: the entries below `j`, and then those from `i` on that are kept.
compact-Kept :
    (now left i j : ℕ) (a : List IpEntry) → j ≤ i → i + left ≡ length a → Kept now left i j a
unfolding compact
compact-Kept now zero i j a h e = rw (drop_all i a (omega arith), append-nil)
compact-Kept now (suc left) i j a h e =
    let found = get_elem?-lt a i (omega arith) in
    let m = moved_lem i j found.0 a h (omega arith) found.1 in
    Kept-suc now left i j a found.0 h (omega arith) found.1
      (compact-Kept now left (suc i) (suc j) (moved i j found.0 a) (omega arith)
        (omega (arith, m.2)))
      (compact-Kept now left (suc i) j a (omega arith) (omega arith))

-- A cleanup less than 10 seconds after the last one does nothing. Any other keeps, in their order,
-- exactly the entries that were seen less than 300 seconds ago or are still blacklisted.
pub rate_limiter_cleanup_lem :
    (now : ℕ) (r : RateLimiter)
    → rate_limiter_cleanup now r ≡ (
        if ltb (now - r.last_cleanup) 10
        then r
        else record r { entries = filter (keeps now) r.entries; last_cleanup = now })
unfolding rate_limiter_cleanup
rate_limiter_cleanup_lem now r =
    ground (arith, compact-Kept now (length r.entries) 0 0 r.entries (omega arith) (omega arith))
