-- ===== src/ReplayWindow/History.antt =====
-- The same filter over the whole history of accepted numbers, with no bitmap.
use chamlon.Base.{
  ℕ, ◌+◌, ◌<◌, max, ◌≡◌, refl, Bool, false, ◌&&◌, ◌||◌, List, [], ◌∷◌, arith, leb, ◌==◌,
  if◌then◌else◌, u64,
}

abbrev pub member : ℕ → List ℕ → Bool
member x [] = false
member x (y ∷ ys) = x == y || member x ys

abbrev pub latest : List ℕ → ℕ
latest [] = 0
latest (x ∷ xs) = max x (latest xs)

-- A number is refused if it is 0, 64 or more behind the latest, or in the history. The sum wraps.
unfoldable pub refused : ℕ → List ℕ → Bool
refused seq hist =
    seq == 0 || (leb seq (latest hist) && (leb (u64 (seq + 64)) (latest hist) || member seq hist))

unfoldable pub run : List ℕ → List (ℕ × Bool) → List ℕ
run hist [] = []
run hist ((seq, authentic) ∷ es) =
    let taken = run (seq ∷ hist) es in
    let left = run hist es in
    if refused seq hist then left else if authentic then seq ∷ taken else left

pub member_above : (x : ℕ) (hist : List ℕ) → latest hist < x → member x hist ≡ false
member_above x [] h = refl
member_above x (y ∷ ys) h = ground (arith, member_above x ys)
