-- ===== src/ReplayWindow/Refine.antt =====
-- A window stands for a history: the numbers that were accepted.
use native.Mathlib.Nat.{one-le-pow}
use native.Mathlib.Decide.{dec_lt}
use chamlon.Base.{
  ℕ, ◌+◌, ◌-◌, ◌^◌, ◌≤◌, ◌<◌, ◌≡◌, refl, sym, ◌∙◌, inl, inr, Bool, true, false, not, List, [], ◌∷◌,
  arith, ◌==◌, if◌then◌else◌, Bool-cases, bit_and, bit_or, shl_u64,
}
use chamlon.Base.Bits.{bit_at, bit_at_lt, bit_at-bit_or, bit_at-pow, bit_at_high, bit_and_pow}
use chamlon.ReplayWindow.{ReplayWindow, check_replay, update_window, accept, run, fresh}
use chamlon.ReplayWindow.History.{member, latest, refused, member_above}
use chamlon.ReplayWindow.History
use chamlon.ReplayWindow.Slide.{
  window, slid, shl_u64-one, bit_at-slid, update_near, update_far, update_inside,
}

-- Bit `k` says if the number `k` behind the latest was accepted.
abbrev pub Holds : ℕ → List ℕ → Type 0
Holds b hist =
    (k : ℕ)
    → k < 64
    → k < latest hist
    → bit_at b k ≡ (if member (latest hist - k) hist then 1 else 0)

-- `w` has as its word and its edge what the history says.
pub record Stands (w : ReplayWindow) (hist : List ℕ) : Type 0 where
  pub word : ℕ
  pub shape : w ≡ window (latest hist) word
  pub bits : Holds word hist
  pub range : latest hist < 2 ^ 64

test_bit : (b k : ℕ) → k < 64 → not (bit_and b (shl_u64 1 k) == 0) ≡ (bit_at b k == 1)
test_bit b k h =
    rw (shl_u64-one k h, bit_and_pow k b) (grind (arith, one-le-pow k 2, bit_at_lt k b))

check-window :
    (seq b : ℕ) (hist : List ℕ)
    → Holds b hist
    → latest hist < 2 ^ 64
    → seq < 2 ^ 64
    → check_replay seq (window (latest hist) b) ≡ refused seq hist
unfolding check_replay refused
check-window seq b hist holds range fits =
    ground (arith, test_bit b (latest hist - seq), holds (latest hist - seq))

-- The three ways in which a number is marked.
Holds-inside :
    (seq b : ℕ) (hist : List ℕ)
    → 0 < seq
    → Holds b hist
    → seq ≤ latest hist
    → latest hist < seq + 64
    → Holds (bit_or b (2 ^ (latest hist - seq))) (seq ∷ hist)
Holds-inside seq b hist pos holds le near k hk low = ground (
  arith,
  bit_at-bit_or k b (2 ^ (latest hist - seq)),
  bit_at-pow (latest hist - seq) k,
  bit_at_lt k b,
  holds k,
)

Holds-near :
    (seq b : ℕ) (hist : List ℕ)
    → Holds b hist
    → latest hist < seq
    → seq < latest hist + 64
    → Holds (bit_or (slid (seq - latest hist) b) (2 ^ (seq - seq))) (seq ∷ hist)
Holds-near seq b hist holds lt near k hk low = ground (
  arith,
  bit_at-bit_or k (slid (seq - latest hist) b) (2 ^ (seq - seq)),
  bit_at-pow (seq - seq) k,
  bit_at-slid (seq - latest hist) k b,
  holds (k - (seq - latest hist)),
  member_above (seq - k) hist,
)

Holds-far :
    (seq : ℕ) (hist : List ℕ)
    → latest hist + 64 ≤ seq
    → Holds (bit_or 0 (2 ^ (seq - seq))) (seq ∷ hist)
Holds-far seq hist far k hk low = ground (
  arith,
  bit_at-bit_or k 0 (2 ^ (seq - seq)),
  bit_at-pow (seq - seq) k,
  bit_at_high 0 k 0,
  member_above (seq - k) hist,
)

stands :
    {w : ReplayWindow} (hist : List ℕ) (m b : ℕ)
    → w ≡ window m b
    → latest hist ≡ m
    → Holds b hist
    → m < 2 ^ 64
    → Stands w hist
stands hist m b e edge holds range = record {
  word = b;
  shape = rw (e, edge) refl;
  bits = holds;
  range = omega arith;
}

data Place (seq m : ℕ) : Type 0 where
  inside : 0 < seq → seq ≤ m → m < seq + 64 → Place seq m
  near : m < seq → seq < m + 64 → Place seq m
  far : m + 64 ≤ seq → Place seq m

place :
    (seq : ℕ) (hist : List ℕ)
    → latest hist < 2 ^ 64
    → seq < 2 ^ 64
    → refused seq hist ≡ false
    → Place seq (latest hist)
unfolding refused
place seq hist range fits h = elim (dec_lt (latest hist) seq) [
  | yes p ↦ elim (dec_lt seq (latest hist + 64)) [ yes q ↦ near p q | no q ↦ far (omega arith) ]
  | no p ↦ inside (ground arith) (omega arith) (ground arith)
]

update-window :
    (seq b : ℕ) (hist : List ℕ)
    → Holds b hist
    → latest hist < 2 ^ 64
    → seq < 2 ^ 64
    → Place seq (latest hist)
    → Stands (update_window seq (window (latest hist) b)) (seq ∷ hist)
update-window seq b hist holds range fits (inside pos le low) =
    stands (seq ∷ hist) (latest hist) _ (update_inside seq (latest hist) b pos le low range)
      (omega arith) (Holds-inside seq b hist pos holds le low) range
update-window seq b hist holds range fits (near lt close) =
    stands (seq ∷ hist) seq _ (update_near seq (latest hist) b lt close fits) (omega arith)
      (Holds-near seq b hist holds lt close) fits
update-window seq b hist holds range fits (far away) =
    stands (seq ∷ hist) seq _ (update_far seq (latest hist) b away fits) (omega arith)
      (Holds-far seq hist away) fits

-- A window that stands for the accepted numbers refuses exactly the 64-bit numbers that the history
-- refuses.
pub check-Stands :
    {w : ReplayWindow} {hist : List ℕ} (seq : ℕ)
    → Stands w hist
    → seq < 2 ^ 64
    → check_replay seq w ≡ refused seq hist
check-Stands {w} {hist} seq s fits = rw s.shape (check-window seq s.word hist s.bits s.range fits)

-- Updated with a 64-bit number that it lets through, a window that stands for the accepted numbers
-- stands for them and that number.
pub update-Stands :
    {w : ReplayWindow} {hist : List ℕ} (seq : ℕ)
    → Stands w hist
    → seq < 2 ^ 64
    → check_replay seq w ≡ false
    → Stands (update_window seq w) (seq ∷ hist)
update-Stands {w} {hist} seq s fits passed = rw s.shape (
    update-window seq s.word hist s.bits s.range fits
      (place seq hist s.range fits (sym (check-Stands seq s fits) ∙ passed)))

pub fresh-Stands : Stands fresh []
fresh-Stands = record {
  word = 0;
  shape = refl;
  bits = λ k h l. absurd (omega arith);
  range = omega arith;
}

abbrev pub Fits : List (ℕ × Bool) → Type 0
Fits [] = Unit
Fits ((seq, authentic) ∷ es) = (seq < 2 ^ 64) × Fits es

pub run-Stands :
    (es : List (ℕ × Bool)) {w : ReplayWindow} {hist : List ℕ}
    → Stands w hist
    → Fits es
    → run w es ≡ History.run hist es
unfolding run accept History.run
run-Stands [] s f = refl
run-Stands ((seq, true) ∷ es) {w} {hist} s f = elim (Bool-cases (check_replay seq w)) [
  | inl e ↦ ground (arith, check-Stands seq s f.0, run-Stands es s f.1)
  | inr e ↦ ground (arith, check-Stands seq s f.0, run-Stands es (update-Stands seq s f.0 e) f.1)
]
run-Stands ((seq, false) ∷ es) {w} {hist} s f =
    ground (arith, check-Stands seq s f.0, run-Stands es s f.1)
