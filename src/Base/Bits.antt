-- ===== src/Base/Bits.antt =====
-- The binary digits of a word: `bit_at x k` is 1 if bit `k` of `x` is set and 0 if it is not, and
-- one law for each operation on words by which the code reads or changes bits.
mod Step
use Step.{bit_and-halves, bit_or-halves}
use Prim.Native.Nat.{
  ℕ, zero, suc, ◌+◌, ◌-◌, ◌*◌, ◌/◌, ◌%◌, ◌^◌, ◌≤◌, ◌<◌, min, max, bit_and, bit_or,
}
use mathlib.Core.Path.{◌≡◌, refl, ap, ◌∙◌}
use native.Mathlib.Nat.{pow-suc, one-le-pow, div-add-mod, div-div-eq-div-mul}
use native.Mathlib.Omega.{arith}
use chamlon.Base.Tests.{ltb, ◌==◌, if◌then◌else◌}

abbrev pub bit_at : ℕ → ℕ → ℕ
bit_at x zero = x % 2
bit_at x (suc k) = bit_at (x / 2) k

pub bit_at_lt : (k x : ℕ) → bit_at x k < 2
bit_at_lt zero x = omega arith
bit_at_lt (suc k) x = bit_at_lt k (x / 2)

pub bit_at-bit_or : (k a b : ℕ) → bit_at (bit_or a b) k ≡ max (bit_at a k) (bit_at b k)
bit_at-bit_or zero a b = omega (arith, bit_or-halves a b)
bit_at-bit_or (suc k) a b =
    let e : bit_or a b / 2 ≡ bit_or (a / 2) (b / 2) = omega (arith, bit_or-halves a b) in
    rw e (bit_at-bit_or k (a / 2) (b / 2))

pub bit_at-bit_and : (k a b : ℕ) → bit_at (bit_and a b) k ≡ min (bit_at a k) (bit_at b k)
bit_at-bit_and zero a b = omega (arith, bit_and-halves a b)
bit_at-bit_and (suc k) a b =
    let e : bit_and a b / 2 ≡ bit_and (a / 2) (b / 2) = omega (arith, bit_and-halves a b) in
    rw e (bit_at-bit_and k (a / 2) (b / 2))

bit_and-zero : (n a : ℕ) → a ≤ n → bit_and a 0 ≡ 0
bit_and-zero n zero h = refl
bit_and-zero zero (suc a) h = absurd (omega arith)
bit_and-zero (suc n) (suc a) h =
    omega (arith, bit_and-halves (suc a) 0, bit_and-zero n (suc a / 2) (omega arith))

-- `x & (1 << k)` is the bit in its place.
pub bit_and_pow : (k x : ℕ) → bit_and x (2 ^ k) ≡ bit_at x k * 2 ^ k
bit_and_pow zero x = omega (arith, bit_and-halves x 1, bit_and-zero (x / 2) (x / 2) (omega arith))
bit_and_pow (suc k) x =
    grind (arith, bit_and-halves x (2 ^ suc k), pow-suc 2 k, bit_and_pow k (x / 2))

-- Bits of a number below `2 ^ n` stop at `n`.
pub bit_at_high : (n k x : ℕ) → x < 2 ^ n → n ≤ k → bit_at x k ≡ 0
bit_at_high zero zero x h le = omega arith
bit_at_high zero (suc k) x h le = bit_at_high zero k (x / 2) (omega arith) (omega arith)
bit_at_high (suc n) zero x h le = absurd (omega arith)
bit_at_high (suc n) (suc k) x h le =
    bit_at_high n k (x / 2) (omega (arith, pow-suc 2 n)) (omega arith)

mul-pow-suc : (x s : ℕ) → x * 2 ^ suc s ≡ 2 * (x * 2 ^ s)
mul-pow-suc x s = omega (arith, ap (λ (t : ℕ). x * t) (pow-suc 2 s))

-- Dividing by `2 ^ suc n` is halving and then dividing by `2 ^ n`.
mod-pow-suc : (n x : ℕ) → x % 2 ^ suc n ≡ 2 * (x / 2 % 2 ^ n) + x % 2
mod-pow-suc n x =
    let e : x % (2 * 2 ^ n) ≡ 2 * (x / 2 % 2 ^ n) + x % 2 = omega (
      arith,
      div-div-eq-div-mul x 2 (2 ^ n),
      div-add-mod x (2 * 2 ^ n),
      div-add-mod (x / 2) (2 ^ n),
      ap (λ (t : ℕ). 2 ^ n * t) (div-div-eq-div-mul x 2 (2 ^ n)),
    ) in
    let p : 2 ^ suc n ≡ 2 * 2 ^ n = omega (arith, pow-suc 2 n) in rw p e

-- `x << s` with no bound on the result: bit `k` comes from bit `k - s`.
pub bit_at-shl : (s k x : ℕ) → bit_at (x * 2 ^ s) k ≡ (if ltb k s then 0 else bit_at x (k - s))
bit_at-shl zero k x = ground arith
bit_at-shl (suc s) zero x = ground (arith, mul-pow-suc x s)
bit_at-shl (suc s) (suc k) x =
    let e : x * 2 ^ suc s / 2 ≡ x * 2 ^ s = omega (arith, mul-pow-suc x s) in
    rw e (bit_at-shl s k x ∙ ground arith)

-- `x % 2 ^ n` keeps the bits below `n`.
pub bit_at-mod : (n k x : ℕ) → bit_at (x % 2 ^ n) k ≡ (if ltb k n then bit_at x k else 0)
bit_at-mod zero k x = ground (arith, bit_at_high 0 k 0)
bit_at-mod (suc n) zero x = ground (arith, mod-pow-suc n x)
bit_at-mod (suc n) (suc k) x =
    let e : x % 2 ^ suc n / 2 ≡ (x / 2) % 2 ^ n = omega (arith, mod-pow-suc n x) in
    rw e (bit_at-mod n k (x / 2) ∙ ground arith)

-- `2 ^ d - 1` has its lowest `d` bits set.
pub bit_at-low_mask : (d k : ℕ) → bit_at (2 ^ d - 1) k ≡ (if ltb k d then 1 else 0)
bit_at-low_mask zero k = ground (arith, bit_at_high 0 k 0)
bit_at-low_mask (suc d) zero = ground (arith, pow-suc 2 d, one-le-pow d 2)
bit_at-low_mask (suc d) (suc k) =
    let e : (2 ^ suc d - 1) / 2 ≡ 2 ^ d - 1 = omega (arith, pow-suc 2 d, one-le-pow d 2) in
    rw e (bit_at-low_mask d k ∙ ground arith)

-- `~x` on `n` bits.
pub bit_at-not : (n k x : ℕ) → x < 2 ^ n → k < n → bit_at (2 ^ n - 1 - x) k ≡ 1 - bit_at x k
bit_at-not zero k x h l = absurd (omega arith)
bit_at-not (suc n) zero x h l = omega (arith, pow-suc 2 n)
bit_at-not (suc n) (suc k) x h l =
    let e : (2 ^ suc n - 1 - x) / 2 ≡ 2 ^ n - 1 - x / 2 = omega (arith, pow-suc 2 n) in
    rw e (bit_at-not n k (x / 2) (omega (arith, pow-suc 2 n)) (omega arith))

pub pow_lt : (k n : ℕ) → k < n → 2 ^ k < 2 ^ n
pow_lt k zero h = elim h [ ]
pow_lt zero (suc n) h = omega (arith, pow-suc 2 n, one-le-pow n 2)
pow_lt (suc k) (suc n) h = omega (arith, pow-suc 2 n, pow-suc 2 k, pow_lt k n (omega arith))

pub bit_at-pow : (k j : ℕ) → bit_at (2 ^ k) j ≡ (if k == j then 1 else 0)
bit_at-pow zero zero = refl
bit_at-pow zero (suc j) = ground (arith, bit_at_high 0 j 0)
bit_at-pow (suc k) zero = ground (arith, pow-suc 2 k)
bit_at-pow (suc k) (suc j) =
    let e : 2 ^ suc k / 2 ≡ 2 ^ k = omega (arith, pow-suc 2 k) in
    rw e (bit_at-pow k j ∙ ground arith)

-- `x & (2 ^ k - 1)` is `x % 2 ^ k`.
pub bit_and_mask : (k x : ℕ) → bit_and x (2 ^ k - 1) ≡ x % 2 ^ k
bit_and_mask zero x = ground (arith, bit_and-zero x x)
bit_and_mask (suc k) x =
    let e : (2 ^ suc k - 1) / 2 ≡ 2 ^ k - 1 = omega (arith, pow-suc 2 k, one-le-pow k 2) in
    let d : (2 ^ suc k - 1) % 2 ≡ 1 = omega (arith, pow-suc 2 k, one-le-pow k 2) in
    rw (bit_and-halves, e, d) (omega (arith, bit_and_mask k (x / 2), mod-pow-suc k x))

bit_or-zero : (n a : ℕ) → a ≤ n → bit_or a 0 ≡ a
bit_or-zero n zero h = refl
bit_or-zero zero (suc a) h = absurd (omega arith)
bit_or-zero (suc n) (suc a) h =
    omega (arith, bit_or-halves (suc a) 0, bit_or-zero n (suc a / 2) (omega arith))

-- `(q << k) | r` is a sum when `r` fits the low `k` bits.
pub bit_or_field : (k q r : ℕ) → r < 2 ^ k → bit_or (q * 2 ^ k) r ≡ q * 2 ^ k + r
bit_or_field zero q r h = ground (arith, bit_or-zero (q * 1) (q * 1))
bit_or_field (suc k) q r h =
    let e : q * 2 ^ suc k / 2 ≡ q * 2 ^ k = omega (arith, mul-pow-suc q k) in
    let d : q * 2 ^ suc k % 2 ≡ 0 = omega (arith, mul-pow-suc q k) in
    let low = bit_or_field k q (r / 2) (omega (arith, pow-suc 2 k)) in
    rw (bit_or-halves, e, d, low) (omega (arith, mul-pow-suc q k))
