-- ===== src/Base/Bits/Step.antt =====
-- The lowest digit of `bit_and a b` and of `bit_or a b`, and what is left above it. The native
-- operations stand for `bitwise`, which walks the digits of `a` on `a` rounds of fuel.
use Prim.Native.Nat.{ℕ, zero, suc, ◌+◌, ◌*◌, ◌/◌, ◌%◌, ◌≤◌, min, max, bit_and, bit_or}
use Prim.Native.Nat.{digits, bitwise, bit_and-bitwise, bit_or-bitwise}
use mathlib.Core.Path.{◌≡◌, refl}
use native.Mathlib.Omega.{arith}

module _ (rest : ℕ → ℕ) (digit : ℕ → ℕ → ℕ) where
  -- Any two amounts of fuel that cover `a` give one result.
  enough_fuel :
      (a b fuel more : ℕ)
      → a ≤ fuel
      → a ≤ more
      → digits rest digit fuel a b ≡ digits rest digit more a b
  enough_fuel zero b zero zero h k = refl
  enough_fuel zero b zero (suc more) h k = refl
  enough_fuel zero b (suc fuel) zero h k = refl
  enough_fuel zero b (suc fuel) (suc more) h k = refl
  enough_fuel (suc a) b zero more h k = absurd (omega arith)
  enough_fuel (suc a) b (suc fuel) zero h k = absurd (omega arith)
  enough_fuel (suc a) b (suc fuel) (suc more) h k =
      let halved = enough_fuel (suc a / 2) (b / 2) fuel more (omega arith) (omega arith) in
      omega (arith, halved)

  lowest_digit :
      (a b : ℕ)
      → bitwise rest digit (suc a) b
        ≡ digit (suc a % 2) (b % 2) + 2 * bitwise rest digit (suc a / 2) (b / 2)
  lowest_digit a b =
      let fuel = enough_fuel (suc a / 2) (b / 2) a (suc a / 2) (omega arith) (omega arith) in
      omega (arith, fuel)

pub bit_or-halves : (x y : ℕ) → bit_or x y ≡ max (x % 2) (y % 2) + 2 * bit_or (x / 2) (y / 2)
bit_or-halves zero y = omega (arith, bit_or-bitwise 0 (y / 2), bit_or-bitwise 0 y)
bit_or-halves (suc x) y = rw (bit_or-bitwise, bit_or-bitwise) (lowest_digit (λ k. k) max x y)

pub bit_and-halves : (x y : ℕ) → bit_and x y ≡ min (x % 2) (y % 2) + 2 * bit_and (x / 2) (y / 2)
bit_and-halves zero y = omega (arith, bit_and-bitwise 0 (y / 2), bit_and-bitwise 0 y)
bit_and-halves (suc x) y = rw (bit_and-bitwise, bit_and-bitwise) (lowest_digit (λ k. 0) min x y)
