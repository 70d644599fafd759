-- ===== src/Base/Words.antt =====
-- Unsigned words of fixed width, with their wrap-around written out.
use Prim.Native.Nat.{ℕ, ◌+◌, ◌-◌, ◌*◌, ◌/◌, ◌%◌, ◌^◌}

abbrev pub u8 : ℕ → ℕ
u8 n = n % 2 ^ 8

abbrev pub u16 : ℕ → ℕ
u16 n = n % 2 ^ 16

abbrev pub u32 : ℕ → ℕ
u32 n = n % 2 ^ 32

abbrev pub u64 : ℕ → ℕ
u64 n = n % 2 ^ 64

-- `a - b` on `uint64_t` (and on `size_t`); the operands are below 2 ^ 64.
abbrev pub sub_u64 : ℕ → ℕ → ℕ
sub_u64 a b = (a + 2 ^ 64 - b) % 2 ^ 64

-- `a << k` on `uint64_t`.
abbrev pub shl_u64 : ℕ → ℕ → ℕ
shl_u64 a k = u64 (a * 2 ^ k)

-- `a >> k`.
abbrev pub shr : ℕ → ℕ → ℕ
shr a k = a / 2 ^ k

-- `~a` on `uint64_t`.
abbrev pub not_u64 : ℕ → ℕ
not_u64 a = 2 ^ 64 - 1 - a
