-- ===== src/ClientMain/Hex.antt =====
-- Keys in hexadecimal.
use chamlon.Base.{
  ℕ, ◌+◌, ◌*◌, ◌/◌, ◌%◌, ◌<◌, ◌≡◌, refl, ap, List, [], ◌∷◌, some, arith, length, true, ltb, ◌==◌,
  ==_iff, if◌then◌else◌, u8,
}
use chamlon.ClientMain.{Libc, hex_bytes, hex2bin}

-- The digits 0 to 9 and a to f.
abbrev pub digit : ℕ → ℕ
digit n = if ltb n 10 then 48 + n else 87 + n

-- A byte in two digits.
abbrev pub hex_of : List ℕ → List ℕ
hex_of [] = []
hex_of (b ∷ bs) = digit (b / 16) ∷ digit (b % 16) ∷ hex_of bs

abbrev pub AllBytes : List ℕ → Type 0
AllBytes [] = Unit
AllBytes (b ∷ bs) = (b < 256) × AllBytes bs

-- "%2x" reads two digits, and stops there.
pub record ReadsHex (l : Libc) : Type 0 where
  pub two_digits :
      (x y : ℕ) (rest : List ℕ)
      → x < 16
      → y < 16
      → l.sscanf_hex (digit x ∷ digit y ∷ rest) ≡ some (16 * x + y)

length-hex_of : (bs : List ℕ) → length (hex_of bs) ≡ length bs * 2
length-hex_of [] = refl
length-hex_of (b ∷ bs) = omega (arith, length-hex_of bs)

hex_bytes-hex_of :
    (l : Libc) (bs : List ℕ)
    → ReadsHex l
    → AllBytes bs
    → hex_bytes l (length bs) (hex_of bs) ≡ some bs
unfolding hex_bytes
hex_bytes-hex_of l [] reads ok = refl
hex_bytes-hex_of l (b ∷ bs) reads (small, ok) =
    let read = reads.two_digits (b / 16) (b % 16) (hex_of bs) (omega arith) (omega arith) in
    let same : u8 (16 * (b / 16) + b % 16) ≡ b = omega arith in
    rw (hex_bytes, read, hex_bytes-hex_of l bs reads ok) (ap (λ x. some (x ∷ bs)) same)

-- A key of any length comes back from its hexadecimal digits, where the C library reads two digits as it
-- documents.
pub hex2bin-hex_of :
    (l : Libc) (bs : List ℕ)
    → ReadsHex l
    → AllBytes bs
    → hex2bin l (hex_of bs) (length bs) ≡ some bs
unfolding hex2bin
hex2bin-hex_of l bs reads ok =
    let long : (length (hex_of bs) == length bs * 2) ≡ true = (==_iff _ _).1 (length-hex_of bs) in
    rw (hex2bin, long) (hex_bytes-hex_of l bs reads ok)
