-- ===== src/ReplayWindow/Slide.antt =====
-- What the word of the bitmap holds after `slide` and after `mark`, bit by bit.
use chamlon.Base.{
  ℕ, ◌+◌, ◌-◌, ◌*◌, ◌^◌, ◌≤◌, ◌<◌, ◌≡◌, [], ◌∷◌, arith, ltb, if◌then◌else◌, bit_and, bit_or,
  sub_u64, shl_u64, not_u64,
}
use chamlon.Base.Bits.{
  bit_at, bit_at_lt, bit_at-bit_or, bit_at-bit_and, bit_at-shl, bit_at-mod, bit_at-low_mask,
  bit_at-not, bit_at_high, pow_lt,
}
use chamlon.ReplayWindow.{ReplayWindow, slide, mark, update_window}

-- A window of one word.
abbrev pub window : ℕ → ℕ → ReplayWindow
window m b = record { recv_max = m; bitmap = b ∷ [] }

pub shl_u64-one : (k : ℕ) → k < 64 → shl_u64 1 k ≡ 2 ^ k
shl_u64-one k h = omega (arith, pow_lt k 64 h)

-- The word after a shift by `d` bits and the clearing of the lowest `d`.
abbrev pub slid : ℕ → ℕ → ℕ
slid d b = bit_and (bit_or (shl_u64 b d) 0) (not_u64 (2 ^ d - 1))

pub bit_at-slid :
    (d k b : ℕ) → d < 64 → k < 64 → bit_at (slid d b) k ≡ (if ltb k d then 0 else bit_at b (k - d))
bit_at-slid d k b hd hk = ground (
  arith,
  bit_at-bit_and k (bit_or (shl_u64 b d) 0) (not_u64 (2 ^ d - 1)),
  bit_at-bit_or k (shl_u64 b d) 0,
  bit_at_high 0 k 0,
  bit_at-mod 64 k (b * 2 ^ d),
  bit_at-shl d k b,
  bit_at-not 64 k (2 ^ d - 1),
  bit_at-low_mask d k,
  pow_lt d 64 hd,
  bit_at_lt (k - d) b,
)

pub slide_near :
    (seq m b : ℕ)
    → m < seq
    → seq < m + 64
    → seq < 2 ^ 64
    → slide seq (window m b) ≡ window seq (slid (seq - m) b)
unfolding slide
slide_near seq m b h near fits =
    let e : sub_u64 seq m ≡ seq - m = omega arith in
    let p = shl_u64-one (seq - m) (omega arith) in
    let near' : seq - m < 64 = omega arith in rw e (ground (arith, p, near'))

pub slide_far : (seq m b : ℕ) → m + 64 ≤ seq → seq < 2 ^ 64 → slide seq (window m b) ≡ window seq 0
unfolding slide
slide_far seq m b far fits = ground arith

pub mark_near :
    (seq m b : ℕ)
    → seq ≤ m
    → m < seq + 64
    → m < 2 ^ 64
    → mark seq (window m b) ≡ window m (bit_or b (2 ^ (m - seq)))
unfolding mark
mark_near seq m b h near fits =
    let e : sub_u64 m seq ≡ m - seq = omega arith in
    let p = shl_u64-one (m - seq) (omega arith) in
    let near' : m - seq < 64 = omega arith in rw e (ground (arith, p, near'))

-- `update_window`, by where the number stands.
pub update_near :
    (seq m b : ℕ)
    → m < seq
    → seq < m + 64
    → seq < 2 ^ 64
    → update_window seq (window m b) ≡ window seq (bit_or (slid (seq - m) b) (2 ^ (seq - seq)))
unfolding update_window
update_near seq m b h near fits =
    ground (arith, slide_near seq m b, mark_near seq seq (slid (seq - m) b))

pub update_far :
    (seq m b : ℕ)
    → m + 64 ≤ seq
    → seq < 2 ^ 64
    → update_window seq (window m b) ≡ window seq (bit_or 0 (2 ^ (seq - seq)))
unfolding update_window
update_far seq m b far fits = ground (arith, slide_far seq m b, mark_near seq seq 0)

pub update_inside :
    (seq m b : ℕ)
    → 0 < seq
    → seq ≤ m
    → m < seq + 64
    → m < 2 ^ 64
    → update_window seq (window m b) ≡ window m (bit_or b (2 ^ (m - seq)))
unfolding update_window
update_inside seq m b pos h near fits = ground (arith, mark_near seq m b)
