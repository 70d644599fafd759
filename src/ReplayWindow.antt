-- ===== src/ReplayWindow.antt =====
-- chamlon_server/src/replay_window.c and chamlon_client/src/vpn_replay_window.c, which have the
-- same two functions, with `replay_window_t` of chamlon_server/include/vpn_common.h. A function
-- that updates `*w` returns the new window. `accept` is what both packet handlers do around
-- them: test, authenticate, and mark the number only if the packet is authentic.
pub mod History
pub mod Slide
pub mod Refine
pub mod NoReplay
mod Examples
use chamlon.Base.{
  ℕ, zero, suc, ◌+◌, ◌-◌, ◌/◌, ◌%◌, ◌^◌, Bool, true, false, not, List, [], ◌∷◌, bit_and, bit_or,
  get_or, set, replicate, ltb, leb, ◌==◌, if◌then◌else◌, u64, sub_u64, shl_u64, shr, not_u64,
}

abbrev pub window_size : ℕ
window_size = 64

abbrev pub word_size : ℕ
word_size = 64

abbrev pub bitmap_words : ℕ
bitmap_words = window_size / word_size

pub record ReplayWindow : Type 0 where
  pub recv_max : ℕ
  pub bitmap : List ℕ

-- `true` is a replay, or a number that is too old.
unfoldable pub check_replay : ℕ → ReplayWindow → Bool
check_replay seq w =
    if seq == 0
    then true
    else if ltb recv_max seq
    then false
    else if leb (u64 (seq + window_size)) recv_max
    then true
    else not (bit_and (get_or bitmap (diff / word_size) 0) (shl_u64 1 (diff % word_size)) == 0)
  where
    open w use {recv_max, bitmap}

    diff : ℕ
    diff = sub_u64 recv_max seq

-- The loop that moves whole words, over the indices below the first argument, downwards.
shift_words : ℕ → ℕ → List ℕ → List ℕ
shift_words zero word_shift bitmap = bitmap
shift_words (suc i) word_shift bitmap =
    shift_words i word_shift
      (set bitmap i (if leb word_shift i then get_or bitmap (i - word_shift) 0 else 0))

-- The loop that moves bits across words.
shift_bits : ℕ → ℕ → List ℕ → List ℕ
shift_bits zero bit_shift bitmap = bitmap
shift_bits (suc i) bit_shift bitmap = shift_bits i bit_shift (
    set bitmap i (
      bit_or (shl_u64 (get_or bitmap i 0) bit_shift)
        (if ltb 0 i then shr (get_or bitmap (i - 1) 0) (word_size - bit_shift) else 0)))

shift_left : ℕ → List ℕ → List ℕ
unfolding shift_words shift_bits
shift_left shift bitmap =
    if leb word_size shift
    then (let moved = shift_words bitmap_words (shift / word_size) bitmap in
        if not (shift % word_size == 0)
        then shift_bits bitmap_words (shift % word_size) moved
        else moved)
    else shift_bits bitmap_words shift bitmap

-- `bitmap[0] &= ~mask`
clear_low : ℕ → List ℕ → List ℕ
clear_low diff bitmap = set bitmap 0 (bit_and (get_or bitmap 0 0) (not_u64 mask))
  where
    mask : ℕ
    mask = if leb 64 diff then 0 else shl_u64 1 diff - 1

-- Makes `seq` the right edge of the window.
pub slide : ℕ → ReplayWindow → ReplayWindow
unfolding shift_left clear_low
slide seq w = record {
  recv_max = seq;
  bitmap =
      if leb window_size diff
      then replicate bitmap_words 0
      else clear_low diff (shift_left diff w.bitmap);
}
  where
    diff : ℕ
    diff = sub_u64 seq w.recv_max

-- A write out of range changes nothing; `Refine.mark_in_bounds` rules it out.
pub mark : ℕ → ReplayWindow → ReplayWindow
mark seq w = record w { bitmap = set bitmap word (bit_or (get_or bitmap word 0) (shl_u64 1 bit)) }
  where
    open w use {recv_max, bitmap}

    word : ℕ
    word = sub_u64 recv_max seq / word_size

    bit : ℕ
    bit = sub_u64 recv_max seq % word_size

pub update_window : ℕ → ReplayWindow → ReplayWindow
unfolding mark slide
update_window seq w =
    if seq == 0 then w else mark seq (if ltb w.recv_max seq then slide seq w else w)

-- One packet: its number, and whether it passes `aead_decrypt`. The result says if it is accepted.
pub accept : ReplayWindow → ℕ × Bool → Bool × ReplayWindow
accept w (seq, authentic) =
    if check_replay seq w
    then (false, w)
    else if authentic
    then (true, update_window seq w)
    else (false, w)

-- The numbers that are accepted, in order.
pub run : ReplayWindow → List (ℕ × Bool) → List ℕ
run w [] = []
run w (e ∷ es) =
    let (taken, w') = accept w e in let rest = run w' es in if taken then e.0 ∷ rest else rest

-- `replay_window_t rw = {0}`
abbrev pub fresh : ReplayWindow
fresh = record { recv_max = 0; bitmap = replicate bitmap_words 0 }
