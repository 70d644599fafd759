-- ===== src/ReplayWindow/NoReplay.antt =====
-- What the two handlers get from the window: no number twice, and none refused without cause.
use chamlon.Base.{
  ℕ, ◌+◌, ◌-◌, ◌/◌, ◌^◌, ◌≤◌, ◌<◌, ◌≡◌, refl, ◌⊎◌, ◌↔◌, inl, inr, Bool, true, false, List, [], ◌∷◌,
  arith, ltb, if◌then◌else◌, Bool-cases, sub_u64,
}
use chamlon.ReplayWindow.{ReplayWindow, bitmap_words, word_size, check_replay, slide, run, fresh}
use chamlon.ReplayWindow.History.{member, latest, refused, member_above}
use chamlon.ReplayWindow.History
use chamlon.ReplayWindow.Refine.{Stands, Fits, check-Stands, fresh-Stands, run-Stands}

-- From an empty window the numbers that are accepted are those that the filter over the whole
-- history accepts, in the same order, for every sequence of packets with 64-bit numbers.
pub run-fresh : (es : List (ℕ × Bool)) → Fits es → run fresh es ≡ History.run [] es
run-fresh es f = run-Stands es fresh-Stands f

abbrev pub Distinct : List ℕ → Type 0
Distinct [] = Unit
Distinct (x ∷ xs) = (member x xs ≡ false) × Distinct xs

-- None of the numbers is in the history.
abbrev Avoids : List ℕ → List ℕ → Type 0
Avoids hist [] = Unit
Avoids hist (x ∷ xs) = (member x hist ≡ false) × Avoids hist xs

Avoids-tail : (y : ℕ) (hist xs : List ℕ) → Avoids (y ∷ hist) xs → Avoids hist xs
Avoids-tail y hist [] a = tt
Avoids-tail y hist (x ∷ xs) a = (ground arith, Avoids-tail y hist xs a.1)

Avoids-head : (y : ℕ) (hist xs : List ℕ) → Avoids (y ∷ hist) xs → member y xs ≡ false
Avoids-head y hist [] a = refl
Avoids-head y hist (x ∷ xs) a = ground (arith, Avoids-head y hist xs a.1)

refused-false : (seq : ℕ) (hist : List ℕ) → refused seq hist ≡ false → member seq hist ≡ false
unfolding refused
refused-false seq hist h = ground (arith, member_above seq hist)

Fresh : List ℕ → List ℕ → Type 0
Fresh hist xs = Avoids hist xs × Distinct xs

run-Fresh : (hist : List ℕ) (es : List (ℕ × Bool)) → Fresh hist (History.run hist es)
unfolding Fresh History.run
run-Fresh hist [] = (tt, tt)
run-Fresh hist ((seq, false) ∷ es) = ground (arith, run-Fresh hist es)
run-Fresh hist ((seq, true) ∷ es) = elim (Bool-cases (refused seq hist)) [
  | inl e ↦ rw e (run-Fresh hist es)
  | inr e ↦
      let rest = run-Fresh (seq ∷ hist) es in
      let later = History.run (seq ∷ hist) es in
      rw e (
        (refused-false seq hist e, Avoids-tail seq hist later rest.0),
        (Avoids-head seq hist later rest.0, rest.1),
      )
]

-- No sequence number is accepted twice, whatever packets arrive in whatever order, with the
-- numbers below 2 ^ 64 that a packet can carry.
pub run-Distinct : (es : List (ℕ × Bool)) → Fits es → Distinct (run fresh es)
unfolding Fresh
run-Distinct es f = rw (run-fresh es f) (run-Fresh [] es).1

-- A window that stands for a history lets through exactly the numbers above 0 that are ahead of
-- the latest, or less than 64 behind it and not in the history; for numbers below 2 ^ 64 - 64.
pub check_iff :
    {w : ReplayWindow} {hist : List ℕ} (seq : ℕ)
    → Stands w hist
    → seq < 2 ^ 64 - 64
    → (check_replay seq w ≡ false)
      ↔ ((0 < seq) × ((latest hist < seq) ⊎ ((latest hist < seq + 64) × (member seq hist ≡ false))))
unfolding refused
check_iff {w} {hist} seq s fits =
    let e = check-Stands seq s (omega arith) in
    (λ h. ground arith, λ h. ground (arith, member_above seq hist))

-- A number that `check_replay` lets through is marked inside the bitmap: the index of the word
-- that `update_window` writes is in range, at any window with a 64-bit edge.
pub update_in_bounds :
    (seq : ℕ) (w : ReplayWindow)
    → seq < 2 ^ 64
    → w.recv_max < 2 ^ 64
    → check_replay seq w ≡ false
    → let moved = if ltb w.recv_max seq then slide seq w else w in
      (seq ≤ moved.recv_max) × (sub_u64 moved.recv_max seq / word_size < bitmap_words)
unfolding check_replay slide
update_in_bounds seq w fits edge h = ground arith
