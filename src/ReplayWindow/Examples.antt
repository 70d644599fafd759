-- ===== src/ReplayWindow/Examples.antt =====
-- Tests and examples of the replay window.
use chamlon.Base.{ℕ, ◌≡◌, refl, Bool, true, false, List, [], ◌∷◌, arith}
use chamlon.ReplayWindow.{
  ReplayWindow, check_replay, update_window, slide, run, fresh, mark, accept, clear_low, shift_left,
  shift_words, shift_bits,
}
use chamlon.ReplayWindow.History.{member, latest, refused}
use chamlon.ReplayWindow.History
use chamlon.ReplayWindow.NoReplay.{run-fresh, run-Distinct, Distinct}
use chamlon.ReplayWindow.Refine.{Stands, Fits, update-Stands, fresh-Stands}

-- A replayed number, one that is late but new, and one that has fallen out of the window.
abbrev arrivals : List (ℕ × Bool)
arrivals = (5, true) ∷ (3, true) ∷ (5, true) ∷ (4, false) ∷ (70, true) ∷ (4, true) ∷ (40, true) ∷ []

arrivals-Fits : Fits arrivals
arrivals-Fits = ground arith

run-arrivals : run fresh arrivals ≡ 5 ∷ 3 ∷ 70 ∷ 40 ∷ []
unfolding run accept check_replay update_window mark slide clear_low shift_left shift_words
    shift_bits
run-arrivals = refl

run-fresh_example : run fresh arrivals ≡ History.run [] arrivals
run-fresh_example = run-fresh arrivals arrivals-Fits

run-Distinct_example : Distinct (run fresh arrivals)
run-Distinct_example = run-Distinct arrivals arrivals-Fits

-- A window that has accepted number 5.
abbrev after_five : ReplayWindow
after_five = update_window 5 fresh

five_passes : check_replay 5 fresh ≡ false
unfolding check_replay
five_passes = refl

after_five-Stands : Stands after_five (5 ∷ [])
after_five-Stands = update-Stands 5 fresh-Stands (ground arith) five_passes
