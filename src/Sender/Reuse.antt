-- ===== src/Sender/Reuse.antt =====
-- A nonce that is used twice around a change of keys.
use chamlon.Base.{ℕ, ◌≡◌, ◌⊎◌, inl, inr, true, false, List, [], ◌∷◌, ◌==◌}
use chamlon.Crypto.{Sodium}
use chamlon.Sessions.{letter_y}
use chamlon.Sender.Rekey.{
  Use, World, apply_keys, seal_dummy, Step, applied, dummy, Unused, AllDistinct,
}

-- The key was used with the number.
abbrev pub Used : List ℕ → ℕ → List Use → Type 0
Used key m [] = ⊥
Used key m ((k, n) ∷ used) = ((k ≡ key) × (n ≡ m)) ⊎ Used key m used

not-Unused : (key : List ℕ) (m : ℕ) (used : List Use) → Used key m used → ¬ Unused key m used
not-Unused key m [] u h = u
not-Unused key m ((k, n) ∷ used) (inl (e, f)) h = h.0 e f
not-Unused key m ((k, n) ∷ used) (inr u) h = not-Unused key m used u h.1

-- With constant bit rate the sender thread does seal such packets, and then a number is used twice with one key: once the
-- first packet under its key was sealed, a handshake that succeeds followed by a dummy packet before the
-- keys are handed over leads to a world with two packets of the same key and number, whatever the new key is.
pub reused_nonce :
    (c : Sodium) (w : World) (key id : List ℕ)
    → w.offering ≡ false
    → (w.sender.argv_cbr == letter_y) ≡ true
    → Used w.sender.k_send 0 w.used
    → (w' : World) × Step c w (apply_keys key id w)
      × Step c (apply_keys key id w) w'
      × ¬ AllDistinct w'.used
unfolding apply_keys seal_dummy
reused_nonce c w key id o y u = (
  seal_dummy c (apply_keys key id w),
  applied key id o,
  dummy y,
  λ h. not-Unused w.sender.k_send 0 w.used u h.0,
)
