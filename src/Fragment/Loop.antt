-- ===== src/Fragment/Loop.antt =====
-- One round of the loop.
use chamlon.Base.{ℕ, suc, ◌+◌, ◌<◌, ◌≤◌, ◌≡◌, refl, List, [], ◌∷◌, some, arith, length}
use chamlon.Fragment.{Params, chunk_at, fragment_at, fragments, fragment_packet}

pub fragments_end :
    (fuel : ℕ) (p : Params) (id : ℕ) (buf : List ℕ) (o : ℕ)
    → length buf ≤ o
    → fragments (suc fuel) p id buf o ≡ some []
unfolding fragments
fragments_end fuel p id buf o h = ground arith

pub fragments_step :
    (fuel : ℕ) (p : Params) (id : ℕ) (buf : List ℕ) (o : ℕ) {ps : List (List ℕ)}
    → o < length buf
    → fragments fuel p id buf (o + chunk_at p (length buf) o) ≡ some ps
    → fragments (suc fuel) p id buf o
      ≡ some (fragment_at p id buf o (chunk_at p (length buf) o) ∷ ps)
unfolding fragments
fragments_step fuel p id buf o h e = ground arith

pub fragment_packet_lem :
    (p : Params) (id : ℕ) (buf : List ℕ)
    → fragment_packet p id buf ≡ fragments (length buf + 1) p id buf 0
unfolding fragment_packet
fragment_packet_lem p id buf = refl
