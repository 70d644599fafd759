-- ===== src/Reassembly/Table.antt =====
-- The searches: which entry `find_or_create_entry` hands out, and what happens to the others.
use chamlon.Base.{
  ℕ, zero, suc, ◌<◌, ◌≡◌, refl, ap, inl, inr, Bool, true, false, not, List, [], ◌∷◌, none, some,
  arith, length, set, get_elem?-set_self, Option-cases,
}
use chamlon.Wire.{TunnelHeader}
use chamlon.Reassembly.{
  Entry, Table, Outcome, store, store_fragment, started, touch, holds, find_first,
  find_or_create_entry,
}

-- No entry of the table is in use for the packet.
abbrev pub Absent : ℕ → Table → Type 0
Absent id t = find_first (holds id) t ≡ none

pub find_first-lt :
    (test : Entry → Bool) (t : Table) (i : ℕ) → find_first test t ≡ some i → i < length t
unfolding find_first
find_first-lt test [] i h = cc
find_first-lt test (e ∷ t) zero h = omega arith
find_first-lt test (e ∷ t) (suc i) h = elim (Option-cases (find_first test t)) [
  | inl n ↦ ground (arith)
  | inr (j, p) ↦ ground (arith, find_first-lt test t j p)
]

-- Writing an entry that the test picks, into a table in which it picks none.
pub find_first-set :
    (test : Entry → Bool) (t : Table) (i : ℕ) (e : Entry)
    → find_first test t ≡ none
    → i < length t
    → test e ≡ true
    → find_first test (set t i e) ≡ some i
unfolding find_first
find_first-set test [] i e h l p = absurd (omega arith)
find_first-set test (x ∷ t) zero e h l p = rw p
find_first-set test (x ∷ t) (suc i) e h l p = elim (Option-cases (find_first test t)) [
  | inl n ↦ ground (arith, find_first-set test t i e n)
  | inr (j, q) ↦ ground arith
]

-- Writing one that it does not pick.
pub find_first-set-none :
    (test : Entry → Bool) (t : Table) (i : ℕ) (e : Entry)
    → find_first test t ≡ none
    → test e ≡ false
    → find_first test (set t i e) ≡ none
unfolding find_first
find_first-set-none test [] i e h p = refl
find_first-set-none test (x ∷ t) zero e h p = ground arith
find_first-set-none test (x ∷ t) (suc i) e h p = elim (Option-cases (find_first test t)) [
  | inl n ↦ ground (arith, find_first-set-none test t i e n)
  | inr (j, q) ↦ ground arith
]

pub set-set {ℓ} : {A : Type ℓ} (t : List A) (i : ℕ) (x y : A) → set (set t i x) i y ≡ set t i y
set-set [] i x y = refl
set-set (a ∷ t) zero x y = refl
set-set (a ∷ t) (suc i) x y = ap (◌∷◌ a) (set-set t i x y)

-- The outcome of a fragment and its entry, put back at its index.
abbrev pub put_back : Table → ℕ → Outcome × Entry → Outcome × Table
put_back t i r = (r.0, set t i r.1)

abbrev pub Free : ℕ → Table → Type 0
Free i t = find_first (λ e. not e.is_active) t ≡ some i

find_or_create_first :
    (now id i : ℕ) (t : Table)
    → Absent id t
    → Free i t
    → find_or_create_entry now id t ≡ some (i, set t i (started now id))
unfolding find_or_create_entry
find_or_create_first now id i t absent free = ground (arith, absent, free)

find_or_create_next :
    (now id i : ℕ) (t : Table) (e : Entry)
    → Absent id t
    → i < length t
    → holds id e ≡ true
    → find_or_create_entry now id (set t i e) ≡ some (i, set t i (touch now e))
unfolding find_or_create_entry
find_or_create_next now id i t e absent inside used = ground (
  arith,
  find_first-set (holds id) t i e absent inside used,
  get_elem?-set_self t i e inside,
  set-set t i e (touch now e),
)

-- The first fragment of a packet starts the first entry that is not in use.
pub store_fragment_first :
    (now : ℕ) (h : TunnelHeader) (payload : List ℕ) (n i : ℕ) (t : Table)
    → Absent h.packet_id t
    → Free i t
    → store_fragment now h payload n t ≡ put_back t i (store h payload n (started now h.packet_id))
unfolding store_fragment
store_fragment_first now h payload n i t absent free =
    let e = started now h.packet_id in
    ground (
      arith,
      find_or_create_first now h.packet_id i t absent free,
      get_elem?-set_self t i e (find_first-lt (λ e. not e.is_active) t i free),
      set-set t i e (store h payload n e).1,
    )

-- A later one goes into the entry that is in use for the packet.
pub store_fragment_next :
    (now : ℕ) (h : TunnelHeader) (payload : List ℕ) (n i : ℕ) (t : Table) (e : Entry)
    → Absent h.packet_id t
    → i < length t
    → holds h.packet_id e ≡ true
    → store_fragment now h payload n (set t i e) ≡ put_back t i (store h payload n (touch now e))
unfolding store_fragment
store_fragment_next now h payload n i t e absent inside used = ground (
  arith,
  find_or_create_next now h.packet_id i t e absent inside used,
  get_elem?-set_self t i (touch now e) inside,
  set-set t i (touch now e) (store h payload n (touch now e)).1,
)
