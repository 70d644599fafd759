-- ===== src/Sessions/Slots.antt =====
-- The scans of the table and the writes into it.
use chamlon.Base.{
  ℕ, zero, suc, ◌<◌, ◌≡◌, ◌≢◌, ◌⊎◌, inl, inr, refl, ap, Bool, true, false, not, List, [], ◌∷◌, none,
  some, arith, length, get_elem?, Bool-cases, Option-cases,
}
use chamlon.ReplayWindow.{fresh}
use chamlon.Sessions.{Session, first_slot, update_slot, allocate_session}

pub get_elem?-update_self :
    (i : ℕ) (f : Session → Session) (t : List Session) (s : Session)
    → get_elem? t i ≡ some s
    → get_elem? (update_slot i f t) i ≡ some (f s)
get_elem?-update_self i f [] s h = cc
get_elem?-update_self zero f (x ∷ t) s h = ground arith
get_elem?-update_self (suc i) f (x ∷ t) s h = get_elem?-update_self i f t s h

pub get_elem?-update_ne :
    (i j : ℕ) (f : Session → Session) (t : List Session)
    → j ≢ i
    → get_elem? (update_slot i f t) j ≡ get_elem? t j
get_elem?-update_ne i j f [] ne = refl
get_elem?-update_ne zero zero f (x ∷ t) ne = absurd (ne refl)
get_elem?-update_ne zero (suc j) f (x ∷ t) ne = refl
get_elem?-update_ne (suc i) zero f (x ∷ t) ne = refl
get_elem?-update_ne (suc i) (suc j) f (x ∷ t) ne = get_elem?-update_ne i j f t (omega arith)

pub get_elem?-inside :
    (i : ℕ) (t : List Session) (s : Session) → get_elem? t i ≡ some s → i < length t
get_elem?-inside i [] s h = cc
get_elem?-inside zero (x ∷ t) s h = omega arith
get_elem?-inside (suc i) (x ∷ t) s h = omega (arith, get_elem?-inside i t s h)

pub get_elem?-update_inv :
    (i j : ℕ) (f : Session → Session) (t : List Session) (y : Session)
    → j ≡ i
    → get_elem? (update_slot i f t) j ≡ some y
    → (x : Session) × (get_elem? t j ≡ some x) × (y ≡ f x)
get_elem?-update_inv i j f [] y e h = cc
get_elem?-update_inv zero zero f (x ∷ t) y e h = (x, refl, cc)
get_elem?-update_inv zero (suc j) f (x ∷ t) y e h = absurd (omega arith)
get_elem?-update_inv (suc i) zero f (x ∷ t) y e h = absurd (omega arith)
get_elem?-update_inv (suc i) (suc j) f (x ∷ t) y e h =
    get_elem?-update_inv i j f t y (omega arith) h

pub length-update_slot :
    (i : ℕ) (f : Session → Session) (t : List Session) → length (update_slot i f t) ≡ length t
length-update_slot i f [] = refl
length-update_slot zero f (x ∷ t) = refl
length-update_slot (suc i) f (x ∷ t) = ap suc (length-update_slot i f t)

-- Slot i is the first that passes the test.
pub record IsFirstSlot (test : Session → Bool) (t : List Session) (i : ℕ) : Type 0 where
  pub session : Session
  pub there : get_elem? t i ≡ some session
  pub passes : test session ≡ true
  pub before : (j : ℕ) (x : Session) → j < i → get_elem? t j ≡ some x → test x ≡ false

pub first_slot-some :
    (test : Session → Bool) (t : List Session) (i : ℕ)
    → first_slot test t ≡ some i
    → IsFirstSlot test t i
first_slot-some test [] i h = cc
first_slot-some test (s ∷ t) i h = elim (Bool-cases (test s)) [
  | inl e ↦
      let zero_index : i ≡ 0 = ground arith in
      rw zero_index (record {
        session = s;
        there = refl;
        passes = e;
        before = λ j x lt g. absurd (omega arith);
      })
  | inr e ↦ elim (Option-cases (first_slot test t)) [
    | inl n ↦ absurd (ground arith)
    | inr (k, p) ↦
        let r = first_slot-some test t k p in
        let suc_index : i ≡ suc k = ground arith in
        rw suc_index (record {
          session = r.session;
          there = r.there;
          passes = r.passes;
          before = before_suc test s t k e r;
        })
  ]
]
  where
    before_suc :
        (test : Session → Bool) (s : Session) (t : List Session) (k : ℕ)
        → test s ≡ false
        → IsFirstSlot test t k
        → (j : ℕ) (x : Session) → j < suc k
        → get_elem? (s ∷ t) j ≡ some x
        → test x ≡ false
    before_suc test s t k e r zero x lt g = ground arith
    before_suc test s t k e r (suc j) x lt g = r.before j x (omega (arith, lt)) g

pub first_slot-none :
    (test : Session → Bool) (t : List Session)
    → first_slot test t ≡ none
    → (j : ℕ) (x : Session) → get_elem? t j ≡ some x
    → test x ≡ false
first_slot-none test [] h j x g = cc
first_slot-none test (s ∷ t) h zero x g = ground arith
first_slot-none test (s ∷ t) h (suc j) x g = elim (Option-cases (first_slot test t)) [
  | inl n ↦ first_slot-none test t n j x g
  | inr (k, p) ↦ absurd (ground arith)
]

-- The only slot that passes the test is the one found.
pub first_slot_unique :
    (test : Session → Bool) (t : List Session) (i : ℕ) (s : Session)
    → get_elem? t i ≡ some s
    → test s ≡ true
    → ((j : ℕ) (x : Session) → get_elem? t j ≡ some x → test x ≡ true → j ≡ i)
    → first_slot test t ≡ some i
first_slot_unique test t i s g p only = elim (Option-cases (first_slot test t)) [
  | inl n ↦ absurd (ground (arith, first_slot-none test t n i s g))
  | inr (k, q) ↦
      let r = first_slot-some test t k q in ground (arith, q, only k r.session r.there r.passes)
]

-- What an allocation that succeeds gives.
pub record Allocated (t : List Session) : Type 0 where
  pub slot : ℕ
  pub table : List Session
  pub session : Session
  pub allocated : allocate_session t ≡ (some slot, table)
  pub there : get_elem? t slot ≡ some session
  pub free : session.active ≡ false
  pub first : (j : ℕ) (x : Session) → j < slot → get_elem? t j ≡ some x → x.active ≡ true
  pub reset : get_elem? table slot ≡ some (record session { rw_window = fresh })
  pub others : (j : ℕ) → j ≢ slot → get_elem? table j ≡ get_elem? t j

-- Allocation finds no slot, and changes nothing, only where all are in use; otherwise it gives the
-- first free slot, with its replay window zeroed, and leaves all others as they were.
pub allocate_session_lem :
    (t : List Session)
    → ((allocate_session t ≡ (none, t))
        × ((j : ℕ) (x : Session) → get_elem? t j ≡ some x → x.active ≡ true))
      ⊎ Allocated t
unfolding allocate_session
allocate_session_lem t = elim (Option-cases (first_slot (λ s. not s.active) t)) [
  | inl n ↦ inl (rw n refl, λ j x g. ground (arith, first_slot-none (λ s. not s.active) t n j x g))
  | inr (i, p) ↦
      let r = first_slot-some (λ s. not s.active) t i p in
      let f : Session → Session = λ s. record s { rw_window = fresh } in
      inr (record {
        slot = i;
        table = update_slot i f t;
        session = r.session;
        allocated = rw p refl;
        there = r.there;
        free = ground (arith, r.passes);
        first = λ j x lt g. ground (arith, r.before j x lt g);
        reset = get_elem?-update_self i f t r.session r.there;
        others = λ j ne. get_elem?-update_ne i j f t ne;
      })
]
