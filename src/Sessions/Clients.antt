-- ===== src/Sessions/Clients.antt =====
-- A new session in the table: its slot, its address, and the old session of the same client.
use chamlon.Base.{
  ℕ, zero, suc, ◌+◌, ◌≡◌, ◌≢◌, ◌⊎◌, inl, inr, refl, sym, ◌∙◌, true, false, not, ◌&&◌, ◌||◌, List,
  [], ◌∷◌, some, arith, get_elem?, ◌==◌, Bool-cases, ==_iff,
}
use chamlon.ReplayWindow.{fresh}
use chamlon.Sessions.{
  Session, Client, Agreed, same_client, retire_old, keyed, connected, open_session, update_slot,
  assign_vpn_ip_to_session, vpn_ip_of, Wanted, configured, claim_slot,
}
use chamlon.Sessions.Slots.{
  get_elem?-update_self, get_elem?-update_ne, allocate_session_lem, Allocated,
}

-- No two active slots have the same client.
abbrev pub IsOnePerClient : List Session → Type 0
IsOnePerClient t =
    (i j : ℕ) (x y : Session)
    → get_elem? t i ≡ some x
    → get_elem? t j ≡ some y
    → x.active ≡ true
    → y.active ≡ true
    → same_client x.client_addr y.client_addr ≡ true
    → i ≡ j

-- The same for the slots other than i, in a table whose first index is k.
abbrev OthersDiffer : ℕ → ℕ → List Session → Type 0
OthersDiffer i k t =
    (j l : ℕ) (x y : Session)
    → k + j ≢ i
    → k + l ≢ i
    → get_elem? t j ≡ some x
    → get_elem? t l ≡ some y
    → x.active ≡ true
    → y.active ≡ true
    → same_client x.client_addr y.client_addr ≡ true
    → j ≡ l

retire_old_own :
    (src : Client) (i k j : ℕ) (t : List Session)
    → k + j ≡ i
    → get_elem? (retire_old src i k t) j ≡ get_elem? t j
unfolding retire_old
retire_old_own src i k j [] e = refl
retire_old_own src i k zero (s ∷ t) e = ground arith
retire_old_own src i k (suc j) (s ∷ t) e =
    ground (arith, retire_old_own src i (suc k) j t (omega arith))

pub retire_old_other :
    (src : Client) (i k j : ℕ) (t : List Session) (y : Session)
    → get_elem? (retire_old src i k t) j ≡ some y
    → (get_elem? t j ≡ some y) ⊎ (y.active ≡ false)
unfolding retire_old
retire_old_other src i k j [] y g = inl g
retire_old_other src i k zero (s ∷ t) y g =
    elim (Bool-cases ((k == i) || not (s.active && same_client s.client_addr src))) [
      | inl e ↦ inl (ground arith)
      | inr e ↦ inr (ground arith)
    ]
retire_old_other src i k (suc j) (s ∷ t) y g =
    elim (Bool-cases ((k == i) || not (s.active && same_client s.client_addr src))) [
      | inl e ↦ retire_old_other src i (suc k) j t y (ground arith)
      | inr e ↦ inl (ground arith)
    ]

-- The sessions of other clients stay.
pub retire_old_keeps :
    (src : Client) (i k j : ℕ) (t : List Session) (y : Session)
    → get_elem? t j ≡ some y
    → same_client y.client_addr src ≡ false
    → get_elem? (retire_old src i k t) j ≡ some y
unfolding retire_old
retire_old_keeps src i k j [] y g ne = g
retire_old_keeps src i k zero (s ∷ t) y g ne = ground arith
retire_old_keeps src i k (suc j) (s ∷ t) y g ne =
    elim (Bool-cases ((k == i) || not (s.active && same_client s.client_addr src))) [
      | inl e ↦ let rest = retire_old_keeps src i (suc k) j t y g ne in ground arith
      | inr e ↦ ground arith
    ]

same_client_trans :
    (a b c : Client) → same_client a c ≡ true → same_client b c ≡ true → same_client a b ≡ true
same_client_trans a b c p q = ground (
  arith,
  ==_iff a.sin_addr c.sin_addr,
  ==_iff b.sin_addr c.sin_addr,
  ==_iff a.sin_port c.sin_port,
  ==_iff b.sin_port c.sin_port,
)

-- Where the other slots have different clients, the loop leaves none of them to this client.
retire_old_gone :
    (src : Client) (i k j : ℕ) (t : List Session) (y : Session)
    → OthersDiffer i k t
    → k + j ≢ i
    → get_elem? (retire_old src i k t) j ≡ some y
    → y.active ≡ true
    → same_client y.client_addr src ≡ false
unfolding retire_old
retire_old_gone src i k j [] y d ne g act = cc
retire_old_gone src i k zero (s ∷ t) y d ne g act = ground arith
retire_old_gone src i k (suc j) (s ∷ t) y d ne g act =
    elim (Bool-cases ((k == i) || not (s.active && same_client s.client_addr src))) [
      | inl e ↦
          let others : OthersDiffer i (suc k) t = λ a b x z na nb ga gb ax az same.
            omega (arith, d (suc a) (suc b) x z (omega arith) (omega arith) ga gb ax az same) in
          retire_old_gone src i (suc k) j t y others (omega arith) (ground arith) act
      | inr e ↦ elim (Bool-cases (same_client y.client_addr src)) [
        | inr f ↦ f
        | inl f ↦
            let clash = d 0 (suc j) s y in
            absurd (ground (arith, clash, same_client_trans s.client_addr y.client_addr src))
      ]
    ]

-- The slot as it is claimed.
abbrev pub taken : Wanted → ℕ → Session → Session
taken w i s = configured w (record s { rw_window = fresh; vpn_ip = vpn_ip_of i })

-- What the opening of a session gives.
pub record Opened (a : Agreed) (t : List Session) (i : ℕ) (t' : List Session) : Type 0 where
  pub session : Session
  pub there : get_elem? t i ≡ some session
  pub free : session.active ≡ false
  pub own : get_elem? t' i ≡ some (connected a (keyed a (taken a.wanted i session)))
  pub others :
      (j : ℕ) (x : Session)
      → j ≢ i
      → get_elem? t' j ≡ some x
      → (get_elem? t j ≡ some x) ⊎ (x.active ≡ false)
  pub single :
      IsOnePerClient t
      → (j : ℕ) (x : Session) → j ≢ i
      → get_elem? t' j ≡ some x
      → x.active ≡ true
      → same_client x.client_addr a.src ≡ false

-- The table once the slot has its keys, and at the end.
abbrev with_keys : Agreed → ℕ → List Session → List Session
with_keys a k t =
    update_slot k (keyed a) (update_slot k (configured a.wanted) (assign_vpn_ip_to_session k t))

abbrev at_end : Agreed → ℕ → List Session → List Session
at_end a k t = update_slot k (connected a) (retire_old a.src k 0 (with_keys a k t))

with_keys_other :
    (a : Agreed) (t : List Session) (r : Allocated t) (j : ℕ)
    → j ≢ r.slot
    → get_elem? (with_keys a r.slot r.table) j ≡ get_elem? t j
unfolding assign_vpn_ip_to_session
with_keys_other a t r j ne =
    let t' = assign_vpn_ip_to_session r.slot r.table in
    get_elem?-update_ne r.slot j (keyed a) (update_slot r.slot (configured a.wanted) t') ne
    ∙ get_elem?-update_ne r.slot j (configured a.wanted) t' ne
    ∙ get_elem?-update_ne r.slot j (λ s. record s { vpn_ip = vpn_ip_of r.slot }) r.table ne
    ∙ r.others j ne

with_keys_own :
    (a : Agreed) (t : List Session) (r : Allocated t)
    → get_elem? (with_keys a r.slot r.table) r.slot
      ≡ some (keyed a (taken a.wanted r.slot r.session))
unfolding assign_vpn_ip_to_session
with_keys_own a t r =
    let t' = assign_vpn_ip_to_session r.slot r.table in
    let assigned =
      get_elem?-update_self r.slot (λ s. record s { vpn_ip = vpn_ip_of r.slot }) r.table
        (record r.session { rw_window = fresh }) r.reset in
    let s = record r.session { rw_window = fresh; vpn_ip = vpn_ip_of r.slot } in
    get_elem?-update_self r.slot (keyed a) (update_slot r.slot (configured a.wanted) t')
      (configured a.wanted s) (get_elem?-update_self r.slot (configured a.wanted) t' s assigned)

with_keys-OthersDiffer :
    (a : Agreed) (t : List Session) (r : Allocated t)
    → IsOnePerClient t
    → OthersDiffer r.slot 0 (with_keys a r.slot r.table)
with_keys-OthersDiffer a t r one j l x y nj nl gx gy ax ay same =
    one j l x y (sym (with_keys_other a t r j (omega arith)) ∙ gx)
      (sym (with_keys_other a t r l (omega arith)) ∙ gy) ax ay same

Allocated-Opened :
    (a : Agreed) (t : List Session) (r : Allocated t) → Opened a t r.slot (at_end a r.slot r.table)
Allocated-Opened a t r =
    let keys = with_keys a r.slot r.table in
    let retire = retire_old a.src r.slot 0 keys in
    record {
      session = r.session;
      there = r.there;
      free = r.free;
      own =
          get_elem?-update_self r.slot (connected a) retire
            (keyed a (taken a.wanted r.slot r.session))
            (retire_old_own a.src r.slot 0 r.slot keys (omega arith) ∙ with_keys_own a t r);
      others = λ j x ne g.
          let g' = sym (get_elem?-update_ne r.slot j (connected a) retire ne) ∙ g in
          elim (retire_old_other a.src r.slot 0 j keys x g') [
            | inl e ↦ inl (sym (with_keys_other a t r j ne) ∙ e)
            | inr e ↦ inr e
          ];
      single = λ one j x ne g act.
          let g' = sym (get_elem?-update_ne r.slot j (connected a) retire ne) ∙ g in
          retire_old_gone a.src r.slot 0 j keys x (with_keys-OthersDiffer a t r one) (omega arith)
            g' act;
    }

-- A session that opens takes a free slot, with the agreed keys and identifier, the address of the
-- slot, a fresh replay window and no sent packets; every other slot stays or is put out of use, and
-- if no two active slots had the same client, no other active slot has this one's.
pub open_session_lem :
    (a : Agreed) (t t' : List Session) (i : ℕ) → open_session a t ≡ some (i, t') → Opened a t i t'
unfolding open_session claim_slot
open_session_lem a t t' i h = elim (allocate_session_lem t) [
  | inl (n, all) ↦ absurd (ground (arith, n))
  | inr r ↦
      let k = r.slot in
      let end = at_end a k r.table in
      let result : open_session a t ≡ some (k, end) = rw r.allocated refl in
      let slot : i ≡ k = cc in
      let table : t' ≡ end = cc in rw slot (rw table (Allocated-Opened a t r))
]
