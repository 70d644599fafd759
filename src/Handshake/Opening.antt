-- ===== src/Handshake/Opening.antt =====
-- What MSG1 does to the table of sessions, on every path: an answer opens a session, and a refusal takes
-- no session away but one of the same client.
use chamlon.Base.{
  ℕ, ◌≡◌, ◌≢◌, ◌⊎◌, inl, inr, sym, ◌∙◌, true, false, List, some, arith, get_elem?, ◌==◌, Bool-cases,
  ==_iff,
}
use chamlon.Sessions.{
  Session, Client, Wanted, Agreed, same_client, update_slot, free_slot, free_session, retire_old,
  keyed, vpn_ip_of, configured, assign_vpn_ip_to_session,
}
use chamlon.Sessions.Slots.{get_elem?-update_ne, get_elem?-update_inv, Allocated}
use chamlon.Sessions.Clients.{retire_old_other, retire_old_keeps}

-- What a refusal leaves of the table t of a server: the sessions of other clients stay, and a session that
-- is active afterwards was there before.
pub record Refused (src : Client) (t t' : List Session) : Type 0 where
  pub kept :
      (j : ℕ) (x : Session)
      → get_elem? t j ≡ some x
      → x.active ≡ true
      → same_client x.client_addr src ≡ false
      → get_elem? t' j ≡ some x
  pub left :
      (j : ℕ) (x : Session) → get_elem? t' j ≡ some x → x.active ≡ true → get_elem? t j ≡ some x

pub Refused-refl : (src : Client) (t : List Session) → Refused src t t
Refused-refl src t = record { kept = λ j x g act ne. g; left = λ j x g act. g }

free_slot_off : (s : Session) → (free_slot s).active ≡ false
free_slot_off s = ground arith

-- Where slot i was not in use, and the slots other than i stay or are put out of use.
freed-Refused :
    (src : Client) (i : ℕ) (t z : List Session) (s : Session)
    → get_elem? t i ≡ some s
    → s.active ≡ false
    → ((j : ℕ) (x : Session)
        → j ≢ i
        → get_elem? t j ≡ some x
        → same_client x.client_addr src ≡ false
        → get_elem? z j ≡ some x)
    → ((j : ℕ) (x : Session)
        → j ≢ i
        → get_elem? z j ≡ some x
        → (get_elem? t j ≡ some x) ⊎ (x.active ≡ false))
    → Refused src t (free_session i z)
unfolding free_session
freed-Refused src i t z s there off keep old = record {
  kept = λ j x g act ne. elim (Bool-cases (j == i)) [
    | inl e ↦ absurd (ground (arith, there, g, ==_iff j i))
    | inr e ↦ get_elem?-update_ne i j free_slot z (ground arith) ∙ keep j x (ground arith) g ne
  ];
  left = λ j x g act. elim (Bool-cases (j == i)) [
    | inl e ↦
        let (y, gy, eq) = get_elem?-update_inv i j free_slot z x ((==_iff j i).0 e) g in
        absurd (ground (arith, free_slot_off y))
    | inr e ↦
        elim (old j x (ground arith)
          (sym (get_elem?-update_ne i j free_slot z (ground arith)) ∙ g)) [
            | inl g' ↦ g'
            | inr f ↦ absurd (ground arith)
          ]
  ];
}

-- The table of which slot i was claimed.
abbrev pub claimed_table : Wanted → ℕ → List Session → List Session
claimed_table w i t = update_slot i (configured w) (assign_vpn_ip_to_session i t)

claimed_other :
    (w : Wanted) (t : List Session) (r : Allocated t) (j : ℕ)
    → j ≢ r.slot
    → get_elem? (claimed_table w r.slot r.table) j ≡ get_elem? t j
unfolding assign_vpn_ip_to_session
claimed_other w t r j ne =
    get_elem?-update_ne r.slot j (configured w) (assign_vpn_ip_to_session r.slot r.table) ne
    ∙ get_elem?-update_ne r.slot j (λ s. record s { vpn_ip = vpn_ip_of r.slot }) r.table ne
    ∙ r.others j ne

-- The slot is given back before the keys are agreed.
pub unclaimed-Refused :
    (src : Client) (w : Wanted) (t : List Session) (r : Allocated t)
    → Refused src t (free_session r.slot (claimed_table w r.slot r.table))
unclaimed-Refused src w t r =
    freed-Refused src r.slot t (claimed_table w r.slot r.table) r.session r.there r.free
      (λ j x ne g _. claimed_other w t r j ne ∙ g)
      (λ j x ne g. inl (sym (claimed_other w t r j ne) ∙ g))

-- The slot is given back after the keys are agreed.
pub undone-Refused :
    (a : Agreed) (f : Session → Session) (t : List Session) (r : Allocated t)
    → Refused a.src t (
        free_session r.slot (
          update_slot r.slot f (
            retire_old a.src r.slot 0
              (update_slot r.slot (keyed a) (claimed_table a.wanted r.slot r.table)))))
undone-Refused a f t r =
    let t₁ = claimed_table a.wanted r.slot r.table in
    let keys = update_slot r.slot (keyed a) t₁ in
    let rest = retire_old a.src r.slot 0 keys in
    let outside : (j : ℕ) → j ≢ r.slot → get_elem? keys j ≡ get_elem? t j =
      λ j ne. get_elem?-update_ne r.slot j (keyed a) t₁ ne ∙ claimed_other a.wanted t r j ne in
    freed-Refused a.src r.slot t (update_slot r.slot f rest) r.session r.there r.free
      (λ j x ne g other.
        get_elem?-update_ne r.slot j f rest ne
        ∙ retire_old_keeps a.src r.slot 0 j keys x (outside j ne ∙ g) other)
      (λ j x ne g.
        elim (retire_old_other a.src r.slot 0 j keys x
          (sym (get_elem?-update_ne r.slot j f rest ne) ∙ g)) [
            | inl e ↦ inl (sym (outside j ne) ∙ e)
            | inr e ↦ inr e
          ])
