-- ===== src/Sessions/Invariant.antt =====
-- What holds of the table between the operations.
use chamlon.Base.{
  ℕ, ◌≡◌, ◌≢◌, inl, inr, sym, ap, ◌∙◌, true, List, some, arith, get_elem?, ◌==◌, Bool-cases, ==_iff,
}
use chamlon.Sessions.{
  keyed, connected, Session, Client, Agreed, same_client, open_session, vpn_ip_of,
}
use chamlon.Sessions.Addresses.{IsAddressed}
use chamlon.Sessions.Clients.{taken, IsOnePerClient, Opened, open_session_lem}

same_client_sym : (a b : Client) → same_client a b ≡ same_client b a
same_client_sym a b = ground (
  arith,
  ==_iff a.sin_addr b.sin_addr,
  ==_iff b.sin_addr a.sin_addr,
  ==_iff a.sin_port b.sin_port,
  ==_iff b.sin_port a.sin_port,
)

own_slot :
    (a : Agreed) (t t' : List Session) (i : ℕ)
    → Opened a t i t'
    → (j : ℕ) (x : Session) → j ≡ i
    → get_elem? t' j ≡ some x
    → (x.vpn_ip ≡ vpn_ip_of i) × (x.client_addr ≡ a.src)
own_slot a t t' i o j x same g =
    let s = connected a (keyed a (taken a.wanted i o.session)) in
    let found : some x ≡ some s = sym g ∙ ap (get_elem? t') same ∙ o.own in
    let eq : x ≡ s = cc in (ap (λ r. r.vpn_ip) eq, ap (λ r. r.client_addr) eq)

Opened-IsAddressed :
    (a : Agreed) (t t' : List Session) (i : ℕ) → Opened a t i t' → IsAddressed t → IsAddressed t'
Opened-IsAddressed a t t' i o inv j x g act = elim (Bool-cases (j == i)) [
  | inl e ↦
      let same : j ≡ i = (==_iff j i).0 e in
      let (ip, src) = own_slot a t t' i o j x same g in ip ∙ ap vpn_ip_of (sym same)
  | inr e ↦ elim (o.others j x (ground arith) g) [
    | inl g' ↦ inv j x g' act
    | inr f ↦ absurd (ground arith)
  ]
]

-- Of two active slots of one client, where one is not the new slot, both are old.
other_slots :
    (a : Agreed) (t t' : List Session) (i : ℕ)
    → Opened a t i t'
    → IsOnePerClient t
    → (j l : ℕ) (x y : Session) → j ≢ i
    → get_elem? t' j ≡ some x
    → get_elem? t' l ≡ some y
    → x.active ≡ true
    → y.active ≡ true
    → same_client x.client_addr y.client_addr ≡ true
    → j ≡ l
other_slots a t t' i o one j l x y ne gx gy ax ay same =
    let away = o.single one j x ne gx ax in
    elim (Bool-cases (l == i)) [
      | inl e ↦
          let (ip, src) = own_slot a t t' i o l y ((==_iff l i).0 e) gy in
          absurd (ground (arith, away, same, src))
      | inr e ↦ elim (o.others j x ne gx) [
        | inr f ↦ absurd (ground arith)
        | inl gx' ↦ elim (o.others l y (ground arith) gy) [
          | inr f ↦ absurd (ground arith)
          | inl gy' ↦ one j l x y gx' gy' ax ay same
        ]
      ]
    ]

Opened-IsOnePerClient :
    (a : Agreed) (t t' : List Session) (i : ℕ)
    → Opened a t i t'
    → IsOnePerClient t
    → IsOnePerClient t'
Opened-IsOnePerClient a t t' i o one j l x y gx gy ax ay same = elim (Bool-cases (j == i)) [
  | inr e ↦ other_slots a t t' i o one j l x y (ground arith) gx gy ax ay same
  | inl e ↦ elim (Bool-cases (l == i)) [
    | inl f ↦ (==_iff j i).0 e ∙ sym ((==_iff l i).0 f)
    | inr f ↦
        let same' = sym (same_client_sym x.client_addr y.client_addr) ∙ same in
        sym (other_slots a t t' i o one l j y x (ground arith) gy gx ay ax same')
  ]
]

-- Opening a session keeps two facts of the table: every active slot has the address of its index, and
-- no two active slots have the same client.
pub open_session-invariant :
    (a : Agreed) (t t' : List Session) (i : ℕ)
    → IsAddressed t
    → IsOnePerClient t
    → open_session a t ≡ some (i, t')
    → IsAddressed t' × IsOnePerClient t'
open_session-invariant a t t' i inv one h =
    let o = open_session_lem a t t' i h in
    (Opened-IsAddressed a t t' i o inv, Opened-IsOnePerClient a t t' i o one)
