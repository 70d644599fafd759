-- ===== src/Handshake/Invariant.antt =====
-- The facts of the table of sessions that both handlers of MSG1 keep.
use chamlon.Base.{
  ℕ, ◌≡◌, inl, inr, refl, sym, ap, ◌∙◌, Bool, not, List, Option, some, arith, length, get_elem?,
  ◌==◌, if_elim, Bool-cases, Option-cases, ==_iff,
}
use chamlon.Crypto.{Sodium}
use chamlon.Sessions.{Session, Client, same_client, update_slot}
use chamlon.Sessions.Slots.{get_elem?-update_inv, get_elem?-update_ne}
use chamlon.Sessions.Addresses.{IsAddressed}
use chamlon.Sessions.Clients.{IsOnePerClient}
use chamlon.Sessions.Invariant.{open_session-invariant}
use chamlon.Handshake.{
  Entropy, Calls, Server, Material, agreed_of, negotiate, handle_msg1, handle_rehandshake_msg1,
  parse_msg1, msg1_len, rotated, session_by_client,
}
use chamlon.Handshake.Opening.{Refused}
use chamlon.Handshake.Outcome.{handle_msg1-Outcome}

-- Every active slot has the address of its index, and no two active slots have one client.
abbrev pub IsTable : List Session → Type 0
IsTable t = IsAddressed t × IsOnePerClient t

Refused-IsTable : (src : Client) (t t' : List Session) → Refused src t t' → IsTable t → IsTable t'
Refused-IsTable src t t' r (inv, one) = (
  λ i s g act. inv i s (r.left i s g act) act,
  λ i j x y gx gy ax ay same. one i j x y (r.left i x gx ax) (r.left j y gy ay) ax ay same,
)

-- MSG1 keeps, whether it is answered or refused, that every active slot has the address of its index and
-- that no two active slots have the same client.
pub handle_msg1-IsTable :
    (c : Sodium) (e : Entropy) (calls : Calls) (now : ℕ) (src : Client) (msg1 : List ℕ)
    (srv : Server)
    → IsTable srv.sessions
    → IsTable (handle_msg1 c e calls now src msg1 srv).1.sessions
handle_msg1-IsTable c e calls now src msg1 srv ok =
    elim (handle_msg1-Outcome c e calls now src msg1 srv) [
      | inl (silent, refused) ↦ Refused-IsTable src srv.sessions _ refused ok
      | inr a ↦
          open_session-invariant (agreed_of (parse_msg1 msg1) a.material src now) srv.sessions _
            a.slot (ok.0) (ok.1) a.opened
    ]

-- What a slot of the table with a rotated session was before.
rotated_slot :
    (allocated : Bool) (now : ℕ) (m : Material) (i j : ℕ) (t : List Session) (x : Session)
    → get_elem? (update_slot i (rotated allocated now m) t) j ≡ some x
    → (y : Session) × (get_elem? t j ≡ some y)
      × (x.active ≡ y.active)
      × (x.vpn_ip ≡ y.vpn_ip)
      × (x.client_addr ≡ y.client_addr)
rotated_slot allocated now m i j t x g = elim (Bool-cases (j == i)) [
  | inl e ↦
      let (y, gy, eq) =
        get_elem?-update_inv i j (rotated allocated now m) t x ((==_iff j i).0 e) g in
      (y, gy, ap (λ s. s.active) eq, ap (λ s. s.vpn_ip) eq, ap (λ s. s.client_addr) eq)
  | inr e ↦ (
    x,
    sym (get_elem?-update_ne i j (rotated allocated now m) t (ground arith)) ∙ g,
    refl,
    refl,
    refl,
  )
]

rotated-IsTable :
    (allocated : Bool) (now : ℕ) (m : Material) (i : ℕ) (t : List Session)
    → IsTable t
    → IsTable (update_slot i (rotated allocated now m) t)
rotated-IsTable allocated now m i t (inv, one) = (
  λ j x g act.
      let (y, gy, a, ip, src) = rotated_slot allocated now m i j t x g in
      ip ∙ inv j y gy (sym a ∙ act),
  λ j l x z gx gz ax az same.
      let (y, gy, a, ip, src) = rotated_slot allocated now m i j t x gx in
      let (w, gw, b, ip', src') = rotated_slot allocated now m i l t z gz in
      one j l y w gy gw (sym a ∙ ax) (sym b ∙ az) (
        ap (λ u. same_client u w.client_addr) (sym src)
        ∙ ap (same_client x.client_addr) (sym src')
        ∙ same),
)

-- So does MSG1 of a client that rotates its keys.
pub handle_rehandshake_msg1-IsTable :
    (c : Sodium) (e again : Entropy) (calls : Calls) (now : ℕ) (src : Client) (msg1 : List ℕ)
    (srv : Server)
    → IsTable srv.sessions
    → IsTable (handle_rehandshake_msg1 c e again calls now src msg1 srv).1.sessions
unfolding handle_rehandshake_msg1
handle_rehandshake_msg1-IsTable c e again calls now src msg1 srv ok =
    let fallback = handle_msg1-IsTable c again calls now src msg1 srv ok in
    if_elim (λ (r : Option (List ℕ) × Server). IsTable r.1.sessions) (not (length msg1 == msg1_len))
      _ _ (λ _. ok)
      (λ _. elim (Option-cases (session_by_client src srv.sessions)) [
        | inl n ↦ rw n fallback
        | inr (i, p) ↦ elim (Option-cases (negotiate c e srv (parse_msg1 msg1))) [
          | inl n ↦ rw (p, n) fallback
          | inr ((sig, m), q) ↦ rw (p, q) (rotated-IsTable calls.allocated now m i srv.sessions ok)
        ]
      ])
