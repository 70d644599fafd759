-- ===== src/Sessions/Addresses.antt =====
-- The addresses of the tunnel: slot i has 10.10.0.(2 + i).
use chamlon.Base.{
  ℕ, ◌+◌, ◌≤◌, ◌<◌, ◌≡◌, inl, inr, refl, sym, ◌∙◌, true, ◌&&◌, List, [], ◌∷◌, some, arith, length,
  get_elem?, ◌==◌, Bool-cases, Option-cases, ==_iff, u8,
}
use chamlon.Sessions.{
  Session, same_bytes, vpn_ip_of, session_by_vpnip, free_session, free_slot,
  cleanup_expired_sessions, expired,
}
use chamlon.Sessions.Slots.{
  first_slot_unique, get_elem?-inside, get_elem?-update_inv, get_elem?-update_ne,
}
use chamlon.Sessions.Expiry.{sweep_slot}

-- Every active slot has the address of its index.
abbrev pub IsAddressed : List Session → Type 0
IsAddressed t =
    (i : ℕ) (s : Session) → get_elem? t i ≡ some s → s.active ≡ true → s.vpn_ip ≡ vpn_ip_of i

pub same_bytes_iff : (xs ys : List ℕ) → same_bytes xs ys ≡ true → xs ≡ ys
same_bytes_iff [] [] h = refl
same_bytes_iff [] (y ∷ ys) h = cc
same_bytes_iff (x ∷ xs) [] h = cc
same_bytes_iff (x ∷ xs) (y ∷ ys) h = ground (arith, ==_iff x y, same_bytes_iff xs ys)

pub same_bytes_refl : (xs : List ℕ) → same_bytes xs xs ≡ true
same_bytes_refl [] = refl
same_bytes_refl (x ∷ xs) = ground (arith, same_bytes_refl xs)

vpn_ip_of-injective : (i j : ℕ) → i < 254 → j < 254 → vpn_ip_of i ≡ vpn_ip_of j → i ≡ j
unfolding vpn_ip_of
vpn_ip_of-injective i j li lj h = let last : u8 (2 + i) ≡ u8 (2 + j) = cc in omega (arith, last)

-- In a table of at most 254 slots whose active slots have their addresses, a packet for the address
-- of an active session finds that session and no other.
pub session_by_vpnip_lem :
    (t : List Session) (i : ℕ) (s : Session)
    → IsAddressed t
    → length t ≤ 254
    → get_elem? t i ≡ some s
    → s.active ≡ true
    → session_by_vpnip (vpn_ip_of i) t ≡ some i
unfolding session_by_vpnip
session_by_vpnip_lem t i s inv le g act =
    first_slot_unique (λ x. x.active && same_bytes x.vpn_ip (vpn_ip_of i)) t i s g
      (rw act (rw (inv i s g act) (same_bytes_refl (vpn_ip_of i))))
      (λ j x gx p.
        let same = same_bytes_iff x.vpn_ip (vpn_ip_of i) (ground arith) in
        let own = inv j x gx (ground arith) in
        vpn_ip_of-injective j i (omega (arith, get_elem?-inside j t x gx))
          (omega (arith, get_elem?-inside i t s g)) (sym own ∙ same))

-- Freeing a slot of a table whose active slots have the addresses of their indices keeps this.
pub free_session-IsAddressed :
    (t : List Session) (k : ℕ) → IsAddressed t → IsAddressed (free_session k t)
unfolding free_session
free_session-IsAddressed t k inv i s g act = elim (Bool-cases (i == k)) [
  | inl e ↦
      let same : i ≡ k = (==_iff i k).0 e in
      let (x, gx, eq) = get_elem?-update_inv k i free_slot t s same g in
      absurd (ground (arith, inv i x))
  | inr e ↦ inv i s (sym (get_elem?-update_ne k i free_slot t (ground arith)) ∙ g) act
]

-- The sweep of a table whose active slots have the addresses of their indices keeps this.
pub cleanup-IsAddressed :
    (now : ℕ) (t : List Session)
    → IsAddressed t
    → IsAddressed (cleanup_expired_sessions now t).table
cleanup-IsAddressed now t inv i s g act = elim (Option-cases (get_elem? t i)) [
  | inl n ↦ absurd (ground (arith, sweep_slot now t i))
  | inr (x, p) ↦ elim (Bool-cases (expired now x)) [
    | inl e ↦ absurd (ground (arith, sweep_slot now t i))
    | inr e ↦ inv i s (ground (arith, sweep_slot now t i)) act
  ]
]
