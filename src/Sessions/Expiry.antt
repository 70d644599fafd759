-- ===== src/Sessions/Expiry.antt =====
-- The sweep of sessions that have been silent for too long.
use chamlon.Base.{
  ℕ, zero, suc, ◌-◌, ◌≤◌, ◌<◌, ◌≡◌, ◌&&◌, ltb, replicate, false, inl, inr, refl, true, List, [],
  ◌∷◌, Option, none, some, arith, get_elem?, if◌then◌else◌, Bool-cases,
}
use chamlon.Sessions.{Session, session_timeout_sec, expired, cleared, cleanup_expired_sessions}

abbrev pub after_sweep : ℕ → Option Session → Option Session
after_sweep now none = none
after_sweep now (some s) = some (if expired now s then cleared s else s)

-- An active session that has said nothing for more than sixty seconds.
abbrev pub Silent : ℕ → Session → Type 0
Silent now s = (s.active ≡ true) × (60 < now - s.last_activity)

-- Nothing is left of the session but its queue, its settings and its tables.
pub record IsWiped (s s' : Session) : Type 0 where
  pub inactive : s'.active ≡ false
  pub no_id : s'.session_id ≡ replicate 16 0
  pub no_recv_key : s'.k_recv ≡ replicate 32 0
  pub no_send_key : s'.k_send ≡ replicate 32 0
  pub no_counters : (s'.send_seq ≡ 0) × (s'.last_recv_seq ≡ 0)
  pub no_address : (s'.client_addr.sin_family ≡ 0) × (s'.vpn_ip ≡ 0 ∷ 0 ∷ 0 ∷ 0 ∷ [])
  pub no_time : s'.last_activity ≡ 0
  pub same_queue : s'.outq ≡ s.outq

-- The silent sessions, in the order of their slots.
abbrev pub silent_sessions : ℕ → List Session → List Session
silent_sessions now [] = []
silent_sessions now (s ∷ ss) =
    let rest = silent_sessions now ss in
    if s.active && ltb 60 (now - s.last_activity) then s ∷ rest else rest

pub sweep_slot :
    (now : ℕ) (t : List Session) (i : ℕ)
    → get_elem? (cleanup_expired_sessions now t).table i ≡ after_sweep now (get_elem? t i)
unfolding cleanup_expired_sessions
sweep_slot now [] i = refl
sweep_slot now (s ∷ t) zero = ground arith
sweep_slot now (s ∷ t) (suc i) = ground (arith, sweep_slot now t i)

-- After the sweep no active session has been silent for more than sixty seconds.
pub cleanup_leaves_live :
    (now i : ℕ) (t : List Session) (s : Session)
    → get_elem? (cleanup_expired_sessions now t).table i ≡ some s
    → s.active ≡ true
    → now - s.last_activity ≤ session_timeout_sec
unfolding cleanup_expired_sessions
cleanup_leaves_live now i [] s g act = cc
cleanup_leaves_live now zero (x ∷ t) s g act = elim (Bool-cases (expired now x)) [
  | inl e ↦ absurd (ground arith)
  | inr e ↦ ground arith
]
cleanup_leaves_live now (suc i) (x ∷ t) s g act = cleanup_leaves_live now i t s (ground arith) act
