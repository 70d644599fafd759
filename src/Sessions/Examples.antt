-- ===== src/Sessions/Examples.antt =====
-- Tests and examples of the table of sessions.
use chamlon.Base.{arith, ℕ, zero, suc, ◌≡◌, refl, sym, ap, true, some, List, [], ◌∷◌, get_elem?}
use chamlon.Sessions.{
  zero_session, letter_y, configured, claim_slot, Client, Session, Agreed, allocate_session,
  session_by_vpnip, vpn_ip_of, zeroed, cleanup_expired_sessions, open_session, update_slot,
  assign_vpn_ip_to_session, retire_old, keyed, connected,
}
use chamlon.Sessions.Addresses.{IsAddressed}
use chamlon.Sessions.Expiry.{Silent}
use chamlon.Sessions.Clients.{IsOnePerClient}

abbrev client : ℕ → Client
client port = record { sin_family = 2; sin_addr = 77; sin_port = port }

abbrev used : Session
used = record zero_session {
  active = true;
  session_id = 1 ∷ zeroed 15;
  client_addr = client 5000;
  vpn_ip = vpn_ip_of 0;
  last_activity = 100;
}

abbrev slots : List Session
slots = used ∷ zero_session ∷ []

abbrev agreed : Agreed
agreed = record {
  id = 2 ∷ zeroed 15;
  recv_key = 3 ∷ zeroed 31;
  send_key = 4 ∷ zeroed 31;
  wanted = record { mbps = 9; frag = 2000; cbr = letter_y; pad = 0 };
  src = client 5000;
  now = 110;
}

slots-IsAddressed : IsAddressed slots
slots-IsAddressed zero s g act = let same : used ≡ s = cc in ap (λ x. x.vpn_ip) (sym same)
slots-IsAddressed (suc zero) s g act = absurd cc
slots-IsAddressed (suc (suc i)) s g act = absurd cc

slots-IsOnePerClient : IsOnePerClient slots
slots-IsOnePerClient zero zero x y gx gy ax ay same = refl
slots-IsOnePerClient zero (suc zero) x y gx gy ax ay same = absurd cc
slots-IsOnePerClient zero (suc (suc j)) x y gx gy ax ay same = absurd cc
slots-IsOnePerClient (suc zero) j x y gx gy ax ay same = absurd cc
slots-IsOnePerClient (suc (suc i)) j x y gx gy ax ay same = absurd cc

-- The same client again: it moves to slot 1, and slot 0 is given up.
abbrev reopened : List Session
reopened = update_slot 1 (connected agreed) (
    retire_old (client 5000) 1 0 (
      update_slot 1 (keyed agreed)
        (update_slot 1 (configured agreed.wanted) (assign_vpn_ip_to_session 1 slots))))

reopened_lem : open_session agreed slots ≡ some (1, reopened)
unfolding open_session claim_slot allocate_session assign_vpn_ip_to_session retire_old
reopened_lem = refl

reopened_by_address : session_by_vpnip (10 ∷ 10 ∷ 0 ∷ 3 ∷ []) reopened ≡ some 1
unfolding session_by_vpnip vpn_ip_of retire_old assign_vpn_ip_to_session
reopened_by_address = refl

used-Silent : Silent 500 used
used-Silent = (refl, omega arith)

still_there : get_elem? (cleanup_expired_sessions 160 slots).table 0 ≡ some used
unfolding cleanup_expired_sessions
still_there = refl
