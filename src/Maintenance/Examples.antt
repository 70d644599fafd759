-- ===== src/Maintenance/Examples.antt =====
-- An example of a session whose client is gone.
use chamlon.Base.{◌≡◌, refl, true, [], ◌∷◌, some, arith, replicate, get_elem?}
use chamlon.Crypto.Toy.{toy}
use chamlon.Sessions.{Session, zero_session}
use chamlon.Maintenance.{run_maintenance}
use chamlon.Maintenance.Liveness.{IsLive, run_maintenance-active}

abbrev session : Session
session = record zero_session {
  active = true;
  session_id = 4 ∷ replicate 15 0;
  last_activity = 100;
  last_activity_keepalive = 100;
}

session-IsLive : IsLive 150 (4 ∷ replicate 15 0) session
session-IsLive = record {
  active = refl;
  same_id = refl;
  ordered = omega arith;
  recent = omega arith;
}

run_maintenance-active_example :
    (s' : Session) × (get_elem?
        (run_maintenance toy (λ n. true) (replicate 16 0) (130 ∷ 170 ∷ 220 ∷ []) (session ∷ []))
        0
      ≡ some s')
    × (s'.active ≡ true)
    × (s'.session_id ≡ 4 ∷ replicate 15 0)
run_maintenance-active_example =
    run_maintenance-active toy (λ n. true) (replicate 16 0) 100 0 (130 ∷ 170 ∷ 220 ∷ [])
      (session ∷ []) session (4 ∷ replicate 15 0) refl session-IsLive
      (omega arith, (omega arith, (omega arith, tt)))
