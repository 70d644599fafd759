-- ===== src/Pacing/Examples.antt =====
-- Examples of a session with constant bit rate.
use chamlon.Base.{refl, [], ◌∷◌, replicate}
use chamlon.Crypto.Toy.{toy, toy-IsSodium}
use chamlon.Sessions.{Session, Agreed, Wanted, letter_y, zero_session, configured, keyed, connected}
use chamlon.Pacing.{send_session}
use chamlon.Pacing.Constant.{IsConstant, Ticked, send_session-constant}
use chamlon.Pacing.Start.{connected-IsConstant}

abbrev wanted : Wanted
wanted = record { mbps = 9; frag = 100; cbr = letter_y; pad = 0 }

abbrev agreed : Agreed
agreed = record {
  id = 2 ∷ replicate 15 0;
  recv_key = 3 ∷ replicate 31 0;
  send_key = 4 ∷ replicate 31 0;
  wanted = wanted;
  src = record { sin_family = 2; sin_addr = 77; sin_port = 5000 };
  now = 110;
}

abbrev session : Session
session = connected agreed (keyed agreed (configured wanted zero_session))

session-IsConstant : IsConstant session
session-IsConstant = connected-IsConstant agreed wanted zero_session refl refl

send_session-constant_example : Ticked session (send_session toy [] 200 session)
send_session-constant_example =
    send_session-constant toy [] 200 session toy-IsSodium session-IsConstant
