-- ===== src/ClientMain/Start.antt =====
-- The sender thread as it starts.
use chamlon.Base.{◌≡◌, refl, false, [], some, arith}
use chamlon.Crypto.{Sodium}
use chamlon.OutQueue.{OutQueue}
use chamlon.Scheduler.{Timespec}
use chamlon.Rehandshake.{Keys}
use chamlon.Sender.{SenderArgs, prepare_dummy_static_parts}
use chamlon.Sender.Dummy.{IsPrepared}
use chamlon.Sender.Rekey.{World, Run, AllDistinct, Run-AllDistinct}
use chamlon.ClientMain.{Options, start_sender_thread}
use chamlon.ClientMain.Parsing.{IsOptions}

-- The two threads before their first packets, with the keys of the first handshake.
abbrev pub begun : Keys → SenderArgs → World
begun keys s = record {
  sender = s;
  k_send = keys.k_send;
  session_id = keys.session_id;
  offering = false;
  used = [];
}

-- The sender thread starts with a dummy packet that is prepared for the session. If the block that `malloc`
-- gives happens to say that no keys are pending, which the code does not set, no key is used twice with
-- one number by the two threads from then on, in a run in which no packet of the sender thread comes
-- between a handshake and its taking of the keys, each handshake gives a key that was not used before,
-- and the counter does not reach 2 ^ 64.
pub start_sender_thread-AllDistinct :
    (c : Sodium) (o : Options) (keys : Keys) (q : OutQueue) (interval : Timespec)
    (block : SenderArgs)
    → IsOptions o
    → block.pending_rekey ≡ false
    → (s : SenderArgs) × (start_sender_thread o keys q interval (some block) ≡ some s)
      × IsPrepared s
      × ((w : World) → Run c (begun keys s) w → AllDistinct w.used)
unfolding start_sender_thread prepare_dummy_static_parts
start_sender_thread-AllDistinct c o keys q interval block (mbps, (frag, rest)) quiet =
    let base : SenderArgs = record block {
      outq = q;
      k_send = keys.k_send;
      session_id = keys.session_id;
      interval = interval;
      send_seq = 0;
      g_session_id = keys.session_id;
      argv_frag = o.argv_frag;
      argv_cbr = o.argv_cbr;
      data_real = 0;
      data_dummy = 0;
      last_double_dummy_real = 0;
    } in
    (
      prepare_dummy_static_parts keys.session_id base,
      refl,
      record { header = refl; payload = refl; least = omega (arith, frag.0) },
      λ w r. Run-AllDistinct tt tt quiet refl r,
    )
