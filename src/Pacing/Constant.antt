-- ===== src/Pacing/Constant.antt =====
-- With constant bit rate every packet that a tick sends has the same length.
use chamlon.Base.{
  ℕ, ◌+◌, ◌≡◌, refl, ap, ◌∙◌, true, List, [], ◌∷◌, ◌++◌, Option, some, arith, length, take,
  take_all, length-append, ◌==◌,
}
use chamlon.Wire.{be_bytes, seq_bytes}
use chamlon.OutQueue.{Node, OutQueue, out_queue_pop}
use chamlon.Crypto.{Sodium}
use chamlon.Crypto.Contract.{IsSodium, aead_encrypt-some, length-aead_encrypt}
use chamlon.Sessions.{Session, letter_y}
use chamlon.Datagram.{next_seq}
use chamlon.Pacing.{send_dummy, send_constant, send_session}

-- All packets of the list have n bytes.
abbrev pub AllSized : ℕ → List Node → Type 0
AllSized n [] = Unit
AllSized n (x ∷ xs) = (length x.pkt ≡ n) × AllSized n xs

-- The bytes of a datagram with a tunnel packet of `frag` bytes in it.
abbrev pub wire_len : ℕ → ℕ
wire_len frag = frag + 46

pub record IsQueue (frag : ℕ) (q : OutQueue) : Type 0 where
  pub high_sized : AllSized (wire_len frag) q.high_lane.nodes
  pub normal_sized : AllSized (wire_len frag) q.normal_lane.nodes

-- A session with constant bit rate, its dummy packet prepared and its queue of full packets.
pub record IsConstant (s : Session) : Type 0 where
  pub constant : (s.argv_cbr == letter_y) ≡ true
  pub id_len : length s.session_id ≡ 16
  pub payload_len : length s.dummy_payload ≡ s.argv_frag
  pub static_len : length s.final_pkt_dummy ≡ 22
  pub queue : OutQueue
  pub has_queue : s.outq ≡ some queue
  pub is_queue : IsQueue s.argv_frag queue

-- What one tick gives.
pub record Ticked (s : Session) (r : Option (List (List ℕ) × Session)) : Type 0 where
  pub pkt : List ℕ
  pub next : Session
  pub result : r ≡ some (pkt ∷ [], next)
  pub sized : length pkt ≡ wire_len s.argv_frag
  pub still : IsConstant next
  pub same_frag : next.argv_frag ≡ s.argv_frag

dummy-Ticked :
    (c : Sodium) (s : Session) → IsSodium c → IsConstant s → Ticked s (some (send_dummy c s))
unfolding send_dummy be_bytes
dummy-Ticked c s good ok =
    let payload = take s.argv_frag s.dummy_payload in
    let (out, e) = aead_encrypt-some c s.k_send s.session_id s.send_seq payload good in
    let long = length-aead_encrypt c s.k_send s.session_id s.send_seq payload out good e in
    let full : length payload ≡ s.argv_frag =
      ap length (take_all s.argv_frag s.dummy_payload (omega (arith, ok.payload_len)))
      ∙ ok.payload_len in
    record {
      pkt = s.final_pkt_dummy ++ (seq_bytes s.send_seq ++ out);
      next = record s { send_seq = next_seq s.send_seq };
      result = rw (send_dummy, e) refl;
      sized = omega (
        arith,
        long,
        full,
        ok.static_len,
        length-append s.final_pkt_dummy (seq_bytes s.send_seq ++ out),
      );
      still = record {
        constant = ok.constant;
        id_len = ok.id_len;
        payload_len = ok.payload_len;
        static_len = ok.static_len;
        queue = ok.queue;
        has_queue = ok.has_queue;
        is_queue = ok.is_queue;
      };
      same_frag = refl;
    }

node-Ticked :
    (s : Session) (n : Node) (q : OutQueue)
    → IsConstant s
    → length n.pkt ≡ wire_len s.argv_frag
    → IsQueue s.argv_frag q
    → Ticked s (some (n.pkt ∷ [], record s { outq = some q }))
node-Ticked s n q ok sized fine = record {
  pkt = n.pkt;
  next = record s { outq = some q };
  result = refl;
  sized = sized;
  still = record {
    constant = ok.constant;
    id_len = ok.id_len;
    payload_len = ok.payload_len;
    static_len = ok.static_len;
    queue = q;
    has_queue = refl;
    is_queue = fine;
  };
  same_frag = refl;
}

-- The queue of two lanes.
abbrev lanes : List Node → ℕ → List Node → ℕ → OutQueue
lanes hs k ns l = record {
  high_lane = record { nodes = hs; size = k };
  normal_lane = record { nodes = ns; size = l };
}

constant-Ticked :
    (c : Sodium) (s : Session) (hs ns : List Node) (k l : ℕ)
    → IsSodium c
    → IsConstant s
    → IsQueue s.argv_frag (lanes hs k ns l)
    → Ticked s (some (send_constant c (lanes hs k ns l) s))
unfolding send_constant out_queue_pop
constant-Ticked c s (n ∷ hs) ns k l good ok fine =
    node-Ticked s n _ ok fine.high_sized.0
      (record { high_sized = fine.high_sized.1; normal_sized = fine.normal_sized })
constant-Ticked c s [] (n ∷ ns) k l good ok fine =
    node-Ticked s n _ ok fine.normal_sized.0
      (record { high_sized = tt; normal_sized = fine.normal_sized.1 })
constant-Ticked c s [] [] k l good ok fine = dummy-Ticked c s good ok

-- At every tick a session with constant bit rate, with a prepared dummy and a queue of full packets,
-- sends exactly one packet, with data or not, of the same length in bytes, and is again such a session, when libsodium keeps
-- its promises.
pub send_session-constant :
    (c : Sodium) (stale : List ℕ) (now : ℕ) (s : Session)
    → IsSodium c
    → IsConstant s
    → Ticked s (send_session c stale now s)
unfolding send_session
send_session-constant c stale now s good ok =
    let q = ok.queue in
    let chosen : send_session c stale now s ≡ some (send_constant c q s) =
      simp (send_session, ok.has_queue, ok.constant) refl in
    let t =
      constant-Ticked c s q.high_lane.nodes q.normal_lane.nodes q.high_lane.size q.normal_lane.size
        good ok ok.is_queue in
    record {
      pkt = t.pkt;
      next = t.next;
      result = chosen ∙ t.result;
      sized = t.sized;
      still = t.still;
      same_frag = t.same_frag;
    }
