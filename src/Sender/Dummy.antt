-- ===== src/Sender/Dummy.antt =====
-- The dummy packets of constant bit rate.
use chamlon.Base.{
  ℕ, ◌+◌, ◌-◌, ◌<◌, ◌≤◌, ◌^◌, ◌≡◌, ◌≢◌, refl, ap, ◌∙◌, true, false, List, [], ◌∷◌, ◌++◌, some, map,
  arith, length, ltb, take, take_all, replicate, get_elem?, length-append, length-replicate,
  append_assoc, if_elim, subst, sym, ◌==◌,
}
use chamlon.Wire.{encode_proto, encode_tunnel, session_id_len, seq_bytes}
use chamlon.Wire.RoundTrip.{decode-encode_tunnel, length-encode_tunnel}
use chamlon.RateLimiter.{ok, packets, check_rate_limit}
use chamlon.Metrics.{metrics_record_packet_received}
use chamlon.ReplayWindow.{check_replay}
use chamlon.Reassembly.{Table, dummy, handle_plain_server}
use chamlon.OutQueue.{OutQueue}
use chamlon.OutQueue.Lanes.{IsValid}
use chamlon.OutQueue.Drain.{drain_all}
use chamlon.Scheduler.{Timespec}
use chamlon.Crypto.{Sodium}
use chamlon.Crypto.Contract.{IsSodium, aead_encrypt-some}
use chamlon.Sessions.{Session, Client, letter_y, data_header, dummy_header, session_by_id}
use chamlon.Datagram.{data_packet, seal, next_seq}
use chamlon.Handshake.{Entropy, Calls, Server}
use chamlon.Inbound.{Effect, tunnel, handle_inbound_udp}
use chamlon.Inbound.Sealed.{IsAwake, SlotAfter, counted, handle_inbound_udp-seal}
use chamlon.ReplayWindow.Refine.{Stands}
use chamlon.Sender.{
  SenderArgs, Round, prepare_dummy_static_parts, take_keys, report, send_one_dummy, finish_round,
  sender_round, send_all, after_packets, resync,
}

-- The tunnel packet in a dummy.
abbrev pub dummy_plain : ℕ → List ℕ
dummy_plain frag = encode_tunnel dummy_header ++ replicate (frag - 24) 0x99

-- The dummy packet is prepared for the keys that are in use, at a size that the client can have.
pub record IsPrepared (s : SenderArgs) : Type 0 where
  pub header : s.final_pkt_dummy ≡ encode_proto data_header ++ take session_id_len s.session_id
  pub payload : s.dummy_payload ≡ dummy_plain s.argv_frag
  pub least : 24 ≤ s.argv_frag

length-dummy_plain : (frag : ℕ) → 24 ≤ frag → length (dummy_plain frag) ≡ frag
length-dummy_plain frag h = omega (
  arith,
  length-append (encode_tunnel dummy_header) (replicate (frag - 24) 0x99),
  length-encode_tunnel dummy_header refl,
  length-replicate {A = ℕ} (frag - 24) 0x99,
)

pub take_keys-IsPrepared : (s : SenderArgs) → IsPrepared s → IsPrepared (take_keys s)
unfolding take_keys prepare_dummy_static_parts
take_keys-IsPrepared s p =
    if_elim IsPrepared s.pending_rekey _ s
      (λ e. record { header = refl; payload = refl; least = p.least }) (λ e. p)

pub report-IsPrepared : (now : Timespec) (s : SenderArgs) → IsPrepared s → IsPrepared (report now s)
unfolding report
report-IsPrepared now s p =
    if_elim IsPrepared (ltb s.last_double_dummy_real now.tv_sec) _ s
      (λ e. record { header = p.header; payload = p.payload; least = p.least }) (λ e. p)

-- What is built in the static buffers is a sealed packet.
pub send_one_dummy-seal :
    (c : Sodium) (s : SenderArgs)
    → IsSodium c
    → IsPrepared s
    → (pkt : List ℕ) × ((send_one_dummy c s).0 ≡ some pkt)
      × (seal c s.k_send s.session_id s.send_seq (dummy_plain s.argv_frag) ≡ some pkt)
      × IsPrepared (send_one_dummy c s).1
unfolding send_one_dummy seal data_packet
send_one_dummy-seal c s good p =
    let plain = dummy_plain s.argv_frag in
    let (out, e) = aead_encrypt-some c s.k_send s.session_id s.send_seq plain good in
    let all : take s.argv_frag s.dummy_payload ≡ plain =
      rw p.payload
        (take_all s.argv_frag plain (omega (arith, length-dummy_plain s.argv_frag p.least))) in
    let s' : SenderArgs = record s {
      send_seq = next_seq s.send_seq;
      data_dummy = s.data_dummy + 1;
    } in
    let bytes : s.final_pkt_dummy ++ (seq_bytes s.send_seq ++ out)
        ≡ data_packet s.session_id s.send_seq out =
      rw p.header (append_assoc (encode_proto data_header) (take session_id_len s.session_id) _) in
    let run : send_one_dummy c s ≡ (some (data_packet s.session_id s.send_seq out), s') =
      rw (send_one_dummy, all, e) (ap (λ b. (some b, s')) bytes) in
    (
      data_packet s.session_id s.send_seq out,
      ap (λ r. r.0) run,
      rw (seal, e) refl,
      subst (λ r. IsPrepared r.1) (sym run)
          (record { header = p.header; payload = p.payload; least = p.least }),
    )

-- What a round of constant bit rate gives: the packets of the queue and one dummy.
abbrev pub Sends : Sodium → List (List ℕ) → List ℕ → List ℕ → ℕ → ℕ → Round → Type 0
Sends c real key id seq frag r =
    (r.stops ≡ false)
    × ((pkt : List ℕ) × (r.sent ≡ real ++ pkt ∷ [])
        × (seal c key id seq (dummy_plain frag) ≡ some pkt))
    × IsPrepared r.sender

abbrev pub queued : OutQueue → List (List ℕ)
queued q = map (λ n. n.pkt) (q.high_lane.nodes ++ q.normal_lane.nodes)

finish_round-Sends :
    (c : Sodium) (now next : Timespec) (real : List (List ℕ)) (s : SenderArgs)
    → IsSodium c
    → IsPrepared s
    → (s.argv_cbr == letter_y) ≡ true
    → Sends c real s.k_send s.session_id s.send_seq s.argv_frag (finish_round c now next real s)
unfolding finish_round
finish_round-Sends c now next real s good p cbr =
    let (pkt, sent, sealed, still) = send_one_dummy-seal c s good p in
    let run : finish_round c now next real s ≡ record {
      sent = real ++ pkt ∷ [];
      next = resync now s.interval next;
      sender = (send_one_dummy c s).1;
      stops = false;
    } =
      rw (finish_round, sent, cbr) refl in
    subst (Sends c real s.k_send s.session_id s.send_seq s.argv_frag) (sym run)
      (refl, (pkt, refl, sealed), still)

send_all-Sends :
    (c : Sodium) (now next : Timespec) (s : SenderArgs)
    → IsSodium c
    → IsPrepared s
    → IsValid s.outq
    → (s.argv_cbr == letter_y) ≡ true
    → (r : Round) × (send_all c now next s ≡ some r)
      × Sends c (queued s.outq) s.k_send s.session_id s.send_seq s.argv_frag r
unfolding send_all
send_all-Sends c now next s good p valid cbr =
    let (q, run, empty) = drain_all s.outq valid in
    let nodes = s.outq.high_lane.nodes ++ s.outq.normal_lane.nodes in
    let s' : SenderArgs = record s { outq = q; data_real = s.data_real + length nodes } in
    let moved = after_packets (length nodes) s.interval next in
    (
      finish_round c now moved (map (λ n. n.pkt) nodes) s',
      rw (send_all, run, cbr) refl,
      finish_round-Sends c now moved (map (λ n. n.pkt) nodes) s' good
          (record { header = p.header; payload = p.payload; least = p.least }) cbr,
    )

-- What a round leaves alone until it sends.
abbrev pub Alike : SenderArgs → SenderArgs → Type 0
Alike s s' =
    (s'.outq ≡ s.outq)
    × (s'.argv_cbr ≡ s.argv_cbr)
    × (s'.argv_frag ≡ s.argv_frag)
    × (s'.send_seq ≡ s.send_seq)
    × (s'.interval ≡ s.interval)

abbrev pub SameKeys : SenderArgs → SenderArgs → Type 0
SameKeys s s' = (s'.k_send ≡ s.k_send) × (s'.session_id ≡ s.session_id) × Alike s s'

pub report-SameKeys : (now : Timespec) (s : SenderArgs) → SameKeys s (report now s)
unfolding report
report-SameKeys now s =
    if_elim (SameKeys s) (ltb s.last_double_dummy_real now.tv_sec) _ s
      (λ e. (refl, refl, (refl, refl, refl, refl, refl)))
      (λ e. (refl, refl, (refl, refl, refl, refl, refl)))

pub take_keys-Alike : (s : SenderArgs) → Alike s (take_keys s)
unfolding take_keys prepare_dummy_static_parts
take_keys-Alike s =
    if_elim (Alike s) s.pending_rekey _ s (λ e. (refl, refl, refl, refl, refl))
      (λ e. (refl, refl, refl, refl, refl))

Sends-cong :
    (c : Sodium) (real real' : List (List ℕ)) (key key' id id' : List ℕ) (seq seq' frag frag' : ℕ)
    (r : Round)
    → real' ≡ real
    → key' ≡ key
    → id' ≡ id
    → seq' ≡ seq
    → frag' ≡ frag
    → Sends c real' key' id' seq' frag' r
    → Sends c real key id seq frag r
Sends-cong c real real' key key' id id' seq seq' frag frag' r a b d e f h =
    rw (← a, ← b, ← d, ← e, ← f) h

-- A round of constant bit rate, with a dummy packet that is prepared and a valid queue, ends its inner
-- loop and goes on: it sends the packets of the queue, those of the HIGH lane first, and then one dummy
-- packet. This is a data packet that is sealed under the keys that the event loop has left, or those in
-- use if it has left none, with the next sequence number. Afterwards the dummy is prepared for these keys.
pub sender_round-Sends :
    (c : Sodium) (before now next : Timespec) (s : SenderArgs)
    → IsSodium c
    → IsPrepared s
    → IsValid s.outq
    → (s.argv_cbr == letter_y) ≡ true
    → (r : Round) × (sender_round c before now next s ≡ some r)
      × Sends c
          (queued s.outq)
          (take_keys s).k_send
          (take_keys s).session_id
          s.send_seq
          s.argv_frag
          r
unfolding sender_round
sender_round-Sends c before now next s good p valid cbr =
    let t = take_keys s in
    let s' = report before t in
    let (q, b, f, n, d) = take_keys-Alike s in
    let (k, i, rest) = report-SameKeys before t in
    let q' = rest.0 ∙ q in
    let ready = report-IsPrepared before t (take_keys-IsPrepared s p) in
    let still : (s'.argv_cbr == letter_y) ≡ true = rw (rest.1 ∙ b) cbr in
    let (r, run, sends) =
      send_all-Sends c now next s' good ready (subst IsValid (sym q') valid) still in
    (
      r,
      run,
      Sends-cong c (queued s.outq) (queued s'.outq) t.k_send s'.k_send t.session_id s'.session_id
          s.send_seq s'.send_seq s.argv_frag s'.argv_frag r (ap queued q') k i (rest.3 ∙ n)
          (rest.2 ∙ f) sends,
    )

-- The server takes a dummy apart and leaves its table as it is.
handle_plain_server-dummy :
    (now frag : ℕ) (stale : List ℕ) (t : Table)
    → handle_plain_server now (dummy_plain frag) stale t ≡ (dummy, t)
unfolding handle_plain_server
handle_plain_server-dummy now frag stale t = ground (
  arith,
  append_assoc (encode_tunnel dummy_header) (replicate (frag - 24) 0x99) stale,
  decode-encode_tunnel dummy_header (replicate (frag - 24) 0x99 ++ stale) (omega arith)
      (omega arith) (omega arith) (omega arith) refl,
)

-- What a discarded packet leaves: only the session in slot i changes, which is awake, and whose window
-- stands for one number more.
pub record Discarded (now seq : ℕ) (hist : List ℕ) (src : Client) (pkt : List ℕ) (i : ℕ)
    (s : Session) (srv : Server) (r : Effect × Server) : Type 0 where
  pub slot : Session
  pub effect : r.0 ≡ tunnel dummy
  pub there : get_elem? r.1.sessions i ≡ some slot
  pub slot_after : IsAwake now seq hist s.g_reassembly_table s slot
  pub others : (j : ℕ) → j ≢ i → get_elem? r.1.sessions j ≡ get_elem? srv.sessions j
  pub limited : r.1.limiter ≡ (check_rate_limit packets now src.sin_addr srv.limiter).1
  pub counts : r.1.metrics ≡ metrics_record_packet_received (length pkt) srv.metrics

-- A dummy packet that the client sealed under the receiving key of an active session, with a number that
-- the window of the session lets through, is counted and discarded if the rate limiter lets the client's
-- address pass: the session's reassembly table stays as it is, the window stands for the numbers accepted
-- before and this one, and the session is awake; all other slots stay as they are. This is for a window
-- that stands for some history.
pub handle_inbound_udp-dummy :
    (c : Sodium) (e again : Entropy) (calls : Calls) (now seq frag : ℕ) (hist : List ℕ)
    (src : Client) (pkt stale : List ℕ) (srv : Server) (i : ℕ) (s : Session)
    → IsSodium c
    → seq < 2 ^ 64
    → 24 ≤ frag
    → frag ≤ 1200
    → length s.session_id ≡ 16
    → (check_rate_limit packets now src.sin_addr srv.limiter).0 ≡ ok
    → session_by_id s.session_id srv.sessions ≡ some i
    → get_elem? srv.sessions i ≡ some s
    → Stands s.rw_window hist
    → check_replay seq s.rw_window ≡ false
    → seal c s.k_recv s.session_id seq (dummy_plain frag) ≡ some pkt
    → Discarded now seq hist src pkt i s srv
        (handle_inbound_udp c e again calls now src pkt stale srv)
handle_inbound_udp-dummy c e again calls now seq frag hist src pkt stale srv i s good fits least
      most sixteen admitted found there stands passes sealed =
    let r =
      handle_inbound_udp-seal c e again calls now seq hist src (dummy_plain frag) pkt stale srv i s
        good fits (omega (arith, length-dummy_plain frag least)) sixteen admitted found there stands
        passes sealed in
    let plain = handle_plain_server-dummy now frag stale s.g_reassembly_table in
    record {
      slot = r.slot;
      effect = r.effect ∙ ap (λ x. tunnel x.0) plain;
      there = r.there;
      slot_after = subst (λ x. SlotAfter x.0 now seq hist x.1 s r.slot) plain r.slot_after;
      others = r.others;
      limited = r.limited;
      counts = r.counts ∙ ap (λ x. counted x.0 (length pkt) srv.metrics) plain;
    }
