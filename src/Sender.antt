-- ===== src/Sender.antt =====
-- The client's sender thread: chamlon_client/src/vpn_sender_thread.c, with `sender_args_t` of
-- chamlon_client/include/vpn_sender_thread.h. The globals that it shares with the event loop stand in
-- the same record: the counter `send_seq` and the identifier `g_session_id`. A time is read where an
-- argument says so. What `sendto` gives is only printed. A round is one turn of the loop.
pub mod Dummy
pub mod Deadline
pub mod Rekey
pub mod Reuse
mod Examples
use chamlon.Base.{
  ℕ, zero, suc, ◌+◌, ◌-◌, Bool, true, false, List, [], ◌∷◌, ◌++◌, Option, none, some, map, length,
  take, replicate, ltb, leb, ◌==◌, if◌then◌else◌,
}
use chamlon.Wire.{
  TunnelHeader, encode_proto, encode_tunnel, seq_bytes, session_id_len, tunnel_header_len,
}
use chamlon.OutQueue.{OutQueue, out_queue_size, drain}
use chamlon.Scheduler.{Timespec, Comparison, earlier, same, later, is_later}
use chamlon.Crypto.{Sodium, aead_encrypt, aead_key_len}
use chamlon.Sessions.{letter_y, data_header, dummy_header, zeroed}
use chamlon.Datagram.{next_seq}

pub record SenderArgs : Type 0 where
  pub session_id : List ℕ
  pub k_send : List ℕ
  pub outq : OutQueue
  pub interval : Timespec
  pub pending_k_send : List ℕ
  pub pending_session_id : List ℕ
  pub pending_rekey : Bool
  pub send_seq : ℕ
  pub g_session_id : List ℕ
  pub final_pkt_dummy : List ℕ
  pub dummy_payload : List ℕ
  pub argv_frag : ℕ
  pub argv_cbr : ℕ
  pub data_real : ℕ
  pub data_dummy : ℕ
  pub last_double_dummy_real : ℕ

-- The first `static_hdr_len` bytes of `final_pkt_dummy`, and the payload up to the fragment size. A size
-- below that of the header, for which the length wraps, is excluded by the options of the client.
unfoldable pub prepare_dummy_static_parts : List ℕ → SenderArgs → SenderArgs
prepare_dummy_static_parts id s = record s {
  final_pkt_dummy = encode_proto data_header ++ take session_id_len id;
  dummy_payload = encode_tunnel dummy_header ++ replicate (s.argv_frag - tunnel_header_len) 0x99;
}

-- The keys that the event loop has left are taken.
unfoldable pub take_keys : SenderArgs → SenderArgs
take_keys s =
    let taken : SenderArgs = record s {
      k_send = s.pending_k_send;
      session_id = s.pending_session_id;
      g_session_id = s.pending_session_id;
      pending_k_send = zeroed aead_key_len;
      pending_session_id = zeroed session_id_len;
      pending_rekey = false;
    } in
    if s.pending_rekey then prepare_dummy_static_parts s.pending_session_id taken else s

-- The counters are printed and start again once a second.
unfoldable pub report : Timespec → SenderArgs → SenderArgs
report now s =
    if ltb s.last_double_dummy_real now.tv_sec
    then record s { data_real = 0; data_dummy = 0; last_double_dummy_real = now.tv_sec }
    else s

-- The packet that goes out, or `none` for the result -1.
unfoldable pub send_one_dummy : Sodium → SenderArgs → Option (List ℕ) × SenderArgs
send_one_dummy c s =
    let s' = record s { send_seq = next_seq s.send_seq } in
    elim (aead_encrypt c s.k_send s.session_id s.send_seq (take s.argv_frag s.dummy_payload)) [
      | none ↦ (none, s')
      | some out ↦ (
        some (s.final_pkt_dummy ++ (seq_bytes s.send_seq ++ out)),
        record s' { data_dummy = s.data_dummy + 1 },
      )
    ]

unfoldable pub timespec_add : Timespec → Timespec → Timespec
timespec_add ts delta =
    let nsec = ts.tv_nsec + delta.tv_nsec in
    if leb 1000000000 nsec
    then record { tv_sec = ts.tv_sec + delta.tv_sec + 1; tv_nsec = nsec - 1000000000 }
    else record { tv_sec = ts.tv_sec + delta.tv_sec; tv_nsec = nsec }

unfoldable pub timespec_cmp : Timespec → Timespec → Comparison
timespec_cmp a b =
    if a.tv_sec == b.tv_sec
    then (if a.tv_nsec == b.tv_nsec
        then same
        else (if ltb b.tv_nsec a.tv_nsec then later else earlier))
    else (if ltb b.tv_sec a.tv_sec then later else earlier)

-- The deadline after n packets with data.
unfoldable pub after_packets : ℕ → Timespec → Timespec → Timespec
after_packets zero delta next = next
after_packets (suc n) delta next = after_packets n delta (timespec_add next delta)

-- The deadline after a dummy packet: the thread does not try to make up for lost time.
unfoldable pub resync : Timespec → Timespec → Timespec → Timespec
resync now delta next =
    let due = timespec_add next delta in
    if is_later (timespec_cmp now due) then timespec_add now delta else due

-- What a round sends, the time until which the thread sleeps with constant bit rate, and whether the
-- loop is left.
pub record Round : Type 0 where
  pub sent : List (List ℕ)
  pub next : Timespec
  pub sender : SenderArgs
  pub stops : Bool

-- From the end of the inner loop on.
unfoldable pub finish_round : Sodium → Timespec → Timespec → List (List ℕ) → SenderArgs → Round
finish_round c now next real s =
    let (pkt, s') = send_one_dummy c s in
    if s.argv_cbr == letter_y
    then elim pkt [
      | none ↦ record { sent = real; next = next; sender = s'; stops = true }
      | some dummy ↦ record {
        sent = real ++ dummy ∷ [];
        next = resync now s.interval next;
        sender = s';
        stops = false;
      }
    ]
    else record { sent = real; next = next; sender = s; stops = false }

-- From the inner loop on. `none` means that its fuel ran out.
unfoldable pub send_all : Sodium → Timespec → Timespec → SenderArgs → Option Round
send_all c now next s = elim (drain (out_queue_size s.outq + 1) s.outq) [
  | none ↦ none
  | some (nodes, q) ↦
      let moved =
        if s.argv_cbr == letter_y then after_packets (length nodes) s.interval next else next in
      let s' : SenderArgs = record s { outq = q; data_real = s.data_real + length nodes } in
      some (finish_round c now moved (map (λ n. n.pkt) nodes) s')
]

-- One turn of the loop, at the times `before` and `now`.
unfoldable pub sender_round : Sodium → Timespec → Timespec → Timespec → SenderArgs → Option Round
sender_round c before now next s = send_all c now next (report before (take_keys s))
