-- ===== src/Uplink.antt =====
-- Packets on their way from the client: `handle_tun_packet` and `send_keepalive` of
-- chamlon_client/src/vpn_packet_handler.c, with `packet_padding` of chamlon_client/src/vpn_utils.c, and
-- `send_disconnect` of chamlon_client/src/vpn_client.c. `buf` is what `read` gave. A `tunnel_header_t`
-- is on the stack and its `session_id` is never set: `stale` is what it holds. The two calls of `malloc`
-- for a fragment are those of the numbers k and k + 1.
pub mod Fragments
mod Examples
use chamlon.Base.{
  ℕ, zero, suc, ◌+◌, ◌-◌, Bool, false, not, List, [], ◌∷◌, ◌++◌, Option, none, some, length, take,
  drop, replicate, ltb, ◌==◌, if◌then◌else◌, u16,
}
use chamlon.Wire.{tunnel_header_len, pkt_ctrl_keepalive, pkt_ctrl_disconnect}
use chamlon.OutQueue.{OutQueue, packet_queue_push}
use chamlon.Fragment.{Params, header_for, fill, chunk_at}
use chamlon.Crypto.{Sodium}
use chamlon.Sessions.{letter_n}
use chamlon.Datagram.{seal, next_seq, control_plain}

-- What the client sends with: of `server_t` and of the globals.
pub record Uplink : Type 0 where
  pub k_send : List ℕ
  pub session_id : List ℕ
  pub send_seq : ℕ
  pub g_next_packet_id : ℕ
  pub argv_frag : ℕ
  pub argv_pad : ℕ
  pub g_outq : OutQueue

-- The client pads unless it is told not to; constant bit rate does not change a fragment.
abbrev pub params_of : Uplink → Params
params_of u = record { frag = u.argv_frag; pad = not (u.argv_pad == letter_n); cbr = false }

-- The id of the packet, and the next value of the counter.
unfoldable pub next_packet_id : ℕ → ℕ × ℕ
next_packet_id id = (id, if u16 (id + 1) == 0 then 1 else u16 (id + 1))

-- `none` is the result -1.
unfoldable pub packet_padding : Bool → List ℕ → ℕ → ℕ → Option (List ℕ)
packet_padding pad buf2 real frag =
    if pad then some (take real buf2 ++ replicate (frag - real) 0) else none

-- The bytes that are encrypted of the fragment at `offset`.
unfoldable pub tun_fragment : Params → List ℕ → ℕ → List ℕ → ℕ → ℕ → List ℕ
tun_fragment p stale id buf offset chunk =
    let h = record (header_for id (length buf) offset chunk) { session_id = stale } in
    let buf2 = fill p h (take chunk (drop offset buf)) in
    let real = tunnel_header_len + chunk in
    elim (packet_padding p.pad buf2 real p.frag) [
      | some padded ↦ take p.frag padded
      | none ↦ take real buf2
    ]

-- `while (current_offset < len)`, on fuel, with the stack as `stale` says in the round at an offset.
-- `none` means that the fuel ran out.
unfoldable pub tun_fragments : ℕ → Params → (ℕ → List ℕ) → ℕ → List ℕ → ℕ → Option (List (List ℕ))
tun_fragments zero p stale id buf offset = none
tun_fragments (suc fuel) p stale id buf offset =
    let chunk = chunk_at p (length buf) offset in
    let rest = tun_fragments fuel p stale id buf (offset + chunk) in
    if ltb offset (length buf)
    then elim rest [
      | none ↦ none
      | some ps ↦ some (tun_fragment p (stale offset) id buf offset chunk ∷ ps)
    ]
    else some []

-- How a round ends: the loop is left, it goes on, or the queue is used behind its end.
pub data Round : Type 0 where
  left on : Uplink → Round
  fault : Round

-- `ip` is the packet that the fragment is of, for the queue's classifier.
unfoldable pub queue_fragment : Sodium → Bool → Bool → Uplink → List ℕ → List ℕ → Round
queue_fragment c allocated node u plain ip =
    let u' = record u { send_seq = next_seq u.send_seq } in
    elim (seal c u.k_send u.session_id u.send_seq plain) [
      | none ↦ left u'
      | some pkt ↦
          if not allocated
          then on u'
          else elim (packet_queue_push node u.g_outq pkt u.send_seq ip) [
            | none ↦ fault
            | some (dropped, q) ↦ on (record u' { g_outq = q })
          ]
    ]

-- The rounds, from the k-th call of `malloc` on. `none` is a fault.
unfoldable pub queue_fragments :
    Sodium → (ℕ → Bool) → ℕ → Uplink → List (List ℕ) → List ℕ → Option Uplink
queue_fragments c memory k u [] ip = some u
queue_fragments c memory k u (plain ∷ plains) ip =
    elim (queue_fragment c (memory k) (memory (k + 1)) u plain ip) [
      | left u' ↦ some u'
      | on u' ↦ queue_fragments c memory (k + 2) u' plains ip
      | fault ↦ none
    ]

-- The loop leaves its parameters as they are, so its fragments can be taken at once. Each round takes a
-- byte at least, so one round more than there are bytes is enough.
unfoldable pub handle_tun_packet :
    Sodium → (ℕ → Bool) → (ℕ → List ℕ) → List ℕ → Uplink → Option Uplink
handle_tun_packet c memory stale buf u =
    let (id, counter) = next_packet_id u.g_next_packet_id in
    let u' : Uplink = record u { g_next_packet_id = counter } in
    if ltb (length buf) 20
    then some u
    else elim (tun_fragments (length buf + 1) (params_of u) stale id buf 0) [
      | none ↦ none
      | some plains ↦ queue_fragments c memory 0 u' plains buf
    ]

-- What goes to the socket.
unfoldable pub send_keepalive : Sodium → List ℕ → Uplink → Option (List ℕ) × Uplink
send_keepalive c stale u = (
  seal c u.k_send u.session_id u.send_seq (control_plain pkt_ctrl_keepalive 0x88 u.argv_frag stale),
  record u { send_seq = next_seq u.send_seq },
)

-- The packet goes out three times, whether a sending succeeds or not. The identifier is
-- the global `g_session_id`, which the sender thread sets when keys are rotated.
unfoldable pub send_disconnect : Sodium → List ℕ → List ℕ → Uplink → List (List ℕ) × Uplink
send_disconnect c stale g_session_id u =
    let plain = control_plain pkt_ctrl_disconnect 0x11 1400 stale in
    (
      elim (seal c u.k_send g_session_id u.send_seq plain) [
        | none ↦ []
        | some pkt ↦ replicate 3 pkt
      ],
      record u { send_seq = next_seq u.send_seq },
    )
