-- ===== src/Outbound.antt =====
-- IP packets on their way to the clients: `send_outbound_packet` and `handle_outbound_tun_buf` of
-- chamlon_server/src/packet_processor.c. The k-th call of `malloc` succeeds if `memory k` says so. The
-- counter of packet ids is explicit state. The counter of queue drops is left out.
pub mod Sealing
pub mod Delivery
mod Examples
use chamlon.Base.{
  ℕ, ◌+◌, Bool, true, false, not, List, [], ◌∷◌, Option, none, some, length, take, drop, get_elem?,
  ltb, ◌==◌, if◌then◌else◌,
}
use chamlon.OutQueue.{packet_queue_push}
use chamlon.Fragment.{Params, fragment_next_packet_id, fragment_packet}
use chamlon.Crypto.{Sodium}
use chamlon.Sessions.{Session, letter_y, session_by_vpnip, update_slot}
use chamlon.Datagram.{seal, next_seq}

abbrev pub params_of : Session → Params
params_of s = record {
  frag = s.argv_frag;
  pad = s.argv_pad == letter_y;
  cbr = s.argv_cbr == letter_y;
}

-- What becomes of one fragment: it goes to the socket or to the queue, or it is lost. `fault` is the use
-- of a queue that is not there, or of an IP header that is cut off.
pub data Sent : Type 0 where
  sent : List ℕ → Sent
  queued lost fault : Sent

-- `ip` is the packet that the fragment is of, for the queue's classifier.
unfoldable pub send_outbound_packet :
    Sodium → Bool → Bool → Session → List ℕ → List ℕ → Sent × Session
send_outbound_packet c allocated node s plain ip =
    let s' = record s { send_seq = next_seq s.send_seq } in
    elim (seal c s.k_send s.session_id s.send_seq plain) [
      | none ↦ (lost, s')
      | some pkt ↦
          if not allocated
          then (lost, s')
          else if not (s.argv_cbr == letter_y)
          then (sent pkt, s')
          else elim s.outq [
            | none ↦ (fault, s')
            | some q ↦ elim (packet_queue_push node q pkt s.send_seq ip) [
              | none ↦ (fault, s')
              | some (dropped, q') ↦ (queued, record s' { outq = some q' })
            ]
          ]
    ]

-- The fragments in order, from the k-th call of `malloc` on.
unfoldable pub send_fragments :
    Sodium → (ℕ → Bool) → ℕ → Session → List (List ℕ) → List ℕ → List Sent × Session
send_fragments c memory k s [] ip = ([], s)
send_fragments c memory k s (plain ∷ plains) ip =
    let (o, s') = send_outbound_packet c (memory k) (memory (k + 1)) s plain ip in
    let (os, s'') = send_fragments c memory (k + 2) s' plains ip in (o ∷ os, s'')

-- What is sent, the counter, and the table. The loop reads parameters of the session that it does not
-- change, so its fragments are those of `fragment_packet`.
unfoldable pub handle_outbound_tun_buf :
    Sodium → (ℕ → Bool) → ℕ → List ℕ → List Session → Option (List Sent) × (ℕ × List Session)
handle_outbound_tun_buf c memory counter buf t =
    if ltb (length buf) 20
    then (some [], (counter, t))
    else elim (session_by_vpnip (take 4 (drop 16 buf)) t) [
      | none ↦ (some [], (counter, t))
      | some i ↦ elim (get_elem? t i) [
        | none ↦ (some [], (counter, t))
        | some s ↦
            let (id, counter') = fragment_next_packet_id counter in
            elim (fragment_packet (params_of s) id buf) [
              | none ↦ (none, (counter', t))
              | some plains ↦
                  let (out, s') = send_fragments c memory 0 s plains buf in
                  (some out, (counter', update_slot i (λ _. s') t))
            ]
      ]
    ]
