-- ===== src/ClientLink.antt =====
-- The client's end of the tunnel: `handle_udp_packet` of chamlon_client/src/vpn_packet_handler.c. The
-- replay window is the loop's, and the reassembly table is global; both stand here with the fields of
-- `server_t`. A packet that the socket does not have changes nothing. The clock is read once.
pub mod Opening
mod Examples
use chamlon.Base.{
  ℕ, ◌+◌, Bool, true, false, not, List, [], ◌∷◌, Option, none, some, length, leb, ◌==◌,
  if◌then◌else◌,
}
use chamlon.Wire.{decode_proto, pkt_version, pkt_type_data}
use chamlon.ReplayWindow.{ReplayWindow, check_replay, update_window}
use chamlon.Reassembly.{Outcome, dropped, keepalive, Table, handle_plain}
use chamlon.Crypto.{Sodium, aead_decrypt}
use chamlon.Sessions.{same_bytes}
use chamlon.Datagram.{data_header_len, session_id_at, seq_at, cipher_at}

pub record Link : Type 0 where
  pub k_recv : List ℕ
  pub session_id : List ℕ
  pub rw_window : ReplayWindow
  pub g_reassembly_table : Table
  pub last_server_keepalive_time : ℕ

abbrev is_keepalive : Outcome → Bool
is_keepalive keepalive = true
is_keepalive o = false

-- From the decrypted packet on.
abbrev pub opened : ℕ → ℕ → List ℕ → Link → Outcome × Link
opened now seq plain l =
    let (o, t) = handle_plain now plain l.g_reassembly_table in
    (
      o,
      record l {
        rw_window = update_window seq l.rw_window;
        g_reassembly_table = t;
        last_server_keepalive_time = if is_keepalive o then now else l.last_server_keepalive_time;
      },
    )

unfoldable pub handle_udp_packet : Sodium → ℕ → List ℕ → Link → Outcome × Link
handle_udp_packet c now buf l =
    let h = decode_proto buf in
    let seq = seq_at buf in
    if not (h.version == pkt_version)
    then (dropped, l)
    else if not (h.type == pkt_type_data)
    then (dropped, l)
    else if leb (length buf) data_header_len
    then (dropped, l)
    else if not (same_bytes (session_id_at buf) l.session_id)
    then (dropped, l)
    else if check_replay seq l.rw_window
    then (dropped, l)
    else elim (aead_decrypt c l.k_recv l.session_id seq (cipher_at buf)) [
      | none ↦ (dropped, l)
      | some plain ↦ opened now seq plain l
    ]

-- The packets that are waiting, the k-th of them at time `clock k`.
unfoldable pub handle_udp_packets :
    Sodium → (ℕ → ℕ) → ℕ → List (List ℕ) → Link → List Outcome × Link
handle_udp_packets c clock k [] l = ([], l)
handle_udp_packets c clock k (buf ∷ bufs) l =
    let (o, l') = handle_udp_packet c (clock k) buf l in
    let (os, l'') = handle_udp_packets c clock (k + 1) bufs l' in (o ∷ os, l'')
