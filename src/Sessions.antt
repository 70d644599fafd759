-- ===== src/Sessions.antt =====
-- The table of sessions: chamlon_server/src/session.c with chamlon_server/include/session.h, and what
-- `handle_msg1` of chamlon_server/src/handshake.c does to the table once its keys are agreed. A
-- pointer to a slot is its index. The keys and the identifier come from libsodium, so they are
-- arguments. The socket, the locks and the counters are left out. The clock is read once in
-- `open_session`.
use chamlon.Base.{
  ℕ, zero, suc, ◌+◌, ◌-◌, ◌≡◌, Bool, true, false, not, ◌&&◌, ◌||◌, ◌++◌, take, List, [], ◌∷◌,
  Option, none, some, length, get_elem?, set, replicate, ltb, ◌==◌, if◌then◌else◌, u8,
}
use chamlon.ReplayWindow.{ReplayWindow, fresh}
use chamlon.Reassembly.{Table}
use chamlon.Wire.{
  ProtoHeader, TunnelHeader, encode_proto, encode_tunnel, pkt_magic, pkt_version, pkt_type_data,
  pkt_dummy, session_id_len, tunnel_header_len,
}
use chamlon.OutQueue.{OutQueue, out_queue_init}
pub mod Slots
pub mod Addresses
pub mod Expiry
pub mod Clients
pub mod Invariant
mod Examples

abbrev pub session_timeout_sec : ℕ
session_timeout_sec = 60

abbrev pub max_clients : ℕ
max_clients = 250

pub record Client : Type 0 where
  pub sin_family : ℕ
  pub sin_addr : ℕ
  pub sin_port : ℕ

pub record Session : Type 0 where
  pub active : Bool
  pub session_id : List ℕ
  pub k_recv : List ℕ
  pub k_send : List ℕ
  pub send_seq : ℕ
  pub last_recv_seq : ℕ
  pub client_addr : Client
  pub vpn_ip : List ℕ
  pub outq : Option OutQueue
  pub last_activity : ℕ
  pub last_activity_keepalive : ℕ
  pub argv_mbps : ℕ
  pub argv_frag : ℕ
  pub argv_cbr : ℕ
  pub argv_pad : ℕ
  pub rw_window : ReplayWindow
  pub g_reassembly_table : Table
  pub dummy_payload : List ℕ
  pub final_pkt_dummy : List ℕ

-- A slot of `g_sessions` as the program starts: the table is static, so all is zero.
abbrev pub zero_session : Session
zero_session = record {
  active = false;
  session_id = replicate 16 0;
  k_recv = replicate 32 0;
  k_send = replicate 32 0;
  send_seq = 0;
  last_recv_seq = 0;
  client_addr = record { sin_family = 0; sin_addr = 0; sin_port = 0 };
  vpn_ip = replicate 4 0;
  outq = none;
  last_activity = 0;
  last_activity_keepalive = 0;
  argv_mbps = 0;
  argv_frag = 0;
  argv_cbr = 0;
  argv_pad = 0;
  rw_window = fresh;
  g_reassembly_table = [];
  dummy_payload = [];
  final_pkt_dummy = [];
}

-- `memcmp(a, b, n) == 0` on two blocks of n bytes.
abbrev pub same_bytes : List ℕ → List ℕ → Bool
same_bytes [] [] = true
same_bytes [] (y ∷ ys) = false
same_bytes (x ∷ xs) [] = false
same_bytes (x ∷ xs) (y ∷ ys) = (x == y) && same_bytes xs ys

abbrev pub zeroed : ℕ → List ℕ
zeroed n = replicate n 0

-- The scans of the table end at the first slot that passes their test.
abbrev pub first_slot : (Session → Bool) → List Session → Option ℕ
first_slot test [] = none
first_slot test (s ∷ ss) = if test s then some 0 else next (first_slot test ss)
  where
    next : Option ℕ → Option ℕ
    next none = none
    next (some i) = some (suc i)

abbrev pub update_slot : ℕ → (Session → Session) → List Session → List Session
update_slot i f [] = []
update_slot zero f (s ∷ ss) = f s ∷ ss
update_slot (suc i) f (s ∷ ss) = s ∷ update_slot i f ss

unfoldable pub allocate_session : List Session → Option ℕ × List Session
allocate_session t = found (first_slot (λ s. not s.active) t)
  where
    found : Option ℕ → Option ℕ × List Session
    found none = (none, t)
    found (some i) = (some i, update_slot i (λ s. record s { rw_window = fresh }) t)

unfoldable pub session_by_id : List ℕ → List Session → Option ℕ
session_by_id id t = first_slot (λ s. s.active && same_bytes s.session_id id) t

unfoldable pub session_by_vpnip : List ℕ → List Session → Option ℕ
session_by_vpnip ip t = first_slot (λ s. s.active && same_bytes s.vpn_ip ip) t

-- The address of slot i, 10.10.0.(2 + i), with the last byte a `uint8_t`.
unfoldable pub vpn_ip_of : ℕ → List ℕ
vpn_ip_of idx = 10 ∷ 10 ∷ 0 ∷ u8 (2 + idx) ∷ []

unfoldable pub assign_vpn_ip_to_session : ℕ → List Session → List Session
assign_vpn_ip_to_session i t = update_slot i (λ s. record s { vpn_ip = vpn_ip_of i }) t

-- The assignments that end a session.
abbrev pub cleared : Session → Session
cleared s = record s {
  active = false;
  session_id = zeroed 16;
  k_recv = zeroed 32;
  k_send = zeroed 32;
  send_seq = 0;
  last_recv_seq = 0;
  client_addr = record s.client_addr { sin_family = 0 };
  vpn_ip = zeroed 4;
  last_activity = 0;
}

-- A slot that is not active is left alone.
abbrev pub free_slot : Session → Session
free_slot s = if s.active then record (cleared s) { outq = none } else s

unfoldable pub free_session : ℕ → List Session → List Session
free_session i t = update_slot i free_slot t

abbrev pub expired : ℕ → Session → Bool
expired now s = s.active && ltb session_timeout_sec (now - s.last_activity)

pub record Sweep : Type 0 where
  pub table : List Session
  pub freed : ℕ
  pub disconnects : List Session

-- `freed` is the number that the function returns, and `disconnects` are the sessions, as they are
-- then, to which the disconnect packet is sent.
unfoldable pub cleanup_expired_sessions : ℕ → List Session → Sweep
cleanup_expired_sessions now [] = record { table = []; freed = 0; disconnects = [] }
cleanup_expired_sessions now (s ∷ ss) =
    let rest = cleanup_expired_sessions now ss in
    if expired now s
    then record {
      table = cleared s ∷ rest.table;
      freed = suc rest.freed;
      disconnects = s ∷ rest.disconnects;
    }
    else record { table = s ∷ rest.table; freed = rest.freed; disconnects = rest.disconnects }

-- The parameters that a client asks for. The two characters are bytes.
pub record Wanted : Type 0 where
  pub mbps : ℕ
  pub frag : ℕ
  pub cbr : ℕ
  pub pad : ℕ

abbrev pub letter_y : ℕ
letter_y = 89

abbrev pub letter_n : ℕ
letter_n = 78

abbrev in_range : ℕ → ℕ → ℕ → ℕ → ℕ
in_range least most default n = if ltb n least || ltb most n then default else n

abbrev yes_or_no : ℕ → ℕ
yes_or_no b = if b == letter_y then letter_y else letter_n

-- The parameters that are out of range are replaced. A negative `int` is, read without its sign, above
-- every bound.
abbrev pub configured : Wanted → Session → Session
configured w s = record s {
  argv_mbps = in_range 1 15 5 w.mbps;
  argv_frag = in_range 64 1200 1024 w.frag;
  argv_cbr = yes_or_no w.cbr;
  argv_pad = yes_or_no w.pad;
}

-- The slot of a new session, with its address and its parameters.
unfoldable pub claim_slot : Wanted → List Session → Option ℕ × List Session
claim_slot w t = claimed (allocate_session t)
  where
    claimed : Option ℕ × List Session → Option ℕ × List Session
    claimed (none, t') = (none, t')
    claimed (some i, t') = (some i, update_slot i (configured w) (assign_vpn_ip_to_session i t'))

abbrev pub data_header : ProtoHeader
data_header = record { magic = pkt_magic; version = pkt_version; type = pkt_type_data }

abbrev pub dummy_header : TunnelHeader
dummy_header = record {
  packet_id = 1;
  fragment_offset = 1;
  total_ip_len = 1;
  flags = pkt_dummy;
  session_id = replicate session_id_len 0;
}

-- The bytes of a dummy packet that do not change: the first `static_hdr_len` of `final_pkt_dummy`, and
-- the payload up to the fragment size.
abbrev pub prepare_dummy_static_parts : Session → Session
prepare_dummy_static_parts s =
    let frag_len = in_range 64 1600 1024 s.argv_frag in
    record s {
      final_pkt_dummy = encode_proto data_header ++ take session_id_len s.session_id;
      dummy_payload = encode_tunnel dummy_header ++ replicate (frag_len - tunnel_header_len) 0x99;
    }

-- What the key agreement gives, and where the packet comes from.
pub record Agreed : Type 0 where
  pub id : List ℕ
  pub recv_key : List ℕ
  pub send_key : List ℕ
  pub wanted : Wanted
  pub src : Client
  pub now : ℕ

abbrev pub same_client : Client → Client → Bool
same_client a b = (a.sin_addr == b.sin_addr) && (a.sin_port == b.sin_port)

-- The slot of a client that shakes hands again: its keys and its queue go.
abbrev pub retired : Session → Session
retired s = record s {
  active = false;
  session_id = zeroed 16;
  k_recv = zeroed 32;
  k_send = zeroed 32;
  outq = none;
}

-- The loop over the other slots, from index j on, which ends at the first that it retires.
unfoldable pub retire_old : Client → ℕ → ℕ → List Session → List Session
retire_old src i j [] = []
retire_old src i j (s ∷ ss) =
    let rest = s ∷ retire_old src i (suc j) ss in
    if j == i
    then rest
    else (if s.active
        then (if same_client s.client_addr src then retired s ∷ ss else rest)
        else rest)

abbrev pub keyed : Agreed → Session → Session
keyed a s =
    record (prepare_dummy_static_parts
      (record s { k_recv = a.recv_key; k_send = a.send_key; session_id = a.id })) {
        send_seq = 0;
        last_recv_seq = 0;
        active = true;
      }

abbrev pub connected : Agreed → Session → Session
connected a s = record s {
  client_addr = a.src;
  last_activity = a.now;
  outq = some out_queue_init;
  last_activity_keepalive = a.now;
}

-- The path of `handle_msg1` on which the packet passes its checks and every call succeeds: `none`
-- is a full table.
unfoldable pub open_session : Agreed → List Session → Option (ℕ × List Session)
open_session a t = opened (claim_slot a.wanted t)
  where
    opened : Option ℕ × List Session → Option (ℕ × List Session)
    opened (none, t') = none
    opened (some i, t') =
        let keys = update_slot i (keyed a) t' in
        some (i, update_slot i (connected a) (retire_old a.src i 0 keys))
