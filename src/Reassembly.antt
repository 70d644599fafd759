-- ===== src/Reassembly.antt =====
-- The reassembly table: chamlon_client/src/vpn_reassembly.c (chamlon_server/src/fragment.c has the
-- same two searches over the table of one session), and what the packet handlers of both sides do
-- with a decrypted tunnel packet, from the length check of the client on. The clock is an argument.
pub mod Table
pub mod Store
pub mod Decode
use chamlon.Base.{
  ℕ, zero, suc, ◌+◌, ◌-◌, ◌%◌, ◌^◌, Bool, true, false, not, ◌&&◌, List, [], ◌∷◌, ◌++◌, Option, none,
  some, length, take, drop, set, get_elem?, replicate, map, bit_and, ltb, leb, ◌==◌, if◌then◌else◌,
  u64, sub_u64,
}
use chamlon.Wire.{
  TunnelHeader, decode_tunnel, tunnel_header_len, pkt_dummy, pkt_ctrl_keepalive,
  pkt_ctrl_disconnect, more_fragments,
}

abbrev pub max_packet_size : ℕ
max_packet_size = 2500

abbrev pub max_reassembly_entries : ℕ
max_reassembly_entries = 256

abbrev pub reassembly_timeout : ℕ
reassembly_timeout = 20

-- `reassembly_entry_t`; `buffer` has `max_packet_size` bytes.
pub record Entry : Type 0 where
  pub packet_id : ℕ
  pub last_activity : ℕ
  pub expected_length : ℕ
  pub received_bytes : ℕ
  pub buffer : List ℕ
  pub is_active : Bool

-- An entry after `memset(.., 0, ..)`.
abbrev pub zeroed : Entry
zeroed = record {
  packet_id = 0;
  last_activity = 0;
  expected_length = 0;
  received_bytes = 0;
  buffer = replicate max_packet_size 0;
  is_active = false;
}

abbrev pub Table : Type 0
Table = List Entry

pub reassembly_init : Table
reassembly_init = replicate max_reassembly_entries zeroed

-- `now - last_activity > REASSEMBLY_TIMEOUT`; a clock that went back gives a negative difference.
expired : ℕ → Entry → Bool
expired now e = e.is_active && ltb reassembly_timeout (now - e.last_activity)

pub sweep_reassembly_table : ℕ → Table → Table
unfolding expired
sweep_reassembly_table now = map (λ e. if expired now e then zeroed else e)

-- The first entry that a test picks, with its index.
unfoldable pub find_first : (Entry → Bool) → Table → Option ℕ
find_first test [] = none
find_first test (e ∷ t) =
    let rest = find_first test t in
    if test e then some 0 else elim rest [ none ↦ none | some i ↦ some (suc i) ]

abbrev pub holds : ℕ → Entry → Bool
holds id e = e.is_active && e.packet_id == id

abbrev pub touch : ℕ → Entry → Entry
touch now e = record e { last_activity = now }

abbrev pub started : ℕ → ℕ → Entry
started now id = record {
  packet_id = id;
  last_activity = now;
  expected_length = 0;
  received_bytes = 0;
  buffer = replicate max_packet_size 0;
  is_active = true;
}

-- The index of the entry, and the table with that entry touched or started; `none` is a full table.
pub find_or_create_entry : ℕ → ℕ → Table → Option (ℕ × Table)
find_or_create_entry now id t = elim (find_first (holds id) t) [
  | some i ↦ elim (get_elem? t i) [ some e ↦ some (i, set t i (touch now e)) | none ↦ none ]
  | none ↦ elim (find_first (λ e. not e.is_active) t) [
    | some i ↦ some (i, set t i (started now id))
    | none ↦ none
  ]
]

-- What a decrypted packet leads to. `dropped` is a packet that is refused, `stored` a fragment that
-- is kept, `delivered` a whole packet that is written to the TUN device. `fault` is a copy or a
-- write that would leave its buffer, which C leaves undefined.
pub data Outcome : Type 0 where
  dropped stored dummy keepalive disconnect fault : Outcome
  delivered : List ℕ → Outcome

-- `memcpy(dst + off, src, n)`
pub memcpy : List ℕ → ℕ → List ℕ → ℕ → Option (List ℕ)
memcpy dst off src n =
    if leb (off + n) (length dst) && leb n (length src)
    then some (take off dst ++ (take n src ++ drop (off + n) dst))
    else none

-- `write(tun_fd, entry->buffer, entry->expected_length)`
pub write_tun : Entry → Outcome
write_tun e =
    if leb e.expected_length (length e.buffer)
    then delivered (take e.expected_length e.buffer)
    else fault

-- The entry once the bytes are copied, and the delivery of a packet that is complete.
pub complete : TunnelHeader → Entry → Outcome × Entry
unfolding write_tun
complete h e =
    if bit_and h.flags more_fragments == 0 && leb e.expected_length e.received_bytes
    then (write_tun e, record e { is_active = false })
    else (stored, e)

-- One fragment into its entry: `payload` starts at `plain + hdr_len`, and `n` is its length as a
-- `size_t`.
pub store : TunnelHeader → List ℕ → ℕ → Entry → Outcome × Entry
unfolding memcpy complete
store h payload n e =
    if ltb max_packet_size (u64 (h.fragment_offset + n))
    then (dropped, record e { is_active = false })
    else elim (memcpy e.buffer h.fragment_offset payload n) [
      | none ↦ (fault, e)
      | some copied ↦ complete h (record e {
        expected_length = if e.expected_length == 0 then h.total_ip_len else e.expected_length;
        buffer = copied;
        received_bytes = u64 (e.received_bytes + n);
      })
    ]

-- The entry of the packet is found or started, and the fragment goes into it.
pub store_fragment : ℕ → TunnelHeader → List ℕ → ℕ → Table → Outcome × Table
store_fragment now h payload n t = elim (find_or_create_entry now h.packet_id t) [
  | none ↦ (dropped, t)
  | some (i, t') ↦ elim (get_elem? t' i) [
    | none ↦ (fault, t')
    | some e ↦ let (o, e') = store h payload n e in (o, set t' i e')
  ]
]

-- The client: `plain` is the decrypted packet.
pub handle_plain : ℕ → List ℕ → Table → Outcome × Table
unfolding store_fragment
handle_plain now plain t =
    if ltb (length plain) tunnel_header_len
    then (dropped, t)
    else if h.flags == pkt_dummy
    then (dummy, t)
    else if h.flags == pkt_ctrl_keepalive
    then (keepalive, t)
    else if h.flags == pkt_ctrl_disconnect
    then (disconnect, t)
    else store_fragment now h (drop tunnel_header_len plain) (length plain - tunnel_header_len) t
  where
    h : TunnelHeader
    h = decode_tunnel plain

-- The server reads the header from its buffer `plain ++ stale`, whatever the length of the
-- decrypted `plain` is, and `plain_len - sizeof(tunnel_header_t)` wraps.
unfoldable pub handle_plain_server : ℕ → List ℕ → List ℕ → Table → Outcome × Table
unfolding store_fragment
handle_plain_server now plain stale t =
    if h.flags == pkt_dummy
    then (dummy, t)
    else if h.flags == pkt_ctrl_keepalive
    then (keepalive, t)
    else if h.flags == pkt_ctrl_disconnect
    then (disconnect, t)
    else store_fragment now h (drop tunnel_header_len (plain ++ stale))
        (sub_u64 (length plain) tunnel_header_len) t
  where
    h : TunnelHeader
    h = decode_tunnel (plain ++ stale)
