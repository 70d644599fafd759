-- ===== src/Fragment.antt =====
-- Fragmentation of an IP packet into tunnel packets: `handle_outbound_tun_buf` of
-- chamlon_server/src/packet_processor.c and what `send_outbound_packet` encrypts of each fragment,
-- `packet_padding` of chamlon_server/src/packet.c, and the packet ids of
-- chamlon_server/src/fragment.c.
pub mod Plain
pub mod Loop
use chamlon.Base.{
  ℕ, zero, suc, ◌+◌, ◌-◌, ◌%◌, ◌^◌, Bool, true, false, ◌&&◌, List, [], ◌∷◌, ◌++◌, Option, none,
  some, map, length, take, drop, replicate, ltb, leb, ◌==◌, if◌then◌else◌, u16,
}
use chamlon.Wire.{TunnelHeader, encode_tunnel, tunnel_header_len, session_id_len, more_fragments}

abbrev pub max_frag : ℕ
max_frag = 1600

-- `atomic_fetch_add` on a `uint16_t`: the id, and the next value of the counter. 0 is skipped.
unfoldable pub fragment_next_packet_id : ℕ → ℕ × ℕ
fragment_next_packet_id counter = if counter == 0 then (1, 2) else (counter, u16 (counter + 1))

-- The buffer of `argv_FRAG` bytes with `real` bytes of header and data: what is behind them, up to
-- the fragment size, is set to 0. Nothing happens where the guards of the function refuse.
pub packet_padding : List ℕ → ℕ → ℕ → List ℕ
packet_padding buf2 real frag =
    if frag == 0
    then buf2
    else if ltb max_frag frag
    then buf2
    else if ltb frag real
    then buf2
    else take real buf2 ++ replicate (frag - real) 0

-- The session's parameters that the loop reads; `pad` and `cbr` are `argv_PAD == 'Y'` and
-- `argv_CBR == 'Y'`.
pub record Params : Type 0 where
  pub frag : ℕ
  pub pad : Bool
  pub cbr : Bool

-- The bytes that are encrypted: `send_outbound_packet` pads once more under CBR.
pub plaintext : Params → List ℕ → ℕ → List ℕ
unfolding packet_padding
plaintext p buf2 real =
    let buf3 = if p.pad then packet_padding buf2 real p.frag else buf2 in
    let real' = if p.pad then p.frag else real in
    if p.cbr && ltb real' p.frag
    then take p.frag (packet_padding buf3 real' p.frag)
    else take real' buf3

abbrev pub header_for : ℕ → ℕ → ℕ → ℕ → TunnelHeader
header_for id len offset chunk = record {
  packet_id = id;
  fragment_offset = u16 offset;
  total_ip_len = u16 len;
  flags = if offset + chunk == len then 0 else more_fragments;
  session_id = replicate session_id_len 0;
}

-- `buf2` after the two copies: zeros up to the fragment size.
pub fill : Params → TunnelHeader → List ℕ → List ℕ
fill p h chunk =
    encode_tunnel h ++ (chunk ++ replicate (p.frag - (tunnel_header_len + length chunk)) 0)

-- One round of the loop at `offset`: what is encrypted.
pub fragment_at : Params → ℕ → List ℕ → ℕ → ℕ → List ℕ
fragment_at p id buf offset chunk =
    plaintext p (fill p (header_for id (length buf) offset chunk) (take chunk (drop offset buf)))
      (tunnel_header_len + chunk)

abbrev pub max_payload : Params → ℕ
max_payload p = p.frag - tunnel_header_len

-- `chunk_len` of a packet of `len` bytes at `offset`.
abbrev pub chunk_at : Params → ℕ → ℕ → ℕ
chunk_at p len offset = if ltb (max_payload p) (len - offset) then max_payload p else len - offset

-- `while (current_offset < len)`, on fuel. `none` means that the fuel ran out.
unfoldable pub fragments : ℕ → Params → ℕ → List ℕ → ℕ → Option (List (List ℕ))
fragments zero p id buf offset = none
fragments (suc fuel) p id buf offset =
    let rest = fragments fuel p id buf (offset + chunk_at p (length buf) offset) in
    if ltb offset (length buf)
    then elim rest [
      | none ↦ none
      | some ps ↦ some (fragment_at p id buf offset (chunk_at p (length buf) offset) ∷ ps)
    ]
    else some []

-- Each round takes a byte at least, so `len + 1` rounds are enough.
unfoldable pub fragment_packet : Params → ℕ → List ℕ → Option (List (List ℕ))
fragment_packet p id buf = fragments (length buf + 1) p id buf 0
