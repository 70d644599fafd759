-- ===== src/OutQueue/Classify.antt =====
-- The classifier reads inside the packet, whatever the header claims.
use chamlon.Base.{
  ℕ, suc, ◌+◌, ◌*◌, ◌^◌, ◌<◌, ◌≤◌, ◌≡◌, ◌≢◌, bit_or, inl, inr, List, Option, none, some, arith,
  length, get_elem?-lt, bit_and, ltb, u8, u16, Bool-cases,
}
use chamlon.OutQueue.{
  Priority, be16, classify_udp, classify_tcp, classify_ipv4, classify_ipv6, classify_packet,
}

abbrev Total : Option Priority → Type 0
Total o = o ≢ none

be16_total : (ip : List ℕ) (i : ℕ) → suc i < length ip → (v : ℕ) × (be16 ip i ≡ some v)
be16_total ip i h =
    let a = get_elem?-lt ip i (omega arith) in
    let b = get_elem?-lt ip (i + 1) (omega arith) in (u16 (bit_or (a.0 * 2 ^ 8) b.0), rw (a.1, b.1))

udp-Total : (ip : List ℕ) (ihl : ℕ) → ihl + 4 ≤ length ip → Total (classify_udp ip ihl)
unfolding classify_udp
udp-Total ip ihl h =
    let s = be16_total ip ihl (omega arith) in
    let d = be16_total ip (ihl + 2) (omega arith) in rw (s.1, d.1) (λ e. cc)

tcp-Total :
    (ip : List ℕ) (total_len ihl : ℕ) → ihl + 20 ≤ length ip → Total (classify_tcp ip total_len ihl)
unfolding classify_tcp
tcp-Total ip total_len ihl h =
    let a = get_elem?-lt ip (ihl + 12) (omega arith) in
    let b = get_elem?-lt ip (ihl + 13) (omega arith) in rw (a.1, b.1) (λ e. cc)

ipv4-Total : (ip : List ℕ) (b0 : ℕ) → 20 ≤ length ip → Total (classify_ipv4 ip b0)
unfolding classify_ipv4
ipv4-Total ip b0 h =
    let ihl = u8 (bit_and b0 0x0F * 4) in
    let t = be16_total ip 2 (omega arith) in
    let p = get_elem?-lt ip 9 (omega arith) in
    rw (t.1, p.1) (ground (arith, udp-Total ip ihl, tcp-Total ip t.0 ihl))

ipv6-Total : (ip : List ℕ) → 20 ≤ length ip → Total (classify_ipv6 ip)
unfolding classify_ipv6
ipv6-Total ip h = let n = get_elem?-lt ip 6 (omega arith) in rw n.1 (ground arith)

-- `classify_packet` gives a lane for every packet: no byte is read behind the packet's end, also
-- where the header length or the total length that the packet claims is wrong.
pub classify_packet_total : (ip : List ℕ) → classify_packet ip ≢ none
unfolding classify_packet
classify_packet_total ip = elim (Bool-cases (ltb (length ip) 20)) [
  | inl e ↦ rw e (λ n. cc)
  | inr e ↦
      let b = get_elem?-lt ip 0 (ground arith) in
      rw (e, b.1) (ground (arith, ipv4-Total ip b.0, ipv6-Total ip))
]
