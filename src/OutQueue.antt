-- ===== src/OutQueue.antt =====
-- The two-lane queue of outgoing packets, and the classifier that picks the lane:
-- chamlon_server/src/scheduler.c (chamlon_client/src/vpn_queue.c has the same functions), with
-- `out_queue_t` of chamlon_server/include/vpn_common.h. The linked list of a lane is the list of
-- its nodes, and its size is the counter that the code keeps. `none` is a fault: a read behind the
-- packet, or the use of a null head.
pub mod Classify
pub mod Lanes
pub mod Drain
mod Examples
use chamlon.Base.{
  ℕ, zero, suc, ◌+◌, ◌-◌, ◌*◌, ◌/◌, ◌%◌, ◌^◌, Bool, true, false, not, ◌&&◌, ◌||◌, List, [], ◌∷◌,
  ◌++◌, Option, none, some, length, get_elem?, bit_and, bit_or, ltb, leb, ◌==◌, if◌then◌else◌, u8,
  u16, shr,
}

pub data Priority : Type 0 where
  high normal : Priority

abbrev pub queue_cap_high : ℕ
queue_cap_high = 64

abbrev pub queue_cap_normal : ℕ
queue_cap_normal = 256

infixl 5 ◌>>=◌
abbrev pub ◌>>=◌ {ℓ κ} : {A : Type ℓ} {B : Type κ} → Option A → (A → Option B) → Option B
none >>= f = none
some a >>= f = f a

-- `(uint16_t)((ip[i] << 8) | ip[i + 1])`
abbrev pub be16 : List ℕ → ℕ → Option ℕ
be16 ip i = do a ← get_elem? ip i; b ← get_elem? ip (i + 1); some (u16 (bit_or (a * 2 ^ 8) b))

abbrev lane_if : Bool → Priority
lane_if b = if b then high else normal

-- UDP: a port 53 on either side is DNS.
classify_udp : List ℕ → ℕ → Option Priority
classify_udp ip ihl = do
  sport ← be16 ip ihl
  dport ← be16 ip (ihl + 2)
  some (lane_if (sport == 53 || dport == 53))

-- TCP: ACK is set and the payload is empty. The difference is a `uint16_t`.
classify_tcp : List ℕ → ℕ → ℕ → Option Priority
classify_tcp ip total_len ihl = do
  off ← get_elem? ip (ihl + 12)
  tcp_flags ← get_elem? ip (ihl + 13)
  let tcp_off = u8 (shr off 4 * 4)
  let tcp_payload = u16 (total_len + 2 ^ 16 - ihl - tcp_off)
  some (lane_if (not (bit_and tcp_flags 0x10 == 0) && tcp_payload == 0))

classify_ipv4 : List ℕ → ℕ → Option Priority
classify_ipv4 ip b0 = do
  total_len ← be16 ip 2
  protocol ← get_elem? ip 9
  let ihl = u8 (bit_and b0 0x0F * 4)
  if leb total_len 128
      then some high
      else if protocol == 1
      then some high
      else if protocol == 17 && leb (ihl + 4) (length ip)
      then classify_udp ip ihl
      else if protocol == 6 && leb (ihl + 20) (length ip)
      then classify_tcp ip total_len ihl
      else some normal

classify_ipv6 : List ℕ → Option Priority
classify_ipv6 ip = do
  next ← get_elem? ip 6
  if leb 40 (length ip) && next == 58
      then some high
      else if leb (length ip) 128
      then some high
      else some normal

pub classify_packet : List ℕ → Option Priority
classify_packet ip = if ltb (length ip) 20 then some normal else do
  b0 ← get_elem? ip 0
  let version = shr b0 4
  if version == 4
      then classify_ipv4 ip b0
      else if version == 6
      then classify_ipv6 ip
      else some normal

-- `out_node_t`
pub record Node : Type 0 where
  pub pkt : List ℕ
  pub seq : ℕ
  pub priority : Priority

pub record Lane : Type 0 where
  pub nodes : List Node
  pub size : ℕ

pub record OutQueue : Type 0 where
  pub high_lane : Lane
  pub normal_lane : Lane

abbrev pub empty_lane : Lane
empty_lane = record { nodes = []; size = 0 }

unfoldable pub out_queue_init : OutQueue
out_queue_init = record { high_lane = empty_lane; normal_lane = empty_lane }

-- The nodes that are freed, and the emptied queue.
pub out_queue_destroy : OutQueue → List Node × OutQueue
out_queue_destroy q = (
  q.high_lane.nodes ++ q.normal_lane.nodes,
  record { high_lane = empty_lane; normal_lane = empty_lane },
)

-- Removes the head; `none` is a null head.
unfoldable pub behead : Lane → Option Lane
behead l = elim l.nodes [
  | [] ↦ none
  | old ∷ rest ↦ some (record { nodes = rest; size = l.size - 1 })
]

abbrev enqueue : Node → Lane → Lane
enqueue n l = record { nodes = l.nodes ++ n ∷ []; size = l.size + 1 }

-- A full lane drops its oldest packet first; the result says if one was dropped.
unfoldable pub push_lane : ℕ → Node → Lane → Option (Bool × Lane)
unfolding behead
push_lane cap n l =
    if leb cap l.size
    then (behead l >>= λ l'. some (true, enqueue n l'))
    else some (false, enqueue n l)

-- `allocated` is false if `malloc` has no node to give: then the packet is freed and the queue
-- stays. The result says if an older packet was dropped.
unfoldable pub packet_queue_push : Bool → OutQueue → List ℕ → ℕ → List ℕ → Option (Bool × OutQueue)
packet_queue_push allocated q pkt seq ip =
    if not allocated then (classify_packet ip >>= λ _. some (false, q)) else do
      prio ← classify_packet ip
      let n : Node = record { pkt = pkt; seq = seq; priority = prio }
      elim prio [
        | high ↦ do
          (dropped, l) ← push_lane queue_cap_high n q.high_lane
          some (dropped, record q { high_lane = l })
        | normal ↦ do
          (dropped, l) ← push_lane queue_cap_normal n q.normal_lane
          some (dropped, record q { normal_lane = l })
      ]

-- HIGH first.
unfoldable pub out_queue_pop : OutQueue → Option Node × OutQueue
out_queue_pop q = elim q.high_lane.nodes [
  | n ∷ rest ↦
      (some n, record q { high_lane = record { nodes = rest; size = q.high_lane.size - 1 } })
  | [] ↦ elim q.normal_lane.nodes [
    | n ∷ rest ↦
        (some n, record q { normal_lane = record { nodes = rest; size = q.normal_lane.size - 1 } })
    | [] ↦ (none, q)
  ]
]

pub out_queue_size : OutQueue → ℕ
out_queue_size q = q.high_lane.size + q.normal_lane.size

-- `while ((node = out_queue_pop(q)) != NULL) send(node)`, on fuel; `none` means that it ran out.
unfoldable pub drain : ℕ → OutQueue → Option (List Node × OutQueue)
drain zero q = none
drain (suc fuel) q =
    let (first, q') = out_queue_pop q in
    let rest = drain fuel q' in
    elim first [
      | none ↦ some ([], q')
      | some n ↦ elim rest [ none ↦ none | some (ns, q'') ↦ some (n ∷ ns, q'') ]
    ]
