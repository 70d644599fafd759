-- ===== src/OutQueue/Examples.antt =====
-- Tests and examples of the queue of outgoing packets.
use chamlon.Base.{ℕ, ◌+◌, ◌≡◌, refl, true, some, List, [], ◌∷◌, ◌++◌, arith, length, replicate, leb}
use chamlon.OutQueue.{
  Priority, high, normal, Node, Lane, OutQueue, classify_packet, push_lane, packet_queue_push,
  out_queue_size, drain,
}
use chamlon.OutQueue.Lanes.{
  IsLane, IsValid, cap_of, set_lane, lane_of, pushed, push_lane_lem, packet_queue_push_lem,
}
use chamlon.OutQueue.Drain.{drain_all}

abbrev node : ℕ → Priority → Node
node seq priority = record { pkt = seq ∷ []; seq = seq; priority = priority }

-- A lane of two, and the queue with a packet in each lane.
abbrev lane_of_two : Lane
lane_of_two = record { nodes = node 1 normal ∷ node 2 normal ∷ []; size = 2 }

abbrev waiting : OutQueue
waiting = record {
  high_lane = record { nodes = node 3 high ∷ []; size = 1 };
  normal_lane = lane_of_two;
}

lane_of_two-IsLane : IsLane 2 lane_of_two
lane_of_two-IsLane = record { counted = refl; bounded = ground arith }

waiting-IsValid : IsValid waiting
waiting-IsValid = record {
  high_ok = record { counted = refl; bounded = ground arith };
  normal_ok = record { counted = refl; bounded = ground arith };
}

-- An IPv4 packet of 200 bytes that carries a DNS query.
abbrev dns_query : List ℕ
dns_query =
    69 ∷ 0 ∷ 0 ∷ 200 ∷ 0 ∷ 0 ∷ 0 ∷ 0 ∷ 64 ∷ 17 ∷ replicate 10 0
    ++ (200 ∷ 0 ∷ 0 ∷ 53 ∷ replicate 176 0)

push_lane_lem_example :
    (push_lane 2 (node 4 normal) lane_of_two
      ≡ some (leb 2 (length lane_of_two.nodes), pushed 2 (node 4 normal) lane_of_two.nodes))
    × IsLane 2 (pushed 2 (node 4 normal) lane_of_two.nodes)
push_lane_lem_example =
    push_lane_lem 2 (node 4 normal) lane_of_two (ground arith) lane_of_two-IsLane

packet_queue_push_lem_example :
    (prio : Priority) × (classify_packet dns_query ≡ some prio)
    × (packet_queue_push true waiting (9 ∷ []) 4 dns_query
        ≡ some (
          leb (cap_of prio) (length (lane_of prio waiting).nodes),
          set_lane prio waiting (
              pushed
                (cap_of prio)
                (record { pkt = 9 ∷ []; seq = 4; priority = prio })
                (lane_of prio waiting).nodes),
        ))
    × IsValid (
        set_lane prio waiting (
          pushed
            (cap_of prio)
            (record { pkt = 9 ∷ []; seq = 4; priority = prio })
            (lane_of prio waiting).nodes))
packet_queue_push_lem_example = packet_queue_push_lem waiting (9 ∷ []) 4 dns_query waiting-IsValid

drain_all_example :
    (q' : OutQueue) × (drain (out_queue_size waiting + 1) waiting
      ≡ some (waiting.high_lane.nodes ++ waiting.normal_lane.nodes, q'))
    × (out_queue_size q' ≡ 0)
drain_all_example = drain_all waiting waiting-IsValid
