-- ===== src/OutQueue/Lanes.antt =====
-- A lane is a list of bounded length that drops its oldest packets, and the queue is the list of the
-- HIGH lane before that of the NORMAL one.
use mathlib.Core.List.{head?, tail}
use chamlon.Base.{
  ℕ, ◌+◌, ◌-◌, ◌<◌, ◌≤◌, ◌≡◌, refl, ap, ◌∙◌, inl, inr, true, List, [], ◌∷◌, ◌++◌, some, arith,
  length, length-append, length-drop, drop, min, leb, Option-cases, Bool-cases,
}
use chamlon.OutQueue.{
  Priority, high, normal, Node, Lane, OutQueue, queue_cap_high, queue_cap_normal, classify_packet,
  push_lane, packet_queue_push, out_queue_pop,
}
use chamlon.OutQueue.Classify.{classify_packet_total}

-- The counter is the number of nodes, and within the cap.
pub record IsLane (cap : ℕ) (l : Lane) : Type 0 where
  pub counted : l.size ≡ length l.nodes
  pub bounded : l.size ≤ cap

pub record IsValid (q : OutQueue) : Type 0 where
  pub high_ok : IsLane queue_cap_high q.high_lane
  pub normal_ok : IsLane queue_cap_normal q.normal_lane

-- The last `cap` of the packets.
abbrev pub newest {ℓ} : {A : Type ℓ} → ℕ → List A → List A
newest cap xs = drop (length xs - cap) xs

abbrev pub lane_of : Priority → OutQueue → Lane
lane_of high q = q.high_lane
lane_of normal q = q.normal_lane

-- The lane after a push: the newest packets.
abbrev pub pushed : ℕ → Node → List Node → Lane
pushed cap n xs = record { nodes = newest cap (xs ++ n ∷ []); size = min cap (length xs + 1) }

push_list :
    (cap : ℕ) (n : Node) (xs : List Node)
    → 0 < cap
    → length xs ≤ cap
    → push_lane cap n (record { nodes = xs; size = length xs })
      ≡ some (leb cap (length xs), pushed cap n xs)
unfolding push_lane
push_list cap n [] pos fits = ground arith
push_list cap n (x ∷ xs) pos fits = elim (Bool-cases (leb cap (length (x ∷ xs)))) [
  | inl full ↦
      let one : length (x ∷ (xs ++ n ∷ [])) - cap ≡ 1 = ground (arith, length-append xs (n ∷ [])) in
      rw (full, one) (ground arith)
  | inr room ↦
      let none_over : length (x ∷ (xs ++ n ∷ [])) - cap ≡ 0 =
        ground (arith, length-append xs (n ∷ [])) in
      rw (room, none_over) (ground arith)
]

pushed-IsLane :
    (cap : ℕ) (n : Node) (xs : List Node) → length xs ≤ cap → IsLane cap (pushed cap n xs)
pushed-IsLane cap n xs fits = record {
  counted =
      omega (
        arith,
        length-drop (length (xs ++ n ∷ []) - cap) (xs ++ n ∷ []),
        length-append xs (n ∷ []),
      );
  bounded = omega arith;
}

-- A push into a lane within its cap never uses a null head, and says if it drops a packet.
pub push_lane_lem :
    (cap : ℕ) (n : Node) (l : Lane)
    → 0 < cap
    → IsLane cap l
    → (push_lane cap n l ≡ some (leb cap (length l.nodes), pushed cap n l.nodes))
      × IsLane cap (pushed cap n l.nodes)
push_lane_lem cap n l pos ok =
    let fits : length l.nodes ≤ cap = omega (arith, ok.counted, ok.bounded) in
    (
      ap (λ k. push_lane cap n (record { nodes = l.nodes; size = k })) ok.counted
          ∙ push_list cap n l.nodes pos fits,
      pushed-IsLane cap n l.nodes fits,
    )

abbrev pub cap_of : Priority → ℕ
cap_of high = queue_cap_high
cap_of normal = queue_cap_normal

abbrev pub set_lane : Priority → OutQueue → Lane → OutQueue
set_lane high q l = record q { high_lane = l }
set_lane normal q l = record q { normal_lane = l }

-- A packet goes to the end of the lane that the classifier picks, whose newest packets are kept; the
-- other lane stays, both lanes stay within their caps, and the result says if a packet was dropped.
pub packet_queue_push_lem :
    (q : OutQueue) (pkt : List ℕ) (seq : ℕ) (ip : List ℕ)
    → IsValid q
    → (prio : Priority) × (classify_packet ip ≡ some prio)
      × (packet_queue_push true q pkt seq ip
          ≡ some (
            leb (cap_of prio) (length (lane_of prio q).nodes),
            set_lane prio q (
                pushed
                  (cap_of prio)
                  (record { pkt = pkt; seq = seq; priority = prio })
                  (lane_of prio q).nodes),
          ))
      × IsValid (
          set_lane prio q (
            pushed
              (cap_of prio)
              (record { pkt = pkt; seq = seq; priority = prio })
              (lane_of prio q).nodes))
unfolding packet_queue_push
packet_queue_push_lem q pkt seq ip ok = elim (Option-cases (classify_packet ip)) [
  | inl e ↦ absurd (classify_packet_total ip e)
  | inr (high, e) ↦
      let n : Node = record { pkt = pkt; seq = seq; priority = high } in
      let r = push_lane_lem queue_cap_high n q.high_lane (omega arith) ok.high_ok in
      (high, e, rw (e, r.0), record { high_ok = r.1; normal_ok = ok.normal_ok })
  | inr (normal, e) ↦
      let n : Node = record { pkt = pkt; seq = seq; priority = normal } in
      let r = push_lane_lem queue_cap_normal n q.normal_lane (omega arith) ok.normal_ok in
      (normal, e, rw (e, r.0), record { high_ok = ok.high_ok; normal_ok = r.1 })
]

-- The order in which the packets leave.
abbrev pub order : OutQueue → List Node
order q = q.high_lane.nodes ++ q.normal_lane.nodes

-- A pop takes the first packet in that order and leaves the others, and gives none exactly where
-- there is none; the lanes stay within their caps.
pub out_queue_pop_lem :
    (q : OutQueue)
    → IsValid q
    → ((out_queue_pop q).0 ≡ head? (order q))
      × (order (out_queue_pop q).1 ≡ tail (order q))
      × IsValid (out_queue_pop q).1
unfolding out_queue_pop
out_queue_pop_lem q ok = go q.high_lane.nodes q.normal_lane.nodes refl refl
  where
    go :
        (hs ns : List Node)
        → q.high_lane.nodes ≡ hs
        → q.normal_lane.nodes ≡ ns
        → ((out_queue_pop q).0 ≡ head? (order q))
          × (order (out_queue_pop q).1 ≡ tail (order q))
          × IsValid (out_queue_pop q).1
    go [] [] e f = ground (arith, e, f)
    go [] (n ∷ ns) e f = ground (arith, e, f)
    go (h ∷ hs) ns e f = ground (arith, e, f)
