-- ===== src/OutQueue/Drain.antt =====
-- The sender's loop, which pops until the queue is empty.
use mathlib.Core.List.{head?, tail}
use chamlon.Base.{
  ℕ, zero, suc, ◌+◌, ◌<◌, ◌≡◌, refl, ap, ◌∙◌, List, [], ◌∷◌, ◌++◌, Option, none, some, arith,
  length, length-append,
}
use chamlon.OutQueue.{Node, OutQueue, drain, out_queue_pop, out_queue_size}
use chamlon.OutQueue.Lanes.{IsValid, order, out_queue_pop_lem}

-- What the loop leaves: all packets in order, and a valid queue with none.
abbrev Drained : List Node → Option (List Node × OutQueue) → Type 0
Drained xs none = ⊥
Drained xs (some (ns, q)) = (ns ≡ xs) × (order q ≡ []) × IsValid q

drain-Drained :
    (fuel : ℕ) (xs : List Node) (q : OutQueue)
    → IsValid q
    → order q ≡ xs
    → length xs < fuel
    → (q' : OutQueue) × (drain fuel q ≡ some (xs, q')) × (order q' ≡ []) × IsValid q'
unfolding drain
drain-Drained zero xs q ok e h = absurd (omega arith)
drain-Drained (suc fuel) [] q ok e h =
    let r = out_queue_pop_lem q ok in
    ((out_queue_pop q).1, ground (arith, r.0, ap head? e), r.1 ∙ ap tail e, r.2)
drain-Drained (suc fuel) (x ∷ xs) q ok e h =
    let r = out_queue_pop_lem q ok in
    let rest = drain-Drained fuel xs (out_queue_pop q).1 r.2 (r.1 ∙ ap tail e) (omega arith) in
    (rest.0, ground (arith, r.0, ap head? e, rest.1), rest.2, rest.3)

-- The size of the queue is enough fuel.
pub drain-IsValid :
    (q : OutQueue)
    → IsValid q
    → (q' : OutQueue) × (drain (out_queue_size q + 1) q ≡ some (order q, q'))
      × (order q' ≡ [])
      × IsValid q'
unfolding out_queue_size
drain-IsValid q ok =
    let count = length-append q.high_lane.nodes q.normal_lane.nodes in
    drain-Drained (q.high_lane.size + q.normal_lane.size + 1) (order q) q ok refl
      (omega (arith, count, ok.high_ok.counted, ok.normal_ok.counted))

-- The loop ends once it has fuel for each packet and one round more; it sends every packet of the
-- HIGH lane before those of the NORMAL one, each lane in its order, and leaves the queue empty.
pub drain_all :
    (q : OutQueue)
    → IsValid q
    → (q' : OutQueue) × (drain (out_queue_size q + 1) q
        ≡ some (q.high_lane.nodes ++ q.normal_lane.nodes, q'))
      × (out_queue_size q' ≡ 0)
unfolding out_queue_size
drain_all q ok =
    let r = drain-IsValid q ok in
    let none_left = length-append r.0.high_lane.nodes r.0.normal_lane.nodes in
    (r.0, r.1, omega (arith, ap length r.2, none_left, r.3.high_ok.counted, r.3.normal_ok.counted))
