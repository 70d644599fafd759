-- ===== src/Pacing/Queued.antt =====
-- Where the full packets come from: the start of a session, and the packets that are queued.
use chamlon.Base.{
  ℕ, ◌+◌, ◌-◌, ◌≡◌, refl, sym, subst, ◌∙◌, inl, inr, Bool, true, false, List, [], ◌∷◌, ◌++◌, Option,
  some, none, arith, length, leb, Bool-cases, Option-cases,
}
use chamlon.OutQueue.{
  Node, Lane, OutQueue, Priority, high, normal, push_lane, packet_queue_push, classify_packet,
  queue_cap_high, queue_cap_normal,
}
use chamlon.Pacing.Constant.{AllSized, wire_len, IsQueue}

AllSized-snoc :
    (k : ℕ) (xs : List Node) (n : Node)
    → AllSized k xs
    → length n.pkt ≡ k
    → AllSized k (xs ++ n ∷ [])
AllSized-snoc k [] n all h = (h, tt)
AllSized-snoc k (x ∷ xs) n (a, all) h = (a, AllSized-snoc k xs n all h)

abbrev added : List Node → ℕ → Node → Lane
added nodes size n = record { nodes = nodes ++ n ∷ []; size = size + 1 }

-- A full lane loses its oldest packet.
push_lane-AllSized :
    (cap k : ℕ) (n : Node) (nodes : List Node) (size : ℕ) (d : Bool) (l : Lane)
    → AllSized k nodes
    → length n.pkt ≡ k
    → push_lane cap n (record { nodes = nodes; size = size }) ≡ some (d, l)
    → AllSized k l.nodes
unfolding push_lane
push_lane-AllSized cap k n [] size d l all h e = elim (Bool-cases (leb cap size)) [
  | inl f ↦ absurd (ground arith)
  | inr f ↦
      let both : some (false, added [] size n) ≡ some (d, l) = sym (rw (push_lane, f) refl) ∙ e in
      let same : added [] size n ≡ l = cc in subst (λ (z : Lane). AllSized k z.nodes) same (h, tt)
]
push_lane-AllSized cap k n (x ∷ xs) size d l (a, all) h e = elim (Bool-cases (leb cap size)) [
  | inl f ↦
      let both : some (true, added xs (size - 1) n) ≡ some (d, l) =
        sym (rw (push_lane, f) refl) ∙ e in
      let same : added xs (size - 1) n ≡ l = cc in
      subst (λ (z : Lane). AllSized k z.nodes) same (AllSized-snoc k xs n all h)
  | inr f ↦
      let both : some (false, added (x ∷ xs) size n) ≡ some (d, l) =
        sym (rw (push_lane, f) refl) ∙ e in
      let same : added (x ∷ xs) size n ≡ l = cc in
      subst (λ (z : Lane). AllSized k z.nodes) same (a, AllSized-snoc k xs n all h)
]

-- What is pushed into the queue is of the length of the others, so what is in it afterwards is.
pub packet_queue_push-IsQueue :
    (node : Bool) (frag : ℕ) (q : OutQueue) (pkt : List ℕ) (seq : ℕ) (ip : List ℕ) (d : Bool)
    (q' : OutQueue)
    → IsQueue frag q
    → length pkt ≡ wire_len frag
    → packet_queue_push node q pkt seq ip ≡ some (d, q')
    → IsQueue frag q'
unfolding packet_queue_push
packet_queue_push-IsQueue node frag q pkt seq ip d q' ok h e =
    elim (Option-cases (classify_packet ip)) [
      | inl n ↦ absurd (gone n)
      | inr (prio, p) ↦ elim (Bool-cases node) [
        | inr f ↦
            let both : some (false, q) ≡ some (d, q') =
              sym (rw (packet_queue_push, p, f) refl) ∙ e in
            let same : q ≡ q' = cc in subst (IsQueue frag) same ok
        | inl t ↦ into prio p t
      ]
    ]
  where
    n : Priority → Node
    n prio = record { pkt = pkt; seq = seq; priority = prio }

    gone : classify_packet ip ≡ none → ⊥
    gone c = elim (Bool-cases node) [
      | inl t ↦
          let no : ◌≡◌ {A = Option (Bool × OutQueue)} none (some (d, q')) =
            sym (rw (packet_queue_push, t, c) refl) ∙ e in
          cc
      | inr t ↦
          let no : ◌≡◌ {A = Option (Bool × OutQueue)} none (some (d, q')) =
            sym (rw (packet_queue_push, t, c) refl) ∙ e in
          cc
    ]

    into : (prio : Priority) → classify_packet ip ≡ some prio → node ≡ true → IsQueue frag q'
    into high c t = elim (Option-cases (push_lane queue_cap_high (n high) q.high_lane)) [
      | inl f ↦
          let no : ◌≡◌ {A = Option (Bool × OutQueue)} none (some (d, q')) =
            sym (rw (packet_queue_push, t, c, f) refl) ∙ e in
          absurd cc
      | inr ((d', l), p) ↦
          let both : some (d', record q { high_lane = l }) ≡ some (d, q') =
            sym (rw (packet_queue_push, t, c, p) refl) ∙ e in
          let same : record q { high_lane = l } ≡ q' = cc in
          subst (IsQueue frag) same (record {
            high_sized =
                push_lane-AllSized queue_cap_high (wire_len frag) (n high) q.high_lane.nodes
                  q.high_lane.size d' l ok.high_sized h p;
            normal_sized = ok.normal_sized;
          })
    ]
    into normal c t = elim (Option-cases (push_lane queue_cap_normal (n normal) q.normal_lane)) [
      | inl f ↦
          let no : ◌≡◌ {A = Option (Bool × OutQueue)} none (some (d, q')) =
            sym (rw (packet_queue_push, t, c, f) refl) ∙ e in
          absurd cc
      | inr ((d', l), p) ↦
          let both : some (d', record q { normal_lane = l }) ≡ some (d, q') =
            sym (rw (packet_queue_push, t, c, p) refl) ∙ e in
          let same : record q { normal_lane = l } ≡ q' = cc in
          subst (IsQueue frag) same (record {
            high_sized = ok.high_sized;
            normal_sized =
                push_lane-AllSized queue_cap_normal (wire_len frag) (n normal) q.normal_lane.nodes
                  q.normal_lane.size d' l ok.normal_sized h p;
          })
    ]
