-- ===== src/Sender/Deadline.antt =====
-- The times until which the sender thread sleeps.
use chamlon.Base.{
  ℕ, zero, suc, ◌+◌, ◌*◌, ◌≤◌, ◌≡◌, refl, sym, ap, ◌∙◌, true, List, ◌++◌, some, map, arith, length,
  ltb, subst, ◌==◌, if◌then◌else◌,
}
use chamlon.OutQueue.{OutQueue}
use chamlon.OutQueue.Lanes.{IsValid}
use chamlon.OutQueue.Drain.{drain_all}
use chamlon.Scheduler.{Timespec, is_later}
use chamlon.Scheduler.Time.{nanos, IsNormal}
use chamlon.Crypto.{Sodium}
use chamlon.Crypto.Contract.{IsSodium}
use chamlon.Sessions.{letter_y}
use chamlon.Sender.{
  SenderArgs, Round, take_keys, report, timespec_add, timespec_cmp, after_packets, resync,
  finish_round, send_all, sender_round,
}
use chamlon.Sender.Dummy.{
  IsPrepared, take_keys-IsPrepared, report-IsPrepared, take_keys-Alike, report-SameKeys,
  send_one_dummy-seal,
}

-- The sum of two normal times is their sum, and normal: one carry is enough.
pub timespec_add_lem :
    (ts delta : Timespec)
    → IsNormal ts
    → IsNormal delta
    → (nanos (timespec_add ts delta) ≡ nanos ts + nanos delta) × IsNormal (timespec_add ts delta)
unfolding timespec_add
timespec_add_lem ts delta a b = ground arith

-- The comparison of two normal times is that of their nanoseconds.
pub timespec_cmp_lem :
    (a b : Timespec)
    → IsNormal a
    → IsNormal b
    → is_later (timespec_cmp a b) ≡ ltb (nanos b) (nanos a)
unfolding timespec_cmp
timespec_cmp_lem a b x y = ground arith

after_packets_lem :
    (n : ℕ) (delta next : Timespec)
    → IsNormal delta
    → IsNormal next
    → (nanos (after_packets n delta next) ≡ nanos next + n * nanos delta)
      × IsNormal (after_packets n delta next)
unfolding after_packets
after_packets_lem zero delta next a b = (omega arith, b)
after_packets_lem (suc n) delta next a b =
    let (e, ok) = timespec_add_lem next delta b a in
    let (r, fine) = after_packets_lem n delta (timespec_add next delta) a ok in
    (omega (arith, e, r), fine)

-- The deadline that is due, unless it has passed: then one interval from now.
abbrev pub deadline : ℕ → ℕ → ℕ → ℕ
deadline now delta due = if ltb due now then now + delta else due

resync_lem :
    (now delta next : Timespec)
    → IsNormal now
    → IsNormal delta
    → IsNormal next
    → (nanos (resync now delta next)
        ≡ deadline (nanos now) (nanos delta) (nanos next + nanos delta))
      × IsNormal (resync now delta next)
unfolding resync
resync_lem now delta next a b d =
    let (due, ok) = timespec_add_lem next delta d b in
    let (new, fine) = timespec_add_lem now delta a b in
    ground (arith, due, ok, new, fine, timespec_cmp_lem now (timespec_add next delta) a ok)

-- What a round of constant bit rate, which sends n packets from the queue, leaves as the deadline.
abbrev pub Waits : ℕ → Timespec → Timespec → Timespec → Round → Type 0
Waits n now delta next r =
    (nanos r.next ≡ deadline (nanos now) (nanos delta) (nanos next + (n + 1) * nanos delta))
    × IsNormal r.next

finish_round-next :
    (c : Sodium) (now next : Timespec) (real : List (List ℕ)) (s : SenderArgs)
    → IsSodium c
    → IsPrepared s
    → (s.argv_cbr == letter_y) ≡ true
    → (finish_round c now next real s).next ≡ resync now s.interval next
unfolding finish_round
finish_round-next c now next real s good p cbr =
    let (pkt, sent, sealed, still) = send_one_dummy-seal c s good p in
    rw (finish_round, sent, cbr) refl

abbrev pub waiting : OutQueue → ℕ
waiting q = length (q.high_lane.nodes ++ q.normal_lane.nodes)

send_all-Waits :
    (c : Sodium) (now next : Timespec) (s : SenderArgs)
    → IsSodium c
    → IsPrepared s
    → IsValid s.outq
    → (s.argv_cbr == letter_y) ≡ true
    → IsNormal now
    → IsNormal s.interval
    → IsNormal next
    → (r : Round) × (send_all c now next s ≡ some r) × Waits (waiting s.outq) now s.interval next r
unfolding send_all
send_all-Waits c now next s good p valid cbr x y z =
    let (q, run, empty) = drain_all s.outq valid in
    let nodes = s.outq.high_lane.nodes ++ s.outq.normal_lane.nodes in
    let s' : SenderArgs = record s { outq = q; data_real = s.data_real + length nodes } in
    let moved = after_packets (length nodes) s.interval next in
    let ready : IsPrepared s' = record {
      header = p.header;
      payload = p.payload;
      least = p.least;
    } in
    let r = finish_round c now moved (map (λ n. n.pkt) nodes) s' in
    let at : r.next ≡ resync now s.interval moved =
      finish_round-next c now moved (map (λ n. n.pkt) nodes) s' good ready cbr in
    let (m, ok) = after_packets_lem (length nodes) s.interval next y z in
    let (e, fine) = resync_lem now s.interval moved x y ok in
    let due : nanos moved + nanos s.interval ≡ nanos next + (length nodes + 1) * nanos s.interval =
      omega (arith, m) in
    (
      r,
      rw (send_all, run, cbr) refl,
      (
        ap nanos at ∙ e ∙ ap (deadline (nanos now) (nanos s.interval)) due,
        subst IsNormal (sym at) fine,
      ),
    )

-- The deadline of the next round of constant bit rate is one interval later for each packet of this one,
-- the dummy included, or one interval from now if that has passed, so it never lies behind; its
-- nanoseconds stay below a second. This is for a prepared dummy, a valid queue and times whose nanoseconds
-- are below a second.
pub sender_round-Waits :
    (c : Sodium) (before now next : Timespec) (s : SenderArgs)
    → IsSodium c
    → IsPrepared s
    → IsValid s.outq
    → (s.argv_cbr == letter_y) ≡ true
    → IsNormal now
    → IsNormal s.interval
    → IsNormal next
    → (r : Round) × (sender_round c before now next s ≡ some r)
      × Waits (waiting s.outq) now s.interval next r
      × (nanos now ≤ nanos r.next)
unfolding sender_round
sender_round-Waits c before now next s good p valid cbr x y z =
    let t = take_keys s in
    let s' = report before t in
    let (q, b, f, n, d) = take_keys-Alike s in
    let (k, i, rest) = report-SameKeys before t in
    let q' = rest.0 ∙ q in
    let d' = rest.4 ∙ d in
    let ready = report-IsPrepared before t (take_keys-IsPrepared s p) in
    let still : (s'.argv_cbr == letter_y) ≡ true = rw (rest.1 ∙ b) cbr in
    let (r, run, waits) =
      send_all-Waits c now next s' good ready (subst IsValid (sym q') valid) still x
        (subst IsNormal (sym d') y) z in
    let same : Waits (waiting s.outq) now s.interval next r =
      subst (λ o. Waits (waiting o) now s.interval next r) q'
        (subst (λ w. Waits (waiting s'.outq) now w next r) d' waits) in
    (r, run, same, ground (arith, same.0))
