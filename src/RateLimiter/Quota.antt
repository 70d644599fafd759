-- ===== src/RateLimiter/Quota.antt =====
-- How many checks of one address can pass in a span of time.
use chamlon.Base.{ℕ, ◌+◌, ◌-◌, ◌*◌, ◌≤◌, ◌≡◌, ap, List, [], ◌∷◌, arith}
use chamlon.RateLimiter.{
  Verdict, Kind, Bucket, limits_of, bucket_of, IpEntry, check_entry, handshakes, packets, new_entry,
}
use chamlon.RateLimiter.Check.{passes, check_entry_spends}

abbrev pub count : Kind → Kind → Verdict → ℕ
count handshakes handshakes v = passes v
count packets packets v = passes v
count handshakes packets v = 0
count packets handshakes v = 0

-- The checks of kind `k` that pass, of a sequence of checks with their times.
pub admitted : Kind → List (Kind × ℕ) → IpEntry → ℕ
admitted k [] e = 0
admitted k ((j, now) ∷ cs) e = let (v, e') = check_entry j now e in count k j v + admitted k cs e'

-- The times do not fall, from `start` to `finish`.
abbrev pub Rising : ℕ → List (Kind × ℕ) → ℕ → Type 0
Rising start [] finish = start ≤ finish
Rising start ((j, now) ∷ cs) finish = (start ≤ now) × Rising now cs finish

Rising-le : (start finish : ℕ) (cs : List (Kind × ℕ)) → Rising start cs finish → start ≤ finish
Rising-le start finish [] h = h
Rising-le start finish ((j, now) ∷ cs) h = omega (arith, Rising-le now finish cs h.1)

-- The bucket of the other kind is not touched.
check_entry_other :
    (now : ℕ) (e : IpEntry)
    → ((check_entry packets now e).1.handshake ≡ e.handshake)
      × ((check_entry handshakes now e).1.packet ≡ e.packet)
unfolding check_entry
check_entry_other now e = ground arith

admitted-le :
    (k : Kind) (cs : List (Kind × ℕ)) (e : IpEntry) (start finish : ℕ)
    → Rising start cs finish
    → (bucket_of k e).last_refill ≤ start
    → admitted k cs e
      ≤ (bucket_of k e).tokens + (finish - (bucket_of k e).last_refill) * (limits_of k).per_second
unfolding admitted
admitted-le k [] e start finish r h = omega arith
admitted-le handshakes ((handshakes, now) ∷ cs) e start finish r h =
    let e' = (check_entry handshakes now e).1 in
    let s = check_entry_spends handshakes now e (omega arith) in
    omega (arith, s, Rising-le now finish cs r.1, admitted-le handshakes cs e' now finish r.1 s.0)
admitted-le packets ((packets, now) ∷ cs) e start finish r h =
    let e' = (check_entry packets now e).1 in
    let s = check_entry_spends packets now e (omega arith) in
    omega (arith, s, Rising-le now finish cs r.1, admitted-le packets cs e' now finish r.1 s.0)
admitted-le handshakes ((packets, now) ∷ cs) e start finish r h =
    let e' = (check_entry packets now e).1 in
    let same = (check_entry_other now e).0 in
    let amount = ap (λ (b : Bucket). b.tokens) same in
    let since = ap (λ (b : Bucket). b.last_refill) same in
    omega (arith, amount, since, admitted-le handshakes cs e' now finish r.1 (omega (arith, since)))
admitted-le packets ((handshakes, now) ∷ cs) e start finish r h =
    let e' = (check_entry handshakes now e).1 in
    let same = (check_entry_other now e).1 in
    let amount = ap (λ (b : Bucket). b.tokens) same in
    let since = ap (λ (b : Bucket). b.last_refill) same in
    omega (arith, amount, since, admitted-le packets cs e' now finish r.1 (omega (arith, since)))

-- From the creation of its entry at `start`, an address has at most 10 handshakes admitted, and 5
-- more for each second, and at most 2000 packets and 1000 more for each second, whatever checks of
-- both kinds are made up to `finish`.
pub admitted_quota :
    (cs : List (Kind × ℕ)) (ip start finish : ℕ)
    → Rising start cs finish
    → (admitted handshakes cs (new_entry start ip) ≤ 10 + 5 * (finish - start))
      × (admitted packets cs (new_entry start ip) ≤ 2000 + 1000 * (finish - start))
admitted_quota cs ip start finish r = (
  omega (arith, admitted-le handshakes cs (new_entry start ip) start finish r (omega arith)),
  omega (arith, admitted-le packets cs (new_entry start ip) start finish r (omega arith)),
)
