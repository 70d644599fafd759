-- ===== src/RateLimiter.antt =====
-- chamlon_server/src/rate_limiter.c with chamlon_server/include/rate_limiter.h: token buckets and a
-- blacklist for each address, and the global backpressure counter. Tokens are doubles in the code,
-- but they start at an integer, grow by integers, are capped by one and are spent one by one, so
-- that they are natural numbers below 2001 and a sum of two is exact. The clock is an argument.
pub mod Check
pub mod Quota
pub mod Table
pub mod Cleanup
mod Examples
use chamlon.Base.{
  ℕ, zero, suc, ◌+◌, ◌-◌, ◌*◌, ◌%◌, ◌^◌, min, Bool, true, false, ◌&&◌, ◌||◌, List, [], ◌∷◌, ◌++◌,
  Option, none, some, length, take, set, get_elem?, ltb, leb, ◌==◌, if◌then◌else◌, u32,
}

abbrev pub blacklist_duration_sec : ℕ
blacklist_duration_sec = 60

abbrev pub max_rate_limit_entries : ℕ
max_rate_limit_entries = 10000

abbrev pub cleanup_interval : ℕ
cleanup_interval = 10

pub data Verdict : Type 0 where
  ok exceeded blacklisted : Verdict

-- One of the two buckets of `ip_rate_limit_t`: its tokens, last refill and violations.
pub record Bucket : Type 0 where
  pub tokens : ℕ
  pub last_refill : ℕ
  pub violations : ℕ

-- The constants of a bucket: *_BURST_CAPACITY, *_MAX_PER_SECOND, and the violations that are
-- forgiven.
pub record Limits : Type 0 where
  pub burst : ℕ
  pub per_second : ℕ
  pub forgiven : ℕ

abbrev pub handshake_limits : Limits
handshake_limits = record { burst = 10; per_second = 5; forgiven = 50 }

abbrev pub packet_limits : Limits
packet_limits = record { burst = 2000; per_second = 1000; forgiven = 500 }

pub record IpEntry : Type 0 where
  pub ip_addr : ℕ
  pub handshake : Bucket
  pub packet : Bucket
  pub blacklist_until : ℕ
  pub last_seen : ℕ

pub record RateLimiter : Type 0 where
  pub entries : List IpEntry
  pub capacity : ℕ
  pub last_cleanup : ℕ

unfoldable pub rate_limiter_init : ℕ → RateLimiter
rate_limiter_init now = record {
  entries = [];
  capacity = max_rate_limit_entries;
  last_cleanup = now;
}

unfoldable pub refill_tokens : Limits → ℕ → Bucket → Bucket
refill_tokens l now b =
    if ltb 0 (now - b.last_refill)
    then record b {
      tokens = min (b.tokens + (now - b.last_refill) * l.per_second) l.burst;
      last_refill = now;
    }
    else b

-- The bucket after a check of an address that is not blacklisted, and whether it has to be.
unfoldable pub spend : Limits → Bucket → Verdict × Bucket
spend l b = if leb 1 b.tokens then (ok, record b { tokens = b.tokens - 1 }) else (
  (if ltb l.forgiven (u32 (b.violations + 1)) then blacklisted else exceeded),
  record b { violations = u32 (b.violations + 1) },
)

abbrev pub blacklist_for : ℕ → Verdict → IpEntry → IpEntry
blacklist_for now blacklisted e = record e { blacklist_until = now + blacklist_duration_sec }
blacklist_for now ok e = e
blacklist_for now exceeded e = e

pub data Kind : Type 0 where
  handshakes packets : Kind

abbrev pub limits_of : Kind → Limits
limits_of handshakes = handshake_limits
limits_of packets = packet_limits

abbrev pub bucket_of : Kind → IpEntry → Bucket
bucket_of handshakes e = e.handshake
bucket_of packets e = e.packet

abbrev pub set_bucket : Kind → IpEntry → Bucket → IpEntry
set_bucket handshakes e b = record e { handshake = b }
set_bucket packets e b = record e { packet = b }

-- `check_handshake_rate_limit` and `check_packet_rate_limit` on the entry of the address.
unfoldable pub check_entry : Kind → ℕ → IpEntry → Verdict × IpEntry
unfolding refill_tokens spend
check_entry k now e =
    if ltb now e.blacklist_until
    then (blacklisted, e)
    else (let (v, b) = spend (limits_of k) (refill_tokens (limits_of k) now (bucket_of k e)) in
        (v, blacklist_for now v (set_bucket k e b)))

unfoldable pub find_ip : ℕ → List IpEntry → Option ℕ
find_ip ip [] = none
find_ip ip (e ∷ es) =
    let rest = find_ip ip es in
    if e.ip_addr == ip then some 0 else elim rest [ none ↦ none | some i ↦ some (suc i) ]

abbrev pub new_entry : ℕ → ℕ → IpEntry
new_entry now ip = record {
  ip_addr = ip;
  handshake = record { tokens = 10; last_refill = now; violations = 0 };
  packet = record { tokens = 2000; last_refill = now; violations = 0 };
  blacklist_until = 0;
  last_seen = now;
}

-- The index of the entry, and the table; `none` is a full table.
unfoldable pub find_or_create_ip_entry : ℕ → ℕ → RateLimiter → Option (ℕ × RateLimiter)
find_or_create_ip_entry now ip r = elim (find_ip ip r.entries) [
  | some i ↦ elim (get_elem? r.entries i) [
    | some e ↦ some (i, record r { entries = set r.entries i (record e { last_seen = now }) })
    | none ↦ none
  ]
  | none ↦
      if ltb (length r.entries) r.capacity
      then some (length r.entries, record r { entries = r.entries ++ new_entry now ip ∷ [] })
      else none
]

-- Both checks on the table.
unfoldable pub check_rate_limit : Kind → ℕ → ℕ → RateLimiter → Verdict × RateLimiter
check_rate_limit k now ip r = elim (find_or_create_ip_entry now ip r) [
  | none ↦ (exceeded, r)
  | some (i, r') ↦ elim (get_elem? r'.entries i) [
    | none ↦ (exceeded, r')
    | some e ↦ let (v, e') = check_entry k now e in (v, record r' { entries = set r'.entries i e' })
  ]
]

pub blacklist_ip : ℕ → ℕ → RateLimiter → RateLimiter
blacklist_ip now ip r = elim (find_or_create_ip_entry now ip r) [
  | none ↦ r
  | some (i, r') ↦ elim (get_elem? r'.entries i) [
    | none ↦ r'
    | some e ↦ record r' {
      entries = set r'.entries i (record e { blacklist_until = now + blacklist_duration_sec });
    }
  ]
]

-- The entries that are recent or still blacklisted.
pub keeps : ℕ → IpEntry → Bool
keeps now e = ltb (now - e.last_seen) 300 || ltb now e.blacklist_until

-- The loop in place, with `left` rounds to go: the entries at `i`, `i + 1`, … that are kept move
-- down to `j`, `j + 1`, …. The result is the array and the final `j`.
pub compact : ℕ → ℕ → ℕ → ℕ → List IpEntry → List IpEntry × ℕ
compact now zero i j a = (a, j)
compact now (suc left) i j a = elim (get_elem? a i) [
  | none ↦ (a, j)
  | some e ↦
      let moved = compact now left (suc i) (suc j) (if i == j then a else set a j e) in
      let skipped = compact now left (suc i) j a in if keeps now e then moved else skipped
]

pub rate_limiter_cleanup : ℕ → RateLimiter → RateLimiter
unfolding compact
rate_limiter_cleanup now r =
    if ltb (now - r.last_cleanup) cleanup_interval
    then r
    else (let (a, j) = compact now (length r.entries) 0 0 r.entries in
        record r { entries = take j a; last_cleanup = now })
