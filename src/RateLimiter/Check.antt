-- ===== src/RateLimiter/Check.antt =====
-- One address: what a check does to its entry.
use chamlon.Base.{ℕ, ◌+◌, ◌-◌, ◌*◌, ◌≤◌, ◌<◌, ◌≡◌, arith}
use chamlon.RateLimiter.{
  Verdict, ok, exceeded, blacklisted, Kind, limits_of, bucket_of, IpEntry, check_entry, handshakes,
  packets,
}

-- 1 for a check that passes.
abbrev pub passes : Verdict → ℕ
passes ok = 1
passes exceeded = 0
passes blacklisted = 0

-- A check spends at most the tokens that there are and that time has added.
pub check_entry_spends :
    (k : Kind) (now : ℕ) (e : IpEntry)
    → (bucket_of k e).last_refill ≤ now
    → let (v, e') = check_entry k now e in
      ((bucket_of k e').last_refill ≤ now)
      × ((bucket_of k e).last_refill ≤ (bucket_of k e').last_refill)
      × (passes v + (bucket_of k e').tokens
          ≤ (bucket_of k e).tokens
            + ((bucket_of k e').last_refill - (bucket_of k e).last_refill)
              * (limits_of k).per_second)
unfolding check_entry
check_entry_spends handshakes now e h = ground arith
check_entry_spends packets now e h = ground arith

-- An address that gets blacklisted at one check is refused at all that come less than 60 seconds
-- later, of both kinds, and these change nothing in its entry. The lookup of the entry, which notes when
-- the address was last seen, comes before this.
pub blacklisted_until :
    (k j : Kind) (now later : ℕ) (e : IpEntry)
    → e.blacklist_until ≤ now
    → (check_entry k now e).0 ≡ blacklisted
    → now ≤ later
    → later < now + 60
    → check_entry j later (check_entry k now e).1 ≡ (blacklisted, (check_entry k now e).1)
unfolding check_entry
blacklisted_until handshakes j now later e free hit after before = ground arith
blacklisted_until packets j now later e free hit after before = ground arith
