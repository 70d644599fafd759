-- ===== src/RateLimiter/Examples.antt =====
-- Tests and examples of the rate limiter.
use chamlon.Base.{ℕ, ◌+◌, ◌-◌, ◌*◌, ◌≤◌, ◌≡◌, refl, List, [], ◌∷◌, arith}
use chamlon.RateLimiter.{
  Kind, handshakes, packets, blacklisted, IpEntry, RateLimiter, check_entry, new_entry,
  check_rate_limit, spend, refill_tokens,
}
use chamlon.RateLimiter.Check.{blacklisted_until}
use chamlon.RateLimiter.Quota.{admitted, admitted_quota}
use chamlon.RateLimiter.Table.{entry_of, check_map, check_rate_limit-map}

-- An address that has used up its handshakes and been refused 50 times.
abbrev abuser : IpEntry
abuser = record {
  ip_addr = 7;
  handshake = record { tokens = 0; last_refill = 100; violations = 50 };
  packet = record { tokens = 3; last_refill = 100; violations = 0 };
  blacklist_until = 0;
  last_seen = 100;
}

abbrev limiter : RateLimiter
limiter = record { entries = new_entry 100 5 ∷ abuser ∷ []; capacity = 3; last_cleanup = 95 }

abuser_blacklisted : (check_entry handshakes 100 abuser).0 ≡ blacklisted
unfolding check_entry spend refill_tokens
abuser_blacklisted = refl

blacklisted_until_example :
    check_entry packets 150 (check_entry handshakes 100 abuser).1
    ≡ (blacklisted, (check_entry handshakes 100 abuser).1)
blacklisted_until_example =
    blacklisted_until handshakes packets 100 150 abuser (ground arith) abuser_blacklisted
      (ground arith) (ground arith)

abbrev checks : List (Kind × ℕ)
checks = (handshakes, 100) ∷ (packets, 100) ∷ (handshakes, 101) ∷ []

admitted_quota_example :
    (admitted handshakes checks (new_entry 100 5) ≤ 10 + 5 * (103 - 100))
    × (admitted packets checks (new_entry 100 5) ≤ 2000 + 1000 * (103 - 100))
admitted_quota_example = admitted_quota checks 5 100 103 (ground arith)

check_rate_limit-map_example :
    check_rate_limit handshakes 110 7 limiter
    ≡ check_map handshakes 110 7 limiter (entry_of 7 limiter.entries)
check_rate_limit-map_example = check_rate_limit-map handshakes 110 7 limiter
