-- ===== src/RateLimit/Examples.antt =====
-- The limiter at concrete requests.
use patrolbot_dashboard.Base.{ℕ, ◌+◌, ◌-◌, ◌*◌, ◌≤◌, ◌≡◌, refl, inr, true, List, [], ◌∷◌, arith}
use patrolbot_dashboard.Base.Dict.{get, insert}
use patrolbot_dashboard.RateLimit.{Bucket, RateLimiter, token, allow}
use patrolbot_dashboard.RateLimit.Bound.{passed, passed-le, allow_after_refill}

abbrev two_a_minute : RateLimiter
two_a_minute = record { capacity = 2; buckets = [] }

abbrev burst : List (ℕ × ℕ)
burst = (7, 1) ∷ (7, 2) ∷ (8, 3) ∷ (7, 4) ∷ []

burst-passed : passed 7 two_a_minute burst ≡ 2
unfolding passed allow get insert
burst-passed = refl

passed-le_example : passed 7 two_a_minute burst * token ≤ 2 * token + (4 - 1) * 2
unfolding get
passed-le_example =
    passed-le 7 two_a_minute 1 burst 4 (omega arith) tt
      (omega arith, (omega arith, (omega arith, (omega arith, omega arith))))

abbrev drained : Bucket
drained = record { tokens = 0; updated = 4 }

allow_after_refill_example :
    (allow (record two_a_minute { buckets = (7, drained) ∷ [] }) 7 30_000_000_004).1 ≡ true
unfolding get
allow_after_refill_example =
    allow_after_refill (record two_a_minute { buckets = (7, drained) ∷ [] }) 7 30_000_000_004
      drained (omega arith) (inr (refl, omega arith))
