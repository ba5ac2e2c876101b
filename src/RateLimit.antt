-- ===== src/RateLimit.antt =====
-- `RateLimiter` of server/app/commands/lease.py: a token bucket per key. Time is in billionths of
-- a second, as `time.monotonic` of the call. Tokens are counted in units of which 60 * 10^9 make
-- one token, so that a refill of capacity / 60 tokens a second is `capacity` units a billionth:
-- the arithmetic is that of the source without its rounding.
pub mod Bound
mod Examples
use patrolbot_dashboard.Base.{
  ℕ, ◌+◌, ◌-◌, ◌*◌, min, max, ℤ, pos_part, Bool, true, false, Option, none, some, List, [], ◌∷◌,
  leb, if◌then◌else◌,
}
use patrolbot_dashboard.Base.Dict.{get, insert}

abbrev pub token : ℕ
token = 60_000_000_000

pub record Bucket : Type 0 where
  pub tokens : ℕ
  pub updated : ℕ

pub record RateLimiter : Type 0 where
  pub capacity : ℕ
  pub buckets : List (ℕ × Bucket)

unfoldable pub init : ℤ → RateLimiter
init per_minute = record { capacity = max 1 (pos_part per_minute); buckets = [] }

-- The tokens of a bucket at `now`, before the request takes one.
unfoldable pub refilled : ℕ → ℕ → Bucket → ℕ
refilled capacity now b = min (capacity * token) (b.tokens + (now - b.updated) * capacity)

-- The new bucket, and whether the request passes.
unfoldable pub take_token : ℕ → ℕ → Option Bucket → Bucket × Bool
unfolding refilled
take_token capacity now none = (record { tokens = capacity * token - token; updated = now }, true)
take_token capacity now (some b) =
    let tokens = refilled capacity now b in
    if leb token tokens
    then (record { tokens = tokens - token; updated = now }, true)
    else (record { tokens = tokens; updated = now }, false)

unfoldable pub allow : RateLimiter → ℕ → ℕ → RateLimiter × Bool
unfolding take_token
allow l key now =
    let (b, allowed) = take_token l.capacity now (get key l.buckets) in
    (record l { buckets = insert key b l.buckets }, allowed)
