-- ===== src/RateLimit/Bound.antt =====
-- How many requests of one key the limiter lets through.
use patrolbot_dashboard.Base.{
  ℕ, ◌+◌, ◌-◌, ◌*◌, ◌≤◌, ◌≡◌, refl, ap, Bool, true, false, Option, none, some, List, [], ◌∷◌, ◌==◌,
  ==_iff, Bool-cases, ◌⊎◌, inl, inr, if◌then◌else◌, arith,
}
use patrolbot_dashboard.Base.Dict.{get, get-insert}
use patrolbot_dashboard.RateLimit.{Bucket, RateLimiter, token, refilled, take_token, allow}

cost : Bool → ℕ
cost true = 1
cost false = 0

-- The requests of a run, each a key and a time, and how many of one key passed.
unfoldable pub passed : ℕ → RateLimiter → List (ℕ × ℕ) → ℕ
unfolding cost
passed key l [] = 0
passed key l ((k, now) ∷ rest) =
    let (l', allowed) = allow l k now in (if k == key then cost allowed else 0) + passed key l' rest

-- The times of a run do not go back, and lie between two times.
abbrev pub Runs : ℕ → List (ℕ × ℕ) → ℕ → Type 0
Runs start [] stop = start ≤ stop
Runs start ((k, now) ∷ rest) stop = (start ≤ now) × Runs now rest stop

-- What a key may spend at a time.
available : ℕ → ℕ → Option Bucket → ℕ
available capacity now none = capacity * token
available capacity now (some b) = refilled capacity now b

-- A bucket is not from the future.
abbrev pub Past : ℕ → Option Bucket → Type 0
Past now none = Unit {0}
Past now (some b) = b.updated ≤ now

split_time : (a b c k : ℕ) → a ≤ b → b ≤ c → (c - a) * k ≡ (b - a) * k + (c - b) * k
split_time a b c k h j = let e : c - a ≡ (b - a) + (c - b) = omega arith in rw e (grind arith)

available_grows :
    (capacity start now : ℕ) (b : Option Bucket)
    → Past start b
    → start ≤ now
    → available capacity now b ≤ available capacity start b + (now - start) * capacity
unfolding available refilled
available_grows capacity start now none p h = omega arith
available_grows capacity start now (some b) p h =
    omega (arith, split_time b.updated start now capacity p h)

available-le : (capacity now : ℕ) (b : Option Bucket) → available capacity now b ≤ capacity * token
unfolding available refilled
available-le capacity now none = omega arith
available-le capacity now (some b) = omega arith

refilled_now : (capacity t : ℕ) (b : Bucket) → b.updated ≡ t → refilled capacity t b ≤ b.tokens
unfolding refilled
refilled_now capacity t b e =
    let z : (t - b.updated) * capacity ≡ 0 = rw e (grind arith) in omega arith

take_token_pays :
    (capacity now : ℕ) (b : Option Bucket)
    → 1 ≤ capacity
    → let (c, allowed) = take_token capacity now b in
      (c.updated ≡ now) × (cost allowed * token + c.tokens ≤ available capacity now b)
unfolding take_token cost available
take_token_pays capacity now none h = (refl, omega arith)
take_token_pays capacity now (some b) h = ground arith

available-some :
    (capacity t : ℕ) (b : Bucket) → available capacity t (some b) ≡ refilled capacity t b
unfolding available
available-some capacity t b = refl

-- One request: what it costs and leaves is covered by what was available.
allow_pays :
    (l : RateLimiter) (key k now : ℕ)
    → 1 ≤ l.capacity
    → Past now (get key l.buckets)
    → let (l', allowed) = allow l k now in
      ((if k == key then cost allowed else 0) * token
          + available l.capacity now (get key l'.buckets)
        ≤ available l.capacity now (get key l.buckets))
      × Past now (get key l'.buckets)
      × (l'.capacity ≡ l.capacity)
unfolding allow
allow_pays l key k now c p =
    let (b, allowed) = take_token l.capacity now (get k l.buckets) in
    let (e, pays) = take_token_pays l.capacity now (get k l.buckets) c in
    elim (Bool-cases (k == key)) [
      | inl same ↦
          rw (get-insert k key b l.buckets, same)
            (
              omega (
                arith,
                refilled_now l.capacity now b e,
                pays,
                ap (λ j. available l.capacity now (get j l.buckets)) ((==_iff k key).0 same),
                available-some l.capacity now b,
              ),
              omega (arith, e),
              refl,
            )
      | inr other ↦ rw (get-insert k key b l.buckets, other) (omega arith, p, refl)
    ]

Past-later : (b : Option Bucket) (t now : ℕ) → t ≤ now → Past t b → Past now b
Past-later none t now h p = tt
Past-later (some b) t now h p = omega arith

Runs-le : (start : ℕ) (events : List (ℕ × ℕ)) (stop : ℕ) → Runs start events stop → start ≤ stop
Runs-le start [] stop r = r
Runs-le start ((k, now) ∷ rest) stop r = omega (arith, Runs-le now rest stop r.1)

passed_pays :
    (key : ℕ) (l : RateLimiter) (start : ℕ) (events : List (ℕ × ℕ)) (stop : ℕ)
    → 1 ≤ l.capacity
    → Past start (get key l.buckets)
    → Runs start events stop
    → passed key l events * token
      ≤ available l.capacity start (get key l.buckets) + (stop - start) * l.capacity
unfolding passed
passed_pays key l start [] stop c p r = omega arith
passed_pays key l start ((k, now) ∷ rest) stop c p r =
    let before = get key l.buckets in
    let q = Past-later before start now r.0 p in
    let (pays, past, same) = allow_pays l key k now c q in
    let l' = (allow l k now).0 in
    let rest_pays = passed_pays key l' now rest stop (rw same c) past r.1 in
    omega (
      arith,
      pays,
      rw same at rest_pays,
      available_grows l.capacity start now before p r.0,
      split_time start now stop l.capacity r.0 (Runs-le now rest stop r.1),
    )

-- Of the requests between two times, however they mix keys, a limiter whose buckets are not from
-- the future lets through at most `capacity` of one key, and `capacity` more for each minute.
pub passed-le :
    (key : ℕ) (l : RateLimiter) (start : ℕ) (events : List (ℕ × ℕ)) (stop : ℕ)
    → 1 ≤ l.capacity
    → Past start (get key l.buckets)
    → Runs start events stop
    → passed key l events * token ≤ l.capacity * token + (stop - start) * l.capacity
passed-le key l start events stop c p r = omega (
  arith,
  passed_pays key l start events stop c p r,
  available-le l.capacity start (get key l.buckets),
)

-- A key whose bucket could refill by a whole token since its last request is let through, and so
-- is a key that was never seen.
pub allow_after_refill :
    (l : RateLimiter) (key now : ℕ) (b : Bucket)
    → 1 ≤ l.capacity
    → (get key l.buckets ≡ none)
      ⊎ ((get key l.buckets ≡ some b) × (token ≤ (now - b.updated) * l.capacity))
    → (allow l key now).1 ≡ true
unfolding allow refilled
allow_after_refill l key now b c (inl e) = rw (e, take_token) refl
allow_after_refill l key now b c (inr (e, h)) = rw (e, take_token) (ground arith)
