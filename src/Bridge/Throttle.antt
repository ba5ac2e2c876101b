-- ===== src/Bridge/Throttle.antt =====
-- `Debounce` and `Throttle` of ros2_ws/src/patrolbot_web_bridge/patrolbot_web_bridge/throttle.py.
-- `same` is Python's `==` on the values that are read; each call reads the clock once.
use patrolbot_dashboard.Base.{Bool, true, false, not, Option, none, some, if◌then◌else◌}
use patrolbot_dashboard.Base.Float.{Float, nano, le, sub}

pub record Debounce (A : Type 0) : Type 0 where
  pub settle_s : Float
  pub stable : Option A
  pub candidate : Option A
  pub candidate_since : Float
  pub seeded : Bool

unfoldable pub new_debounce : {A : Type 0} → Float → Debounce A
new_debounce settle_s = record {
  settle_s = settle_s;
  stable = none;
  candidate = none;
  candidate_since = nano 0;
  seeded = false;
}

module _ {A : Type 0} (same : A → A → Bool) where
  abbrev pub is : A → Option A → Bool
  is value none = false
  is value (some x) = same value x

  -- The reading becomes the candidate, now.
  abbrev pub restart : Debounce A → A → Float → Debounce A
  restart d value now = record d { candidate = some value; candidate_since = now }

  -- `update`; what it returns is the stable value after it.
  unfoldable pub update : Debounce A → A → Float → Debounce A
  update d value now =
      if not d.seeded
      then record (restart d value now) { seeded = true; stable = some value }
      else if is value d.stable
      then restart d value now
      else if not (is value d.candidate)
      then restart d value now
      else if le d.settle_s (sub now d.candidate_since)
      then record d { stable = some value }
      else d

pub record Throttle : Type 0 where
  pub min_interval : Float
  pub last : Float

unfoldable pub new_throttle : Float → Throttle
new_throttle min_interval_s = record { min_interval = min_interval_s; last = nano 0 }

unfoldable pub ready : Throttle → Float → Throttle × Bool
ready t now =
    if le t.min_interval (sub now t.last) then (record t { last = now }, true) else (t, false)
