-- ===== src/Bridge/Policy.antt =====
-- The speed policy as the robot's bridge derives it again,
-- ros2_ws/src/patrolbot_web_bridge/patrolbot_web_bridge/teleop.py. The helpers `_finite_number`
-- and `_valid_generation` of that file are the server's, letter for letter, and are shared.
use text.Mathlib.Text.{◌==◌ as str_eq}
use patrolbot_dashboard.Base.{
  pos, String, Bool, true, false, not, ◌&&◌, ◌||◌, Option, none, some, List, ltb_ℤ, if◌then◌else◌,
}
use patrolbot_dashboard.Base.Float.{Float, nano, lt, add, sub, fabs, eq}
use patrolbot_dashboard.TuningPolicy.{
  Value, missing, int, str, finite_number, valid_generation, field, PolicyReason, linear_not_finite,
  linear_outside, angular_not_finite, angular_outside, generation_invalid, receipt_invalid,
  receipt_future, stale, binding_invalid, unavailable, unreadable,
}

pub record RuntimePolicy : Type 0 where
  pub max_linear : Float
  pub max_angular : Float
  pub generation : Option String
  pub dynamic : Bool

abbrev same_text : Option String → Option String → Bool
same_text none none = true
same_text (some a) (some b) = str_eq a b
same_text _ _ = false

abbrev same_bool : Bool → Bool → Bool
same_bool true b = b
same_bool false b = not b

-- Equality of `signature`s.
unfoldable pub same_signature : RuntimePolicy → RuntimePolicy → Bool
same_signature p q =
    same_bool p.dynamic q.dynamic
    && eq p.max_linear q.max_linear
    && eq p.max_angular q.max_angular
    && same_text p.generation q.generation

unfoldable pub over : RuntimePolicy → Float → Float → Bool
over p linear angular =
    lt (add p.max_linear (nano 1)) (fabs linear) || lt (add p.max_angular (nano 1)) (fabs angular)

pub data Resolution : Type 0 where
  resolved : RuntimePolicy → Resolution
  refused : PolicyReason → Resolution

abbrev text_of : Value → Option String
text_of (str s) = some s
text_of _ = none

-- A session binding that is there is a number that is not negative.
abbrev bad_binding : Value → Bool
bad_binding missing = false
bad_binding (int n) = ltb_ℤ n (pos 0)
bad_binding _ = true

unfoldable pub check_receipt : Float → Float → Value → Option Float → Value → Float → Resolution
check_receipt linear angular generation none robot now = refused receipt_invalid
check_receipt linear angular generation (some received) robot now =
    if lt (add now (nano 500_000_000)) received
    then refused receipt_future
    else if lt (nano 5_000_000_000) (sub now received)
    then refused stale
    else if bad_binding robot
    then refused binding_invalid
    else resolved (record {
      max_linear = linear;
      max_angular = angular;
      generation = text_of generation;
      dynamic = true;
    })

unfoldable pub check_angular :
    Float → Float → Option Float → Value → Value → Value → Float → Resolution
unfolding check_receipt
check_angular hard linear none generation received robot now = refused angular_not_finite
check_angular hard linear (some angular) generation received robot now =
    if lt angular (nano 0) || lt hard angular
    then refused angular_outside
    else if not (valid_generation generation)
    then refused generation_invalid
    else check_receipt linear angular generation (finite_number received) robot now

unfoldable pub check_linear :
    Float → Float → Option Float → Value → Value → Value → Value → Float → Resolution
unfolding check_angular
check_linear hard_linear hard_angular none angular generation received robot now =
    refused linear_not_finite
check_linear hard_linear hard_angular (some linear) angular generation received robot now =
    if lt linear (nano 0) || lt hard_linear linear
    then refused linear_outside
    else check_angular hard_angular linear (finite_number angular) generation received robot now

-- A mapping, or an object by its attributes: a field that is not there is `None`.
unfoldable pub parse_runtime_policy : List (String × Value) → Float → Float → Float → Resolution
unfolding check_linear field
parse_runtime_policy raw now hard_linear hard_angular =
    check_linear hard_linear hard_angular (finite_number (field "max_linear_m_s" raw))
      (field "max_angular_rad_s" raw) (field "generation" raw) (field "received_mono" raw)
      (field "robot_generation" raw) now

-- What the adapter's callable answers.
pub data Answer : Type 0 where
  nothing raises : Answer
  gives : List (String × Value) → Answer

unfoldable pub resolve_policy : Answer → Bool → Float → Float → Float → Resolution
unfolding parse_runtime_policy
resolve_policy raises required now hard_linear hard_angular = refused unreadable
resolve_policy nothing required now hard_linear hard_angular =
    if required
    then refused unavailable
    else resolved (record {
      max_linear = hard_linear;
      max_angular = hard_angular;
      generation = none;
      dynamic = false;
    })
resolve_policy (gives raw) required now hard_linear hard_angular =
    parse_runtime_policy raw now hard_linear hard_angular
