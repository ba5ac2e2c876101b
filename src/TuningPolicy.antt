-- ===== src/TuningPolicy.antt =====
-- server/app/commands/tuning_policy.py: the speed policy of manual drive. Untyped values are the
-- data type `Value`; the source that hands a policy over (`hub.tuning.teleop_policy`, or the
-- attribute of the robot's state) is a parameter, an answer of type `Source`.
pub mod Validation
pub mod Envelope
mod Examples
use text.Mathlib.Text.{◌==◌ as str_eq}
use patrolbot_dashboard.Base.{
  ℕ, ◌+◌, ◌*◌, ◌^◌, ◌-◌, ℤ, pos, negsuc, pos_part, neg_part, String, Bool, true, false, not, ◌&&◌,
  ◌||◌, Option, none, some, List, [], ◌∷◌, map, ltb, leb, ltb_ℤ, eqb_ℤ, ◌-ℤ◌, ◌==◌, any, all,
  length, is_some, if◌then◌else◌,
}
use patrolbot_dashboard.Base.Float.{Float, fin, nano, le, lt, add, sub, fabs, is_finite}
use patrolbot_dashboard.Base.Text.{codes, contains}

pub data Mode : Type 0 where
  legacy dynamic : Mode

pub data Value : Type 0 where
  missing : Value
  bool : Bool → Value
  int : ℤ → Value
  float : Float → Value
  str : String → Value
  other : Value

pub record TeleopPolicy : Type 0 where
  pub mode : Mode
  pub max_linear_m_s : Float
  pub max_angular_rad_s : Float
  pub generation : Option String
  pub received_mono : Option Float
  pub robot_generation : Option ℤ

abbrev pub hard_max_linear_m_s : Float
hard_max_linear_m_s = nano 300_000_000

abbrev pub hard_max_angular_rad_s : Float
hard_max_angular_rad_s = nano 700_000_000

abbrev pub policy_max_age_s : Float
policy_max_age_s = nano 5_000_000_000

abbrev pub policy_future_tolerance_s : Float
policy_future_tolerance_s = nano 500_000_000

abbrev pub max_generation_length : ℕ
max_generation_length = 128

abbrev pub policy_capabilities : List String
policy_capabilities = "robot_tuning_v1" ∷ "robot_tuning_policy_v1" ∷ []

abbrev pub legacy_policy : TeleopPolicy
legacy_policy = record {
  mode = legacy;
  max_linear_m_s = hard_max_linear_m_s;
  max_angular_rad_s = hard_max_angular_rad_s;
  generation = none;
  received_mono = none;
  robot_generation = none;
}

-- A frame asks for more than the policy allows, by more than a billionth.
unfoldable pub over_policy : TeleopPolicy → Float → Float → Bool
over_policy p linear angular =
    lt (add p.max_linear_m_s (nano 1)) (fabs linear)
    || lt (add p.max_angular_rad_s (nano 1)) (fabs angular)

unfoldable pub capability_requires_policy : List String → Bool
capability_requires_policy capabilities = any (λ c. contains c policy_capabilities) capabilities

-- From here on `float` of an integer overflows.
abbrev float_limit : ℕ
float_limit = 2 ^ 1024 - 2 ^ 970

-- An integer as a float, without the rounding of large ones.
abbrev to_float : ℤ → Float
to_float (pos n) = fin (pos (n * 1_000_000_000))
to_float (negsuc n) = fin (pos 0 -ℤ pos ((n + 1) * 1_000_000_000))

unfoldable pub finite_number : Value → Option Float
finite_number (int n) =
    if ltb (pos_part n + neg_part n) float_limit then some (to_float n) else none
finite_number (float x) = if is_finite x then some x else none
finite_number _ = none

abbrev is_alnum : ℕ → Bool
is_alnum c = (leb 97 c && leb c 122) || (leb 65 c && leb c 90) || (leb 48 c && leb c 57)

-- The characters `-`, `_`, `.` and `:`.
abbrev is_extra : ℕ → Bool
is_extra c = c == 45 || c == 95 || c == 46 || c == 58

-- Two dots in a row.
unfoldable pub has_dots : List ℕ → Bool
has_dots [] = false
has_dots (c ∷ []) = false
has_dots (c ∷ d ∷ rest) = (c == 46 && d == 46) || has_dots (d ∷ rest)

unfoldable pub valid_generation : Value → Bool
unfolding has_dots
valid_generation (str s) =
    let cs = codes s in
    leb 1 (length cs)
    && leb (length cs) max_generation_length
    && not (any (λ c. c == 47) cs || any (λ c. c == 92) cs || has_dots cs)
    && any is_alnum cs
    && all (λ c. is_alnum c || is_extra c) cs
valid_generation _ = false

pub data PolicyReason : Type 0 where
  unknown_fields missing_fields malformed : PolicyReason
  linear_not_finite linear_outside angular_not_finite angular_outside : PolicyReason
  generation_invalid receipt_invalid receipt_future stale binding_invalid : PolicyReason
  unavailable unreadable session_mismatch : PolicyReason

pub data Outcome : Type 0 where
  resolved : TeleopPolicy → Outcome
  refused : PolicyReason → Outcome

abbrev text_of : Value → Option String
text_of (str s) = some s
text_of _ = none

abbrev binding : Value → Option ℤ
binding (int n) = if ltb_ℤ n (pos 0) then none else some n
binding _ = none

-- `_validate_policy_fields` from the receipt time on.
bind_policy : Float → Float → Value → Float → Option ℤ → Outcome
bind_policy linear angular generation received none = refused binding_invalid
bind_policy linear angular generation received (some robot) = resolved (record {
  mode = dynamic;
  max_linear_m_s = linear;
  max_angular_rad_s = angular;
  generation = text_of generation;
  received_mono = some received;
  robot_generation = some robot;
})

check_receipt : Float → Float → Value → Option Float → Value → Float → Outcome
unfolding bind_policy
check_receipt linear angular generation none robot now = refused receipt_invalid
check_receipt linear angular generation (some received) robot now =
    if lt (add now policy_future_tolerance_s) received
    then refused receipt_future
    else if lt policy_max_age_s (sub now received)
    then refused stale
    else bind_policy linear angular generation received (binding robot)

check_angular : Float → Option Float → Value → Value → Value → Float → Outcome
unfolding check_receipt
check_angular linear none generation received robot now = refused angular_not_finite
check_angular linear (some angular) generation received robot now =
    if lt angular (nano 0) || lt hard_max_angular_rad_s angular
    then refused angular_outside
    else if not (valid_generation generation)
    then refused generation_invalid
    else check_receipt linear angular generation (finite_number received) robot now

check_linear : Option Float → Value → Value → Value → Value → Float → Outcome
unfolding check_angular
check_linear none angular generation received robot now = refused linear_not_finite
check_linear (some linear) angular generation received robot now =
    if lt linear (nano 0) || lt hard_max_linear_m_s linear
    then refused linear_outside
    else check_angular linear (finite_number angular) generation received robot now

-- The five fields, as values.
pub record Fields : Type 0 where
  pub linear : Value
  pub angular : Value
  pub generation : Value
  pub received : Value
  pub robot : Value

unfoldable pub validate_policy_fields : Fields → Float → Outcome
unfolding check_linear
validate_policy_fields f now =
    check_linear (finite_number f.linear) f.angular f.generation f.received f.robot now

-- What a source hands over: a policy object, a mapping or an object with attributes.
pub data Raw : Type 0 where
  policy : TeleopPolicy → Raw
  mapping : List (String × Value) → Raw
  object : List (String × Value) → Raw

unfoldable pub field : String → List (String × Value) → Value
field name [] = missing
field name ((k, v) ∷ rest) = if str_eq k name then v else field name rest

abbrev required_fields : List String
required_fields =
    "max_linear_m_s" ∷ "max_angular_rad_s" ∷ "generation" ∷ "received_mono" ∷ "robot_generation"
    ∷ []

abbrev pub keys : List (String × Value) → List String
keys m = map (λ e. e.0) m

abbrev from_attributes : List (String × Value) → Fields
from_attributes m = record {
  linear = field "max_linear_m_s" m;
  angular = field "max_angular_rad_s" m;
  generation = field "generation" m;
  received = field "received_mono" m;
  robot = field "robot_generation" m;
}

abbrev from_policy : TeleopPolicy → Fields
from_policy p = record {
  linear = float p.max_linear_m_s;
  angular = float p.max_angular_rad_s;
  generation = elim p.generation [ none ↦ missing | some s ↦ str s ];
  received = elim p.received_mono [ none ↦ missing | some t ↦ float t ];
  robot = elim p.robot_generation [ none ↦ missing | some n ↦ int n ];
}

unfoldable pub parse_policy : Raw → Float → Outcome
unfolding validate_policy_fields field
parse_policy (policy p) now = validate_policy_fields (from_policy p) now
parse_policy (object m) now = validate_policy_fields (from_attributes m) now
parse_policy (mapping m) now =
    if any (λ k. not (contains k required_fields)) (keys m)
    then refused unknown_fields
    else if any (λ k. not (contains k (keys m))) required_fields
    then refused missing_fields
    else validate_policy_fields (from_attributes m) now

-- The answer of the trusted source: nothing, a raw value, or an exception.
pub data Source : Type 0 where
  nothing raises : Source
  gives : Raw → Source

pub same_session : Option ℤ → Option ℤ → Bool
same_session none none = true
same_session (some a) (some b) = eqb_ℤ a b
same_session _ _ = false

pub bound_to : Option ℤ → Outcome → Outcome
unfolding same_session
bound_to robot (refused r) = refused r
bound_to robot (resolved p) =
    if same_session p.robot_generation robot then resolved p else refused session_mismatch

from_source : Source → Float → Option ℤ → Outcome
unfolding bound_to parse_policy
from_source nothing now robot = refused unavailable
from_source raises now robot = refused unreadable
from_source (gives raw) now robot = bound_to robot (parse_policy raw now)

unfoldable pub resolve_policy : List String → Source → Float → Option ℤ → Outcome
unfolding from_source
resolve_policy capabilities source now robot =
    if not (capability_requires_policy capabilities)
    then resolved legacy_policy
    else from_source source now robot
