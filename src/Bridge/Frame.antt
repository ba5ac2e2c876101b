-- ===== src/Bridge/Frame.antt =====
-- `TeleopSession.frame` of ros2_ws/src/patrolbot_web_bridge/patrolbot_web_bridge/teleop.py: one
-- velocity frame of the browser, as decoded JSON.
use text.Mathlib.Text.{◌==◌ as str_eq}
use patrolbot_dashboard.Base.{
  ℕ, pos, String, Bool, true, false, not, ◌&&◌, ◌||◌, Option, none, some, List, [], ◌∷◌, all, leb_ℤ,
  maybe, is_none, if◌then◌else◌,
}
use patrolbot_dashboard.Base.Float.{Float, le, lt, sub, eq, is_finite}
use patrolbot_dashboard.Base.Text.{contains}
use patrolbot_dashboard.Protocol.Commands.{succeeded, failed, timeout}
use patrolbot_dashboard.TuningPolicy.{
  Value, missing, bool, int, float, str, finite_number, field, keys,
}
use patrolbot_dashboard.Bridge.Policy.{over, Resolution, resolved, refused}
use patrolbot_dashboard.Bridge.Session.{
  malformed, connection_changed, out_of_range, too_late, timed_out, released, policy,
  policy_changed, over_policy, unsafe, publication_failed, Contract, Env, TeleopSession, StepResult,
  done, raised, publish, zero, resolve, finish, failed_step, same_context, same_policy, within,
}

-- Decoded JSON: an object, or something else.
pub data Payload : Type 0 where
  not_dict : Payload
  dict : List (String × Value) → Payload

abbrev frame_keys : List String
frame_keys = "command_id" ∷ "seq" ∷ "linear" ∷ "angular" ∷ "deadman" ∷ []

-- `set(data) == {...}`.
abbrev pub has_frame_keys : List (String × Value) → Bool
has_frame_keys m =
    all (λ k. contains k frame_keys) (keys m) && all (λ k. contains k (keys m)) frame_keys

abbrev pub names : Value → Option String → Bool
names (str s) (some id) = str_eq s id
names missing none = true
names _ _ = false

abbrev pub is_number : Value → Bool
is_number (int _) = true
is_number (float _) = true
is_number _ = false

-- `math.isfinite`: it raises an OverflowError on an integer that no float holds, and a TypeError on
-- what is no number. A Boolean is one.
pub data Finite : Type 0 where
  is is_not overflows no_number : Finite

abbrev or_overflows : Option Float → Finite
or_overflows none = overflows
or_overflows (some x) = is

unfoldable pub isfinite : Value → Finite
isfinite (float x) = if is_finite x then is else is_not
isfinite (int n) = or_overflows (finite_number (int n))
isfinite (bool _) = is
isfinite _ = no_number

-- The number of a finite value.
abbrev pub number_of : Value → Float
number_of v = elim (finite_number v) [ none ↦ Float.nan | some x ↦ x ]

abbrev pub in_range : Float → Float → Float → Bool
in_range lo x hi = le lo x && le x hi

-- The four fields of a frame.
pub record Fields : Type 0 where
  pub seq : Value
  pub linear : Value
  pub angular : Value
  pub deadman : Value

abbrev pub fields_of : List (String × Value) → Fields
fields_of m = record {
  seq = field "seq" m;
  linear = field "linear" m;
  angular = field "angular" m;
  deadman = field "deadman" m;
}

-- A frame of the right types: sequence number, deadman and the two speeds.
pub record Velocity : Type 0 where
  pub seq : ℕ
  pub linear : Float
  pub angular : Float
  pub deadman : Bool

pub data Parsed : Type 0 where
  bad overflow type_error : Parsed
  good : Velocity → Parsed

unfoldable pub check_range : Contract → Velocity → Parsed
check_range c v =
    if in_range c.linear_min v.linear c.linear_max
      && in_range c.angular_min v.angular c.angular_max
      && (v.deadman || (eq v.linear zero && eq v.angular zero))
    then good v
    else bad

unfoldable pub check_finite : Contract → Velocity → Finite → Finite → Parsed
unfolding check_range
check_finite c v overflows _ = overflow
check_finite c v no_number _ = type_error
check_finite c v is_not _ = bad
check_finite c v is overflows = overflow
check_finite c v is no_number = type_error
check_finite c v is is_not = bad
check_finite c v is is = check_range c v

-- The types are tested before the values.
unfoldable pub parse_types : Contract → Value → Value → Value → Value → Parsed
unfolding check_finite isfinite
parse_types c (int (pos k)) (bool d) linear angular =
    if is_number linear && is_number angular
    then check_finite c
        (record { seq = k; linear = number_of linear; angular = number_of angular; deadman = d })
        (isfinite linear) (isfinite angular)
    else bad
parse_types c _ _ linear angular = bad

unfoldable pub parse : Contract → Fields → Parsed
unfolding parse_types
parse c f = parse_types c f.seq f.deadman f.linear f.angular

abbrev pub last_fresh : TeleopSession → Env → Option Float → Bool
last_fresh s env none = false
last_fresh s env (some t) =
    let elapsed = sub env.now t in le zero elapsed && lt elapsed s.contract.timeout_s

unfoldable pub after_publish : TeleopSession × Bool → StepResult
after_publish (s, true) = done s true
after_publish (s, false) = failed_step s publication_failed failed

unfoldable pub move : TeleopSession → Env → Velocity → StepResult
unfolding after_publish
move s env v =
    maybe
      (after_publish (publish (record s { last_received = some env.now }) v.linear v.angular true))
      (λ r. failed_step s (unsafe r) failed) env.safety

unfoldable pub frame_policy : TeleopSession → Env → Velocity → Resolution → StepResult
unfolding move
frame_policy s env v (refused r) = failed_step s (policy r) failed
frame_policy s env v (resolved p) =
    if not (same_policy p s.policy_signature)
    then failed_step s policy_changed failed
    else if over p v.linear v.angular
    then failed_step s over_policy failed
    else move s env v

-- A frame that is well formed, in its range and in time.
unfoldable pub frame_in_time : TeleopSession → Env → Velocity → StepResult
unfolding frame_policy
frame_in_time s env v =
    let s' = record s { sequence = pos v.seq } in
    if not v.deadman
    then done (finish s' released succeeded) true
    else frame_policy s' env v (resolve s' env)

unfoldable pub frame_parsed : TeleopSession → Env → Float → Parsed → StepResult
unfolding frame_in_time
frame_parsed s env received_at overflow = raised s
frame_parsed s env received_at type_error = raised s
frame_parsed s env received_at bad = failed_step s out_of_range failed
frame_parsed s env received_at (good v) =
    if leb_ℤ (pos v.seq) s.sequence
    then done s false
    else if not (within s.contract.timeout_s (sub env.now received_at))
    then failed_step s too_late timeout
    else if not (last_fresh s env s.last_received)
    then failed_step s timed_out timeout
    else frame_in_time s env v

unfoldable pub frame : TeleopSession → Env → Payload → ℕ → Float → StepResult
unfolding frame_parsed parse
frame s env not_dict context received_at = failed_step s malformed failed
frame s env (dict m) context received_at =
    if is_none s.command_id || not (names (field "command_id" m) s.command_id)
    then done s false
    else if not s.acknowledged
    then done s false
    else if not (same_context context s.context)
    then failed_step s connection_changed failed
    else if not (has_frame_keys m)
    then failed_step s malformed failed
    else frame_parsed s env received_at (parse s.contract (fields_of m))
