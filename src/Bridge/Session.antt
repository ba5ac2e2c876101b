-- ===== src/Bridge/Session.antt =====
-- `TeleopSession` of ros2_ws/src/patrolbot_web_bridge/patrolbot_web_bridge/teleop.py: the robot's
-- own lease of manual drive. What a call reads from outside is its `Env`: the clock, which a call
-- reads once, the answer of `safety`, the adapter's policy, and `uuid.UUID`, which gives the
-- canonical text of an id or fails. `outcomes` says of each coming call of `publish` whether it
-- succeeds. `sent` holds what went out, newest first; a call that raises is kept as a result.
use patrolbot_dashboard.Base.{
  ℕ, ℤ, negsuc, String, Bool, true, false, not, ◌&&◌, ◌||◌, Option, none, some, List, [], ◌∷◌,
  length, ◌==◌, leb, maybe, is_some, if◌then◌else◌,
}
use patrolbot_dashboard.Base.Float.{Float, nano, le, lt, sub}
use patrolbot_dashboard.Base.Text.{codes, lower, codes_eq, contains}
use patrolbot_dashboard.Protocol.Commands.{CommandOutcome, failed, canceled, timeout}
use patrolbot_dashboard.TuningPolicy.{Value, Value, PolicyReason, str}
use patrolbot_dashboard.Bridge.Policy.{
  RuntimePolicy, same_signature, Resolution, resolved, refused, Answer, resolve_policy,
}

-- Why a session is refused or ends. `unsafe` holds the answer of `safety`.
pub data Cause : Type 0 where
  unauthorized owned ended_already stale_request history_full : Cause
  unsafe : ℕ → Cause
  policy : PolicyReason → Cause
  zero_failed changed_before_acceptance policy_changed malformed connection_changed : Cause
  out_of_range too_late timed_out released over_policy publication_failed not_clear : Cause
  stopped joystick_control maintenance action_started producer_changed no_sole_path : Cause
  stop_unauthorized closing : Cause

pub data Message : Type 0 where
  published : Float → Float → Bool → Message
  ack : Value → Bool → Option Cause → Message
  ready : String → Message
  result : String → CommandOutcome → Cause → Bool → Message

pub record Contract : Type 0 where
  pub linear_min : Float
  pub linear_max : Float
  pub angular_min : Float
  pub angular_max : Float
  pub timeout_s : Float

pub record Env : Type 0 where
  pub now : Float
  pub safety : Option ℕ
  pub answer : Answer
  pub policy_required : Bool
  pub uuid : String → Option String

pub record TeleopSession : Type 0 where
  pub contract : Contract
  pub policy_signature : Option RuntimePolicy
  pub command_id : Option String
  pub context : Option ℕ
  pub sequence : ℤ
  pub last_received : Option Float
  pub acknowledged : Bool
  pub preparing_at : Option Float
  pub seen : List String
  pub outcomes : List Bool
  pub sent : List Message

-- `__init__`.
unfoldable pub new_session : Contract → List Bool → TeleopSession
new_session contract outcomes = record {
  contract = contract;
  policy_signature = none;
  command_id = none;
  context = none;
  sequence = negsuc 0;
  last_received = none;
  acknowledged = false;
  preparing_at = none;
  seen = [];
  outcomes = outcomes;
  sent = [];
}

pub data StepResult : Type 0 where
  done : TeleopSession → Bool → StepResult
  raised : TeleopSession → StepResult

abbrev pub state_of : StepResult → TeleopSession
state_of (done s _) = s
state_of (raised s) = s

-- `valid_id`.
unfoldable pub valid_id : (String → Option String) → Value → Bool
valid_id uuid (str s) = leb (length (codes s)) 128 && elim (uuid s) [
  | none ↦ false
  | some canonical ↦ codes_eq (codes canonical) (lower (codes s))
]
valid_id uuid _ = false

unfoldable pub say : TeleopSession → Message → TeleopSession
say s m = record s { sent = m ∷ s.sent }

abbrev pub next_outcome : List Bool → Bool × List Bool
next_outcome [] = (false, [])
next_outcome (b ∷ rest) = (b, rest)

-- One call of `publish`, and whether it went through.
unfoldable pub publish : TeleopSession → Float → Float → Bool → TeleopSession × Bool
unfolding say
publish s linear angular moving =
    let (went, rest) = next_outcome s.outcomes in
    let s' = record s { outcomes = rest } in
    (if went then say s' (published linear angular moving) else s', went)

abbrev pub zero : Float
zero = nano 0

unfoldable pub resolve : TeleopSession → Env → Resolution
resolve s env =
    resolve_policy env.answer env.policy_required env.now s.contract.linear_max
      s.contract.angular_max

abbrev pub active : TeleopSession → Bool
active s = is_some s.command_id

unfoldable pub closed : TeleopSession → TeleopSession
closed s = record s {
  command_id = none;
  context = none;
  last_received = none;
  acknowledged = false;
  preparing_at = none;
  policy_signature = none;
}

-- The outcome `timeout` is kept for an unknown one.
abbrev terminal : CommandOutcome → CommandOutcome
terminal timeout = canceled
terminal o = o

unfoldable pub report :
    TeleopSession → Option String → Bool → Cause → CommandOutcome → Bool → TeleopSession
unfolding say
report s none acknowledged reason outcome went = s
report s (some id) acknowledged reason outcome went =
    if acknowledged
    then say s (result id (terminal (if went then outcome else failed)) reason went)
    else say s (ack (str id) false (some reason))

-- `end`: the session is closed and a zero is published, whatever it was.
unfoldable pub finish : TeleopSession → Cause → CommandOutcome → TeleopSession
unfolding closed publish report
finish s reason outcome =
    let (s', went) = publish (closed s) zero zero false in
    report s' s.command_id s.acknowledged reason outcome went

abbrev pub same_context : ℕ → Option ℕ → Bool
same_context c none = false
same_context c (some d) = d == c

abbrev pub failed_step : TeleopSession → Cause → CommandOutcome → StepResult
failed_step s reason outcome = done (finish s reason outcome) false

abbrev pub same_policy : RuntimePolicy → Option RuntimePolicy → Bool
same_policy p none = false
same_policy p (some q) = same_signature p q

unfoldable pub accept : TeleopSession → Env → TeleopSession
unfolding say
accept s env =
    let s' = record s { acknowledged = true; last_received = some env.now } in
    maybe s' (λ id. say (say s' (ack (str id) true none)) (ready id)) s.command_id

unfoldable pub confirm_policy : TeleopSession → Env → Resolution → StepResult
confirm_policy s env (refused r) = failed_step s (policy r) failed
confirm_policy s env (resolved p) =
    if same_policy p s.policy_signature
    then done (accept s env) true
    else failed_step s policy_changed failed

unfoldable pub confirm_start : TeleopSession → Env → ℕ → StepResult
unfolding confirm_policy
confirm_start s env context =
    if not (active s) || s.acknowledged
    then done s false
    else maybe
        (if not (same_context context s.context)
          then failed_step s changed_before_acceptance failed
          else confirm_policy s env (resolve s env))
        (λ r. failed_step s (unsafe r) failed) env.safety

-- A request of a start: an id of any type, and the time it was received, if it has one.
pub record StartRequest : Type 0 where
  pub command_id : Value
  pub authorized : Bool
  pub received_at : Option Float
  pub defer_ack : Bool

abbrev pub within : Float → Float → Bool
within limit age = le zero age && le age limit

abbrev pub fresh : TeleopSession → Env → Option Float → Bool
fresh s env none = false
fresh s env (some t) = within s.contract.timeout_s (sub env.now t)

abbrev pub text_value : Value → String
text_value (str s) = s
text_value _ = ""

abbrev pub was_seen : TeleopSession → Value → Bool
was_seen s (str id) = contains id s.seen
was_seen s _ = false

-- The checks of `start`: the signature that it keeps, or the refusal.
unfoldable pub start_policy : Resolution → Option RuntimePolicy × Option Cause
start_policy (refused r) = (none, some (policy r))
start_policy (resolved p) = (some p, none)

unfoldable pub check_start :
    TeleopSession → Env → StartRequest → Option RuntimePolicy × Option Cause
unfolding start_policy
check_start s env q =
    if not q.authorized || not (valid_id env.uuid q.command_id)
    then (none, some unauthorized)
    else if active s
    then (none, some owned)
    else if was_seen s q.command_id
    then (none, some ended_already)
    else if not (fresh s env q.received_at)
    then (none, some stale_request)
    else maybe (start_policy (resolve s env)) (λ r. (none, some (unsafe r))) env.safety

abbrev pub seen_limit : ℕ
seen_limit = 4096

abbrev pub begun : TeleopSession → Env → String → ℕ → TeleopSession
begun s env id context = record s {
  seen = id ∷ s.seen;
  command_id = some id;
  context = some context;
  sequence = negsuc 0;
  last_received = some env.now;
  preparing_at = some env.now;
  acknowledged = false;
}

unfoldable pub after_zero : Env → ℕ → Bool → TeleopSession × Bool → StepResult
after_zero env context defer_ack (s, false) = failed_step s zero_failed failed
after_zero env context defer_ack (s, true) =
    if defer_ack then done s true else done (state_of (confirm_start s env context)) true

-- `start` after its checks.
unfoldable pub begin : TeleopSession → Env → StartRequest → ℕ → StepResult
unfolding after_zero publish say
begin s env q context =
    if leb seen_limit (length s.seen)
    then done (say s (ack q.command_id false (some history_full))) false
    else after_zero env context q.defer_ack
        (publish (begun s env (text_value q.command_id) context) zero zero false)

unfoldable pub start_checked :
    TeleopSession → Env → StartRequest → ℕ → Option RuntimePolicy × Option Cause → StepResult
unfolding begin say
start_checked s env q context (_, some reason) =
    done (say s (ack q.command_id false (some reason))) false
start_checked s env q context (p, none) = begin (record s { policy_signature = p }) env q context

unfoldable pub start : TeleopSession → Env → StartRequest → ℕ → StepResult
unfolding start_checked
start s env q context = start_checked s env q context (check_start s env q)

-- The watchdog of `tick` on a session that everything else allows.
unfoldable pub watch : TeleopSession → Env → TeleopSession
watch s env =
    if not s.acknowledged
    then maybe s
        (λ t. if le (nano 5_000_000_000) (sub env.now t) then finish s not_clear timeout else s)
        s.preparing_at
    else maybe s
        (λ t.
          let elapsed = sub env.now t in
          if le zero elapsed && lt elapsed s.contract.timeout_s
          then s
          else finish s timed_out timeout)
        s.last_received

unfoldable pub tick_policy : TeleopSession → Env → Resolution → TeleopSession
unfolding watch
tick_policy s env (refused r) = finish s (policy r) failed
tick_policy s env (resolved p) =
    if not (same_policy p s.policy_signature) then finish s policy_changed failed else watch s env

unfoldable pub tick : TeleopSession → Env → ℕ → TeleopSession
unfolding tick_policy
tick s env context =
    if not (active s)
    then s
    else if not (same_context context s.context)
    then finish s connection_changed failed
    else maybe (tick_policy s env (resolve s env)) (λ r. finish s (unsafe r) failed) env.safety
