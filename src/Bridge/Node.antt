-- ===== src/Bridge/Node.antt =====
-- `RosTeleop` of ros2_ws/src/patrolbot_web_bridge/patrolbot_web_bridge/teleop.py around its session:
-- start and stop messages, the joystick, configuration maintenance, other actions, and the drain of
-- the downstream velocities that a start waits for. What ROS reports is a parameter of each call;
-- the evidence topics and the polling of the idle service are left out.
use patrolbot_dashboard.Base.{
  ℤ, pos, ltb_ℤ, Bool, true, false, not, ◌&&◌, ◌||◌, Option, none, some, List, ℕ, all, any, is_none,
  ◌==◌, if◌then◌else◌,
}
use patrolbot_dashboard.Base.Float.{Float, nano, le, sub, eq, is_finite}
use patrolbot_dashboard.Protocol.Commands.{succeeded, failed, canceled}
use patrolbot_dashboard.TuningPolicy.{Value}
use patrolbot_dashboard.Bridge.Session.{
  Cause, stopped, joystick_control, maintenance, action_started, producer_changed, no_sole_path,
  stop_unauthorized, closing, ack, result, Env, TeleopSession, state_of, say, publish, zero, active,
  finish, confirm_start, StartRequest, start, tick, valid_id, text_value,
}
use patrolbot_dashboard.Bridge.Safety.{hardware_timeout_s}

pub data Topic : Type 0 where
  cmd_vel_out cmd_vel : Topic

-- Since when a topic has been zero, if it is, and when it was heard last.
pub record Drain : Type 0 where
  pub since : Option Float
  pub heard : Float

pub record RosTeleop : Type 0 where
  pub session : TeleopSession
  pub drain : Topic → Option Drain
  pub drain_source : Topic → ℤ
  pub writers : Option ℕ
  pub tuning_hold : Bool
  pub manual_at : Option Float
  pub action_active : ℕ → Bool

abbrev pub same_topic : Topic → Topic → Bool
same_topic cmd_vel_out cmd_vel_out = true
same_topic cmd_vel cmd_vel = true
same_topic _ _ = false

abbrev pub set_at : {A : Type 0} → (Topic → A) → Topic → A → Topic → A
set_at f t a u = if same_topic t u then a else f u

-- A downstream velocity with its endpoint, which is the expected sole publisher or not.
pub record Sample : Type 0 where
  pub expected_publisher : Bool
  pub stamp : ℤ
  pub age : Float
  pub values : List Float

abbrev pub ended : RosTeleop → Cause → RosTeleop
ended n reason = record n { session = finish n.session reason failed }

abbrev pub valid : RosTeleop → Topic → Sample → Bool
valid n topic x =
    x.expected_publisher
    && ltb_ℤ (n.drain_source topic) x.stamp
    && le (nano 0) x.age
    && le x.age hardware_timeout_s

abbrev pub since_of : Option Drain → Option Float
since_of none = none
since_of (some d) = d.since

abbrev pub since_or_now : Option Float → Float → Option Float
since_or_now none now = some now
since_or_now (some t) now = some t

unfoldable pub observe : RosTeleop → Topic → Sample → Float → RosTeleop
observe n topic x now =
    if not (all is_finite x.values)
    then ended n producer_changed
    else if all (λ v. eq v zero) x.values
    then record n {
      drain =
          set_at n.drain topic
            (some (record { since = since_or_now (since_of (n.drain topic)) now; heard = now }));
    }
    else if not n.session.acknowledged
    then record n { drain = set_at n.drain topic (some (record { since = none; heard = now })) }
    else n

-- `_on_buffer`; a sample that ROS cannot describe is none.
unfoldable pub on_buffer : RosTeleop → Topic → Option Sample → Float → RosTeleop
unfolding observe
on_buffer n topic none now = if not (active n.session) then n else ended n producer_changed
on_buffer n topic (some x) now =
    if not (active n.session)
    then n
    else if not (valid n topic x)
    then ended n producer_changed
    else observe (record n { drain_source = set_at n.drain_source topic x.stamp }) topic x now

unfoldable pub on_joystick : RosTeleop → Bool → Float → RosTeleop
on_joystick n false now = record n { manual_at = none }
on_joystick n true now = record n {
  manual_at = some now;
  session = if active n.session then finish n.session joystick_control canceled else n.session;
}

unfoldable pub on_tuning_hold : RosTeleop → Bool → RosTeleop
on_tuning_hold n hold = record n {
  tuning_hold = hold;
  session = if hold && active n.session then finish n.session maintenance canceled else n.session;
}

-- The answer of `_tuning_idle`.
unfoldable pub tuning_idle : RosTeleop → Bool
tuning_idle n = n.tuning_hold && not (active n.session)

-- A goal that is accepted, executing or canceling.
abbrev running : ℕ → Bool
running status = status == 1 || status == 2 || status == 3

unfoldable pub on_action : RosTeleop → ℕ → List ℕ → RosTeleop
on_action n action statuses =
    let busy = any running statuses in
    let n' = record n { action_active = λ a. if a == action then busy else n.action_active a } in
    if busy && active n.session then ended n' action_started else n'

abbrev never : Topic → Option Drain
never _ = none

-- `teleop_start` of `handle`: `identity` is the path's, where it has one publisher a topic.
unfoldable pub handle_start : RosTeleop → Env → StartRequest → ℕ → Option ℕ → RosTeleop
handle_start n env q context identity =
    if active n.session
    then record n {
      session = state_of (start n.session env (record q { defer_ack = true }) context);
    }
    else if is_none identity
    then record n {
      writers = identity;
      session = say n.session (ack q.command_id false (some no_sole_path));
    }
    else record n {
      writers = identity;
      drain = never;
      drain_source = λ _. pos 0;
      session = state_of (start n.session env (record q { defer_ack = true }) context);
    }

-- `teleop_stop` of `handle`.
unfoldable pub handle_stop : RosTeleop → Env → Value → Bool → RosTeleop
handle_stop n env command_id authorized =
    if not authorized || not (valid_id env.uuid command_id)
    then record n { session = say n.session (ack command_id false (some stop_unauthorized)) }
    else record n {
      session =
          say (say (finish n.session stopped canceled) (ack command_id true none))
            (result (text_value command_id) succeeded stopped true);
    }

abbrev pub zero_for : Option Drain → Float → Bool
zero_for none now = false
zero_for (some d) now = elim d.since [
  | none ↦ false
  | some t ↦
      le hardware_timeout_s (sub now t)
      && le (nano 0) (sub now d.heard)
      && le (sub now d.heard) hardware_timeout_s
]

-- Both outputs have been zero for long enough, and were heard of lately.
unfoldable pub drained : RosTeleop → Float → Bool
drained n now = zero_for (n.drain cmd_vel_out) now && zero_for (n.drain cmd_vel) now

unfoldable pub prepare : RosTeleop → Env → ℕ → TeleopSession × Bool → TeleopSession
unfolding drained
prepare n env context (s, false) = s
prepare n env context (s, true) =
    if drained n env.now then state_of (confirm_start s env context) else s

-- `tick` without the polling of the idle service.
unfoldable pub tick_session : RosTeleop → Env → ℕ → RosTeleop
unfolding prepare
tick_session n env context =
    let s = tick n.session env context in
    record n {
      session =
          if active s && not s.acknowledged
          then prepare n env context (publish s zero zero false)
          else s;
    }

unfoldable pub shutdown : RosTeleop → RosTeleop
shutdown n = record n { session = finish n.session closing canceled }
