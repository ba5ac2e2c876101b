-- ===== src/Broker/Admission.antt =====
-- The checks of `_handle_browser_request` of server/app/commands/broker.py that read and never
-- write: `_validate_goal` and `_validate_robot_state`.
use text.Mathlib.Text.{◌==◌ as str_eq}
use patrolbot_dashboard.Base.{
  ℕ, String, Bool, true, false, not, ◌&&◌, Option, none, some, List, ◌==◌, leb, eqb_ℤ, any, find,
  if◌then◌else◌,
}
use patrolbot_dashboard.Base.Float.{Float, nano, milli, le, lt, add, fabs, is_finite}
use patrolbot_dashboard.Base.Dict.{get}
use patrolbot_dashboard.Base.Text.{contains}
use patrolbot_dashboard.Protocol.Telemetry.{MapContext, GoalData, BaseStateData, MotionData}
use patrolbot_dashboard.Protocol.Commands.{
  Command, navigate_to_pose, set_initial_pose, undock, charge_release, teleop_start, stop,
  teleop_stop, software_reset, motor_disable, motor_enable, dock_reset,
}
use patrolbot_dashboard.Gates.Facts.{
  StateFacts, facts_from_state, stationary_linear_ms, stationary_angular_rps,
}
use patrolbot_dashboard.Gates.Rules.{rejection_reason}
use patrolbot_dashboard.Broker.State.{
  age, RobotState, RobotSession, MapInfo, ActiveCommand, Refusal, no_destination, map_mismatch,
  bad_goal, outside_map, no_map_support, other_map, lidar_recovery, lidar_settling, gate, World,
  member,
}

abbrev pub needs_goal : Command → Bool
needs_goal navigate_to_pose = true
needs_goal set_initial_pose = true
needs_goal _ = false

abbrev text_is : String → Option String → Bool
text_is s none = false
text_is s (some t) = str_eq s t

-- `maps.get(goal.map_id)`, with the revision that the goal names.
unfoldable pub target_of : List MapInfo → MapContext → Option MapInfo
target_of maps c = elim (find (λ (m : MapInfo). text_is m.map_id c.map_id) maps) [
  | none ↦ none
  | some m ↦ if text_is m.map_revision c.map_revision then some m else none
]

abbrev bad_heading : Option Float → Bool
bad_heading none = false
bad_heading (some yaw) = not (is_finite yaw)

abbrev in_range : Float → Float → Bool
in_range x limit = le (nano 0) x && lt x limit

-- `_validate_goal` on a target of the catalog.
unfoldable pub validate_goal : World → GoalData → MapInfo → Option Refusal
validate_goal w g m =
    if not (is_finite g.x && is_finite g.y)
    then some bad_goal
    else if bad_heading g.yaw
    then some bad_goal
    else (let (mx, my) = w.map_point m g in
        let (width, height) = w.map_extent m in
        if in_range mx width && in_range my height then none else some outside_map)

-- The goal checks before the session's: the target, or a refusal.
goal_target : World → Option GoalData → Option MapInfo × Option Refusal
goal_target w none = (none, some no_destination)
goal_target w (some g) = elim (target_of w.maps g.map) [
  | none ↦ (none, some map_mismatch)
  | some m ↦ (some m, validate_goal w g m)
]

unfoldable pub check_goal : World → Command → Option GoalData → Option MapInfo × Option Refusal
unfolding goal_target
check_goal w c goal = if needs_goal c then goal_target w goal else (none, none)

abbrev map_is : MapInfo → Option BaseStateData → Bool
map_is m none = false
map_is m (some b) = text_is m.map_id b.map.map_id && text_is m.map_revision b.map.map_revision

abbrev is_navigate : Command → Bool
is_navigate navigate_to_pose = true
is_navigate _ = false

-- The map checks on the robot: it supports map contexts, and a destination is on its active map.
unfoldable pub check_target : Command → RobotState → Option MapInfo → Option Refusal
check_target c s none = none
check_target c s (some m) =
    if not (contains "map_context_v1" s.capabilities)
    then some no_map_support
    else if is_navigate c && not (map_is m s.base_state.value)
    then some other_map
    else none

unfoldable pub check_map : Command → RobotState → Option MapInfo → Option Refusal
unfolding check_target
check_map c s target = check_target c s target

-- The commands that `_validate_robot_state` looks at.
abbrev pub is_gated : Command → Bool
is_gated stop = false
is_gated teleop_stop = false
is_gated _ = true

abbrev pub needs_recovered_lidar : Command → Bool
needs_recovered_lidar navigate_to_pose = true
needs_recovered_lidar set_initial_pose = true
needs_recovered_lidar undock = true
needs_recovered_lidar charge_release = true
needs_recovered_lidar teleop_start = true
needs_recovered_lidar _ = false

abbrev ignores_lidar : Command → Bool
ignores_lidar software_reset = true
ignores_lidar motor_disable = true
ignores_lidar motor_enable = true
ignores_lidar _ = false

abbrev received_by : Option ℕ → ℕ → Bool
received_by none after = true
received_by (some t) after = leb t after

-- The robot is waited for after a laser power command.
unfoldable pub lidar_settles : World → RobotSession → Bool
lidar_settles w s = elim (get s.robot_id w.lidar_state_after) [
  | none ↦ false
  | some after ↦ received_by s.state.base_state.received_mono after
]

abbrev is_undock : Command → Bool
is_undock undock = true
is_undock _ = false

abbrev of_robot : ℕ → (Command → Bool) → ℕ × ActiveCommand → Bool
of_robot robot p (_, e) = p e.command && e.robot_id == robot

-- The facts for the gates.
unfoldable pub facts_for : World → RobotSession → Bool → StateFacts
facts_for w s allow_unlocalized =
    let f = facts_from_state (record {
      connection = s.state.connection;
      base_state = s.state.base_state.value;
      pose = s.state.pose.value;
      capabilities = s.state.capabilities;
      navigating = any (of_robot s.robot_id needs_goal) w.active;
      base_state_age = age s.state.base_state w.now;
      pose_age = age s.state.pose w.now;
      allow_unlocalized = allow_unlocalized;
    }) in
    if any (of_robot s.robot_id is_undock) w.active then record f { undock_active = true } else f

abbrev nonneg : Float → Bool
nonneg x = is_finite x && le (nano 0) x

-- Measured motion of the present drive-base session, as dock recovery reads it.
motion_facts : StateFacts → Option MotionData → Option Float → Option BaseStateData → StateFacts
motion_facts f (some m) (some a) (some b) =
    let total = add (add a m.sample_age_s) m.receipt_age_s in
    if nonneg a
      && nonneg m.sample_age_s
      && nonneg m.receipt_age_s
      && le total (milli 1_500)
      && eqb_ℤ m.session_generation b.session_generation
    then record f {
      pose_age = some total;
      stationary =
          le (fabs m.linear_velocity) stationary_linear_ms
          && le (fabs m.angular_velocity) stationary_angular_rps;
    }
    else f
motion_facts f _ _ _ = f

abbrev is_dock_reset : Command → Bool
is_dock_reset dock_reset = true
is_dock_reset _ = false

unfoldable pub reset_facts : World → RobotSession → StateFacts → StateFacts
unfolding motion_facts
reset_facts w s f =
    motion_facts (record f { pose_age = none; stationary = false }) s.state.motion.value
      (age s.state.motion w.now) s.state.base_state.value

unfoldable pub validate_robot_state : World → RobotSession → Command → Bool → Option Refusal
validate_robot_state w s c allow_unlocalized =
    if not (is_gated c)
    then none
    else if member s.robot_id w.lidar_recovery_required && needs_recovered_lidar c
    then some lidar_recovery
    else if lidar_settles w s && not (ignores_lidar c)
    then some lidar_settling
    else (let f = facts_for w s allow_unlocalized in
        let g = if is_dock_reset c then reset_facts w s f else f in
        elim (rejection_reason c g) [ none ↦ none | some r ↦ some (gate r) ])
