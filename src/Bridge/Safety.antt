-- ===== src/Bridge/Safety.antt =====
-- `RosTeleop.safety` of ros2_ws/src/patrolbot_web_bridge/patrolbot_web_bridge/teleop.py: the hazard
-- that forbids manual drive. The view holds what it reads: the base state as the normalizer types
-- it, the raw odometry, the clock, and the answers of the other parts of the node.
use text.Mathlib.Text.{◌==◌ as str_eq}
use patrolbot_dashboard.Base.{
  ℕ, String, Bool, false, not, ◌&&◌, ◌||◌, Option, none, some, List, any, all, is_true, ◌==◌,
  if◌then◌else◌,
}
use patrolbot_dashboard.Base.Float.{Float, nano, is_finite, le, lt, add, sub}

pub record BaseState : Type 0 where
  pub telemetry_age : Float
  pub lidar_scan_age : Float
  pub link_connected : Bool
  pub hardware_state_valid : Bool
  pub lidar_state : String
  pub odom_epoch_valid : Bool
  pub motors_enabled : Bool
  pub estop_pressed : Bool
  pub fault_flags : ℕ
  pub dock_state_valid : Bool
  pub dock_state : String
  pub bumpers_valid : Option Bool
  pub bumpers_front : Bool
  pub bumpers_rear : Bool
  pub undock_active : Bool

-- The odometry message; `age` is the node's clock less its stamp.
pub record Odometry : Type 0 where
  pub values : List Float
  pub age : Float

pub record View : Type 0 where
  pub tuning_hold : Bool
  pub base : Option BaseState
  pub base_at : Option Float
  pub odom : Option Odometry
  pub odom_at : Option Float
  pub now : Float
  pub connected : Bool
  pub action_active : List Bool
  pub command_owns : Bool
  pub reset_blocks : Bool
  pub manual_at : Option Float
  pub idle_at : Option Float
  pub session_active : Bool
  pub same_writers : Bool

pub data Hazard : Type 0 where
  maintenance disconnected no_base bad_base lidar_stale odom_origin odom_stale : Hazard
  odom_invalid motors_off fault_or_estop not_clear_of_dock bumper action_running : Hazard
  command_running resetting joystick not_idle topology : Hazard

abbrev pub hardware_timeout_s : Float
hardware_timeout_s = nano 500_000_000

-- `value is not None and 0 <= now - value <= HARDWARE_TIMEOUT_S`.
abbrev pub recent : Float → Option Float → Bool
recent now none = false
recent now (some t) = let age = sub now t in le (nano 0) age && le age hardware_timeout_s

abbrev pub age_ok : Float → Float → Float → Bool
age_ok age now at =
    let total = add age (sub now at) in
    is_finite age && le (nano 0) total && le total hardware_timeout_s

abbrev pub lidar_ok : BaseState → Float → Float → Bool
lidar_ok b now at =
    str_eq b.lidar_state "READY"
    && is_finite b.lidar_scan_age
    && not (lt b.lidar_scan_age (nano 0))
    && not (lt hardware_timeout_s (sub (add b.lidar_scan_age now) at))

abbrev pub dock_clear : BaseState → Bool
dock_clear b = b.dock_state_valid && str_eq b.dock_state "CLEAR_CONFIRMED"

abbrev pub bumpers_clear : BaseState → Bool
bumpers_clear b = is_true b.bumpers_valid && not b.bumpers_front && not b.bumpers_rear

-- The rest of `safety`, once base and odometry are trusted.
unfoldable pub machine_hazard : View → BaseState → Option Hazard
machine_hazard v b =
    if not b.motors_enabled
    then some motors_off
    else if b.estop_pressed || not (b.fault_flags == 0)
    then some fault_or_estop
    else if not (dock_clear b)
    then some not_clear_of_dock
    else if not (bumpers_clear b)
    then some bumper
    else if b.undock_active || any (λ a. a) v.action_active
    then some action_running
    else if v.command_owns
    then some command_running
    else if v.reset_blocks
    then some resetting
    else if recent v.now v.manual_at
    then some joystick
    else if not (recent v.now v.idle_at)
    then some not_idle
    else if v.session_active && not v.same_writers
    then some topology
    else none

unfoldable pub odom_hazard : View → BaseState → Option Odometry → Option Hazard
unfolding machine_hazard
odom_hazard v b none = some odom_stale
odom_hazard v b (some o) =
    if not (recent v.now v.odom_at)
    then some odom_stale
    else if not (all is_finite o.values) || not (le (nano 0) o.age && le o.age hardware_timeout_s)
    then some odom_invalid
    else machine_hazard v b

unfoldable pub base_hazard : View → Option BaseState → Option Float → Option Hazard
unfolding odom_hazard
base_hazard v none at = some no_base
base_hazard v (some b) none = some no_base
base_hazard v (some b) (some at) =
    if not (recent v.now (some at))
    then some no_base
    else if not b.link_connected
        || not b.hardware_state_valid
        || not (age_ok b.telemetry_age v.now at)
    then some bad_base
    else if not (lidar_ok b v.now at)
    then some lidar_stale
    else if not b.odom_epoch_valid
    then some odom_origin
    else odom_hazard v b v.odom

unfoldable pub safety : View → Option Hazard
unfolding base_hazard
safety v =
    if v.tuning_hold
    then some maintenance
    else if not v.connected
    then some disconnected
    else base_hazard v v.base v.base_at
