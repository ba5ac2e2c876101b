-- ===== src/Gates/Manual.antt =====
-- `teleop_reason` of server/app/commands/gates.py: the gate of manual drive.
use Prim.Native.String.{String}
use text.Mathlib.Text.{◌==◌ as str_eq}
use patrolbot_dashboard.Base.{
  pos, Bool, true, false, not, ◌&&◌, ◌||◌, Option, none, some, List, eqb_ℤ, is_true, if◌then◌else◌,
}
use patrolbot_dashboard.Base.Float.{Float, nano, le, lt, add, is_finite}
use patrolbot_dashboard.Base.Text.{contains}
use patrolbot_dashboard.Protocol.Telemetry.{Connection, online, BaseStateData}
use patrolbot_dashboard.Gates.Rules.{is_ready}

pub data ManualReason : Type 0 where
  not_connected unavailable readings_missing base_invalid readings_stale no_origin : ManualReason
  no_scans hazard bumpers motors_off undocking not_clear : ManualReason

-- What the gate reads of the robot's state.
pub record ManualView : Type 0 where
  pub connection : Connection
  pub capabilities : List String
  pub base : Option BaseStateData
  pub age : Option Float

abbrev pub is_online : Connection → Bool
is_online online = true
is_online _ = false

-- `value is None or not isfinite(value) or value < 0 or value + age > .5`.
abbrev pub reading_bad : Float → Option Float → Bool
reading_bad age none = true
reading_bad age (some value) =
    not (is_finite value) || lt value (nano 0) || lt (nano 500_000_000) (add value age)

abbrev pub dock_clear : Option String → Bool
dock_clear none = false
dock_clear (some s) = str_eq s "CLEAR_CONFIRMED"

-- The tests on a base state that is there, with its receipt age.
unfoldable pub base_reason : BaseStateData → Float → Option ManualReason
base_reason b age =
    if not b.link_connected || not b.hardware_state_valid
    then some base_invalid
    else if reading_bad age (some b.telemetry_age)
        || reading_bad age (some b.lidar_scan_age)
        || reading_bad age b.raw_odom_age_s
    then some readings_stale
    else if not b.odom_epoch_valid
    then some no_origin
    else if not (is_ready b.lidar_state)
    then some no_scans
    else if b.estop_pressed || not (eqb_ℤ b.fault_flags (pos 0))
    then some hazard
    else if not (is_true b.bumpers_valid) || b.bumpers_front || b.bumpers_rear
    then some bumpers
    else if not b.motors_enabled
    then some motors_off
    else if b.undock_active
    then some undocking
    else if not (is_true b.dock_state_valid) || not (dock_clear b.dock_state)
    then some not_clear
    else none

-- `base is None or age is None or not isfinite(age) or not 0 <= age <= .5`, then the rest.
unfoldable pub present_reason : Option BaseStateData → Option Float → Option ManualReason
unfolding base_reason
present_reason none age = some readings_missing
present_reason (some b) none = some readings_missing
present_reason (some b) (some age) =
    if not (is_finite age) || not (le (nano 0) age && le age (nano 500_000_000))
    then some readings_missing
    else base_reason b age

unfoldable pub teleop_reason : ManualView → Option ManualReason
unfolding present_reason
teleop_reason v =
    if not (is_online v.connection)
    then some not_connected
    else if not (contains "web_teleop_v1" v.capabilities)
    then some unavailable
    else present_reason v.base v.age
