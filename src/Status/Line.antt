-- ===== src/Status/Line.antt =====
-- `derive_status` and `stale_age` of server/app/telemetry/status.py. A sentence of the source is a
-- constructor of `Detail`; `last_known` is the prefix "The robot has stopped reporting. When it
-- last reported: ".
use patrolbot_dashboard.Base.{
  pos, String, Bool, true, false, not, ◌&&◌, ◌||◌, Option, none, some, List, [], ◌∷◌, leb, eqb_ℤ,
  find, or_default, if◌then◌else◌,
}
use patrolbot_dashboard.Base.Float.{Float, nano, le, lt, fabs, is_finite}
use patrolbot_dashboard.Base.Text.{codes, lower, upper, strip, one_of}
use patrolbot_dashboard.Protocol.Telemetry.{
  Connection, error, BaseStateData, PoseData, PathData, DiagnosticItem, DiagnosticsData,
}

abbrev pub max_base_state_age_s : Float
max_base_state_age_s = nano 15_000_000_000

abbrev pub max_diagnostics_age_s : Float
max_diagnostics_age_s = nano 30_000_000_000

abbrev pub max_pose_age_s : Float
max_pose_age_s = nano 15_000_000_000

abbrev pub max_robot_telemetry_age_s : Float
max_robot_telemetry_age_s = nano 15_000_000_000

abbrev pub charging_states : List String
charging_states = "charging" ∷ "bulk" ∷ "overcharge" ∷ "float" ∷ []

abbrev pub docked_states : List String
docked_states = "docked" ∷ "float" ∷ "charging" ∷ "bulk" ∷ "overcharge" ∷ []

pub data RobotStatus : Type 0 where
  ready navigating recording docked charging paused stuck needs_attention offline : RobotStatus

pub data Detail : Type 0 where
  standard : RobotStatus → Detail
  estop controller_silent hardware_fault readings_old : Detail
  last_known : Detail → Detail
  not_reporting leaving_dock recovering_location : Detail
  problem : String → Detail

pub record RobotStatusData : Type 0 where
  pub status : RobotStatus
  pub detail : Detail

-- The arguments of `derive_status`.
pub record StatusInputs : Type 0 where
  pub connection : Connection
  pub base_state : Option BaseStateData
  pub diagnostics : Option DiagnosticsData
  pub pose : Option PoseData
  pub path : Option PathData
  pub recording : Bool
  pub stalled : Bool
  pub base_state_age_s : Option Float
  pub diagnostics_age_s : Option Float
  pub pose_age_s : Option Float

unfoldable pub stale_age : Option Float → Float → Bool
stale_age none limit = true
stale_age (some age) limit = not (is_finite age) || not (le (nano 0) age && le age limit)

abbrev pub is_offline : Connection → Bool
is_offline Connection.offline = true
is_offline _ = false

-- The `on_dock` flag that `derive_status` computes.
unfoldable pub shown_on_dock : Option BaseStateData → Bool
shown_on_dock none = false
shown_on_dock (some b) = elim b.dock_state_valid [
  | none ↦ one_of (lower (codes b.charge_state)) docked_states
  | some valid ↦
      valid && one_of (upper (strip (codes (or_default "" b.dock_state)))) ("DOCKED_CONFIRMED" ∷ [])
]

-- The condition that the source calls the drive-base hazard.
unfoldable pub hazard : BaseStateData → Bool
hazard b =
    b.estop_pressed
    || not (eqb_ℤ b.fault_flags (pos 0))
    || not b.hardware_state_valid
    || not b.link_connected
    || lt max_robot_telemetry_age_s b.telemetry_age

unfoldable pub hazard_detail : BaseStateData → Detail
hazard_detail b =
    if b.estop_pressed
    then estop
    else if not b.hardware_state_valid || not b.link_connected
    then controller_silent
    else if not (eqb_ℤ b.fault_flags (pos 0))
    then hardware_fault
    else readings_old

abbrev pub is_error : DiagnosticItem → Bool
is_error item = elim item.level [ error ↦ true | _ ↦ false ]

abbrev pub error_items : Option DiagnosticsData → Option DiagnosticItem
error_items none = none
error_items (some d) = find is_error d.items

-- The fresh diagnostic of level ERROR that the status line names, if there is one.
unfoldable pub fresh_error : StatusInputs → Option DiagnosticItem
fresh_error s =
    if stale_age s.diagnostics_age_s max_diagnostics_age_s then none else error_items s.diagnostics

abbrev has_goal : Option PathData → Bool
has_goal none = false
has_goal (some p) = elim p.goal [ none ↦ false | some _ ↦ true ]

abbrev drives : Option PoseData → Bool
drives none = false
drives (some p) = lt (nano 20_000_000) (fabs p.linear_velocity)

unfoldable pub under_way : StatusInputs → Bool
under_way s = has_goal s.path && drives s.pose && not (stale_age s.pose_age_s max_pose_age_s)

abbrev plain : RobotStatus → RobotStatusData
plain status = record { status = status; detail = standard status }

abbrev attention : Detail → RobotStatusData
attention detail = record { status = needs_attention; detail = detail }

-- The branches after the hazards, for a base state that is there and fresh.
unfoldable pub calm_status : StatusInputs → BaseStateData → RobotStatusData
unfolding fresh_error
calm_status s b = elim (fresh_error s) [
  | some worst ↦ attention (problem worst.message)
  | none ↦
      if b.undock_active
      then record { status = navigating; detail = leaving_dock }
      else if shown_on_dock s.base_state && one_of (lower (codes b.charge_state)) charging_states
      then plain charging
      else if shown_on_dock s.base_state
      then plain docked
      else if not b.odom_epoch_valid
          || b.localization_recovery_required
          || leb b.localization_seed_stamp_ns 0
      then attention recovering_location
      else if not b.motors_enabled
      then plain paused
      else if s.stalled
      then plain stuck
      else if s.recording
      then plain recording
      else if under_way s
      then plain navigating
      else plain ready
]

base_status : StatusInputs → Option BaseStateData → RobotStatusData
base_status s none = attention not_reporting
base_status s (some b) =
    let stale = stale_age s.base_state_age_s max_base_state_age_s in
    if hazard b
    then attention (if stale then last_known (hazard_detail b) else hazard_detail b)
    else if stale
    then attention not_reporting
    else calm_status s b

unfoldable pub derive_status : StatusInputs → RobotStatusData
unfolding base_status
derive_status s = if is_offline s.connection then plain offline else base_status s s.base_state
