-- ===== src/Status/Card.antt =====
-- `derive_health` of server/app/telemetry/status.py. Each subsystem's text is a constructor of
-- `Note`; the label and the advice of a line follow from it, and `updated_at` is left out.
use patrolbot_dashboard.Base.{
  ℕ, pos, Bool, true, false, not, ◌||◌, Option, none, some, List, [], ◌∷◌, leb, ltb, eqb_ℤ, length,
  find, is_false, if◌then◌else◌,
}
use patrolbot_dashboard.Base.Float.{Float, nano, le, lt}
use patrolbot_dashboard.Protocol.Telemetry.{
  Connection, DiagLevel, BaseStateData, PoseData, BatteryData, DiagnosticItem, DiagnosticsData,
  ResourcesData,
}
use patrolbot_dashboard.Status.Line.{
  stale_age, is_offline, is_error, max_base_state_age_s, max_diagnostics_age_s, max_pose_age_s,
  max_robot_telemetry_age_s,
}

abbrev pub max_battery_age_s : Float
max_battery_age_s = nano 30_000_000_000

abbrev pub max_resources_age_s : Float
max_resources_age_s = nano 60_000_000_000

pub data HealthLevel : Type 0 where
  healthy warning fault offline : HealthLevel

pub data Note : Type 0 where
  linked slow unlinked : Note
  base_missing base_silent base_silent_hazard base_down base_old base_estop base_fault : Note
  base_bumpers base_motors_off base_ok : Note
  battery_missing battery_silent battery_charging battery_critical battery_low : Note
  battery_unknown battery_ok : Note
  laser_missing laser_stopped laser_ok : Note
  pose_missing pose_silent pose_not_current pose_recovering pose_unsure pose_ok : Note
  systems_silent systems_none : Note
  system_reports : DiagnosticItem → Note
  systems_ok : ℕ → Note
  computer_missing computer_silent computer_hot computer_full computer_ok : Note
  computer_ok_no_temperature : Note

pub record Subsystem : Type 0 where
  pub level : HealthLevel
  pub note : Note

abbrev line : HealthLevel → Note → Subsystem
line level note = record { level = level; note = note }

-- The arguments of `derive_health`.
pub record HealthInputs : Type 0 where
  pub connection : Connection
  pub base_state : Option BaseStateData
  pub battery : Option BatteryData
  pub diagnostics : Option DiagnosticsData
  pub pose : Option PoseData
  pub resources : Option ResourcesData
  pub lidar_age_s : Option Float
  pub base_state_age_s : Option Float
  pub battery_age_s : Option Float
  pub diagnostics_age_s : Option Float
  pub pose_age_s : Option Float
  pub resources_age_s : Option Float
  pub battery_low_percent : Float
  pub battery_critical_percent : Float

unfoldable pub level_rank : HealthLevel → ℕ
level_rank healthy = 0
level_rank warning = 1
level_rank fault = 2
level_rank offline = 3

unfoldable pub connection_line : Connection → Subsystem
connection_line Connection.online = line healthy linked
connection_line Connection.stale = line warning slow
connection_line Connection.offline = line offline unlinked

-- The hazard that the card keeps when the base state went stale.
abbrev pub last_hazard : BaseStateData → Bool
last_hazard b =
    b.estop_pressed
    || not (eqb_ℤ b.fault_flags (pos 0))
    || not b.link_connected
    || not b.hardware_state_valid

drive_base_of : HealthInputs → Option BaseStateData → Subsystem
drive_base_of s none = line offline base_missing
drive_base_of s (some b) =
    if is_offline s.connection
    then line offline base_missing
    else if stale_age s.base_state_age_s max_base_state_age_s
    then (if last_hazard b then line fault base_silent_hazard else line offline base_silent)
    else if not b.link_connected || not b.hardware_state_valid
    then line fault base_down
    else if lt max_robot_telemetry_age_s b.telemetry_age
    then line fault base_old
    else if b.estop_pressed
    then line fault base_estop
    else if not (eqb_ℤ b.fault_flags (pos 0))
    then line fault base_fault
    else if is_false b.bumpers_valid
    then line warning base_bumpers
    else if not b.motors_enabled
    then line warning base_motors_off
    else line healthy base_ok

unfoldable pub drive_base_line : HealthInputs → Subsystem
unfolding drive_base_of
drive_base_line s = drive_base_of s s.base_state

-- The lines for a battery that reports no charging.
battery_level : HealthInputs → Option Float → Subsystem
battery_level s none = line warning battery_unknown
battery_level s (some percentage) =
    if le percentage s.battery_critical_percent
    then line fault battery_critical
    else if le percentage s.battery_low_percent
    then line warning battery_low
    else line healthy battery_ok

battery_of : HealthInputs → Option BatteryData → Subsystem
unfolding battery_level
battery_of s none = line offline battery_missing
battery_of s (some b) =
    if is_offline s.connection
    then line offline battery_missing
    else if stale_age s.battery_age_s max_battery_age_s
    then line offline battery_silent
    else if b.charging
    then line healthy battery_charging
    else battery_level s b.percentage

unfoldable pub battery_line : HealthInputs → Subsystem
unfolding battery_of
battery_line s = battery_of s s.battery

laser_of : HealthInputs → Option Float → Subsystem
laser_of s none = line offline laser_missing
laser_of s (some age) =
    if is_offline s.connection
    then line offline laser_missing
    else if lt (nano 5_000_000_000) age
    then line warning laser_stopped
    else line healthy laser_ok

unfoldable pub laser_line : HealthInputs → Subsystem
unfolding laser_of
laser_line s = laser_of s s.lidar_age_s

-- The localization line from a pose that is there and fresh.
localized_of : HealthInputs → Option BaseStateData → PoseData → Subsystem
localized_of s none p = line warning pose_not_current
localized_of s (some b) p =
    if stale_age s.base_state_age_s max_base_state_age_s
    then line warning pose_not_current
    else if not b.odom_epoch_valid
        || b.localization_recovery_required
        || leb b.localization_seed_stamp_ns 0
    then line warning pose_recovering
    else if not p.localized
    then line warning pose_unsure
    else line healthy pose_ok

localization_of : HealthInputs → Option PoseData → Subsystem
unfolding localized_of
localization_of s none = line offline pose_missing
localization_of s (some p) =
    if is_offline s.connection
    then line offline pose_missing
    else if stale_age s.pose_age_s max_pose_age_s
    then line offline pose_silent
    else localized_of s s.base_state p

unfoldable pub localization_line : HealthInputs → Subsystem
unfolding localization_of
localization_line s = localization_of s s.pose

abbrev is_warning : DiagnosticItem → Bool
is_warning item = elim item.level [ DiagLevel.warn ↦ true | DiagLevel.stale ↦ true | _ ↦ false ]

-- The roll-up of a list of diagnostics: its first error, else its first warning.
unfoldable pub systems_of : List DiagnosticItem → Subsystem
systems_of items = elim (find is_error items) [
  | some worst ↦ line fault (system_reports worst)
  | none ↦ elim (find is_warning items) [
    | some worst ↦ line warning (system_reports worst)
    | none ↦ elim items [
      | [] ↦ line offline systems_none
      | x ∷ rest ↦ line healthy (systems_ok (length (x ∷ rest)))
    ]
  ]
]

diagnostics_of : HealthInputs → Option DiagnosticsData → Subsystem
diagnostics_of s none = line offline systems_silent
diagnostics_of s (some d) =
    if stale_age s.diagnostics_age_s max_diagnostics_age_s
    then line offline systems_silent
    else systems_of d.items

unfoldable pub systems_line : HealthInputs → Subsystem
unfolding diagnostics_of
systems_line s = diagnostics_of s s.diagnostics

abbrev is_hot : Option Float → Bool
is_hot none = false
is_hot (some temperature) = le (nano 80_000_000_000) temperature

abbrev computer_note : Option Float → Note
computer_note none = computer_ok_no_temperature
computer_note (some _) = computer_ok

computer_of : HealthInputs → Option ResourcesData → Subsystem
computer_of s none = line offline computer_missing
computer_of s (some r) =
    if is_offline s.connection
    then line offline computer_missing
    else if stale_age s.resources_age_s max_resources_age_s
    then line offline computer_silent
    else if is_hot r.cpu_temp_c
    then line warning computer_hot
    else if le (nano 90_000_000_000) r.disk_percent
    then line warning computer_full
    else line healthy (computer_note r.cpu_temp_c)

unfoldable pub computer_line : HealthInputs → Subsystem
unfolding computer_of
computer_line s = computer_of s s.resources

unfoldable pub subsystems : HealthInputs → List Subsystem
subsystems s =
    connection_line s.connection
    ∷ drive_base_line s
    ∷ battery_line s
    ∷ laser_line s
    ∷ localization_line s
    ∷ systems_line s
    ∷ computer_line s
    ∷ []

-- A line with missing data counts as a warning while the robot is reachable.
abbrev pub counted : HealthLevel → HealthLevel
counted offline = warning
counted level = level

-- The loop over the subsystems.
unfoldable pub roll_up : HealthLevel → List Subsystem → HealthLevel
unfolding level_rank
roll_up overall [] = overall
roll_up overall (sub ∷ rest) =
    roll_up
      (if ltb (level_rank overall) (level_rank (counted sub.level))
        then counted sub.level
        else overall)
      rest

pub record SystemHealthData : Type 0 where
  pub overall : HealthLevel
  pub lines : List Subsystem

unfoldable pub derive_health : HealthInputs → SystemHealthData
derive_health s =
    if is_offline s.connection
    then record { overall = offline; lines = subsystems s }
    else record { overall = roll_up healthy (subsystems s); lines = subsystems s }
