-- ===== src/Gates/Facts.antt =====
-- `StateFacts`, its derived properties and `facts_from_state` of server/app/commands/gates.py.
use patrolbot_dashboard.Base.{
  ℕ, ℤ, pos, String, Bool, true, false, ◌&&◌, Option, none, some, List, [], ◌∷◌, is_true,
  or_default, if◌then◌else◌,
}
use patrolbot_dashboard.Base.Float.{Float, fin, nano, le, fabs}
use patrolbot_dashboard.Base.Text.{codes, lower, upper, strip, one_of}
use patrolbot_dashboard.Protocol.Telemetry.{Connection, online, LidarState, BaseStateData, PoseData}

abbrev pub max_telemetry_age_s : Float
max_telemetry_age_s = nano 2_000_000_000

abbrev pub max_receipt_age_s : Float
max_receipt_age_s = nano 3_000_000_000

abbrev pub stationary_linear_ms : Float
stationary_linear_ms = nano 20_000_000

abbrev pub stationary_angular_rps : Float
stationary_angular_rps = nano 50_000_000

abbrev pub charging_states : List String
charging_states = "charging" ∷ "charge" ∷ "bulk" ∷ "float" ∷ "overcharge" ∷ []

abbrev pub on_dock_states : List String
on_dock_states =
    "charging" ∷ "charge" ∷ "bulk" ∷ "float" ∷ "overcharge" ∷ "docked" ∷ "dock" ∷ "on_dock" ∷ []

abbrev pub dock_observer_docked : List String
dock_observer_docked = "DOCKED_CONFIRMED" ∷ []

pub record StateFacts : Type 0 where
  pub lidar_state : LidarState
  pub lidar_power_supported : Bool
  pub lidar_scan_age : Float
  pub online : Bool
  pub link_connected : Bool
  pub telemetry_age : Float
  pub base_state_age : Option Float
  pub pose_age : Option Float
  pub hardware_state_valid : Bool
  pub charge_state : String
  pub motors_enabled : Bool
  pub estop_pressed : Bool
  pub fault_flags : ℤ
  pub stall_value : ℤ
  pub bumpers_front : Bool
  pub bumpers_rear : Bool
  pub bumpers_valid : Option Bool
  pub dock_state : Option String
  pub dock_state_valid : Option Bool
  pub undock_active : Bool
  pub operation_outcome_unknown : Bool
  pub undock_profile_commissioned : Option Bool
  pub localized : Bool
  pub allow_unlocalized : Bool
  pub stationary : Bool
  pub capabilities : List String
  pub navigating : Bool
  pub odom_epoch_valid : Bool
  pub localization_recovery_required : Bool
  pub localization_recovery_stage : String
  pub localization_seed_stamp_ns : ℕ

-- The fail-closed defaults.
unfoldable pub no_facts : StateFacts
no_facts = record {
  lidar_state = LidarState.unknown;
  lidar_power_supported = false;
  lidar_scan_age = fin (ℤ.negsuc 999_999_999);
  online = false;
  link_connected = false;
  telemetry_age = nano 999_000_000_000;
  base_state_age = none;
  pose_age = none;
  hardware_state_valid = false;
  charge_state = "unknown";
  motors_enabled = false;
  estop_pressed = false;
  fault_flags = pos 0;
  stall_value = pos 0;
  bumpers_front = false;
  bumpers_rear = false;
  bumpers_valid = none;
  dock_state = none;
  dock_state_valid = none;
  undock_active = false;
  operation_outcome_unknown = false;
  undock_profile_commissioned = none;
  localized = false;
  allow_unlocalized = false;
  stationary = false;
  capabilities = [];
  navigating = false;
  odom_epoch_valid = false;
  localization_recovery_required = true;
  localization_recovery_stage = "";
  localization_seed_stamp_ns = 0;
}

-- `(dock_state or "").strip().upper()`.
abbrev dock_word : StateFacts → List ℕ
dock_word f = upper (strip (codes (or_default "" f.dock_state)))

abbrev charge_word : StateFacts → List ℕ
charge_word f = lower (strip (codes f.charge_state))

unfoldable pub charging : StateFacts → Bool
charging f =
    if is_true f.dock_state_valid && one_of (dock_word f) ("CLEAR_CONFIRMED" ∷ "DEPARTING" ∷ [])
    then false
    else one_of (charge_word f) charging_states

unfoldable pub on_dock : StateFacts → Bool
on_dock f =
    if is_true f.dock_state_valid
    then one_of (dock_word f) dock_observer_docked
    else one_of (charge_word f) on_dock_states

-- An age that is there and within a limit.
abbrev pub within : Option Float → Float → Bool
within none limit = false
within (some age) limit = le age limit

unfoldable pub telemetry_fresh : StateFacts → Bool
telemetry_fresh f = f.link_connected && le f.telemetry_age max_telemetry_age_s

unfoldable pub base_state_fresh : StateFacts → Bool
base_state_fresh f = within f.base_state_age max_receipt_age_s

unfoldable pub pose_fresh : StateFacts → Bool
pose_fresh f = within f.pose_age max_receipt_age_s

is_online : Connection → Bool
is_online online = true
is_online _ = false

with_base : Option BaseStateData → StateFacts → StateFacts
with_base none f = f
with_base (some b) f = record f {
  lidar_state = b.lidar_state;
  lidar_power_supported = b.lidar_power_supported;
  lidar_scan_age = b.lidar_scan_age;
  link_connected = b.link_connected;
  telemetry_age = b.telemetry_age;
  hardware_state_valid = b.hardware_state_valid;
  charge_state = b.charge_state;
  motors_enabled = b.motors_enabled;
  estop_pressed = b.estop_pressed;
  fault_flags = b.fault_flags;
  stall_value = b.stall_value;
  bumpers_front = b.bumpers_front;
  bumpers_rear = b.bumpers_rear;
  bumpers_valid = b.bumpers_valid;
  dock_state = b.dock_state;
  dock_state_valid = b.dock_state_valid;
  undock_active = b.undock_active;
  operation_outcome_unknown = b.operation_outcome_unknown;
  undock_profile_commissioned = b.undock_profile_commissioned;
  odom_epoch_valid = b.odom_epoch_valid;
  localization_recovery_required = b.localization_recovery_required;
  localization_recovery_stage = b.localization_recovery_stage;
  localization_seed_stamp_ns = b.localization_seed_stamp_ns;
}

with_pose : Option PoseData → StateFacts → StateFacts
with_pose none f = f
with_pose (some p) f = record f {
  localized = p.localized;
  stationary =
      le (fabs p.linear_velocity) stationary_linear_ms
      && le (fabs p.angular_velocity) stationary_angular_rps;
}

-- The arguments of `facts_from_state`, which it takes by name.
pub record Snapshot : Type 0 where
  pub connection : Connection
  pub base_state : Option BaseStateData
  pub pose : Option PoseData
  pub capabilities : List String
  pub navigating : Bool
  pub base_state_age : Option Float
  pub pose_age : Option Float
  pub allow_unlocalized : Bool

unfoldable pub facts_from_state : Snapshot → StateFacts
unfolding no_facts is_online with_base with_pose
facts_from_state s = with_pose s.pose (
    with_base s.base_state (record no_facts {
      online = is_online s.connection;
      capabilities = s.capabilities;
      navigating = s.navigating;
      base_state_age = s.base_state_age;
      pose_age = s.pose_age;
      allow_unlocalized = s.allow_unlocalized;
    }))
