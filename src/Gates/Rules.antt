-- ===== src/Gates/Rules.antt =====
-- The gate of each command, and `rejection_reason`, of server/app/commands/gates.py. A sentence
-- shown to the operator is a constructor of `Reason`; no gate answers with another text.
use Prim.Native.Nat.{bit_and}
use patrolbot_dashboard.Base.{
  ℕ, ◌-◌, ℤ, pos, negsuc, String, Bool, true, false, not, ◌&&◌, ◌||◌, Option, none, some, [], ◌∷◌,
  ◌==◌, leb, eqb_ℤ, is_true, is_false, or_else, if◌then◌else◌,
}
use patrolbot_dashboard.Base.Float.{Float, nano, le, lt, add, is_finite}
use patrolbot_dashboard.Base.Text.{contains, codes, one_of}
use patrolbot_dashboard.Protocol.Telemetry.{LidarState, off, ready, fault}
use patrolbot_dashboard.Protocol.Commands.{
  Command, navigate_to_pose, set_initial_pose, stop, teleop_start, teleop_stop, charge_release,
  motor_enable, motor_disable, undock, software_reset, set_lidar_power, dock_reset,
}
use patrolbot_dashboard.Gates.Facts.{
  StateFacts, charging, on_dock, telemetry_fresh, base_state_fresh, pose_fresh,
}

pub data Reason : Type 0 where
  not_connected stale_hardware invalid_hardware : Reason
  fault_reported : ℤ → Reason
  no_recent_position still_moving : Reason
  lidar_unavailable lidar_power_missing lidar_power_unknown lidar_power_stale : Reason
  lidar_power_busy : Reason
  estop on_charger motors_off recovering_location position_stale not_localized : Reason
  not_on_charge no_motor_enable no_motor_disable : Reason
  reset_readings_missing reset_missing reset_estop reset_unknown_outcome wheel_stall : Reason
  scanner_fault reset_busy dock_unconfirmed : Reason
  undock_missing dock_observer_invalid profile_missing already_undocking not_docked : Reason
  bumpers_unknown rear_bumper undock_navigating : Reason
  no_software_reset : Reason

-- `value & mask` on a Python integer, which is in two's complement: -(n + 1) is the complement of n.
unfoldable pub mask_bits : ℤ → ℕ → ℕ
mask_bits (pos n) mask = bit_and n mask
mask_bits (negsuc n) mask = mask - bit_and n mask

abbrev pub is_ready : LidarState → Bool
is_ready ready = true
is_ready _ = false

abbrev is_fault : LidarState → Bool
is_fault fault = true
is_fault _ = false

abbrev is_settled : LidarState → Bool
is_settled off = true
is_settled ready = true
is_settled fault = true
is_settled _ = false

abbrev half_second : Float
half_second = nano 500_000_000

abbrev zero_s : Float
zero_s = nano 0

unfoldable pub hardware_reason : StateFacts → Option Reason
hardware_reason f =
    if not f.online
    then some not_connected
    else if not (base_state_fresh f) || not (telemetry_fresh f)
    then some stale_hardware
    else if not f.hardware_state_valid
    then some invalid_hardware
    else if not (eqb_ℤ f.fault_flags (pos 0))
    then some (fault_reported f.fault_flags)
    else none

unfoldable pub stationary_reason : StateFacts → Option Reason
stationary_reason f =
    if not (pose_fresh f)
    then some no_recent_position
    else if not f.stationary
    then some still_moving
    else none

-- The clauses of `lidar_reason` on the receipt age.
lidar_ages_bad : StateFacts → Option Float → Bool
lidar_ages_bad f none = true
lidar_ages_bad f (some receipt) =
    lt half_second (add f.telemetry_age receipt)
    || not (is_ready f.lidar_state)
    || not (is_finite f.lidar_scan_age)
    || not (is_finite receipt)
    || lt f.lidar_scan_age zero_s
    || lt receipt zero_s
    || lt half_second (add f.lidar_scan_age receipt)

unfoldable pub lidar_reason : StateFacts → Option Reason
unfolding lidar_ages_bad
lidar_reason f =
    if not f.online
      || not f.link_connected
      || not f.hardware_state_valid
      || not (is_finite f.telemetry_age)
      || lt f.telemetry_age zero_s
      || lidar_ages_bad f f.base_state_age
    then some lidar_unavailable
    else none

power_age_bad : StateFacts → Option Float → Bool
power_age_bad f none = true
power_age_bad f (some receipt) =
    not (le zero_s receipt && le receipt half_second)
    || not (is_finite f.telemetry_age)
    || lt f.telemetry_age zero_s
    || lt half_second (add f.telemetry_age receipt)

unfoldable pub lidar_power_reason : StateFacts → Option Reason
unfolding power_age_bad
lidar_power_reason f = or_else (hardware_reason f) (
    if not f.lidar_power_supported || not (contains "set_lidar_power" f.capabilities)
    then some lidar_power_missing
    else if not (is_settled f.lidar_state)
    then some lidar_power_unknown
    else if power_age_bad f f.base_state_age
    then some lidar_power_stale
    else if f.navigating || f.undock_active
    then some lidar_power_busy
    else none)

unfoldable pub navigate_reason : StateFacts → Option Reason
navigate_reason f = or_else (hardware_reason f) (
    if f.estop_pressed
    then some estop
    else if on_dock f
    then some on_charger
    else if not f.motors_enabled
    then some motors_off
    else if not f.odom_epoch_valid
        || f.localization_recovery_required
        || leb f.localization_seed_stamp_ns 0
    then some recovering_location
    else if not (pose_fresh f)
    then some position_stale
    else if not f.localized && not f.allow_unlocalized
    then some not_localized
    else none)

unfoldable pub charge_release_reason : StateFacts → Option Reason
charge_release_reason f =
    or_else (hardware_reason f)
      (if not (charging f) then some not_on_charge else stationary_reason f)

unfoldable pub motor_enable_reason : StateFacts → Option Reason
motor_enable_reason f =
    if not f.online
    then some not_connected
    else if not (contains "motor_enable" f.capabilities)
    then some no_motor_enable
    else none

unfoldable pub motor_disable_reason : StateFacts → Option Reason
motor_disable_reason f =
    if not f.online
    then some not_connected
    else if not (contains "motor_disable" f.capabilities)
    then some no_motor_disable
    else none

unfoldable pub software_reset_reason : StateFacts → Option Reason
software_reset_reason f =
    if not f.online
    then some not_connected
    else if not (contains "software_reset" f.capabilities)
    then some no_software_reset
    else none

-- `age is None or not math.isfinite(age) or age < 0`.
abbrev bad_age : Option Float → Bool
bad_age none = true
bad_age (some age) = not (is_finite age) || lt age zero_s

abbrev confirmed_dock_state : Option String → Bool
confirmed_dock_state none = false
confirmed_dock_state (some s) =
    one_of (codes s) ("FAULT_STOPPED" ∷ "CLEAR_CONFIRMED" ∷ "DOCKED_CONFIRMED" ∷ [])

unfoldable pub dock_reset_reason : StateFacts → Option Reason
dock_reset_reason f =
    if bad_age (some f.telemetry_age) || bad_age f.base_state_age || bad_age f.pose_age
    then some reset_readings_missing
    else or_else (hardware_reason f) (
        if not (contains "dock_reset" f.capabilities)
        then some reset_missing
        else if f.estop_pressed
        then some reset_estop
        else if f.operation_outcome_unknown
        then some reset_unknown_outcome
        else if not (mask_bits f.stall_value 0x0101 == 0)
        then some wheel_stall
        else if is_fault f.lidar_state
        then some scanner_fault
        else if f.undock_active || f.navigating
        then some reset_busy
        else if not (is_true f.dock_state_valid) || not (confirmed_dock_state f.dock_state)
        then some dock_unconfirmed
        else stationary_reason f)

unfoldable pub undock_reason : StateFacts → Option Reason
undock_reason f = or_else (hardware_reason f) (
    if not (contains "undock" f.capabilities)
    then some undock_missing
    else if is_false f.dock_state_valid
    then some dock_observer_invalid
    else if is_false f.undock_profile_commissioned
    then some profile_missing
    else if f.undock_active
    then some already_undocking
    else if not (on_dock f)
    then some not_docked
    else if f.estop_pressed
    then some estop
    else if not (is_true f.bumpers_valid)
    then some bumpers_unknown
    else if f.bumpers_rear
    then some rear_bumper
    else if f.navigating
    then some undock_navigating
    else stationary_reason f)

-- The dictionary `GATES`.
unfoldable pub gate_for : Command → Option (StateFacts → Option Reason)
gate_for set_initial_pose = some lidar_reason
gate_for set_lidar_power = some lidar_power_reason
gate_for navigate_to_pose = some navigate_reason
gate_for charge_release = some charge_release_reason
gate_for motor_enable = some motor_enable_reason
gate_for motor_disable = some motor_disable_reason
gate_for dock_reset = some dock_reset_reason
gate_for undock = some undock_reason
gate_for software_reset = some software_reset_reason
gate_for stop = none
gate_for teleop_start = none
gate_for teleop_stop = none

-- The commands that `rejection_reason` refuses without a fresh scan.
abbrev pub needs_lidar : Command → Bool
needs_lidar navigate_to_pose = true
needs_lidar set_initial_pose = true
needs_lidar undock = true
needs_lidar charge_release = true
needs_lidar _ = false

abbrev run_gate : Option (StateFacts → Option Reason) → StateFacts → Option Reason
run_gate none f = none
run_gate (some gate) f = gate f

unfoldable pub rejection_reason : Command → StateFacts → Option Reason
unfolding gate_for
rejection_reason c f =
    or_else (if needs_lidar c then lidar_reason f else none) (run_gate (gate_for c) f)
