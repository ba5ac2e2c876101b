-- ===== src/Gates/Examples.antt =====
-- Tests of the gates, and their theorems at concrete states.
use patrolbot_dashboard.Base.{◌≡◌, ◌≢◌, refl, false, none, some, [], ◌∷◌, arith, inr, ◌+ℤ◌}
use patrolbot_dashboard.Base.Int
use patrolbot_dashboard.Base.Float.{nano, le, lt, add, is_finite, fabs}
use patrolbot_dashboard.Base.Text.{contains, one_of, upper, lower, strip}
use patrolbot_dashboard.Protocol.Telemetry.{online, BaseStateData, parked, still}
use patrolbot_dashboard.Protocol.Commands.{navigate_to_pose, undock, motor_disable}
use patrolbot_dashboard.Gates.Facts.{
  Snapshot, facts_from_state, on_dock, base_state_fresh, telemetry_fresh, pose_fresh,
}
use patrolbot_dashboard.Gates.Rules.{
  rejection_reason, lidar_reason, navigate_reason, undock_reason, hardware_reason,
  stationary_reason, on_charger,
}
use patrolbot_dashboard.Gates.Ready.{HardwareReady}
use patrolbot_dashboard.Gates.Admission.{
  NavigateReady, UndockReady, navigate_iff, undock_iff, navigate_undock_exclusive,
  admitted-HardwareReady,
}
use patrolbot_dashboard.Gates.FailClosed.{silent_base_refused, emergency_ignores_telemetry}
use patrolbot_dashboard.Gates.Manual.{teleop_reason}
use patrolbot_dashboard.Gates.ManualReady.{ManualAdmitted, teleop_iff}
use patrolbot_dashboard.Gates.Exclusive.{manual_view, manual_undock_exclusive}

abbrev here : Snapshot
here = record {
  connection = online;
  base_state = some parked;
  pose = some still;
  capabilities = "undock" ∷ "web_teleop_v1" ∷ "motor_disable" ∷ [];
  navigating = false;
  base_state_age = some (nano 100_000_000);
  pose_age = some (nano 50_000_000);
  allow_unlocalized = false;
}

abbrev docked_base : BaseStateData
docked_base = record parked { dock_state = some " docked_confirmed " }

abbrev docked : Snapshot
docked = record here { base_state = some docked_base }

abbrev silent : Snapshot
silent = record here { base_state_age = some (nano 3_000_000_001) }

can_navigate : rejection_reason navigate_to_pose (facts_from_state here) ≡ none
unfolding rejection_reason lidar_reason navigate_reason hardware_reason facts_from_state on_dock
    base_state_fresh telemetry_fresh pose_fresh le lt add is_finite one_of upper lower strip ◌+ℤ◌
can_navigate = refl

can_undock : rejection_reason undock (facts_from_state docked) ≡ none
unfolding rejection_reason lidar_reason undock_reason stationary_reason hardware_reason
    facts_from_state on_dock base_state_fresh telemetry_fresh pose_fresh le lt add is_finite fabs
    Int.abs contains one_of upper lower strip ◌+ℤ◌
can_undock = refl

can_drive : teleop_reason (manual_view here) ≡ none
unfolding teleop_reason le lt add is_finite contains ◌+ℤ◌
can_drive = refl

on_dock_refused : rejection_reason navigate_to_pose (facts_from_state docked) ≡ some on_charger
unfolding rejection_reason lidar_reason navigate_reason hardware_reason facts_from_state on_dock
    base_state_fresh telemetry_fresh pose_fresh le lt add is_finite one_of upper lower strip ◌+ℤ◌
on_dock_refused = refl

navigate_iff_example : NavigateReady (facts_from_state here)
navigate_iff_example = (navigate_iff (facts_from_state here)).0 can_navigate

undock_iff_example : UndockReady (facts_from_state docked)
undock_iff_example = (undock_iff (facts_from_state docked)).0 can_undock

navigate_undock_exclusive_example : rejection_reason undock (facts_from_state here) ≢ none
navigate_undock_exclusive_example = navigate_undock_exclusive (facts_from_state here) can_navigate

admitted-HardwareReady_example : HardwareReady (facts_from_state docked)
admitted-HardwareReady_example =
    admitted-HardwareReady undock (facts_from_state docked) refl can_undock

silent_base_refused_example : rejection_reason navigate_to_pose (facts_from_state silent) ≢ none
silent_base_refused_example =
    silent_base_refused navigate_to_pose silent refl (inr (λ h. omega arith))

emergency_ignores_telemetry_example :
    rejection_reason motor_disable (facts_from_state here)
    ≡ rejection_reason motor_disable (facts_from_state (record here { base_state = none }))
emergency_ignores_telemetry_example =
    emergency_ignores_telemetry motor_disable here (record here { base_state = none }) refl refl
      refl

teleop_iff_example : ManualAdmitted (manual_view here)
teleop_iff_example = (teleop_iff (manual_view here)).0 can_drive

manual_undock_exclusive_example :
    (on_dock (facts_from_state here) ≡ false)
    × (rejection_reason undock (facts_from_state here) ≢ none)
manual_undock_exclusive_example = manual_undock_exclusive here can_drive
