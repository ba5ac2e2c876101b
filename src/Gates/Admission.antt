-- ===== src/Gates/Admission.antt =====
-- When the gates of server/app/commands/gates.py admit each moving command, and what all of them
-- have in common.
use patrolbot_dashboard.Base.{
  ◌<◌, ◌≡◌, ◌≢◌, refl, sym, ◌∙◌, false≢true, ◌↔◌, ◌⊎◌, Bool, true, false, Option, none, some, arith,
  is_true, is_false, or_else,
}
use patrolbot_dashboard.Base.Text.{contains}
use patrolbot_dashboard.Protocol.Commands.{
  Command, navigate_to_pose, undock, charge_release, dock_reset, set_lidar_power,
}
use patrolbot_dashboard.Gates.Facts.{StateFacts, on_dock, pose_fresh}
use patrolbot_dashboard.Gates.Rules.{
  hardware_reason, stationary_reason, lidar_reason, navigate_reason, undock_reason,
  charge_release_reason, dock_reset_reason, lidar_power_reason, rejection_reason,
}
use patrolbot_dashboard.Gates.Ready.{
  Received, HardwareReady, hardware_reason_iff, Stopped, stationary_reason_iff, LidarReady,
  lidar_reason_iff, pose_fresh_iff,
}

pub or_else-none {ℓ} :
    {A : Type ℓ} (a b : Option A) → (or_else a b ≡ none) ↔ (a ≡ none) × (b ≡ none)
or_else-none none b = (λ h. (refl, h), λ h. h.1)
or_else-none (some a) b = (λ h. absurd (ground arith), λ h. h.0)

-- What navigation asks of the robot beyond its hardware and its scanner.
pub record NavigateReady (f : StateFacts) : Type 0 where
  pub hardware : HardwareReady f
  pub lidar : LidarReady f
  pub released : f.estop_pressed ≡ false
  pub off_dock : on_dock f ≡ false
  pub powered : f.motors_enabled ≡ true
  pub origin : f.odom_epoch_valid ≡ true
  pub recovered : f.localization_recovery_required ≡ false
  pub seeded : 0 < f.localization_seed_stamp_ns
  pub pose_received : Received f.pose_age 3_000_000_000
  pub located : (f.localized ≡ true) ⊎ (f.allow_unlocalized ≡ true)

navigate_rest :
    (f : StateFacts)
    → hardware_reason f ≡ none
    → navigate_reason f ≡ none
    → (f.estop_pressed ≡ false)
      × (on_dock f ≡ false)
      × (f.motors_enabled ≡ true)
      × (f.odom_epoch_valid ≡ true)
      × (f.localization_recovery_required ≡ false)
      × (0 < f.localization_seed_stamp_ns)
      × (pose_fresh f ≡ true)
      × ((f.localized ≡ true) ⊎ (f.allow_unlocalized ≡ true))
unfolding navigate_reason
navigate_rest f hw h = ground arith

navigate_passes :
    (f : StateFacts)
    → hardware_reason f ≡ none
    → pose_fresh f ≡ true
    → NavigateReady f
    → navigate_reason f ≡ none
unfolding navigate_reason
navigate_passes f hw p r = ground arith

-- A destination is admitted exactly when the drive base is linked, fresh, valid and free of
-- faults, the scanner is ready with a fresh scan, the emergency stop is released, the robot is off
-- its dock, its motors are on, it has a valid origin and has recovered its location from a seed,
-- and its pose is fresh and trusted, or the operator waived that last check.
pub navigate_iff : (f : StateFacts) → (rejection_reason navigate_to_pose f ≡ none) ↔ NavigateReady f
unfolding rejection_reason
navigate_iff f = (
  λ h.
      let (l, n) = (or_else-none (lidar_reason f) (navigate_reason f)).0 h in
      let hw : hardware_reason f ≡ none =
        unfold navigate_reason in ((or_else-none (hardware_reason f) _).0 n).0 in
      let (e, d, m, o, c, s, p, w) = navigate_rest f hw n in
      record {
        hardware = (hardware_reason_iff f).0 hw;
        lidar = (lidar_reason_iff f).0 l;
        released = e;
        off_dock = d;
        powered = m;
        origin = o;
        recovered = c;
        seeded = s;
        pose_received = (pose_fresh_iff f).0 p;
        located = w;
      },
  λ r. (or_else-none (lidar_reason f) (navigate_reason f)).1 (
    (lidar_reason_iff f).1 r.lidar,
    navigate_passes f ((hardware_reason_iff f).1 r.hardware) ((pose_fresh_iff f).1 r.pose_received)
        r,
  ),
)

-- What undocking asks of the robot.
pub record UndockReady (f : StateFacts) : Type 0 where
  pub hardware : HardwareReady f
  pub lidar : LidarReady f
  pub capable : contains "undock" f.capabilities ≡ true
  pub observed : is_false f.dock_state_valid ≡ false
  pub commissioned : is_false f.undock_profile_commissioned ≡ false
  pub idle : f.undock_active ≡ false
  pub docked : on_dock f ≡ true
  pub released : f.estop_pressed ≡ false
  pub bumpers_known : f.bumpers_valid ≡ some true
  pub rear_clear : f.bumpers_rear ≡ false
  pub not_driving : f.navigating ≡ false
  pub at_rest : Stopped f

undock_rest :
    (f : StateFacts)
    → hardware_reason f ≡ none
    → undock_reason f ≡ none
    → (contains "undock" f.capabilities ≡ true)
      × (is_false f.dock_state_valid ≡ false)
      × (is_false f.undock_profile_commissioned ≡ false)
      × (f.undock_active ≡ false)
      × (on_dock f ≡ true)
      × (f.estop_pressed ≡ false)
      × (is_true f.bumpers_valid ≡ true)
      × (f.bumpers_rear ≡ false)
      × (f.navigating ≡ false)
      × (stationary_reason f ≡ none)
unfolding undock_reason
undock_rest f hw h = ground arith

is_true-some : (o : Option Bool) → is_true o ≡ true → o ≡ some true
is_true-some none h = ground arith
is_true-some (some true) h = refl
is_true-some (some false) h = ground arith

undock_passes :
    (f : StateFacts)
    → hardware_reason f ≡ none
    → stationary_reason f ≡ none
    → UndockReady f
    → undock_reason f ≡ none
unfolding undock_reason
undock_passes f hw s r = ground arith

-- Undocking is admitted exactly when the drive base is linked, fresh, valid and free of faults,
-- the scanner is ready with a fresh scan, the robot has the capability, neither its dock observer
-- nor its undock profile is reported unusable, no undocking runs, it is on its dock, the emergency
-- stop is released, it vouches for its bumpers and the rear one is clear, no destination is
-- pending, and a fresh pose shows it stopped.
pub undock_iff : (f : StateFacts) → (rejection_reason undock f ≡ none) ↔ UndockReady f
unfolding rejection_reason
undock_iff f = (
  λ h.
      let (l, n) = (or_else-none (lidar_reason f) (undock_reason f)).0 h in
      let hw : hardware_reason f ≡ none =
        unfold undock_reason in ((or_else-none (hardware_reason f) _).0 n).0 in
      let (c, v, p, a, d, e, b, r, g, s) = undock_rest f hw n in
      record {
        hardware = (hardware_reason_iff f).0 hw;
        lidar = (lidar_reason_iff f).0 l;
        capable = c;
        observed = v;
        commissioned = p;
        idle = a;
        docked = d;
        released = e;
        bumpers_known = is_true-some f.bumpers_valid b;
        rear_clear = r;
        not_driving = g;
        at_rest = (stationary_reason_iff f).0 s;
      },
  λ r. (or_else-none (lidar_reason f) (undock_reason f)).1 (
    (lidar_reason_iff f).1 r.lidar,
    undock_passes f ((hardware_reason_iff f).1 r.hardware) ((stationary_reason_iff f).1 r.at_rest)
        r,
  ),
)

-- No state of the robot admits both a destination and undocking.
pub navigate_undock_exclusive :
    (f : StateFacts) → rejection_reason navigate_to_pose f ≡ none → rejection_reason undock f ≢ none
navigate_undock_exclusive f h k =
    false≢true (sym ((navigate_iff f).0 h).off_dock ∙ ((undock_iff f).0 k).docked)

-- The commands whose gate asks for the drive base.
abbrev pub asks_hardware : Command → Bool
asks_hardware navigate_to_pose = true
asks_hardware charge_release = true
asks_hardware undock = true
asks_hardware dock_reset = true
asks_hardware set_lidar_power = true
asks_hardware _ = false

dock_reset-hardware : (f : StateFacts) → dock_reset_reason f ≡ none → hardware_reason f ≡ none
unfolding dock_reset_reason
dock_reset-hardware f h = ground arith

gate-hardware :
    (c : Command) (f : StateFacts)
    → asks_hardware c ≡ true
    → rejection_reason c f ≡ none
    → hardware_reason f ≡ none
unfolding rejection_reason navigate_reason charge_release_reason undock_reason lidar_power_reason
gate-hardware navigate_to_pose f a h =
    ((or_else-none (hardware_reason f) _).0 ((or_else-none (lidar_reason f) _).0 h).1).0
gate-hardware charge_release f a h =
    ((or_else-none (hardware_reason f) _).0 ((or_else-none (lidar_reason f) _).0 h).1).0
gate-hardware undock f a h =
    ((or_else-none (hardware_reason f) _).0 ((or_else-none (lidar_reason f) _).0 h).1).0
gate-hardware set_lidar_power f a h = ((or_else-none (hardware_reason f) _).0 h).0
gate-hardware dock_reset f a h = dock_reset-hardware f h
gate-hardware _ f a h = absurd (false≢true a)

-- Each of navigation, charge release, undocking, dock recovery and laser power is admitted only
-- on a drive base that is online, linked, heard from within 3 s, itself current within 2 s, valid
-- and free of faults.
pub admitted-HardwareReady :
    (c : Command) (f : StateFacts)
    → asks_hardware c ≡ true
    → rejection_reason c f ≡ none
    → HardwareReady f
admitted-HardwareReady c f a h = (hardware_reason_iff f).0 (gate-hardware c f a h)
