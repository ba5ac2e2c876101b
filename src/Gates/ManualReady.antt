-- ===== src/Gates/ManualReady.antt =====
-- What the gate of manual drive stands for, and how it relates to the gates of the other commands.
use text.Mathlib.TextEquality.{eq_iff}
use patrolbot_dashboard.Base.{
  pos, negsuc, ◌≡◌, sym, ap, String, true, false, false≢true, ◌&&◌, Option, none, some, arith, ◌↔◌,
  eqb_ℤ_iff, ◌+ℤ◌,
}
use patrolbot_dashboard.Base.Float.{Float, fin, nano, nan, pos_inf, neg_inf, le, lt, add, is_finite}
use patrolbot_dashboard.Base.Text.{contains}
use patrolbot_dashboard.Protocol.Telemetry.{online, BaseStateData, ready}
use patrolbot_dashboard.Gates.Manual.{
  ManualView, reading_bad, dock_clear, base_reason, present_reason, teleop_reason,
}
use patrolbot_dashboard.Gates.Ready.{FreshSum}

-- A reading with the time since its receipt, counted in billionths of a second.
abbrev pub FreshAt : Option Float → Float → Type 0
FreshAt none age = ⊥
FreshAt (some value) age = FreshSum value age 500_000_000

reading_fresh :
    (age : Float) (value : Option Float)
    → is_finite age ≡ true
    → le (nano 0) age ≡ true
    → reading_bad age value ≡ false
    → FreshAt value age
unfolding is_finite le lt add ◌+ℤ◌
reading_fresh age none f p h = absurd (false≢true (sym h))
reading_fresh (fin (pos a)) (some (fin (pos v))) f p h = ground arith
reading_fresh (fin (pos a)) (some (fin (negsuc v))) f p h = ground arith
reading_fresh (fin (negsuc a)) (some v) f p h = ground arith
reading_fresh (fin (pos a)) (some nan) f p h = ground arith
reading_fresh (fin (pos a)) (some pos_inf) f p h = ground arith
reading_fresh (fin (pos a)) (some neg_inf) f p h = ground arith
reading_fresh nan (some v) f p h = ground arith
reading_fresh pos_inf (some v) f p h = ground arith
reading_fresh neg_inf (some v) f p h = ground arith

-- The base state `b`, received `age` ago, allows manual drive.
pub record ManualReady (b : BaseStateData) (age : Float) : Type 0 where
  pub linked : b.link_connected ≡ true
  pub valid : b.hardware_state_valid ≡ true
  pub report : FreshAt (some b.telemetry_age) age
  pub scan : FreshAt (some b.lidar_scan_age) age
  pub odometry : FreshAt b.raw_odom_age_s age
  pub origin : b.odom_epoch_valid ≡ true
  pub scanner : b.lidar_state ≡ ready
  pub released : b.estop_pressed ≡ false
  pub no_fault : b.fault_flags ≡ pos 0
  pub bumpers_known : b.bumpers_valid ≡ some true
  pub front_clear : b.bumpers_front ≡ false
  pub rear_clear : b.bumpers_rear ≡ false
  pub powered : b.motors_enabled ≡ true
  pub not_undocking : b.undock_active ≡ false
  pub dock_known : b.dock_state_valid ≡ some true
  pub dock_clear : b.dock_state ≡ some "CLEAR_CONFIRMED"

reading_ok :
    (age : Float) (value : Option Float) → FreshAt value age → reading_bad age value ≡ false
unfolding is_finite lt add ◌+ℤ◌
reading_ok age none h = absurd h
reading_ok (fin (pos a)) (some (fin (pos v))) h = ground arith
reading_ok (fin (negsuc a)) (some (fin (pos v))) h = absurd h
reading_ok nan (some (fin (pos v))) h = absurd h
reading_ok pos_inf (some (fin (pos v))) h = absurd h
reading_ok neg_inf (some (fin (pos v))) h = absurd h
reading_ok age (some (fin (negsuc v))) h = absurd h
reading_ok age (some _) h = absurd h

age_ok :
    (age value : Float)
    → FreshAt (some value) age
    → (is_finite age && (le (nano 0) age && le age (nano 500_000_000))) ≡ true
unfolding is_finite le
age_ok (fin (pos a)) (fin (pos v)) h = ground arith
age_ok (fin (negsuc a)) (fin (pos v)) h = absurd h
age_ok nan (fin (pos v)) h = absurd h
age_ok pos_inf (fin (pos v)) h = absurd h
age_ok neg_inf (fin (pos v)) h = absurd h
age_ok age (fin (negsuc v)) h = absurd h
age_ok age _ h = absurd h

dock_clear_some : (o : Option String) → dock_clear o ≡ true → o ≡ some "CLEAR_CONFIRMED"
dock_clear_some none h = absurd (false≢true h)
dock_clear_some (some s) h = ap some ((eq_iff s "CLEAR_CONFIRMED").0 h)

base_ready :
    (b : BaseStateData) (age : Float)
    → is_finite age ≡ true
    → le (nano 0) age ≡ true
    → base_reason b age ≡ none
    → ManualReady b age
unfolding base_reason
base_ready b age f p h = record {
  linked = ground arith;
  valid = ground arith;
  report = reading_fresh age (some b.telemetry_age) f p (ground arith);
  scan = reading_fresh age (some b.lidar_scan_age) f p (ground arith);
  odometry = reading_fresh age b.raw_odom_age_s f p (ground arith);
  origin = ground arith;
  scanner = ground arith;
  released = ground arith;
  no_fault = ground (arith, eqb_ℤ_iff b.fault_flags (pos 0));
  bumpers_known = ground arith;
  front_clear = ground arith;
  rear_clear = ground arith;
  powered = ground arith;
  not_undocking = ground arith;
  dock_known = ground arith;
  dock_clear = dock_clear_some b.dock_state (ground arith);
}

base_passes : (b : BaseStateData) (age : Float) → ManualReady b age → base_reason b age ≡ none
unfolding base_reason
base_passes b age r = ground (
  arith,
  reading_ok age (some b.telemetry_age) r.report,
  reading_ok age (some b.lidar_scan_age) r.scan,
  reading_ok age b.raw_odom_age_s r.odometry,
  eqb_ℤ_iff b.fault_flags (pos 0),
  eq_iff "CLEAR_CONFIRMED" "CLEAR_CONFIRMED",
)

abbrev pub PresentReady : Option BaseStateData → Option Float → Type 0
PresentReady none age = ⊥
PresentReady (some b) none = ⊥
PresentReady (some b) (some age) = ManualReady b age

present_iff :
    (b : Option BaseStateData) (age : Option Float)
    → (present_reason b age ≡ none) ↔ PresentReady b age
unfolding present_reason
present_iff none age = (λ h. ground arith, λ h. absurd h)
present_iff (some b) none = (λ h. ground arith, λ h. absurd h)
present_iff (some b) (some age) = (
  λ h. base_ready b age (ground arith) (ground arith) (ground arith),
  λ r. ground (arith, age_ok age b.telemetry_age r.report, base_passes b age r),
)

pub record ManualAdmitted (v : ManualView) : Type 0 where
  pub connected : v.connection ≡ online
  pub capable : contains "web_teleop_v1" v.capabilities ≡ true
  pub present : PresentReady v.base v.age

-- Manual drive is admitted exactly when the robot is online and declares the capability, and its
-- latest base state is linked, valid, free of faults, with the emergency stop released, the
-- bumpers vouched for and clear, the motors on, a valid origin, a ready scanner, no undocking and
-- confirmed clearance from the dock, while its report, scan and odometry, each counted from its
-- receipt, are at most half a second old.
pub teleop_iff : (v : ManualView) → (teleop_reason v ≡ none) ↔ ManualAdmitted v
unfolding teleop_reason
teleop_iff v = (
  λ h. record {
    connected = ground arith;
    capable = ground arith;
    present = (present_iff v.base v.age).0 (ground arith);
  },
  λ r. ground (arith, r.connected, r.capable, (present_iff v.base v.age).1 r.present),
)
