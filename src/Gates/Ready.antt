-- ===== src/Gates/Ready.antt =====
-- What each gate of server/app/commands/gates.py stands for, in words of the robot's state and
-- apart from the order of its tests, and the equivalence of the two.
use patrolbot_dashboard.Base.{
  ℕ, ◌+◌, ◌≤◌, pos, negsuc, ◌≡◌, refl, ◌↔◌, Bool, true, false≢true, not, ◌&&◌, Option, none, some,
  arith, eqb_ℤ_iff, ◌+ℤ◌,
}
use patrolbot_dashboard.Base.Float.{Float, fin, nano, lt, add, is_finite, AtMost, le-nano_iff}
use patrolbot_dashboard.Protocol.Telemetry.{ready}
use patrolbot_dashboard.Gates.Facts.{
  StateFacts, telemetry_fresh, base_state_fresh, pose_fresh, within,
}
use patrolbot_dashboard.Gates.Rules.{hardware_reason, stationary_reason, lidar_reason}

-- A reading that arrived at most `limit` billionths of a second ago.
abbrev pub Received : Option Float → ℕ → Type 0
Received none limit = ⊥
Received (some age) limit = AtMost age limit

-- Two ages that are real, not negative, and add up to at most `limit`.
abbrev pub FreshSum : Float → Float → ℕ → Type 0
FreshSum (fin (pos a)) (fin (pos b)) limit = a + b ≤ limit
FreshSum _ _ limit = ⊥

abbrev pub FreshSince : Float → Option Float → ℕ → Type 0
FreshSince age none limit = ⊥
FreshSince age (some receipt) limit = FreshSum age receipt limit

pub record HardwareReady (f : StateFacts) : Type 0 where
  pub is_online : f.online ≡ true
  pub linked : f.link_connected ≡ true
  pub received : Received f.base_state_age 3_000_000_000
  pub current : AtMost f.telemetry_age 2_000_000_000
  pub valid : f.hardware_state_valid ≡ true
  pub no_fault : f.fault_flags ≡ pos 0

-- Ages and bounds are read through these equivalences, so that proofs keep the comparisons shut.
pub within_iff : (age : Option Float) (n : ℕ) → (within age (nano n) ≡ true) ↔ Received age n
within_iff none n = (λ h. absurd (false≢true h), λ h. absurd h)
within_iff (some age) n = le-nano_iff age n

pub base_state_fresh_iff :
    (f : StateFacts) → (base_state_fresh f ≡ true) ↔ Received f.base_state_age 3_000_000_000
unfolding base_state_fresh
base_state_fresh_iff f = within_iff f.base_state_age 3_000_000_000

pub pose_fresh_iff : (f : StateFacts) → (pose_fresh f ≡ true) ↔ Received f.pose_age 3_000_000_000
unfolding pose_fresh
pose_fresh_iff f = within_iff f.pose_age 3_000_000_000

pub telemetry_fresh_iff :
    (f : StateFacts)
    → (telemetry_fresh f ≡ true) ↔ (f.link_connected ≡ true) × AtMost f.telemetry_age 2_000_000_000
unfolding telemetry_fresh
telemetry_fresh_iff f = (
  λ h. (ground arith, (le-nano_iff f.telemetry_age 2_000_000_000).0 (ground arith)),
  λ h. rw (h.0) ((le-nano_iff f.telemetry_age 2_000_000_000).1 h.1),
)

hardware_tests :
    (f : StateFacts)
    → hardware_reason f ≡ none
    → (f.online ≡ true)
      × (base_state_fresh f ≡ true)
      × (telemetry_fresh f ≡ true)
      × (f.hardware_state_valid ≡ true)
      × (f.fault_flags ≡ pos 0)
unfolding hardware_reason
hardware_tests f h = ground (arith, eqb_ℤ_iff f.fault_flags (pos 0))

hardware_passes :
    (f : StateFacts)
    → f.online ≡ true
    → base_state_fresh f ≡ true
    → telemetry_fresh f ≡ true
    → f.hardware_state_valid ≡ true
    → f.fault_flags ≡ pos 0
    → hardware_reason f ≡ none
unfolding hardware_reason
hardware_passes f a b c d e = ground (arith, eqb_ℤ_iff f.fault_flags (pos 0))

pub hardware_reason_iff : (f : StateFacts) → (hardware_reason f ≡ none) ↔ HardwareReady f
hardware_reason_iff f = (
  λ h.
      let (a, b, c, d, e) = hardware_tests f h in
      let (l, t) = (telemetry_fresh_iff f).0 c in
      record {
        is_online = a;
        linked = l;
        received = (base_state_fresh_iff f).0 b;
        current = t;
        valid = d;
        no_fault = e;
      },
  λ r.
      hardware_passes f r.is_online ((base_state_fresh_iff f).1 r.received)
        ((telemetry_fresh_iff f).1 (r.linked, r.current)) r.valid r.no_fault,
)

-- A pose that arrived within the receipt limit and shows the robot stopped.
pub record Stopped (f : StateFacts) : Type 0 where
  pub pose_received : Received f.pose_age 3_000_000_000
  pub stopped : f.stationary ≡ true

pub stationary_reason_iff : (f : StateFacts) → (stationary_reason f ≡ none) ↔ Stopped f
unfolding stationary_reason
stationary_reason_iff f = (
  λ h. record { pose_received = (pose_fresh_iff f).0 (ground arith); stopped = ground arith },
  λ r. rw ((pose_fresh_iff f).1 r.pose_received, r.stopped) refl,
)

-- The scanner is running, and both the last scan and the robot's own report, counted up to now,
-- are at most half a second old.
pub record LidarReady (f : StateFacts) : Type 0 where
  pub is_online : f.online ≡ true
  pub linked : f.link_connected ≡ true
  pub valid : f.hardware_state_valid ≡ true
  pub ready_state : f.lidar_state ≡ ready
  pub scan_fresh : FreshSince f.lidar_scan_age f.base_state_age 500_000_000
  pub report_fresh : FreshSince f.telemetry_age f.base_state_age 500_000_000

abbrev sum_ok : Float → Float → ℕ → Bool
sum_ok a b limit =
    is_finite a
    && not (lt a (nano 0))
    && is_finite b
    && not (lt b (nano 0))
    && not (lt (nano limit) (add a b))

sum_ok_iff : (a b : Float) (limit : ℕ) → (sum_ok a b limit ≡ true) ↔ FreshSum a b limit
unfolding is_finite lt add ◌+ℤ◌
sum_ok_iff (fin (pos a)) (fin (pos b)) limit = (λ h. ground arith, λ h. ground arith)
sum_ok_iff (fin (pos a)) (fin (negsuc b)) limit = (λ h. ground arith, λ h. absurd h)
sum_ok_iff (fin (pos a)) _ limit = (λ h. ground arith, λ h. absurd h)
sum_ok_iff (fin (negsuc a)) b limit = (λ h. ground arith, λ h. absurd h)
sum_ok_iff _ b limit = (λ h. ground arith, λ h. absurd h)

lidar_tests :
    (f : StateFacts) (age : Option Float)
    → f.base_state_age ≡ age
    → lidar_reason f ≡ none
    → (r : Float) × (age ≡ some r)
      × (sum_ok f.lidar_scan_age r 500_000_000 ≡ true)
      × (sum_ok f.telemetry_age r 500_000_000 ≡ true)
      × (f.online ≡ true)
      × (f.link_connected ≡ true)
      × (f.hardware_state_valid ≡ true)
      × (f.lidar_state ≡ ready)
unfolding lidar_reason
lidar_tests f none e h = absurd (ground arith)
lidar_tests f (some r) e h =
    (r, refl, ground arith, ground arith, ground arith, ground arith, ground arith, ground arith)

lidar_passes :
    (f : StateFacts) (r : Float)
    → f.base_state_age ≡ some r
    → sum_ok f.lidar_scan_age r 500_000_000 ≡ true
    → sum_ok f.telemetry_age r 500_000_000 ≡ true
    → f.online ≡ true
    → f.link_connected ≡ true
    → f.hardware_state_valid ≡ true
    → f.lidar_state ≡ ready
    → lidar_reason f ≡ none
unfolding lidar_reason
lidar_passes f r e a b c d v l = ground arith

FreshSince-of :
    (age : Float) (receipt : Option Float) (r : Float) (limit : ℕ)
    → receipt ≡ some r
    → sum_ok age r limit ≡ true
    → FreshSince age receipt limit
FreshSince-of age receipt r limit e h = rw e ((sum_ok_iff age r limit).0 h)

LidarReady-passes :
    (f : StateFacts) (receipt : Option Float)
    → f.base_state_age ≡ receipt
    → FreshSince f.lidar_scan_age receipt 500_000_000
    → FreshSince f.telemetry_age receipt 500_000_000
    → LidarReady f
    → lidar_reason f ≡ none
LidarReady-passes f none e s t r = absurd s
LidarReady-passes f (some a) e s t r =
    lidar_passes f a e ((sum_ok_iff f.lidar_scan_age a 500_000_000).1 s)
      ((sum_ok_iff f.telemetry_age a 500_000_000).1 t) r.is_online r.linked r.valid r.ready_state

pub lidar_reason_iff : (f : StateFacts) → (lidar_reason f ≡ none) ↔ LidarReady f
lidar_reason_iff f = (
  λ h.
      let (r, e, scan, report, o, l, v, s) = lidar_tests f f.base_state_age refl h in
      record {
        is_online = o;
        linked = l;
        valid = v;
        ready_state = s;
        scan_fresh = FreshSince-of f.lidar_scan_age f.base_state_age r 500_000_000 e scan;
        report_fresh = FreshSince-of f.telemetry_age f.base_state_age r 500_000_000 e report;
      },
  λ r. LidarReady-passes f f.base_state_age refl r.scan_fresh r.report_fresh r,
)
