-- ===== src/Bridge/Clearance.antt =====
-- What the silence of `RosTeleop.safety` promises, ros2_ws/src/patrolbot_web_bridge/
-- patrolbot_web_bridge/teleop.py, and manual drive under it.
use text.Mathlib.Text.{◌==◌ as str_eq}
use patrolbot_dashboard.Base.{
  ℕ, ◌≡◌, refl, ap, sym, ◌∙◌, Bool, true, false, false≢true, not, ◌&&◌, ◌||◌, Option, none, some,
  any, all, maybe, is_none, ◌==◌, is_true, not-false, not-true, and_true, or_false, ==_iff,
  if◌then◌else◌,
}
use patrolbot_dashboard.Base.Grown.{Grown-map}
use patrolbot_dashboard.Base.Float.{Float, nano, le, lt, add, sub, is_finite}
use patrolbot_dashboard.Bridge.Session.{Message, published, Env, TeleopSession}
use patrolbot_dashboard.Bridge.Frame.{Payload, frame}
use patrolbot_dashboard.Bridge.Messages.{Gives}
use patrolbot_dashboard.Bridge.Motion.{MayPublish, frame-MayPublish}
use patrolbot_dashboard.Bridge.Safety.{
  hardware_timeout_s, BaseState, Odometry, View, Hazard, recent, age_ok, lidar_ok, dock_clear,
  bumpers_clear, machine_hazard, odom_hazard, base_hazard, safety,
}

-- A time span from zero to half a second.
abbrev pub HalfSecond : Float → Type 0
HalfSecond age = (le (nano 0) age ≡ true) × (le age (nano 500_000_000) ≡ true)

-- Something was heard, at most half a second ago.
abbrev pub HeardLately : Float → Option Float → Type 0
HeardLately now at = (t : Float) × (at ≡ some t) × HalfSecond (sub now t)

pub record MachineClear (v : View) (b : BaseState) : Type 0 where
  pub motors : b.motors_enabled ≡ true
  pub no_estop : b.estop_pressed ≡ false
  pub no_fault : b.fault_flags ≡ 0
  pub dock_known : b.dock_state_valid ≡ true
  pub off_dock : str_eq b.dock_state "CLEAR_CONFIRMED" ≡ true
  pub bumpers_known : b.bumpers_valid ≡ some true
  pub front_free : b.bumpers_front ≡ false
  pub rear_free : b.bumpers_rear ≡ false
  pub no_undock : b.undock_active ≡ false
  pub no_action : any (λ a. a) v.action_active ≡ false
  pub no_command : v.command_owns ≡ false
  pub no_reset : v.reset_blocks ≡ false
  pub no_joystick : ¬ HeardLately v.now v.manual_at
  pub navigation_idle : HeardLately v.now v.idle_at
  pub same_path : (v.session_active && not v.same_writers) ≡ false

pub record OdomClear (v : View) (b : BaseState) (o : Option Odometry) : Type 0 where
  pub odom : Odometry
  pub has_odom : o ≡ some odom
  pub odom_heard : HeardLately v.now v.odom_at
  pub odom_finite : all is_finite odom.values ≡ true
  pub odom_stamped : HalfSecond odom.age
  pub machine : MachineClear v b

-- The ages of the report and of the scan count on from the time of the receipt.
pub record BaseClear (v : View) (b : Option BaseState) (at : Option Float) : Type 0 where
  pub base : BaseState
  pub received : Float
  pub has_base : b ≡ some base
  pub has_time : at ≡ some received
  pub base_heard : HalfSecond (sub v.now received)
  pub linked : base.link_connected ≡ true
  pub valid : base.hardware_state_valid ≡ true
  pub telemetry_known : is_finite base.telemetry_age ≡ true
  pub telemetry_fresh : HalfSecond (add base.telemetry_age (sub v.now received))
  pub lidar_ready : str_eq base.lidar_state "READY" ≡ true
  pub scan_known : is_finite base.lidar_scan_age ≡ true
  pub scan_past : lt base.lidar_scan_age (nano 0) ≡ false
  pub scan_fresh : lt (nano 500_000_000) (sub (add base.lidar_scan_age v.now) received) ≡ false
  pub origin : base.odom_epoch_valid ≡ true
  pub odometry : OdomClear v base v.odom

pub record Clear (v : View) : Type 0 where
  pub no_maintenance : v.tuning_hold ≡ false
  pub online : v.connected ≡ true
  pub hardware : BaseClear v v.base v.base_at

recent-HeardLately : (now : Float) (at : Option Float) → recent now at ≡ true → HeardLately now at
recent-HeardLately now none h = absurd (false≢true h)
recent-HeardLately now (some t) h = (t, refl, and_true _ _ h)

HeardLately-recent : (now : Float) (at : Option Float) → HeardLately now at → recent now at ≡ true
HeardLately-recent now at (t, e, (past, soon)) = rw (e, past) soon

known_bumpers : (o : Option Bool) → is_true o ≡ true → o ≡ some true
known_bumpers none h = absurd (false≢true h)
known_bumpers (some true) h = refl
known_bumpers (some false) h = absurd (false≢true h)

-- A guard of the list that did not answer.
passed :
    (b : Bool) (h : Hazard) (rest : Option Hazard)
    → (if b then some h else rest) ≡ none
    → (b ≡ false) × (rest ≡ none)
passed true h rest e = absurd (false≢true (ap is_none e))
passed false h rest e = (refl, e)

machine_hazard-MachineClear :
    (v : View) (b : BaseState) → machine_hazard v b ≡ none → MachineClear v b
unfolding machine_hazard
machine_hazard-MachineClear v b e =
    let (motors, e) = passed (not b.motors_enabled) _ _ e in
    let (stops, e) = passed (b.estop_pressed || not (b.fault_flags == 0)) _ _ e in
    let (dock, e) = passed (not (dock_clear b)) _ _ e in
    let (bumpers, e) = passed (not (bumpers_clear b)) _ _ e in
    let (actions, e) = passed (b.undock_active || any (λ a. a) v.action_active) _ _ e in
    let (command, e) = passed v.command_owns _ _ e in
    let (reset, e) = passed v.reset_blocks _ _ e in
    let (joystick, e) = passed (recent v.now v.manual_at) _ _ e in
    let (idle, e) = passed (not (recent v.now v.idle_at)) _ _ e in
    let (path, _) = passed (v.session_active && not v.same_writers) _ _ e in
    let (estop, fault) = or_false b.estop_pressed _ stops in
    let (undock, action) = or_false b.undock_active _ actions in
    let (dock_known, off_dock) = and_true b.dock_state_valid _ (not-false _ dock) in
    let (bumpers, rear) =
      and_true (is_true b.bumpers_valid && not b.bumpers_front) _ (not-false _ bumpers) in
    let (known, front) = and_true (is_true b.bumpers_valid) _ bumpers in
    record {
      motors = not-false _ motors;
      no_estop = estop;
      no_fault = (==_iff b.fault_flags 0).0 (not-false _ fault);
      dock_known = dock_known;
      off_dock = off_dock;
      bumpers_known = known_bumpers b.bumpers_valid known;
      front_free = not-true _ front;
      rear_free = not-true _ rear;
      no_undock = undock;
      no_action = action;
      no_command = command;
      no_reset = reset;
      no_joystick = λ heard. false≢true (sym joystick ∙ HeardLately-recent v.now v.manual_at heard);
      navigation_idle = recent-HeardLately v.now v.idle_at (not-false _ idle);
      same_path = path;
    }

odom_hazard-OdomClear :
    (v : View) (b : BaseState) (o : Option Odometry) → odom_hazard v b o ≡ none → OdomClear v b o
unfolding odom_hazard
odom_hazard-OdomClear v b none e = absurd (false≢true (ap is_none e))
odom_hazard-OdomClear v b (some o) e =
    let (fresh, e) = passed (not (recent v.now v.odom_at)) _ _ e in
    let (sound, e) =
      passed
        (not (all is_finite o.values) || not (le (nano 0) o.age && le o.age hardware_timeout_s)) _ _
        e in
    let (finite, stamp) = or_false (not (all is_finite o.values)) _ sound in
    record {
      odom = o;
      has_odom = refl;
      odom_heard = recent-HeardLately v.now v.odom_at (not-false _ fresh);
      odom_finite = not-false _ finite;
      odom_stamped = and_true _ _ (not-false _ stamp);
      machine = machine_hazard-MachineClear v b e;
    }

lidar_parts :
    (b : BaseState) (now t : Float)
    → lidar_ok b now t ≡ true
    → (str_eq b.lidar_state "READY" ≡ true)
      × ((is_finite b.lidar_scan_age ≡ true)
          × (lt b.lidar_scan_age (nano 0) ≡ false)
          × (lt (nano 500_000_000) (sub (add b.lidar_scan_age now) t) ≡ false))
lidar_parts b now t h =
    let ready = str_eq b.lidar_state "READY" in
    let past = not (lt b.lidar_scan_age (nano 0)) in
    let (rest, fresh) = and_true (ready && is_finite b.lidar_scan_age && past) _ h in
    let (rest, past) = and_true (ready && is_finite b.lidar_scan_age) past rest in
    let (ready, known) = and_true ready _ rest in
    (ready, (known, not-true _ past, not-true _ fresh))

base_hazard-BaseClear :
    (v : View) (b : Option BaseState) (at : Option Float)
    → base_hazard v b at ≡ none
    → BaseClear v b at
unfolding base_hazard
base_hazard-BaseClear v none at e = absurd (false≢true (ap is_none e))
base_hazard-BaseClear v (some b) none e = absurd (false≢true (ap is_none e))
base_hazard-BaseClear v (some b) (some t) e =
    let (fresh, e) = passed (not (recent v.now (some t))) _ _ e in
    let (sound, e) =
      passed
        (not b.link_connected || not b.hardware_state_valid || not (age_ok b.telemetry_age v.now t))
        _ _ e in
    let (scan, e) = passed (not (lidar_ok b v.now t)) _ _ e in
    let (origin, e) = passed (not b.odom_epoch_valid) _ _ e in
    let (link_valid, age) = or_false (not b.link_connected || not b.hardware_state_valid) _ sound in
    let (link, valid) = or_false (not b.link_connected) _ link_valid in
    let (told, total) =
      and_true (is_finite b.telemetry_age && le (nano 0) (add b.telemetry_age (sub v.now t))) _
        (not-false _ age) in
    let (told, begun) = and_true (is_finite b.telemetry_age) _ told in
    let (ready, seen) = lidar_parts b v.now t (not-false _ scan) in
    record {
      base = b;
      received = t;
      has_base = refl;
      has_time = refl;
      base_heard = and_true _ _ (not-false _ fresh);
      telemetry_known = told;
      telemetry_fresh = (begun, total);
      linked = not-false _ link;
      valid = not-false _ valid;
      lidar_ready = ready;
      scan_known = seen.0;
      scan_past = seen.1;
      scan_fresh = seen.2;
      origin = not-false _ origin;
      odometry = odom_hazard-OdomClear v b v.odom e;
    }

pub safety-Clear : (v : View) → safety v ≡ none → Clear v
unfolding safety
safety-Clear v e =
    let (hold, e) = passed v.tuning_hold _ _ e in
    let (offline, e) = passed (not v.connected) _ _ e in
    record {
      no_maintenance = hold;
      online = not-false _ offline;
      hardware = base_hazard-BaseClear v v.base v.base_at e;
    }

-- A session whose safety callable is `RosTeleop.safety` on a view of the node.
abbrev pub guarded : (Hazard → ℕ) → Env → View → Env
guarded code env v = record env { safety = maybe none (λ h. some (code h)) (safety v) }

no_hazard :
    (code : Hazard → ℕ) (h : Option Hazard) → maybe none (λ k. some (code k)) h ≡ none → h ≡ none
no_hazard code none e = refl
no_hazard code (some h) e = absurd (false≢true (ap is_none e))

-- What the hardware must report where the robot is moved.
abbrev pub MovesOnlyClear : View → Message → Type 0
MovesOnlyClear v (published linear angular true) = Clear v
MovesOnlyClear v _ = Unit

moves_clear :
    (code : Hazard → ℕ) (s : TeleopSession) (env : Env) (v : View) (context : ℕ) (m : Message)
    → MayPublish s (guarded code env v) context m
    → MovesOnlyClear v m
moves_clear code s env v context (published linear angular true) k =
    safety-Clear v (no_hazard code (safety v) k.no_hazard)
moves_clear code s env v context (published linear angular false) k = tt
moves_clear code s env v context (Message.ack _ _ _) k = tt
moves_clear code s env v context (Message.ready _) k = tt
moves_clear code s env v context (Message.result _ _ _ _) k = tt

-- With the node's own safety callable, a frame moves the robot only when no maintenance holds it,
-- the dashboard is connected, the base state was heard at most half a second ago and is linked and
-- valid, its telemetry, counted on from the receipt, is at most half a second old, the LiDAR is
-- ready with a scan no older than that, the odometry has a valid origin, finite values, and both its
-- stamp and its receipt at most half a second old, the motors are on, no emergency stop or fault is
-- reported, the dock is confirmed clear, the bumpers are vouched for and free, no action, undocking,
-- command or reset runs, the joystick was not used within half a second, navigation was idle within
-- it, and the producers of an active session are the same.
pub frame-Clear :
    (code : Hazard → ℕ) (s : TeleopSession) (env : Env) (v : View) (data_in : Payload) (context : ℕ)
    (received_at : Float)
    → Gives (MovesOnlyClear v) s (frame s (guarded code env v) data_in context received_at)
frame-Clear code s env v data_in context received_at = record {
  grown =
      Grown-map (MayPublish s (guarded code env v) context) (MovesOnlyClear v) _ _
        (moves_clear code s env v context)
        ((frame-MayPublish s (guarded code env v) data_in context received_at).grown);
}
