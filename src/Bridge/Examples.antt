-- ===== src/Bridge/Examples.antt =====
-- Manual drive at a concrete contract, with one browser on connection 7.
use patrolbot_dashboard.Base.{
  abs, ◌⊎◌, ℤ, ℕ, ◌^◌, ◌≡◌, refl, pos, negsuc, ◌+ℤ◌, ◌-ℤ◌, String, true, false, none, some, List,
  [], ◌∷◌, arith,
}
use patrolbot_dashboard.Base.Float.{Float, nano, le, lt, sub, add, eq, fabs, negate, is_finite}
use patrolbot_dashboard.Base.Text.{contains, codes_eq, lower}
use patrolbot_dashboard.Base.Grown.{Grown}
use patrolbot_dashboard.TuningPolicy.{Value, int, float, str, bool, field, finite_number}
use patrolbot_dashboard.Bridge.Policy.{nothing, resolve_policy, same_signature, over}
use patrolbot_dashboard.Bridge.Session.{
  check_start, valid_id, resolve, confirm_start, accept, after_zero, begin, closed, confirm_policy,
  publish, start_checked, start_policy, Contract, Env, TeleopSession, done, new_session,
  StartRequest, start, tick, state_of, tick_policy, watch, say, ack, ready, published,
}
use patrolbot_dashboard.Bridge.Frame.{
  after_publish, check_finite, check_range, frame_in_time, frame_parsed, frame_policy, isfinite,
  move, parse, parse_types, dict, frame, fields_of,
}
use patrolbot_dashboard.Bridge.Messages.{Gives}
use patrolbot_dashboard.Bridge.History.{
  starts, confirms, frames, Step, run, run_call, Allowed, run-Allowed,
}
use patrolbot_dashboard.Bridge.WellFormed.{WellFormed}
use patrolbot_dashboard.Bridge.Invariant.{run-WellFormed_new, run-never_restarts}
use patrolbot_dashboard.Bridge.Watchdog.{Stopped, tick-Stopped, elsewhere, frame_release}
use patrolbot_dashboard.Bridge.Errors.{RaisesOnly, TooLarge, frame-RaisesOnly}
use patrolbot_dashboard.Bridge.Safety.{
  BaseState, View, machine_hazard, odom_hazard, base_hazard, safety,
}
use patrolbot_dashboard.Bridge.Clearance.{MovesOnlyClear, guarded, frame-Clear}
use text.Mathlib.Text.{◌==◌ as str_eq}
use text.Mathlib.TextEquality.{eq_iff}
use patrolbot_dashboard.Bridge.Hold.{run_closed}
use patrolbot_dashboard.Bridge.Node
use patrolbot_dashboard.Bridge.Node.{
  cmd_vel_out, cmd_vel, RosTeleop, Sample, drained, tick_session, prepare,
}
use patrolbot_dashboard.Bridge.Drain
use patrolbot_dashboard.Bridge.Drain.{hears, heard_on, Drained, tick_session-Drained}
use patrolbot_dashboard.Bridge.Throttle.{new_debounce, update}
use patrolbot_dashboard.Bridge.Settling.{Reading, Settles, readings_of, update-Settles}

abbrev contract : Contract
contract = record {
  linear_min = negate (nano 300_000_000);
  linear_max = nano 300_000_000;
  angular_min = negate (nano 300_000_000);
  angular_max = nano 700_000_000;
  timeout_s = nano 200_000_000;
}

abbrev at_time : ℕ → Env
at_time t = record {
  now = nano t;
  safety = none;
  answer = nothing;
  policy_required = false;
  uuid = λ s. some s;
}

abbrev held_at : ℕ → Env
held_at t = record (at_time t) { safety = some 1 }

abbrev request : StartRequest
request = record {
  command_id = str "a1";
  authorized = true;
  received_at = some (nano 1_000_000_000);
  defer_ack = false;
}

abbrev motion : List (String × Value)
motion =
    ("command_id", str "a1")
    ∷ ("seq", int (pos 0))
    ∷ ("linear", float (nano 100_000_000))
    ∷ ("angular", int (pos 0))
    ∷ ("deadman", bool true)
    ∷ []

abbrev release : List (String × Value)
release =
    ("command_id", str "a1")
    ∷ ("seq", int (pos 1))
    ∷ ("linear", int (pos 0))
    ∷ ("angular", int (pos 0))
    ∷ ("deadman", bool false)
    ∷ []

abbrev huge : List (String × Value)
huge =
    ("command_id", str "a1")
    ∷ ("seq", int (pos 1))
    ∷ ("linear", int (pos (2 ^ 1024)))
    ∷ ("angular", int (pos 0))
    ∷ ("deadman", bool true)
    ∷ []

abbrev opening : List Step
opening =
    record { call = starts request; env = at_time 1_050_000_000; context = 7 }
    ∷ record {
      call = frames (dict motion) (nano 1_100_000_000);
      env = at_time 1_100_000_000;
      context = 7;
    }
    ∷ []

abbrev fresh_session : TeleopSession
fresh_session = new_session contract (true ∷ true ∷ true ∷ true ∷ [])

abbrev driving : TeleopSession
driving = record {
  contract = contract;
  policy_signature = some (record {
    max_linear = nano 300_000_000;
    max_angular = nano 700_000_000;
    generation = none;
    dynamic = false;
  });
  command_id = some "a1";
  context = some 7;
  sequence = negsuc 0;
  last_received = some (nano 1_050_000_000);
  acknowledged = true;
  preparing_at = some (nano 1_050_000_000);
  seen = "a1" ∷ [];
  outcomes = true ∷ true ∷ [];
  sent = [];
}

run-Allowed_example :
    Grown (Allowed fresh_session opening) fresh_session.sent (run opening fresh_session).sent
run-Allowed_example = run-Allowed opening fresh_session

run-WellFormed_new_example :
    WellFormed (λ _. Unit) (run opening (new_session contract (true ∷ true ∷ [])))
run-WellFormed_new_example = run-WellFormed_new opening contract (true ∷ true ∷ [])

run-never_restarts_example :
    (c : _) × (start (run opening driving) (at_time 1_050_000_000) request 7
      ≡ done (say (run opening driving) (ack (str "a1") false (some c))) false)
unfolding contains
run-never_restarts_example =
    run-never_restarts opening driving (at_time 1_050_000_000) request 7
      ((refl, refl, refl), refl, omega arith, refl)

tick-Stopped_example : Stopped driving (tick driving (at_time 1_250_000_000) 7)
unfolding le sub ◌+ℤ◌ ◌-ℤ◌ lt
tick-Stopped_example =
    tick-Stopped driving (at_time 1_250_000_000) 7 (nano 1_050_000_000) refl refl refl refl

frame_release_example :
    frame driving
      (elsewhere (at_time 1_100_000_000) (some 3) nothing true)
      (dict release)
      7
      (nano 1_100_000_000)
    ≡ frame driving (at_time 1_100_000_000) (dict release) 7 (nano 1_100_000_000)
unfolding field
frame_release_example =
    frame_release driving (at_time 1_100_000_000) (some 3) nothing true release 7
      (nano 1_100_000_000) refl

frame-RaisesOnly_example :
    RaisesOnly
      (TooLarge (fields_of huge))
      driving
      (frame driving (at_time 1_100_000_000) (dict huge) 7 (nano 1_100_000_000))
frame-RaisesOnly_example =
    frame-RaisesOnly driving (at_time 1_100_000_000) huge 7 (nano 1_100_000_000)

-- The robot's report, 100 ms old, and its odometry, both received 50 ms ago.
abbrev report : BaseState
report = record {
  telemetry_age = nano 100_000_000;
  lidar_scan_age = nano 200_000_000;
  link_connected = true;
  hardware_state_valid = true;
  lidar_state = "READY";
  odom_epoch_valid = true;
  motors_enabled = true;
  estop_pressed = false;
  fault_flags = 0;
  dock_state_valid = true;
  dock_state = "CLEAR_CONFIRMED";
  bumpers_valid = some true;
  bumpers_front = false;
  bumpers_rear = false;
  undock_active = false;
}

-- A node on which nothing forbids manual drive.
abbrev free_view : View
free_view = record {
  tuning_hold = false;
  base = some report;
  base_at = some (nano 1_050_000_000);
  odom = some (record { values = nano 0 ∷ nano 0 ∷ []; age = nano 60_000_000 });
  odom_at = some (nano 1_050_000_000);
  now = nano 1_100_000_000;
  connected = true;
  action_active = false ∷ [];
  command_owns = false;
  reset_blocks = false;
  manual_at = none;
  idle_at = some (nano 1_000_000_000);
  session_active = true;
  same_writers = true;
}

frame-Clear_example : Gives (MovesOnlyClear free_view) driving (
    frame driving
      (guarded (λ _. 1) (at_time 1_100_000_000) free_view)
      (dict motion)
      7
      (nano 1_100_000_000))
frame-Clear_example =
    frame-Clear (λ _. 1) driving (at_time 1_100_000_000) free_view (dict motion) 7
      (nano 1_100_000_000)

-- That frame moves the robot.
moves_test :
    (state_of (
      frame driving
        (guarded (λ _. 1) (at_time 1_100_000_000) free_view)
        (dict motion)
        7
        (nano 1_100_000_000))).sent
    ≡ published (nano 100_000_000) (nano 0) true ∷ []
unfolding frame le sub ◌+ℤ◌ ◌-ℤ◌ resolve resolve_policy same_signature eq add fabs lt negate abs
    is_finite after_publish check_finite check_range frame_in_time frame_parsed frame_policy
    isfinite move parse parse_types over publish say field finite_number safety base_hazard
    odom_hazard machine_hazard contains
moves_test = refl

abbrev held_steps : List Step
held_steps =
    record { call = starts request; env = held_at 1_050_000_000; context = 7 }
    ∷ record { call = confirms; env = held_at 1_060_000_000; context = 7 }
    ∷ []

run_closed_example : (run held_steps fresh_session).command_id ≡ none
unfolding new_session
run_closed_example = run_closed held_steps fresh_session (refl, (refl, tt)) refl

-- The motion goes out once the start is accepted.
drives_test :
    (run opening fresh_session).sent
    ≡ published (nano 100_000_000) (nano 0) true
      ∷ ready "a1"
      ∷ ack (str "a1") true none
      ∷ published (nano 0) (nano 0) false
      ∷ []
unfolding run_call frame start check_start valid_id codes_eq lower new_session contains le sub ◌+ℤ◌
    ◌-ℤ◌ resolve resolve_policy confirm_start same_signature eq add fabs lt negate abs is_finite
    after_publish check_finite check_range frame_in_time frame_parsed frame_policy isfinite move
    parse parse_types over accept after_zero begin closed confirm_policy publish say start_checked
    start_policy field finite_number
drives_test = refl

-- A charger that flaps: its state is published after it has held for two seconds.
abbrev flapping : List (Reading String)
flapping =
    record { at = nano 3_000_000_000; value = "charging" }
    ∷ record { at = nano 2_000_000_000; value = "charging" }
    ∷ record { at = nano 1_000_000_000; value = "idle" }
    ∷ []

abbrev settle : Float
settle = nano 2_000_000_000

update-Settles_example :
    Settles str_eq
      (λ a b. (eq_iff a b).0)
      (readings_of str_eq (λ a b. (eq_iff a b).0) flapping (new_debounce settle))
      (update str_eq
        (readings_of str_eq (λ a b. (eq_iff a b).0) flapping (new_debounce settle))
        "charging"
        (nano 4_000_000_000))
      (nano 4_000_000_000)
      (record { at = nano 4_000_000_000; value = "charging" } ∷ flapping)
unfolding update new_debounce le sub ◌+ℤ◌ ◌-ℤ◌
update-Settles_example =
    update-Settles str_eq (λ a b. (eq_iff a b).0) settle flapping "charging" (nano 4_000_000_000)
      refl

published_test :
    (update str_eq
      (readings_of str_eq (λ a b. (eq_iff a b).0) flapping (new_debounce settle))
      "charging"
      (nano 4_000_000_000)).stable
    ≡ some "charging"
unfolding update new_debounce le sub ◌+ℤ◌ ◌-ℤ◌ add
published_test = refl

-- A node that a start has just cleared, whose session waits.
abbrev cleared_node : RosTeleop
cleared_node = record {
  session = record driving { acknowledged = false };
  drain = λ _. none;
  drain_source = λ _. pos 0;
  writers = some 3;
  tuning_hold = false;
  manual_at = none;
  action_active = λ _. false;
}

abbrev zero_sample : ℤ → Sample
zero_sample stamp = record {
  expected_publisher = true;
  stamp = stamp;
  age = nano 10_000_000;
  values = nano 0 ∷ nano 0 ∷ [];
}

-- Both outputs are zero from the first samples on, 600 ms before the tick. The latest step first.
abbrev draining : List Drain.Step
draining =
    hears cmd_vel (some (zero_sample (pos 2))) (nano 1_090_000_000)
    ∷ hears cmd_vel_out (some (zero_sample (pos 2))) (nano 1_080_000_000)
    ∷ hears cmd_vel (some (zero_sample (pos 1))) (nano 500_000_000)
    ∷ hears cmd_vel_out (some (zero_sample (pos 1))) (nano 500_000_000)
    ∷ []

tick_session-Drained_example :
    ((Drain.run draining cleared_node).session.acknowledged ≡ true)
    ⊎ (Drained (nano 1_100_000_000) (heard_on cmd_vel_out draining cleared_node)
        × Drained (nano 1_100_000_000) (heard_on cmd_vel draining cleared_node))
unfolding tick_session tick tick_policy watch prepare drained confirm_start confirm_policy accept
    say publish resolve resolve_policy same_signature eq le lt sub add negate ◌+ℤ◌ ◌-ℤ◌ Drain.run
    Node.observe is_finite
tick_session-Drained_example =
    tick_session-Drained draining cleared_node (at_time 1_100_000_000) 7 refl refl refl
