-- ===== src/Tuning/Examples.antt =====
-- A robot on session 1, asked twice to save under one id, and a hub that replaces its connection.
use patrolbot_dashboard.Base.{ℕ, pos, true, false, none, some, List, [], ◌∷◌, ◌≤◌, ◌≡◌, refl, arith}
use patrolbot_dashboard.Base.Dict.{get, insert, pop}
use patrolbot_dashboard.Base.Float.{nano}
use patrolbot_dashboard.Base.Text.{contains}
use patrolbot_dashboard.Protocol.Telemetry.{Connection}
use patrolbot_dashboard.Store.State.{RobotState, new_state, empty}
use patrolbot_dashboard.Hub.{RobotSession}
use patrolbot_dashboard.Hub.Fleet.{TelemetryHub, connect}
use patrolbot_dashboard.Tuning.{
  Operation, Outcome, Snapshot, TuningResponse, Refusal, Payload, Result, Event, TuningBroker,
  pending_count, remember, prune_seen, drop_old, finish, leave, bound,
}
use patrolbot_dashboard.Tuning.Requests.{
  request, looked_up, early_refusal, late_refusal, capable, outdated, enlist, begin, send_ends,
  resumed, update_desired, desired_after, set_waiting,
}
use patrolbot_dashboard.Tuning.Replies.{
  Reply, handle_response, on_valid, bound_entry, keep_policy, policies_after, take_reply, resolve,
  teleop_policy,
}
use patrolbot_dashboard.Tuning.Machine.{Step, step, run}
use patrolbot_dashboard.Tuning.Tasks.{Honest}
use patrolbot_dashboard.Tuning.Unknown.{run-Honest, run_bounded}
use patrolbot_dashboard.Tuning.Spacing.{Spaced}
use patrolbot_dashboard.Tuning.Replay.{run-Spaced}
use patrolbot_dashboard.Tuning.Drive.{connect-teleop_policy}

abbrev robot_state : RobotState
robot_state = record new_state {
  connection = Connection.online;
  capabilities = "robot_tuning_v1" ∷ [];
}

abbrev session : RobotSession
session = record {
  ident = 1;
  robot_id = 1;
  state = robot_state;
  websocket = some 71;
  generation = 1;
  connected_mono = 0;
}

abbrev idle_broker : TuningBroker
idle_broker = record {
  max_pending = 8;
  dedupe_limit = 512;
  dedupe_ttl = 60_000_000_000;
  can_sign = true;
  clock = 0;
  robots = (1, session) ∷ [];
  tasks = [];
  locked = [];
  seen = [];
  desired = [];
  policies = [];
  next_number = 0;
  events = [];
}

abbrev save_it : Payload
save_it = record {
  operation = Operation.save;
  request_id = 5;
  session_id = "s";
  base_revision = some (pos 1);
  expected_revision = none;
}

abbrev snapshot : Snapshot
snapshot = record {
  session_id = some "s";
  desired_revision = some (pos 2);
  active_known = true;
  active_revision = pos 2;
  digest = some "d";
  effective_limits = some [];
  hardware_session_generation = some (pos 4);
}

abbrev saved : TuningResponse
saved = record { request_id = 5; outcome = Outcome.ok; snapshot = some snapshot }

abbrev steps : List (ℕ × Step)
steps =
    (10, Step.requests true 1 save_it)
    ∷ (1, Step.sends true 0)
    ∷ (1, Step.responds 1 1 (Reply.valid 1 saved))
    ∷ (1, Step.resumes 0)
    ∷ (1, Step.requests true 1 save_it)
    ∷ []

run-Honest_example : Honest (run steps idle_broker).events
run-Honest_example = run-Honest steps idle_broker (refl, refl)

run_bounded_example :
    pending_count (run steps idle_broker).tasks ≤ (run steps idle_broker).max_pending
run_bounded_example = run_bounded steps idle_broker (refl, refl)

run-Spaced_example :
    let after = run steps idle_broker in Spaced after.dedupe_limit after.dedupe_ttl after.events
run-Spaced_example = run-Spaced steps idle_broker (refl, refl)

-- The first request is answered, the second one refused.
replayed_test :
    (run steps idle_broker).events
    ≡ Event.turned_away Refusal.conflict
      ∷ Event.returned 0 true (Result.response saved)
      ∷ Event.accepted 0 saved
      ∷ Event.remembered 5 12
      ∷ Event.mutation_sent 5 10
      ∷ Event.remembered 5 10
      ∷ []
unfolding run step request looked_up early_refusal late_refusal capable outdated contains enlist
    begin send_ends resumed update_desired desired_after set_waiting handle_response on_valid
    bound_entry keep_policy policies_after take_reply resolve remember prune_seen drop_old finish
    leave bound get insert pop new_state empty
replayed_test = refl

abbrev hub : TelemetryHub
hub = record {
  settings = record {
    stall_warning_s = nano 0;
    battery_low_percent = nano 0;
    online_threshold_s = nano 3_000_000_000;
    offline_threshold_s = nano 10_000_000_000;
    casefold = λ name. [];
  };
  has_db = false;
  clock = 20;
  event_ids = record { next_id = 1 };
  robots = (1, session) ∷ [];
  next_ident = 1;
  outputs = [];
}

abbrev told : TuningBroker
told = record idle_broker {
  policies = (1, record { session = 1; websocket = 71; snapshot = snapshot; received = 12 }) ∷ [];
}

connect-teleop_policy_example :
    let new = record told { robots = (connect 1 72 hub).robots } in
    (teleop_policy 1 new ≡ none)
    × (teleop_policy 1 (step (Step.responds 1 1 (Reply.valid 1 saved)) new) ≡ none)
unfolding get
connect-teleop_policy_example =
    connect-teleop_policy 1 72 hub told 1 (Reply.valid 1 saved) (omega arith) (omega arith)
