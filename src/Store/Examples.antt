-- ===== src/Store/Examples.antt =====
-- A robot whose emergency stop is pressed twice and released, beside a publisher of diagnostics.
use patrolbot_dashboard.Base.{
  String, true, false, none, some, List, [], ◌∷◌, All, In, reverse, take, ◌≡◌, refl,
}
use patrolbot_dashboard.Base.Float.{nano, lt}
use patrolbot_dashboard.Base.Text.{codes, lower}
use patrolbot_dashboard.Base.TextDict.{look}
use patrolbot_dashboard.Protocol.Telemetry.{
  BaseStateData, DiagLevel, DiagnosticItem, DiagnosticsData, parked,
}
use patrolbot_dashboard.Store.State.{
  Settings, EventIdAllocator, Store, Report, RobotState, max_events, new_state, empty, add_event,
  made, allocate,
}
use patrolbot_dashboard.Store.Diagnostics.{shown, refresh_diagnostics, record_diagnostics}
use patrolbot_dashboard.Store.Records.{record_base_state, estop_edge, bumper_edge}
use patrolbot_dashboard.Store.Calls.{Call, call, run}
use patrolbot_dashboard.Store.Numbering.{started, run_latest}
use patrolbot_dashboard.Store.Sessions.{estop_marks, Alternates, run-Alternates}
use patrolbot_dashboard.Store.Sources.{
  items_of, Vouched, record_diagnostics_others, refresh-Vouched,
}

abbrev settings : Settings
settings = record {
  stall_warning_s = nano 10_000_000_000;
  battery_low_percent = nano 20_000_000_000;
  online_threshold_s = nano 3_000_000_000;
  offline_threshold_s = nano 10_000_000_000;
  casefold = λ name. lower (codes name);
}

abbrev ids : EventIdAllocator
ids = record { next_id = 7 }

abbrev pressed : BaseStateData
pressed = record parked { estop_pressed = true }

abbrev calls : List Call
calls =
    Call.base_states 1 pressed
    ∷ Call.base_states 2 pressed
    ∷ Call.base_states 3 parked
    ∷ Call.base_states 4 pressed
    ∷ []

run-Alternates_example :
    let s = run settings calls (started ids) in
    Alternates false (estop_marks s.returned) s.state.prev_estop
run-Alternates_example = run-Alternates settings ids calls

run_latest_example :
    (run settings calls (started ids)).state.events
    ≡ take max_events (reverse (run settings calls (started ids)).returned)
run_latest_example = run_latest settings ids calls

-- Two presses and a release, with the ids from seven on.
marks_test : estop_marks (run settings calls (started ids)).returned ≡ true ∷ false ∷ true ∷ []
unfolding run call record_base_state estop_edge bumper_edge new_state empty add_event made allocate
marks_test = refl

abbrev item : String → DiagLevel → DiagnosticItem
item name level = record { name = name; level = level; message = "seen"; values = none }

abbrev gyro_fault : Report
gyro_fault = record { item = item "gyro" DiagLevel.error; received = 5 }

abbrev known : RobotState
known = record (started ids).state { diagnostic_sources = ("gyro", gyro_fault) ∷ [] }

abbrev sonar_report : DiagnosticsData
sonar_report = record { items = item "sonar" DiagLevel.ok ∷ [] }

abbrev before : Store
before = record (started ids) { state = known }

record_diagnostics_others_example :
    let r = (record_diagnostics settings 40_000_000_000 sonar_report before).state in
    (look "gyro" r.diagnostic_sources ≡ some gyro_fault)
    × In (shown 40_000_000_000 gyro_fault) (items_of r.diagnostics.value)
unfolding look lt
record_diagnostics_others_example =
    record_diagnostics_others settings 40_000_000_000 sonar_report "gyro" gyro_fault before refl
      refl refl

refresh-Vouched_example :
    All
      (Vouched 40_000_000_000 known.diagnostic_sources)
      (items_of (refresh_diagnostics settings 40_000_000_000 known).diagnostics.value)
refresh-Vouched_example = refresh-Vouched settings 40_000_000_000 known
