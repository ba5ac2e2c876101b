-- ===== src/Recorder/Examples.antt =====
-- A recording of the pose.
use patrolbot_dashboard.Base.{List, [], ◌∷◌, true, none, some, ◌≡◌, refl, ◌-ℤ◌, ◌+ℤ◌}
use patrolbot_dashboard.Base.Float.{nano, lt, sub, add}
use patrolbot_dashboard.Base.Text.{contains}
use patrolbot_dashboard.Writer.{new_writer, gets, ends, submit, put, start}
use patrolbot_dashboard.Writer
use patrolbot_dashboard.Recorder.{
  Recorder, Event, offers, stops, runs, step, offer, offer_at, store,
}
use patrolbot_dashboard.Recorder.Limits.{run, Tallies, run-Tallies}

abbrev recording : Recorder
recording = record {
  has_db = true;
  active = some 4;
  channels = "pose" ∷ [];
  last_mono = [];
  samples = 0;
  writer = new_writer 256;
}

abbrev events : List Event
events =
    offers "pose" (nano 9_000_000_000) 1
    ∷ runs (gets 0)
    ∷ offers "pose" (nano 9_100_000_000) 2
    ∷ offers "lidar" (nano 9_200_000_000) 3
    ∷ runs (ends 0 true)
    ∷ offers "pose" (nano 9_600_000_000) 4
    ∷ stops
    ∷ []

run-Tallies_example : Tallies recording (run events recording)
run-Tallies_example =
    run-Tallies events recording (refl, (refl, (refl, (refl, (refl, (refl, (refl, tt)))))))

abbrev idle : Recorder
idle = record recording { active = none }

-- The second pose comes too early, and the lidar was not chosen.
stored_test : (run events recording).samples ≡ 2
unfolding step offer offer_at store submit put start new_writer contains lt sub add ◌-ℤ◌ ◌+ℤ◌
    Writer.step
stored_test = refl
