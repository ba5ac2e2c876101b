-- ===== src/Broker/History.antt =====
-- Histories of the broker of server/app/commands/broker.py: requests, replies, timeouts and
-- departures in any order, with what the outside changes between them.
use patrolbot_dashboard.Base.{ℕ, ◌≡◌, ◌⊎◌, Bool, List, [], ◌∷◌}
use patrolbot_dashboard.Protocol.Commands.{Command, teleop_stop}
use patrolbot_dashboard.Broker.Drive.{Settings, VelocityFrame, velocity, changed, monitor, shutdown}
use patrolbot_dashboard.Broker.MovingFrame.{Driven}
use patrolbot_dashboard.Broker.State.{Client, RobotSession, ActiveCommand, Output, World}
use patrolbot_dashboard.Broker.Checks.{Request}
use patrolbot_dashboard.Broker.Requests.{handle}
use patrolbot_dashboard.Broker.Replies.{
  Reply, handle_robot_reply, ack_timeout, result_timeout, cancel_for_client,
}
use patrolbot_dashboard.Broker.Adds.{Effects}
use patrolbot_dashboard.Broker.Guarded.{Cleared, Guarded}

-- One call of the broker, or a change from outside: the hub's sessions, the clock, the sends to
-- come and the clients that are gone.
pub data Call : Type 0 where
  requested : Request → Call
  replied : RobotSession → ℕ → Reply → Call
  ack_due result_due : ActiveCommand → Call
  left : ℕ → Call
  drove : Settings → Client → ℕ → VelocityFrame → Call
  session_changed : RobotSession → Call
  monitored : Settings → Call
  shut_down : Call
  outside : List (ℕ × RobotSession) → ℕ → List Bool → List ℕ → Call

unfoldable pub step : World → Call → World
step w (requested q) = handle q w
step w (replied s id r) = handle_robot_reply w s id r
step w (ack_due e) = ack_timeout w e
step w (result_due e) = result_timeout w e
step w (left client) = cancel_for_client w client
step w (drove settings client robot f) = (velocity w settings client robot f).0
step w (session_changed s) = changed w s
step w (monitored settings) = monitor w settings w.owners
step w shut_down = shutdown w w.owners
step w (outside robots now outcomes gone) = record w {
  robots = robots;
  now = now;
  outcomes = outcomes;
  disconnected = gone;
}

unfoldable pub run : World → List Call → World
run w [] = w
run w (c ∷ cs) = run (step w c) cs

-- A call is a request that lets the command through in its world.
abbrev pub Asked : Call → World → ℕ → ℕ → Command → Type 0
Asked (requested q) w robot id c = Cleared q w robot id c
Asked _ w robot id c = ⊥

-- The command comes from a request of the history.
abbrev pub Origin : List Call → World → ℕ → ℕ → Command → Type 0
Origin [] w robot id c = ⊥
Origin (call ∷ calls) w robot id c = Asked call w robot id c ⊎ Origin calls (step w call) robot id c

abbrev Sent : List Call → World → ℕ → ℕ → Command → Type 0
Sent calls w robot id c = (c ≡ teleop_stop) ⊎ Origin calls w robot id c

-- The robot is moved by a frame of the history, in the world that the frame meets.
abbrev pub Moved : List Call → World → ℕ → Type 0
Moved [] w robot = ⊥
Moved (drove settings client r f ∷ calls) w robot =
    ((r ≡ robot) × Driven w client robot f) ⊎ Moved calls (step w (drove settings client r f)) robot
Moved (call ∷ calls) w robot = Moved calls (step w call) robot

abbrev pub Justified : List Call → World → Output → Type 0
Justified calls w = Effects (Sent calls w) (Moved calls w)
