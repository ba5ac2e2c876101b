-- ===== src/Broker/Guarded.antt =====
-- What `handle_browser_request` of server/app/commands/broker.py lets through to a robot.
use patrolbot_dashboard.Base.{
  ℕ, ◌≡◌, ◌⊎◌, true, false, not, ◌&&◌, Option, none, some, is_some, if◌then◌else◌,
}
use patrolbot_dashboard.Base.Dict.{get}
use patrolbot_dashboard.Protocol.Telemetry.{online}
use patrolbot_dashboard.Protocol.Commands.{Command, teleop_stop}
use patrolbot_dashboard.Broker.State.{RobotSession, reset_pending, Output, World}
use patrolbot_dashboard.Broker.Lifecycle.{is_reset}
use patrolbot_dashboard.Broker.Admission.{validate_robot_state}
use patrolbot_dashboard.Broker.Checks.{
  Request, may_command, is_start, passes_lidar, passes_reset, uncertain_reset, ends_manual,
  is_teleop_stop,
}
use patrolbot_dashboard.Broker.Requests.{revoke}
use patrolbot_dashboard.Broker.Adds.{Commands, Adds}
use patrolbot_dashboard.Broker.Manual.{revoke_quiet}

-- The world that the gates of a request meet: the world as it was, with manual drive revoked where
-- the command ends it.
abbrev pub met : Request → World → World
met q w =
    if ends_manual q.payload.command
    then revoke w q.robot_id
    else if is_teleop_stop q.payload.command
    then revoke_quiet w q.robot_id
    else w

-- What holds of a request that reaches a robot.
pub record Cleared (q : Request) (w : World) (robot id : ℕ) (c : Command) : Type 0 where
  pub robot_same : robot ≡ q.robot_id
  pub id_same : id ≡ q.payload.command_id
  pub command_same : c ≡ q.payload.command
  pub permitted : may_command q.client.user ≡ true
  pub not_owned : (is_start c && is_some (get robot w.owners)) ≡ false
  pub lidar_settled : (is_some (get robot w.lidar_pending) && not (passes_lidar c)) ≡ false
  pub reset_settled :
      (is_some (get robot w.reset_pending)
        && not (passes_reset c)
        && not (is_reset c && uncertain_reset w (get robot w.reset_pending)))
      ≡ false
  pub session : RobotSession
  pub registered : get robot w.robots ≡ some session
  pub online_now : session.state.connection ≡ online
  pub gates_passed : validate_robot_state (met q w) session c q.payload.allow_unlocalized ≡ none

-- A command that is sent: a stop of manual drive, or the request's own.
abbrev pub Guarded : Request → World → Output → Type 0
Guarded q w = Commands (λ robot id c. (c ≡ teleop_stop) ⊎ Cleared q w robot id c)

-- The session in a lookup's answer.
first_or : RobotSession → Option (RobotSession × ℕ) → RobotSession
first_or s none = s
first_or s (some x) = x.0
