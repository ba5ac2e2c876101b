-- ===== src/Broker/Publishing.antt =====
-- The end of `_handle_browser_request` of server/app/commands/broker.py: from the audit row to the
-- send and what follows it. The look whether the session changed during the send finds nothing,
-- since a call is not interrupted.
use patrolbot_dashboard.Base.{
  ℕ, Bool, true, false, not, ◌&&◌, ◌||◌, Option, none, some, List, [], ◌∷◌, ◌==◌, is_none,
  if◌then◌else◌,
}
use patrolbot_dashboard.Base.Dict.{get, insert, pop}
use patrolbot_dashboard.Protocol.Commands.{canceled, timeout, failed}
use patrolbot_dashboard.Gates.Manual.{teleop_reason}
use patrolbot_dashboard.Broker.State.{
  RobotSession, Phase, pending, ManualOwner, ActiveCommand, to_robot, ack, audited, event, World,
  emit, send_text, revision,
}
use patrolbot_dashboard.Broker.Manual.{
  manual_view, bound, owns_lease, revoke_quiet, stop_pending, terminal,
}
use patrolbot_dashboard.Broker.Lifecycle.{
  is_manual, is_reset, is_lidar_power, finish, mark_uncertain, close_out,
}
use patrolbot_dashboard.Broker.Checks.{Request, is_start, is_teleop_stop}

-- Every command of the robot gives way to a reset, which alone is active then.
unfoldable pub retire : World → List (ℕ × ActiveCommand) → ℕ → World
retire w [] robot = w
retire w ((_, old) ∷ rest) robot =
    if not (old.robot_id == robot)
    then retire w rest robot
    else (let w' =
          if is_lidar_power old.command
          then record w { lidar_recovery_required = robot ∷ w.lidar_recovery_required }
          else w in
        retire (finish w' old (if old.uncertain then timeout else canceled)) rest robot)

unfoldable pub supersede : World → ℕ → World
unfolding retire
supersede w robot = retire (record w { owners = pop robot w.owners }) w.active robot

is_pending : Phase → Bool
is_pending pending = true
is_pending _ = false

-- The second look at a manual session, right before its start is sent.
may_publish : World → Request → RobotSession → Option ManualOwner → Bool
unfolding is_pending
may_publish w q s none = false
may_publish w q s (some o) =
    o.command_id == q.payload.command_id
    && is_pending o.phase
    && q.revision == revision w q.robot_id
    && bound w q.robot_id o
    && owns_lease w q.robot_id o
    && is_none (teleop_reason (manual_view w s))

unfoldable pub abandon : World → ActiveCommand → World
unfolding emit
abandon w e = finish (emit (terminal w e) (ack e.robot_id e.command_id false)) e canceled

-- The barriers that a command raises before it is sent.
unfoldable pub raise_barriers : World → ActiveCommand → World
raise_barriers w e =
    let w' = if is_teleop_stop e.command then stop_pending w e.robot_id e.command_id else w in
    record w' {
      reset_pending =
          if is_reset e.command
          then insert e.robot_id e.command_id w'.reset_pending
          else w'.reset_pending;
      lidar_pending =
          if is_lidar_power e.command
          then insert e.robot_id e.command_id w'.lidar_pending
          else w'.lidar_pending;
    }

-- What follows a send that failed: the outcome of a manual, laser or reset command is unknown.
unfoldable pub send_failed : World → ActiveCommand → World
send_failed w e =
    if is_manual e.command
    then mark_uncertain (revoke_quiet w e.robot_id) e.command_id
    else if is_lidar_power e.command || is_reset e.command
    then mark_uncertain w e.command_id
    else close_out w e failed

unfoldable pub after_send : ActiveCommand → World × Bool → World
unfolding emit
after_send e (w, true) = emit w (event e.robot_id)
after_send e (w, false) = send_failed w e

unfoldable pub forward : World → ActiveCommand → World
unfolding after_send
forward w e = after_send e (send_text w (to_robot e.robot_id e.command_id e.command))

abbrev pub entry_of : Request → RobotSession → ℕ → ActiveCommand
entry_of q s ws = record {
  command_id = q.payload.command_id;
  command = q.payload.command;
  robot_id = q.robot_id;
  initiator = q.client.ident;
  acked = false;
  uncertain = false;
  robot_session = s.ident;
  robot_websocket = ws;
}

unfoldable pub activate : World → ActiveCommand → World
activate w e = record w { active = insert e.command_id e w.active }

-- From the audit row to the send.
unfoldable pub publish : Request → RobotSession → ℕ → World → World
unfolding may_publish abandon emit
publish q s ws w =
    let e = entry_of q s ws in
    let w1 = emit w (audited q.robot_id q.payload.command_id) in
    let w2 = activate (if is_reset e.command then supersede w1 q.robot_id else w1) e in
    if is_start e.command && not (may_publish w2 q s (get q.robot_id w2.owners))
    then abandon w2 e
    else forward (raise_barriers w2 e) e
