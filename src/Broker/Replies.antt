-- ===== src/Broker/Replies.antt =====
-- What ends a command: `handle_robot_reply`, the two timeouts and `cancel_for_client` of
-- server/app/commands/broker.py. A timeout is the call that
-- its timer makes when the time is up, on the entry as it is then.
use patrolbot_dashboard.Base.{
  ℕ, Bool, true, false, not, ◌&&◌, ◌||◌, Option, none, some, List, [], ◌∷◌, ◌==◌, is_none,
  if◌then◌else◌,
}
use patrolbot_dashboard.Base.Dict.{get, insert}
use patrolbot_dashboard.Protocol.Commands.{CommandOutcome, succeeded, rejected, timeout}
use patrolbot_dashboard.Gates.Manual.{teleop_reason}
use patrolbot_dashboard.Broker.State.{
  RobotSession, Phase, pending, active, ManualOwner, ActiveCommand, ack, progress, result, World,
  emit, discard,
}
use patrolbot_dashboard.Broker.Manual.{
  manual_view, bound, owns_lease, is_open, set_owner, revoke_quiet, terminal,
}
use patrolbot_dashboard.Broker.Lifecycle.{
  is_manual, is_reset, is_lidar_power, finish, mark_uncertain, cancel_map_of, close_out,
}
use patrolbot_dashboard.Broker.Checks.{is_start}
use patrolbot_dashboard.Broker.Requests.{revoke}

pub data Reply : Type 0 where
  acked : Bool → Reply
  progressed : Reply
  ended : CommandOutcome → Reply

-- The session that a call stands for is the robot's registered one.
abbrev registered : RobotSession → Option RobotSession → Bool
registered s none = false
registered s (some t) = t.ident == s.ident

abbrev on_websocket : ℕ → Option ℕ → Bool
on_websocket ws none = false
on_websocket ws (some v) = v == ws

-- The reply is of a session of its robot, for manual drive of the one the command was sent on.
unfoldable pub is_addressed : World → RobotSession → ActiveCommand → Bool
is_addressed w s e =
    e.robot_id == s.robot_id
    && (not (is_manual e.command)
        || (s.ident == e.robot_session
            && on_websocket e.robot_websocket s.websocket
            && registered s (get s.robot_id w.robots)))

abbrev pub start_stands : World → RobotSession → ActiveCommand → ManualOwner → Bool
start_stands w s e o =
    o.command_id == e.command_id
    && is_open o.phase
    && bound w s.robot_id o
    && owns_lease w s.robot_id o
    && is_none (teleop_reason (manual_view w s))

abbrev restarted : Phase → Bool
restarted pending = true
restarted _ = false

unfoldable pub activate_owner : World → ℕ → ManualOwner → World
activate_owner w robot o =
    set_owner w robot
      (record o { last_frame = if restarted o.phase then w.now else o.last_frame; phase = active })

-- An accepted start: the session is active, or it ended before, and a stop is asked for.
unfoldable pub accept_start :
    World → RobotSession → ActiveCommand → Option ManualOwner → World × Bool
unfolding activate_owner set_owner
accept_start w s e none = (revoke w s.robot_id, false)
accept_start w s e (some o) =
    if start_stands w s e o
    then (activate_owner w s.robot_id o, true)
    else (revoke w s.robot_id, false)

unfoldable pub on_ack : World → RobotSession → ActiveCommand → Bool → World
unfolding accept_start emit
on_ack w s e accepted =
    let w1 = record w { active = insert e.command_id (record e { acked = true }) w.active } in
    let (w2, shown) =
      if is_start e.command && accepted
      then accept_start w1 s e (get s.robot_id w1.owners)
      else (w1, accepted) in
    let w3 = emit w2 (ack s.robot_id e.command_id shown) in
    if accepted then w3 else finish (if is_manual e.command then terminal w3 e else w3) e rejected

abbrev pub is_timeout : CommandOutcome → Bool
is_timeout timeout = true
is_timeout _ = false

abbrev pub is_succeeded : CommandOutcome → Bool
is_succeeded succeeded = true
is_succeeded _ = false

-- A laser power command's end is followed by fresh readings, and where it did not succeed by a
-- recovery of the laser.
unfoldable pub lidar_ended : World → ActiveCommand → CommandOutcome → World
lidar_ended w e outcome = if not (is_lidar_power e.command) then w else record w {
  lidar_state_after = insert e.robot_id w.now w.lidar_state_after;
  lidar_recovery_required =
      if is_succeeded outcome
      then discard e.robot_id w.lidar_recovery_required
      else e.robot_id ∷ w.lidar_recovery_required;
}

unfoldable pub on_result : World → RobotSession → ActiveCommand → CommandOutcome → World
unfolding emit
on_result w s e outcome =
    let w1 = emit w (result s.robot_id e.command_id outcome) in
    if is_manual e.command && is_timeout outcome
    then mark_uncertain (revoke_quiet w1 s.robot_id) e.command_id
    else (let w2 = if is_manual e.command then terminal w1 e else w1 in
        if (is_reset e.command || is_lidar_power e.command) && is_timeout outcome
        then mark_uncertain w2 e.command_id
        else finish (lidar_ended w2 e outcome) e outcome)

unfoldable pub on_reply : World → RobotSession → ActiveCommand → Reply → World
unfolding emit
on_reply w s e (acked accepted) = on_ack w s e accepted
on_reply w s e progressed = emit w (progress s.robot_id e.command_id)
on_reply w s e (ended outcome) = on_result w s e outcome

unfoldable pub reply_to : World → RobotSession → Option ActiveCommand → Reply → World
unfolding on_reply
reply_to w s none r = w
reply_to w s (some e) r = if is_addressed w s e then on_reply w s e r else w

unfoldable pub handle_robot_reply : World → RobotSession → ℕ → Reply → World
unfolding reply_to
handle_robot_reply w s command_id r = reply_to w s (get command_id w.active) r

-- What both timeouts do with a command that has no answer.
unfoldable pub unanswered : World → ActiveCommand → World
unanswered w e =
    if is_manual e.command
    then mark_uncertain (revoke w e.robot_id) e.command_id
    else if is_lidar_power e.command || is_reset e.command
    then mark_uncertain w e.command_id
    else close_out w e timeout

unfoldable pub ack_timeout : World → ActiveCommand → World
ack_timeout w e = if e.acked then w else unanswered w e

unfoldable pub result_timeout : World → ActiveCommand → World
result_timeout w e = unanswered w e

-- The loops run over copies of the items.
unfoldable pub revoke_of : World → ℕ → List (ℕ × ManualOwner) → World
revoke_of w client [] = w
revoke_of w client ((robot, o) ∷ rest) =
    if o.client.ident == client
    then revoke_of (revoke w robot) client rest
    else revoke_of w client rest

unfoldable pub cancel_of : World → ℕ → List (ℕ × ActiveCommand) → World
cancel_of w client [] = w
cancel_of w client ((_, e) ∷ rest) =
    if e.initiator == client
    then cancel_of (cancel_map_of w e) client rest
    else cancel_of w client rest

unfoldable pub cancel_for_client : World → ℕ → World
unfolding revoke_of cancel_of
cancel_for_client w client = let w' = revoke_of w client w.owners in cancel_of w' client w'.active
