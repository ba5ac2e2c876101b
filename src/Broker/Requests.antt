-- ===== src/Broker/Requests.antt =====
-- `_handle_browser_request` of server/app/commands/broker.py as a whole, and `revoke` of
-- server/app/commands/teleop.py with the stop that it asks the broker for.
use patrolbot_dashboard.Base.{
  List, [], ◌∷◌, ℕ, ◌+◌, true, false, not, ◌&&◌, Option, none, some, is_some, if◌then◌else◌,
}
use patrolbot_dashboard.Base.Dict.{get}
use patrolbot_dashboard.Protocol.Commands.{teleop_stop}
use patrolbot_dashboard.Broker.State.{
  RobotSession, unknown, ManualOwner, manual_busy, manual_ending, not_connected, World, revision,
}
use patrolbot_dashboard.Broker.Manual.{bound, bump, set_owner, close_owner, revoke_quiet}
use patrolbot_dashboard.Broker.Checks.{
  check_destination, run_checks, Request, Checked, is_start, is_teleop_stop, ends_manual,
  check_user, check_lidar, check_reset, check_rate, check_lease, check_duplicate, online_session,
  check_robot, reject,
}
use patrolbot_dashboard.Broker.Publishing.{publish}

unfoldable pub conclude_robot : Request → RobotSession → ℕ → Checked → World
conclude_robot q s ws (w, some r) = reject w q r
conclude_robot q s ws (w, none) = publish q s ws w

unfoldable pub conclude_online : Request → World → Option (RobotSession × ℕ) → World
unfolding conclude_robot
conclude_online q w none = reject w q not_connected
conclude_online q w (some (s, ws)) = conclude_robot q s ws (check_robot q s w)

unfoldable pub conclude : Request → Checked → World
unfolding conclude_online
conclude q (w, some r) = reject w q r
conclude q (w, none) = conclude_online q w (online_session w q.robot_id)

-- The handler, over what a revoke does.
module _ (revoke_with : World → ℕ → World) where
  -- A start on a robot that has an owner; its takeover revokes the owner.
  unfoldable pub check_owner : Request → World → Checked
  check_owner q w =
      if is_start q.payload.command && is_some (get q.robot_id w.owners)
      then (if q.payload.takeover then revoke_with w q.robot_id else w, some manual_busy)
      else (w, none)

  unfoldable pub check_manual : Request → World → Checked
  check_manual q w =
      let c = q.payload.command in
      if ends_manual c
      then (revoke_with w q.robot_id, none)
      else if is_teleop_stop c
      then (revoke_quiet w q.robot_id, none)
      else if not (is_start c) && is_some (get q.robot_id w.owners)
      then (revoke_with w q.robot_id, some manual_ending)
      else (w, none)

  -- The checks before the robot's session is looked at, in their order.
  abbrev pub checks : Request → List (World → Checked)
  checks q =
      check_user q
      ∷ check_owner q
      ∷ check_lidar q
      ∷ check_reset q
      ∷ check_manual q
      ∷ check_rate q
      ∷ check_lease q
      ∷ check_duplicate q
      ∷ check_destination q
      ∷ []

  unfoldable pub admit : Request → World → Checked
  admit q w = run_checks (checks q) w

  unfoldable pub handle_with : Request → World → World
  unfolding conclude
  handle_with q w = conclude q (admit q w)

-- The stop that `revoke` asks for. A `teleop_stop` revokes without a further stop.
unfoldable pub stop_request : World → ℕ → ManualOwner → Request
stop_request w robot o = record {
  client = o.client;
  robot_id = robot;
  payload = record {
    command_id = w.uuid w.drawn;
    command = teleop_stop;
    measured_seed = false;
    enabled = none;
    goal = none;
    takeover = false;
    allow_unlocalized = false;
    operator_authorized = false;
  };
  revision = revision w robot;
}

unfoldable pub issue_stop : World → ℕ → ManualOwner → World
unfolding stop_request set_owner
issue_stop w robot o =
    if o.stop_issued
    then set_owner w robot o
    else if bound w robot o
    then (let w' = set_owner w robot (record o { stop_issued = true }) in
        handle_with revoke_quiet (stop_request w robot o) (record w' { drawn = w.drawn + 1 }))
    else set_owner w robot (record o { stop_issued = true; phase = unknown })

unfoldable pub revoke_owner : World → ℕ → Option ManualOwner → World
unfolding issue_stop close_owner
revoke_owner w robot none = w
revoke_owner w robot (some o) = let (w', o') = close_owner w robot o false in issue_stop w' robot o'

unfoldable pub revoke : World → ℕ → World
unfolding revoke_owner bump
revoke w robot = revoke_owner (bump w robot) robot (get robot w.owners)

unfoldable pub handle : Request → World → World
handle q w = handle_with revoke q w
