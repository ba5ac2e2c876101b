-- ===== src/Broker/Lifecycle.antt =====
-- How a command ends: `_finish`, `_mark_uncertain`, `_close_out` and `_cancel_map` of
-- server/app/commands/broker.py.
use patrolbot_dashboard.Base.{
  ℕ, Bool, true, false, not, ◌&&◌, Option, none, some, is_some, if◌then◌else◌,
}
use patrolbot_dashboard.Base.Dict.{get, insert, pop}
use patrolbot_dashboard.Protocol.Commands.{
  Command, set_initial_pose, teleop_start, teleop_stop, software_reset, set_lidar_power,
  CommandOutcome, succeeded, timeout,
}
use patrolbot_dashboard.Broker.State.{
  RobotSession, unknown, ManualOwner, ActiveCommand, cancel_map, result, completed, event, World,
  emit, send_text,
}
use patrolbot_dashboard.Broker.Manual.{set_owner}

abbrev pub is_manual : Command → Bool
is_manual teleop_start = true
is_manual teleop_stop = true
is_manual _ = false

abbrev pub is_reset : Command → Bool
is_reset software_reset = true
is_reset _ = false

abbrev pub is_lidar_power : Command → Bool
is_lidar_power set_lidar_power = true
is_lidar_power _ = false

abbrev is_success : CommandOutcome → Bool
is_success succeeded = true
is_success _ = false

abbrev is_initial_pose : Command → Bool
is_initial_pose set_initial_pose = true
is_initial_pose _ = false

-- The barriers that the end of a command lifts.
unfoldable pub lift_barriers : World → ActiveCommand → World
lift_barriers w e = record w {
  active = pop e.command_id w.active;
  reset_pending = if is_reset e.command then pop e.robot_id w.reset_pending else w.reset_pending;
  lidar_pending =
      if is_lidar_power e.command then pop e.robot_id w.lidar_pending else w.lidar_pending;
}

unfoldable pub closing_event : World → ActiveCommand → CommandOutcome → World
closing_event w e outcome =
    let w' = emit w (completed e.command_id outcome) in
    if is_some (get e.robot_id w.robots) && not (is_success outcome)
    then emit w' (event e.robot_id)
    else w'

unfoldable pub finish : World → ActiveCommand → CommandOutcome → World
unfolding lift_barriers closing_event emit
finish w e outcome =
    if is_some (get e.command_id w.active) then closing_event (lift_barriers w e) e outcome else w

unfoldable pub manual_unknown : World → ActiveCommand → Option ManualOwner → World
manual_unknown w e none = w
manual_unknown w e (some o) = set_owner w e.robot_id (record o { phase = unknown })

unfoldable pub report_uncertain : World → ActiveCommand → World
report_uncertain w e =
    emit (emit w (result e.robot_id e.command_id timeout)) (completed e.command_id timeout)

unfoldable pub uncertain_entry : World → Option ActiveCommand → World
unfolding manual_unknown report_uncertain set_owner emit
uncertain_entry w none = w
uncertain_entry w (some e) =
    let w' = record w { active = insert e.command_id (record e { uncertain = true }) w.active } in
    report_uncertain
      (if is_manual e.command then manual_unknown w' e (get e.robot_id w'.owners) else w') e

-- The entry stays active: only the flag and the outcome that the browsers see change.
unfoldable pub mark_uncertain : World → ℕ → World
unfolding uncertain_entry
mark_uncertain w command_id = uncertain_entry w (get command_id w.active)

unfoldable pub cancel_to : World → ActiveCommand → Option RobotSession → World
cancel_to w e none = w
cancel_to w e (some s) = elim s.websocket [
  | none ↦ w
  | some ws ↦ (send_text w (cancel_map e.robot_id e.command_id)).0
]

unfoldable pub cancel_map_of : World → ActiveCommand → World
unfolding cancel_to
cancel_map_of w e = if is_initial_pose e.command then cancel_to w e (get e.robot_id w.robots) else w

unfoldable pub close_out : World → ActiveCommand → CommandOutcome → World
unfolding emit
close_out w e outcome =
    if not (is_some (get e.command_id w.active))
    then w
    else if is_lidar_power e.command
    then mark_uncertain w e.command_id
    else finish (emit (cancel_map_of w e) (result e.robot_id e.command_id outcome)) e outcome
