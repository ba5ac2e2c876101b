-- ===== src/Broker/PublishOutputs.antt =====
-- The outputs of the end of a request: only its own command is sent to a robot.
use patrolbot_dashboard.Base.{ℕ, ◌≡◌, refl, Bool, true, false, List, [], ◌∷◌, if◌then◌else◌}
use patrolbot_dashboard.Base.Dict.{pop}
use patrolbot_dashboard.Protocol.Commands.{canceled, timeout, failed}
use patrolbot_dashboard.Broker.State.{
  RobotSession, ActiveCommand, Refusal, Output, World, emit, to_robot, audited,
}
use patrolbot_dashboard.Broker.Manual.{stop_pending}
use patrolbot_dashboard.Broker.Lifecycle.{is_reset, is_lidar_power, finish}
use patrolbot_dashboard.Broker.Checks.{Request, is_teleop_stop, reject}
use patrolbot_dashboard.Broker.Publishing.{
  retire, supersede, abandon, raise_barriers, send_failed, after_send, forward, entry_of, activate,
  publish,
}
use patrolbot_dashboard.Broker.Adds.{
  drives, Adds, Adds-none, Adds-trans, Adds-if, emit-Adds, send_text-Adds,
}
use patrolbot_dashboard.Broker.Outputs.{
  finish-Adds, mark_uncertain-Adds, close_out-Adds, terminal-Adds, revoke_quiet-Adds,
  stop_pending-Adds,
}

module _ (P : Output → Type 0) (free : (o : Output) → drives o ≡ false → P o) where
  retire-Adds :
      (xs : List (ℕ × ActiveCommand)) (w : World) (robot : ℕ) → Adds P w (retire w xs robot)
  unfolding retire
  retire-Adds [] w robot = Adds-none P w w refl refl
  retire-Adds ((k, old) ∷ rest) w robot =
      let w' : World =
        if is_lidar_power old.command
        then record w { lidar_recovery_required = robot ∷ w.lidar_recovery_required }
        else w in
      let marked = record w { lidar_recovery_required = robot ∷ w.lidar_recovery_required } in
      let a : Adds P w w' =
        Adds-if P w marked w _ (Adds-none P w marked refl refl) (Adds-none P w w refl refl) in
      let done : World = finish w' old (if old.uncertain then timeout else canceled) in
      Adds-if P w _ _ _ (retire-Adds rest w robot) (
        Adds-trans P w w' _ a
          (Adds-trans P w' done _ (finish-Adds P free w' old _) (retire-Adds rest done robot)))

  supersede-Adds : (w : World) (robot : ℕ) → Adds P w (supersede w robot)
  unfolding supersede
  supersede-Adds w robot =
      Adds-trans P w (record w { owners = pop robot w.owners }) _ (Adds-none P w _ refl refl)
        (retire-Adds w.active _ robot)

  abandon-Adds : (w : World) (e : ActiveCommand) → Adds P w (abandon w e)
  unfolding abandon
  abandon-Adds w e =
      Adds-trans P w _ _ (terminal-Adds P free w e)
        (Adds-trans P _ _ _ (emit-Adds P _ _ (free _ refl)) (finish-Adds P free _ e canceled))

  raise_barriers-Adds : (w : World) (e : ActiveCommand) → Adds P w (raise_barriers w e)
  unfolding raise_barriers
  raise_barriers-Adds w e =
      let w' : World =
        if is_teleop_stop e.command then stop_pending w e.robot_id e.command_id else w in
      let a : Adds P w w' =
        Adds-if P w _ w _ (stop_pending-Adds P w e.robot_id e.command_id)
          (Adds-none P w w refl refl) in
      Adds-trans P w w' _ a (Adds-none P w' _ refl refl)

  send_failed-Adds : (w : World) (e : ActiveCommand) → Adds P w (send_failed w e)
  unfolding send_failed
  send_failed-Adds w e =
      Adds-if P w _ _ _
        (Adds-trans P w _ _ (revoke_quiet-Adds P free w e.robot_id)
          (mark_uncertain-Adds P free _ e.command_id))
        (Adds-if P w _ _ _ (mark_uncertain-Adds P free w e.command_id)
          (close_out-Adds P free w e failed))

  after_send-Adds :
      (w : World) (e : ActiveCommand) (x : World × Bool) → Adds P w x.0 → Adds P w (after_send e x)
  unfolding after_send
  after_send-Adds w e (v, true) a = Adds-trans P w v _ a (emit-Adds P v _ (free _ refl))
  after_send-Adds w e (v, false) a = Adds-trans P w v _ a (send_failed-Adds v e)

  forward-Adds :
      (w : World) (e : ActiveCommand)
      → P (to_robot e.robot_id e.command_id e.command)
      → Adds P w (forward w e)
  unfolding forward
  forward-Adds w e p = after_send-Adds w e _ (send_text-Adds P w _ p)

  activate-Adds : (u w : World) (e : ActiveCommand) → Adds P u w → Adds P u (activate w e)
  unfolding activate
  activate-Adds u w e a = Adds-trans P u w _ a (Adds-none P w _ refl refl)

  pub publish-Adds :
      (q : Request) (s : RobotSession) (ws : ℕ) (w : World)
      → P (to_robot q.robot_id q.payload.command_id q.payload.command)
      → Adds P w (publish q s ws w)
  unfolding publish
  publish-Adds q s ws w p =
      let e = entry_of q s ws in
      let w1 = emit w (audited q.robot_id q.payload.command_id) in
      let w2 : World = activate (if is_reset e.command then supersede w1 q.robot_id else w1) e in
      let b : Adds P w1 w2 =
        activate-Adds w1 _ e
          (Adds-if P w1 _ w1 _ (supersede-Adds w1 q.robot_id) (Adds-none P w1 w1 refl refl)) in
      let a : Adds P w w2 = Adds-trans P w w1 w2 (emit-Adds P w _ (free _ refl)) b in
      Adds-if P w _ _ _ (Adds-trans P w w2 _ a (abandon-Adds w2 e)) (
        Adds-trans P w w2 _ a (Adds-trans P w2 _ _ (raise_barriers-Adds w2 e) (forward-Adds _ e p)))

  pub reject-Adds : (w : World) (q : Request) (r : Refusal) → Adds P w (reject w q r)
  unfolding reject
  reject-Adds w q r =
      Adds-trans P w _ _ (emit-Adds P w _ (free _ refl)) (emit-Adds P _ _ (free _ refl))
