-- ===== src/Broker/RequestOutputs.antt =====
-- The outputs of a whole request and of a revoke, server/app/commands/broker.py and teleop.py.
use patrolbot_dashboard.Base.{◌+◌, ℕ, ◌≡◌, refl, true, false, Option, none, some}
use patrolbot_dashboard.Protocol.Commands.{teleop_stop}
use patrolbot_dashboard.Broker.State.{
  RobotSession, ManualOwner, Output, to_robot, World, not_connected,
}
use patrolbot_dashboard.Broker.Manual.{bump, set_owner, revoke_quiet}
use patrolbot_dashboard.Broker.Checks.{Request, Checked, online_session, check_robot}
use patrolbot_dashboard.Broker.Requests.{
  conclude_robot, conclude_online, conclude, handle_with, stop_request, issue_stop,
  revoke_owner as revoke_owner_with, revoke,
}
use patrolbot_dashboard.Broker.Adds.{drives, Adds, Adds-none, Adds-trans, Adds-if}
use patrolbot_dashboard.Broker.Outputs.{revoke_quiet-Adds, close_owner-Adds, bump-Adds}
use patrolbot_dashboard.Broker.PublishOutputs.{publish-Adds, reject-Adds}
use patrolbot_dashboard.Broker.CheckOutputs.{admit-Adds, check_robot-Adds}

-- A request's handling, where every command that it sends satisfies the predicate.
module _ (P : Output → Type 0) (free : (o : Output) → drives o ≡ false → P o) (q : Request)
    (w : World) where
  conclude_robot-Adds :
      (s : RobotSession) (ws : ℕ) (c : Checked)
      → Adds P w c.0
      → ((v : World)
          → c ≡ (v, none)
          → P (to_robot q.robot_id q.payload.command_id q.payload.command))
      → Adds P w (conclude_robot q s ws c)
  unfolding conclude_robot
  conclude_robot-Adds s ws (v, some r) a p = Adds-trans P w v _ a (reject-Adds P free v q r)
  conclude_robot-Adds s ws (v, none) a p =
      Adds-trans P w v _ a (publish-Adds P free q s ws v (p v refl))

  conclude_online-Adds :
      (v : World) (o : Option (RobotSession × ℕ))
      → Adds P w v
      → ((s : RobotSession) (ws : ℕ) (u : World)
          → o ≡ some (s, ws)
          → check_robot q s v ≡ (u, none)
          → P (to_robot q.robot_id q.payload.command_id q.payload.command))
      → Adds P w (conclude_online q v o)
  unfolding conclude_online
  conclude_online-Adds v none a p = Adds-trans P w v _ a (reject-Adds P free v q not_connected)
  conclude_online-Adds v (some (s, ws)) a p =
      conclude_robot-Adds s ws (check_robot q s v) (Adds-trans P w v _ a (check_robot-Adds P q s v))
        (λ u h. p s ws u refl h)

  pub conclude-Adds :
      (c : Checked)
      → Adds P w c.0
      → ((v : World) (s : RobotSession) (ws : ℕ) (u : World)
          → c ≡ (v, none)
          → online_session v q.robot_id ≡ some (s, ws)
          → check_robot q s v ≡ (u, none)
          → P (to_robot q.robot_id q.payload.command_id q.payload.command))
      → Adds P w (conclude q c)
  unfolding conclude
  conclude-Adds (v, some r) a p = Adds-trans P w v _ a (reject-Adds P free v q r)
  conclude-Adds (v, none) a p = conclude_online-Adds v _ a (λ s ws u. p v s ws u refl)

-- A revoke sends no command but a stop of manual drive.
module _ (P : Output → Type 0) (free : (o : Output) → drives o ≡ false → P o)
    (stops : (robot id : ℕ) → P (to_robot robot id teleop_stop)) where
  set_owner-Adds : (w : World) (robot : ℕ) (o : ManualOwner) → Adds P w (set_owner w robot o)
  unfolding set_owner
  set_owner-Adds w robot o = Adds-none P w _ refl refl

  stop_sent-Adds :
      (w : World) (robot : ℕ) (o : ManualOwner) (v : World)
      → Adds P v (handle_with revoke_quiet (stop_request w robot o) v)
  unfolding handle_with stop_request
  stop_sent-Adds w robot o v =
      conclude-Adds P free (stop_request w robot o) v _
        (admit-Adds P revoke_quiet (revoke_quiet-Adds P free) (revoke_quiet-Adds P free) _ v)
        (λ _ _ _ _ _ _ _. stops robot (w.uuid w.drawn))

  pub issue_stop-Adds : (w : World) (robot : ℕ) (o : ManualOwner) → Adds P w (issue_stop w robot o)
  unfolding issue_stop
  issue_stop-Adds w robot o =
      let marked = set_owner w robot (record o { stop_issued = true }) in
      let later = record marked { drawn = w.drawn + 1 } in
      let a : Adds P w later =
        Adds-trans P w marked later (set_owner-Adds w robot _)
          (Adds-none P marked later refl refl) in
      Adds-if P w _ _ _ (set_owner-Adds w robot o) (
        Adds-if P w _ _ _ (Adds-trans P w later _ a (stop_sent-Adds w robot o later))
          (set_owner-Adds w robot _))

  revoke_owner-Adds :
      (w : World) (robot : ℕ) (o : Option ManualOwner) → Adds P w (revoke_owner_with w robot o)
  unfolding revoke_owner_with
  revoke_owner-Adds w robot none = Adds-none P w w refl refl
  revoke_owner-Adds w robot (some o) =
      Adds-trans P w _ _ (close_owner-Adds P free w robot o false) (issue_stop-Adds _ robot _)

  pub revoke-Adds : (w : World) (robot : ℕ) → Adds P w (revoke w robot)
  unfolding revoke
  revoke-Adds w robot =
      Adds-trans P w (bump w robot) _ (bump-Adds P free w robot)
        (revoke_owner-Adds (bump w robot) robot _)
