-- ===== src/Broker/ReplyOutputs.antt =====
-- The outputs of replies, timeouts and departures, server/app/commands/broker.py: no command but a
-- stop of manual drive.
use patrolbot_dashboard.Base.{
  arith, ℕ, ◌≡◌, refl, Bool, true, false, ◌&&◌, Option, none, some, List, [], ◌∷◌, if◌then◌else◌,
}
use patrolbot_dashboard.Base.Dict.{get, insert}
use patrolbot_dashboard.Protocol.Commands.{teleop_stop, CommandOutcome, rejected, timeout}
use patrolbot_dashboard.Broker.State.{
  RobotSession, ManualOwner, ActiveCommand, Output, to_robot, ack, result, World, emit,
}
use patrolbot_dashboard.Broker.Manual.{set_owner, revoke_quiet, terminal}
use patrolbot_dashboard.Broker.Lifecycle.{is_manual, cancel_map_of}
use patrolbot_dashboard.Broker.Checks.{is_start}
use patrolbot_dashboard.Broker.Requests.{revoke}
use patrolbot_dashboard.Broker.Replies.{
  Reply, acked, progressed, ended, activate_owner, accept_start, on_ack, lidar_ended, on_result,
  on_reply, reply_to, handle_robot_reply, unanswered, ack_timeout, revoke_of, cancel_of,
  cancel_for_client,
}
use patrolbot_dashboard.Broker.Adds.{
  drives, Adds, Adds-none, Adds-trans, Adds-if, Adds-fst, emit-Adds,
}
use patrolbot_dashboard.Broker.Outputs.{
  finish-Adds, mark_uncertain-Adds, cancel_map_of-Adds, close_out-Adds, terminal-Adds,
  revoke_quiet-Adds,
}
use patrolbot_dashboard.Broker.RequestOutputs.{revoke-Adds}

module _ (P : Output → Type 0) (free : (o : Output) → drives o ≡ false → P o)
    (stops : (robot id : ℕ) → P (to_robot robot id teleop_stop)) where
  accept_start-Adds :
      (w : World) (s : RobotSession) (e : ActiveCommand) (o : Option ManualOwner)
      → Adds P w (accept_start w s e o).0
  unfolding accept_start activate_owner set_owner
  accept_start-Adds w s e none = revoke-Adds P free stops w s.robot_id
  accept_start-Adds w s e (some o) =
      Adds-fst P w _ (activate_owner w s.robot_id o, true) (revoke w s.robot_id, false)
        (Adds-none P w _ refl refl) (revoke-Adds P free stops w s.robot_id)

  on_ack-Adds :
      (w : World) (s : RobotSession) (e : ActiveCommand) (accepted : Bool)
      → Adds P w (on_ack w s e accepted)
  unfolding on_ack
  on_ack-Adds w s e accepted =
      let w1 = record w { active = insert e.command_id (record e { acked = true }) w.active } in
      let x : World × Bool =
        if is_start e.command && accepted
        then accept_start w1 s e (get s.robot_id w1.owners)
        else (w1, accepted) in
      let a1 : Adds P w w1 = Adds-none P w w1 refl refl in
      let a2 : Adds P w1 x.0 =
        Adds-fst P w1 _ (accept_start w1 s e (get s.robot_id w1.owners)) (w1, accepted)
          (accept_start-Adds w1 s e _) (Adds-none P w1 w1 refl refl) in
      let w3 = emit x.0 (ack s.robot_id e.command_id x.1) in
      let a3 : Adds P w w3 =
        Adds-trans P w x.0 w3 (Adds-trans P w w1 x.0 a1 a2) (emit-Adds P x.0 _ (free _ refl)) in
      let w4 : World = if is_manual e.command then terminal w3 e else w3 in
      let a4 : Adds P w w4 =
        Adds-if P w _ _ _ (Adds-trans P w w3 _ a3 (terminal-Adds P free w3 e)) a3 in
      Adds-if P w w3 _ _ a3 (Adds-trans P w w4 _ a4 (finish-Adds P free w4 e rejected))

  lidar_ended-Adds :
      (w : World) (e : ActiveCommand) (r : CommandOutcome) → Adds P w (lidar_ended w e r)
  unfolding lidar_ended
  lidar_ended-Adds w e r = Adds-none P w (lidar_ended w e r) (ground arith) (ground arith)

  on_result-Adds :
      (w : World) (s : RobotSession) (e : ActiveCommand) (r : CommandOutcome)
      → Adds P w (on_result w s e r)
  unfolding on_result
  on_result-Adds w s e r =
      let w1 = emit w (result s.robot_id e.command_id r) in
      let a1 : Adds P w w1 = emit-Adds P w _ (free _ refl) in
      let w2 : World = if is_manual e.command then terminal w1 e else w1 in
      let a2 : Adds P w w2 =
        Adds-if P w _ _ _ (Adds-trans P w w1 _ a1 (terminal-Adds P free w1 e)) a1 in
      let quiet = revoke_quiet w1 s.robot_id in
      Adds-if P w _ _ _
        (Adds-trans P w w1 _ a1 (
          Adds-trans P w1 quiet _ (revoke_quiet-Adds P free w1 s.robot_id)
            (mark_uncertain-Adds P free quiet e.command_id)))
        (Adds-if P w _ _ _ (Adds-trans P w w2 _ a2 (mark_uncertain-Adds P free w2 e.command_id)) (
          Adds-trans P w w2 _ a2 (
            Adds-trans P w2 (lidar_ended w2 e r) _ (lidar_ended-Adds w2 e r)
              (finish-Adds P free _ e r))))

  on_reply-Adds :
      (w : World) (s : RobotSession) (e : ActiveCommand) (r : Reply) → Adds P w (on_reply w s e r)
  unfolding on_reply
  on_reply-Adds w s e (acked accepted) = on_ack-Adds w s e accepted
  on_reply-Adds w s e progressed = emit-Adds P w _ (free _ refl)
  on_reply-Adds w s e (ended r) = on_result-Adds w s e r

  reply_to-Adds :
      (w : World) (s : RobotSession) (e : Option ActiveCommand) (r : Reply)
      → Adds P w (reply_to w s e r)
  unfolding reply_to
  reply_to-Adds w s none r = Adds-none P w w refl refl
  reply_to-Adds w s (some e) r =
      Adds-if P w _ w _ (on_reply-Adds w s e r) (Adds-none P w w refl refl)

  pub handle_robot_reply-Adds :
      (w : World) (s : RobotSession) (id : ℕ) (r : Reply) → Adds P w (handle_robot_reply w s id r)
  unfolding handle_robot_reply
  handle_robot_reply-Adds w s id r = reply_to-Adds w s _ r

  pub unanswered-Adds : (w : World) (e : ActiveCommand) → Adds P w (unanswered w e)
  unfolding unanswered
  unanswered-Adds w e =
      let v = revoke w e.robot_id in
      Adds-if P w _ _ _
        (Adds-trans P w v _ (revoke-Adds P free stops w e.robot_id)
          (mark_uncertain-Adds P free v e.command_id))
        (Adds-if P w _ _ _ (mark_uncertain-Adds P free w e.command_id)
          (close_out-Adds P free w e timeout))

  pub ack_timeout-Adds : (w : World) (e : ActiveCommand) → Adds P w (ack_timeout w e)
  unfolding ack_timeout
  ack_timeout-Adds w e = Adds-if P w w _ _ (Adds-none P w w refl refl) (unanswered-Adds w e)

  revoke_of-Adds :
      (xs : List (ℕ × ManualOwner)) (w : World) (client : ℕ) → Adds P w (revoke_of w client xs)
  unfolding revoke_of
  revoke_of-Adds [] w client = Adds-none P w w refl refl
  revoke_of-Adds ((robot, o) ∷ rest) w client =
      let v = revoke w robot in
      Adds-if P w _ _ _
        (Adds-trans P w v _ (revoke-Adds P free stops w robot) (revoke_of-Adds rest v client))
        (revoke_of-Adds rest w client)

  cancel_of-Adds :
      (xs : List (ℕ × ActiveCommand)) (w : World) (client : ℕ) → Adds P w (cancel_of w client xs)
  unfolding cancel_of
  cancel_of-Adds [] w client = Adds-none P w w refl refl
  cancel_of-Adds ((id, e) ∷ rest) w client =
      let v = cancel_map_of w e in
      Adds-if P w _ _ _
        (Adds-trans P w v _ (cancel_map_of-Adds P free w e) (cancel_of-Adds rest v client))
        (cancel_of-Adds rest w client)

  pub cancel_for_client-Adds : (w : World) (client : ℕ) → Adds P w (cancel_for_client w client)
  unfolding cancel_for_client
  cancel_for_client-Adds w client =
      let v = revoke_of w client w.owners in
      Adds-trans P w v _ (revoke_of-Adds w.owners w client) (cancel_of-Adds v.active v client)
