-- ===== src/Broker/Outputs.antt =====
-- What the operations of the broker put out: each of them adds to the outputs, keeps the robots'
-- sessions, and sends a command to a robot only where it is asked to.
use patrolbot_dashboard.Base.{
  ℕ, ◌≡◌, refl, Bool, true, false, Option, none, some, [], ◌∷◌, ◌==◌, inl, inr, Option-cases,
  if◌then◌else◌,
}
use patrolbot_dashboard.Base.Dict.{get, insert, pop}
use patrolbot_dashboard.Protocol.Commands.{CommandOutcome, timeout}
use patrolbot_dashboard.Broker.State.{
  result, completed, RobotSession, ManualOwner, ActiveCommand, Output, World, emit,
}
use patrolbot_dashboard.Broker.Manual.{
  bump, set_owner, send, close_owner, revoke_quiet, stop_pending, terminal,
}
use patrolbot_dashboard.Broker.Manual.{
  revoke_owner, terminal_owner, settle_owner, keep_owner, stop_owner,
}
use patrolbot_dashboard.Broker.Lifecycle.{
  finish, mark_uncertain, close_out, cancel_map_of, lift_barriers, manual_unknown, uncertain_entry,
  cancel_to, closing_event, is_manual,
}
use patrolbot_dashboard.Broker.Adds.{
  drives, Adds, Adds-none, Adds-trans, Adds-if, Adds-fst, emit-Adds, send_text-Adds,
}

-- Nothing but `forward` sends a command.
module _ (P : Output → Type 0) (free : (o : Output) → drives o ≡ false → P o) where
  closing-Adds :
      (w : World) (e : ActiveCommand) (r : CommandOutcome) → Adds P w (closing_event w e r)
  unfolding closing_event
  closing-Adds w e r =
      let done = emit-Adds P w (completed e.command_id r) (free _ refl) in
      Adds-if P w _ _ _ (Adds-trans P w _ _ done (emit-Adds P _ _ (free _ refl))) done

  pub finish-Adds : (w : World) (e : ActiveCommand) (r : CommandOutcome) → Adds P w (finish w e r)
  unfolding finish
  finish-Adds w e r =
      Adds-if P w _ w _
        (Adds-trans P w (lift_barriers w e) _ (unfold lift_barriers in Adds-none P w _ refl refl)
          (closing-Adds _ e r))
        (Adds-none P w w refl refl)

  report-Adds :
      (w : World) (e : ActiveCommand)
      → Adds P w
          (emit (emit w (result e.robot_id e.command_id timeout)) (completed e.command_id timeout))
  unfolding emit
  report-Adds w e = record {
    robots = refl;
    grown = (
      completed e.command_id timeout ∷ result e.robot_id e.command_id timeout ∷ [],
      (free _ refl, (free _ refl, tt)),
      refl,
    );
  }

  manual-Adds :
      (w : World) (e : ActiveCommand) (o : Option ManualOwner) → Adds P w (manual_unknown w e o)
  unfolding manual_unknown set_owner
  manual-Adds w e none = Adds-none P w w refl refl
  manual-Adds w e (some o) = Adds-none P w _ refl refl

  uncertain-Adds : (w : World) (e : Option ActiveCommand) → Adds P w (uncertain_entry w e)
  unfolding uncertain_entry
  uncertain-Adds w none = Adds-none P w w refl refl
  uncertain-Adds w (some e) =
      Adds-trans P w _ _
        (Adds-if P w _ _ (is_manual e.command)
          (Adds-trans P w
            (record w { active = insert e.command_id (record e { uncertain = true }) w.active }) _
            (Adds-none P w _ refl refl) (manual-Adds _ e _))
          (Adds-none P w _ refl refl))
        (report-Adds _ e)

  pub mark_uncertain-Adds : (w : World) (id : ℕ) → Adds P w (mark_uncertain w id)
  unfolding mark_uncertain
  mark_uncertain-Adds w id = uncertain-Adds w (get id w.active)

  cancel-Adds :
      (w : World) (e : ActiveCommand) (s : Option RobotSession) → Adds P w (cancel_to w e s)
  unfolding cancel_to
  cancel-Adds w e none = Adds-none P w w refl refl
  cancel-Adds w e (some s) = elim (Option-cases s.websocket) [
    | inl n ↦ rw n (Adds-none P w w refl refl)
    | inr (ws, h) ↦ rw h (send_text-Adds P w _ (free _ refl))
  ]

  pub cancel_map_of-Adds : (w : World) (e : ActiveCommand) → Adds P w (cancel_map_of w e)
  unfolding cancel_map_of
  cancel_map_of-Adds w e = Adds-if P w _ w _ (cancel-Adds w e _) (Adds-none P w w refl refl)

  pub close_out-Adds :
      (w : World) (e : ActiveCommand) (r : CommandOutcome) → Adds P w (close_out w e r)
  unfolding close_out
  close_out-Adds w e r = Adds-if P w w _ _ (Adds-none P w w refl refl) (
      Adds-if P w _ _ _ (mark_uncertain-Adds w e.command_id) (
        Adds-trans P w _ _ (cancel_map_of-Adds w e)
          (Adds-trans P _ _ _ (emit-Adds P _ _ (free _ refl)) (finish-Adds _ e r))))

  pub bump-Adds : (w : World) (robot : ℕ) → Adds P w (bump w robot)
  unfolding bump
  bump-Adds w robot = Adds-none P w _ refl refl

  keep_owner-Adds : (w : World) (robot : ℕ) (o : ManualOwner) → Adds P w (keep_owner w robot o)
  unfolding keep_owner set_owner
  keep_owner-Adds w robot o =
      Adds-if P w _ _ _ (Adds-none P w (record w { owners = pop robot w.owners }) refl refl)
        (Adds-none P w (record w { owners = insert robot o w.owners }) refl refl)

  terminal_owner-Adds :
      (w : World) (e : ActiveCommand) (o : Option ManualOwner) → Adds P w (terminal_owner w e o)
  unfolding terminal_owner settle_owner
  terminal_owner-Adds w e none = Adds-none P w w refl refl
  terminal_owner-Adds w e (some o) =
      let w' : World = if e.command_id == o.command_id then bump w e.robot_id else w in
      let a : Adds P w w' =
        Adds-if P w (bump w e.robot_id) w _ (bump-Adds w e.robot_id) (Adds-none P w w refl refl) in
      Adds-trans P w w' _ a (keep_owner-Adds w' e.robot_id _)

  pub terminal-Adds : (w : World) (e : ActiveCommand) → Adds P w (terminal w e)
  unfolding terminal
  terminal-Adds w e = terminal_owner-Adds w e _

  pub send-Adds : (w : World) (robot : ℕ) (o : ManualOwner) → Adds P w (send w robot o false).0
  unfolding send
  send-Adds w robot o =
      Adds-fst P w _ _ _ (Adds-none P w w refl refl) (send_text-Adds P w _ (free _ refl))

  pub close_owner-Adds :
      (w : World) (robot : ℕ) (o : ManualOwner) (zero_sent : Bool)
      → Adds P w (close_owner w robot o zero_sent).0
  unfolding close_owner
  close_owner-Adds w robot o zero_sent =
      Adds-fst P w _ _ _ (send-Adds w robot _) (Adds-none P w w refl refl)

  revoke_owner-Adds :
      (w : World) (robot : ℕ) (o : Option ManualOwner) → Adds P w (revoke_owner w robot o)
  unfolding revoke_owner set_owner
  revoke_owner-Adds w robot none = Adds-none P w w refl refl
  revoke_owner-Adds w robot (some o) =
      Adds-trans P w _ _ (close_owner-Adds w robot o false) (Adds-none P _ _ refl refl)

  pub revoke_quiet-Adds : (w : World) (robot : ℕ) → Adds P w (revoke_quiet w robot)
  unfolding revoke_quiet bump
  revoke_quiet-Adds w robot =
      Adds-trans P w (bump w robot) _ (Adds-none P w _ refl refl) (revoke_owner-Adds _ robot _)

module _ (P : Output → Type 0) where
  stop_owner-Adds :
      (w : World) (robot : ℕ) (o : Option ManualOwner) (id : ℕ) → Adds P w (stop_owner w robot o id)
  unfolding stop_owner set_owner
  stop_owner-Adds w robot none id = Adds-none P w w refl refl
  stop_owner-Adds w robot (some o) id = Adds-none P w _ refl refl

  pub stop_pending-Adds : (w : World) (robot id : ℕ) → Adds P w (stop_pending w robot id)
  unfolding stop_pending
  stop_pending-Adds w robot id = stop_owner-Adds w robot _ id
