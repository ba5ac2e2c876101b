-- ===== src/Broker/Driven.antt =====
-- What `TeleopController.velocity`, `changed` and `_monitor` of server/app/commands/teleop.py put out.
use patrolbot_dashboard.Base.{
  ℕ, ◌≡◌, refl, Bool, true, false, false≢true, not, ◌||◌, Option, none, some, List, [], ◌∷◌, ◌++◌,
  length, leb, max, if-split, if-holds, or_false, not-false, sym, ◌∙◌,
}
use patrolbot_dashboard.Base.Dict.{get}
use patrolbot_dashboard.Protocol.Commands.{teleop_stop}
use patrolbot_dashboard.TuningPolicy.{over_policy}
use patrolbot_dashboard.Broker.State.{
  velocity as moved, to_robot, RobotSession, Client, ManualOwner, Output, World,
}
use patrolbot_dashboard.Broker.Manual.{is_active, send, bump, set_owner}
use patrolbot_dashboard.Broker.Drive.{
  Settings, VelocityFrame, policy_problem, hazard, revoke_sent_owner, revoke_sent, identified,
  in_time, recent_times, after_frame, forward_frame, drive, velocity_from, velocity, changed_owner,
  changed, session_changed, monitor_owner, monitor, shutdown,
}
use patrolbot_dashboard.Broker.MovingFrame.{Driven, driven}
use patrolbot_dashboard.Broker.Adds.{
  drives, Adds, Adds-none, Adds-trans, Adds-if, Adds-fst, send_text-Adds,
}
use patrolbot_dashboard.Broker.Outputs.{close_owner-Adds, bump-Adds}
use patrolbot_dashboard.Broker.RequestOutputs.{issue_stop-Adds, revoke-Adds}

module _ (P : Output → Type 0) (free : (o : Output) → drives o ≡ false → P o)
    (stops : (robot id : ℕ) → P (to_robot robot id teleop_stop)) where
  revoke_sent_owner-Adds :
      (w : World) (robot : ℕ) (o : Option ManualOwner) → Adds P w (revoke_sent_owner w robot o)
  unfolding revoke_sent_owner
  revoke_sent_owner-Adds w robot none = Adds-none P w w refl refl
  revoke_sent_owner-Adds w robot (some o) =
      Adds-trans P w _ _ (close_owner-Adds P free w robot o true)
        (issue_stop-Adds P free stops _ robot _)

  revoke_sent-Adds : (w : World) (robot : ℕ) → Adds P w (revoke_sent w robot)
  unfolding revoke_sent
  revoke_sent-Adds w robot =
      Adds-trans P w (bump w robot) _ (bump-Adds P free w robot)
        (revoke_sent_owner-Adds (bump w robot) robot (get robot w.owners))

  sent-Adds :
      (w : World) (robot : ℕ) (o : ManualOwner) (deadman : Bool)
      → (deadman ≡ true → P (moved robot o.websocket true))
      → Adds P w (send w robot o deadman).0
  unfolding send
  sent-Adds w robot o true p =
      Adds-fst P w _ _ _ (Adds-none P w w refl refl) (send_text-Adds P w _ (p refl))
  sent-Adds w robot o false p =
      Adds-fst P w _ _ _ (Adds-none P w w refl refl) (send_text-Adds P w _ (free _ refl))

  after_frame-Adds :
      (w : World) (robot : ℕ) (deadman : Bool) (x : World × Bool)
      → Adds P w x.0
      → Adds P w (after_frame robot deadman x).0
  unfolding after_frame
  after_frame-Adds w robot true (v, false) a =
      Adds-trans P w v _ a (revoke-Adds P free stops v robot)
  after_frame-Adds w robot false (v, false) a =
      Adds-trans P w v _ a (revoke-Adds P free stops v robot)
  after_frame-Adds w robot true (v, true) a = a
  after_frame-Adds w robot false (v, true) a = Adds-trans P w v _ a (revoke_sent-Adds v robot)

  forward_frame-Adds :
      (w : World) (robot : ℕ) (f : VelocityFrame) (o : ManualOwner)
      → (f.deadman ≡ true → P (moved robot o.websocket true))
      → Adds P w (forward_frame w robot f o).0
  unfolding forward_frame set_owner
  forward_frame-Adds w robot f o p =
      let o' = record o { seq = f.seq; last_frame = w.now } in
      after_frame-Adds w robot f.deadman _ (
        Adds-trans P w (set_owner w robot o') _ (Adds-none P w _ refl refl)
          (sent-Adds _ robot o' f.deadman p))

  drive-Adds :
      (w : World) (settings : Settings) (robot : ℕ) (f : VelocityFrame) (o : ManualOwner)
      → (is_active o.phase ≡ true
          → hazard w (get robot w.robots) ≡ false
          → policy_problem w (get robot w.robots) o ≡ false
          → over_policy o.policy f.linear f.angular ≡ false
          → P (moved robot o.websocket true))
      → Adds P w (drive w settings robot f o).0
  unfolding drive set_owner
  drive-Adds w settings robot f o p =
      let G = λ (x : World × Bool). Adds P w x.0 in
      let revoked = revoke-Adds P free stops w robot in
      if-split G (not (is_active o.phase)) _ _ (λ _. Adds-none P w w refl refl)
        (λ accepted.
          if-split G (hazard w (get robot w.robots)) _ _ (λ _. revoked)
            (λ no_hazard.
              if-split G (policy_problem w (get robot w.robots) o) _ _ (λ _. revoked)
                (λ kept.
                  if-split G (over_policy o.policy f.linear f.angular) _ _ (λ _. revoked)
                    (λ within.
                      if-holds G
                        (leb (max 1 settings.teleop_frames_per_s)
                          (length (recent_times w.now o.frame_times)))
                        _ _ (Adds-none P w _ refl refl)
                        (forward_frame-Adds w robot f
                          (record o {
                            frame_times = recent_times w.now o.frame_times ++ (w.now ∷ []);
                          })
                          (λ _. p (not-false _ accepted) no_hazard kept within))))))

  velocity_from-Adds :
      (w : World) (settings : Settings) (client : Client) (robot : ℕ) (f : VelocityFrame)
      (o : Option ManualOwner)
      → get robot w.owners ≡ o
      → (Driven w client robot f → (ws : ℕ) → P (moved robot ws true))
      → Adds P w (velocity_from w settings client robot f o).0
  unfolding velocity_from
  velocity_from-Adds w settings client robot f none e p = Adds-none P w w refl refl
  velocity_from-Adds w settings client robot f (some o) e p =
      let G = λ (x : World × Bool). Adds P w x.0 in
      if-split G (not (identified w robot client f o) || not (in_time f.age)) (w, false) _
        (λ _. Adds-none P w w refl refl)
        (λ known.
          let (own, timely) = or_false (not (identified w robot client f o)) _ known in
          if-split G f.deadman _ _
            (λ held. drive-Adds w settings robot f o (λ accepted no_hazard kept within.
              p
                (driven w client robot f o held e (not-false _ own) (not-false _ timely) accepted
                  no_hazard kept within)
                o.websocket))
            (λ let_go.
              forward_frame-Adds w robot f o (λ held. absurd (false≢true (sym let_go ∙ held)))))

  pub velocity-Adds :
      (w : World) (settings : Settings) (client : Client) (robot : ℕ) (f : VelocityFrame)
      → (Driven w client robot f → (ws : ℕ) → P (moved robot ws true))
      → Adds P w (velocity w settings client robot f).0
  unfolding velocity
  velocity-Adds w settings client robot f p =
      velocity_from-Adds w settings client robot f (get robot w.owners) refl p

  changed_owner-Adds :
      (w : World) (s : RobotSession) (o : Option ManualOwner) → Adds P w (changed_owner w s o)
  unfolding changed_owner
  changed_owner-Adds w s none = Adds-none P w w refl refl
  changed_owner-Adds w s (some o) =
      let same = Adds-none P w w refl refl in
      let revoked = revoke-Adds P free stops w s.robot_id in
      Adds-if P w w _ _ same (Adds-if P w _ _ _ revoked (Adds-if P w _ w _ revoked same))

  pub changed-Adds : (w : World) (s : RobotSession) → Adds P w (changed w s)
  unfolding changed
  changed-Adds w s = changed_owner-Adds w s (get s.robot_id w.owners)

  session_changed-Adds :
      (w : World) (robot : ℕ) (o : ManualOwner) (s : Option RobotSession)
      → Adds P w (session_changed w robot o s)
  unfolding session_changed
  session_changed-Adds w robot o none = revoke-Adds P free stops w robot
  session_changed-Adds w robot o (some s) =
      Adds-if P w _ _ _ (changed-Adds w s) (revoke-Adds P free stops w robot)

  monitor_owner-Adds :
      (w : World) (settings : Settings) (robot : ℕ) (o : Option ManualOwner)
      → Adds P w (monitor_owner w settings robot o)
  unfolding monitor_owner
  monitor_owner-Adds w settings robot none = Adds-none P w w refl refl
  monitor_owner-Adds w settings robot (some o) =
      Adds-if P w w _ _ (Adds-none P w w refl refl)
        (Adds-if P w _ _ _ (revoke-Adds P free stops w robot) (session_changed-Adds w robot o _))

  pub monitor-Adds :
      (owners : List (ℕ × ManualOwner)) (w : World) (settings : Settings)
      → Adds P w (monitor w settings owners)
  unfolding monitor
  monitor-Adds [] w settings = Adds-none P w w refl refl
  monitor-Adds ((robot, o) ∷ rest) w settings =
      Adds-trans P w _ _ (monitor_owner-Adds w settings robot (get robot w.owners))
        (monitor-Adds rest _ settings)

  pub shutdown-Adds : (owners : List (ℕ × ManualOwner)) (w : World) → Adds P w (shutdown w owners)
  unfolding shutdown
  shutdown-Adds [] w = Adds-none P w w refl refl
  shutdown-Adds ((robot, o) ∷ rest) w =
      Adds-trans P w _ _ (revoke-Adds P free stops w robot) (shutdown-Adds rest _)
