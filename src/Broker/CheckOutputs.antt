-- ===== src/Broker/CheckOutputs.antt =====
-- The outputs of the checks of a request, server/app/commands/broker.py: none is a command.
use patrolbot_dashboard.Base.{
  arith, false≢true, ℕ, ◌≡◌, refl, sym, ap, Bool, Option, none, some, List, [], ◌∷◌, All,
  if◌then◌else◌, is_some,
}
use patrolbot_dashboard.Base.Float.{nano}
use patrolbot_dashboard.Lease.{acquire}
use patrolbot_dashboard.Broker.State.{
  RobotSession, User, Client, Output, World, in_control, duplicate, manual_busy, manual_canceled,
  manual_ending,
}
use patrolbot_dashboard.Broker.Manual.{claim, prepare, revoke_quiet}
use patrolbot_dashboard.Broker.Checks.{
  check_active_map, check_state, robot_checks, run_checks, check_destination, Request, Checked,
  and_then, check_user, check_lidar, check_reset, charge_rate, check_rate, take_lease, check_lease,
  remember, check_duplicate, start_manual, check_robot,
}
use patrolbot_dashboard.Broker.Requests.{checks, check_owner, check_manual, admit}
use patrolbot_dashboard.Broker.Adds.{Adds, Adds-none, Adds-trans, Adds-if, Adds-fst}

-- A check that passed, and the checks after it.
pub and_then_passed :
    (c : Checked) (k : World → Checked) (w : World)
    → and_then c k ≡ (w, none)
    → (v : World) × (c ≡ (v, none)) × (k v ≡ (w, none))
and_then_passed (v, none) k w h = (v, refl, h)
and_then_passed (v, some r) k w h = absurd (false≢true (sym (ap (λ (c : Checked). is_some c.1) h)))

module _ (P : Output → Type 0) where
  and_then-Adds :
      (w : World) (c : Checked) (k : World → Checked)
      → Adds P w c.0
      → ((v : World) → Adds P v (k v).0)
      → Adds P w (and_then c k).0
  and_then-Adds w (v, none) k a b = Adds-trans P w v _ a (b v)
  and_then-Adds w (v, some r) k a b = a

  pub run_checks-Adds :
      (w : World) (cs : List (World → Checked))
      → All (λ c. (v : World) → Adds P v (c v).0) cs
      → Adds P w (run_checks cs w).0
  unfolding run_checks
  run_checks-Adds w [] a = Adds-none P w w refl refl
  run_checks-Adds w (c ∷ cs) (a, rest) =
      and_then-Adds w (c w) (run_checks cs) (a w) (λ v. run_checks-Adds v cs rest)

  Adds-check :
      (u : World) (b : Bool) (x y : Checked)
      → Adds P u x.0
      → Adds P u y.0
      → Adds P u (if b then x else y).0
  Adds-check u b x y a c = Adds-fst P u b x y a c

  charge_rate-Adds : (w : World) (u : Option User) → Adds P w (charge_rate w u).0
  unfolding charge_rate
  charge_rate-Adds w none = Adds-none P w w refl refl
  charge_rate-Adds w (some u) = Adds-none P w _ refl refl

  take_lease-Adds : (q : Request) (w : World) (u : Option User) → Adds P w (take_lease q w u).0
  unfolding take_lease
  take_lease-Adds q w none = Adds-none P w w refl refl
  take_lease-Adds q w (some u) =
      let held = record w {
        lease = acquire w.lease q.robot_id u.id u.username q.client.ident (nano w.now);
      } in
      Adds-check w _ (w, some in_control) (held, none) (Adds-none P w w refl refl)
        (Adds-none P w held refl refl)

  check_duplicate-Adds : (q : Request) (w : World) → Adds P w (check_duplicate q w).0
  unfolding check_duplicate
  check_duplicate-Adds q w =
      let longer = record w { seen = remember q.payload.command_id w.seen } in
      Adds-check w _ (w, some duplicate) (longer, none) (Adds-none P w w refl refl)
        (Adds-none P w longer refl refl)

  module _ (revoke_with : World → ℕ → World)
      (revoke_with-Adds : (w : World) (robot : ℕ) → Adds P w (revoke_with w robot))
      (quiet-Adds : (w : World) (robot : ℕ) → Adds P w (revoke_quiet w robot)) where
    check_owner-Adds : (q : Request) (w : World) → Adds P w (check_owner revoke_with q w).0
    unfolding check_owner
    check_owner-Adds q w =
        let v : World = if q.payload.takeover then revoke_with w q.robot_id else w in
        let a : Adds P w v =
          Adds-if P w _ w _ (revoke_with-Adds w q.robot_id) (Adds-none P w w refl refl) in
        Adds-check w _ (v, some manual_busy) (w, none) a (Adds-none P w w refl refl)

    check_manual-Adds : (q : Request) (w : World) → Adds P w (check_manual revoke_with q w).0
    unfolding check_manual
    check_manual-Adds q w =
        let same = Adds-none P w w refl refl in
        let revoked = revoke_with-Adds w q.robot_id in
        Adds-check w _ (revoke_with w q.robot_id, none) _ revoked
          (Adds-check w _ (revoke_quiet w q.robot_id, none) _ (quiet-Adds w q.robot_id)
            (Adds-check w _ (revoke_with w q.robot_id, some manual_ending) (w, none) revoked same))

    pub admit-Adds : (q : Request) (w : World) → Adds P w (admit revoke_with q w).0
    unfolding admit check_user check_lidar check_reset check_rate check_lease check_destination
    admit-Adds q w =
        let same : (v : World) → Adds P v v = λ v. Adds-none P v v refl refl in
        let rate : (v : World) → Adds P v (check_rate q v).0 =
          λ v. Adds-check v _ (v, none) _ (same v) (charge_rate-Adds v q.client.user) in
        let lease : (v : World) → Adds P v (check_lease q v).0 =
          λ v. Adds-check v _ (v, none) _ (same v) (take_lease-Adds q v q.client.user) in
        run_checks-Adds w (checks revoke_with q) (
          same,
          (
            check_owner-Adds q,
            (
              same,
              (same, (check_manual-Adds q, (rate, (lease, (check_duplicate-Adds q, (same, tt)))))),
            ),
          ),
        )

  prepare-Adds :
      (w : World) (c : Client) (s : RobotSession) (id : ℕ) → Adds P w (prepare w c s id).0
  unfolding prepare claim
  prepare-Adds w c s id = Adds-none P w _ (ground arith) (ground arith)

  start_manual-Adds : (q : Request) (s : RobotSession) (w : World) → Adds P w (start_manual q s w).0
  unfolding start_manual
  start_manual-Adds q s w =
      let same = Adds-none P w w refl refl in
      Adds-check w _ (w, none) _ same
        (Adds-check w _ (w, some manual_canceled) _ same
          (prepare-Adds w q.client s q.payload.command_id))

  pub check_robot-Adds :
      (q : Request) (s : RobotSession) (w : World) → Adds P w (check_robot q s w).0
  unfolding check_robot check_active_map check_state
  check_robot-Adds q s w =
      let same : (v : World) → Adds P v v = λ v. Adds-none P v v refl refl in
      run_checks-Adds w (robot_checks q s) (same, (same, (start_manual-Adds q s, tt)))
