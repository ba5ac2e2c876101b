-- ===== src/Broker/GateView.antt =====
-- What `_validate_robot_state` of server/app/commands/broker.py reads of the broker: the checks that
-- stand between the revoke of manual drive and the gates leave it as it was.
use patrolbot_dashboard.Base.{
  Bool, not, ◌&&◌, ◌||◌, Option, none, some, List, [], ◌∷◌, ◌≡◌, refl, sym, ◌∙◌, All, if-holds,
}
use patrolbot_dashboard.Protocol.Commands.{Command}
use patrolbot_dashboard.Lease.{can_command as lease_allows}
use patrolbot_dashboard.Broker.State.{RobotSession, User, World, member}
use patrolbot_dashboard.Broker.Admission.{
  validate_robot_state, lidar_settles, facts_for, reset_facts,
}
use patrolbot_dashboard.Broker.Checks.{
  Request, Checked, and_then, run_checks, is_emergency, check_rate, charge_rate, check_lease,
  take_lease, check_duplicate, check_destination,
}

-- The world without the ids seen, the leases and the rates.
abbrev pub gate_view : World → World
gate_view w = record w { seen = []; lease = []; rate = record { capacity = 0; buckets = [] } }

gates-gate_view :
    (w : World) (s : RobotSession) (c : Command) (a : Bool)
    → validate_robot_state w s c a ≡ validate_robot_state (gate_view w) s c a
unfolding validate_robot_state lidar_settles facts_for reset_facts
gates-gate_view w s c a = refl

pub gates_agree :
    (v w : World) (s : RobotSession) (c : Command) (a : Bool)
    → gate_view v ≡ gate_view w
    → validate_robot_state v s c a ≡ none
    → validate_robot_state w s c a ≡ none
gates_agree v w s c a e h =
    gates-gate_view w s c a
    ∙ (λ i. validate_robot_state (sym e i) s c a)
    ∙ sym (gates-gate_view v s c a)
    ∙ h

-- A check keeps what the gates read, whether it passes or not.
abbrev Keeps : (World → Checked) → Type 0
Keeps c = (w : World) → gate_view (c w).0 ≡ gate_view w

and_then-Keeps :
    (k : World → Checked)
    → Keeps k
    → (g : World) (x : Checked) → gate_view x.0 ≡ g
    → gate_view (and_then x k).0 ≡ g
and_then-Keeps k keep g (v, some r) e = e
and_then-Keeps k keep g (v, none) e = keep v ∙ e

run_checks-Keeps : (cs : List (World → Checked)) → All Keeps cs → Keeps (run_checks cs)
unfolding run_checks
run_checks-Keeps [] a w = refl
run_checks-Keeps (c ∷ cs) (p, a) w =
    and_then-Keeps (run_checks cs) (run_checks-Keeps cs a) (gate_view w) (c w) (p w)

abbrev KeepsTo : World → Checked → Type 0
KeepsTo w x = gate_view x.0 ≡ gate_view w

charge_rate-Keeps : (w : World) (u : Option User) → KeepsTo w (charge_rate w u)
unfolding charge_rate
charge_rate-Keeps w none = refl
charge_rate-Keeps w (some u) = refl

take_lease-Keeps : (q : Request) (w : World) (u : Option User) → KeepsTo w (take_lease q w u)
unfolding take_lease
take_lease-Keeps q w none = refl
take_lease-Keeps q w (some u) =
    if-holds (KeepsTo w) (not (lease_allows w.lease q.robot_id u.id) && not q.payload.takeover) _ _
      refl refl

pub late_checks-gate_view :
    (q : Request) (w : World)
    → gate_view
        (run_checks
          (check_rate q ∷ check_lease q ∷ check_duplicate q ∷ check_destination q ∷ [])
          w).0
      ≡ gate_view w
unfolding check_rate check_lease check_duplicate check_destination
late_checks-gate_view q w =
    run_checks-Keeps (check_rate q ∷ check_lease q ∷ check_duplicate q ∷ check_destination q ∷ [])
      (
        (λ v.
            if-holds (KeepsTo v) (is_emergency q.payload.command) _ _ refl
              (charge_rate-Keeps v q.client.user)),
        (
          (λ v.
              if-holds (KeepsTo v) (is_emergency q.payload.command) _ _ refl
                (take_lease-Keeps q v q.client.user)),
          (
            (λ v.
                if-holds (KeepsTo v)
                  (member q.payload.command_id v.seen || v.recorded q.payload.command_id) _ _ refl
                  refl),
            ((λ v. refl), tt),
          ),
        ),
      )
      w
