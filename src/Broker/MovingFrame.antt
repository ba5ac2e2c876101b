-- ===== src/Broker/MovingFrame.antt =====
-- The frames by which `TeleopController.velocity` of server/app/commands/teleop.py moves a robot: what
-- its tests come to.
use patrolbot_dashboard.Base.{
  ℕ, ◌≡◌, refl, true, false, false≢true, not, Option, none, some, leb_ℤ, ◌&&◌, ◌==◌, ==_iff,
  is_some, and_true, not-false, not-true, arith, sym, subst,
}
use patrolbot_dashboard.Base.Dict.{get}
use patrolbot_dashboard.Base.Float.{Float, nano, negate, le}
use patrolbot_dashboard.Gates.Manual.{teleop_reason}
use patrolbot_dashboard.TuningPolicy.{TeleopPolicy, Outcome, resolved, refused, over_policy}
use patrolbot_dashboard.Broker.State.{RobotSession, Client, Phase, active, ManualOwner, World}
use patrolbot_dashboard.Broker.Manual.{manual_view, resolve_for, bound, owns_lease, is_active}
use patrolbot_dashboard.Broker.Checks.{may_command}
use patrolbot_dashboard.Broker.Drive.{
  VelocityFrame, same_signature, still_authorizes, policy_problem, hazard, identified, in_time,
}

-- What holds of a frame that moves a robot, in the world that it meets.
pub record Driven (w : World) (client : Client) (robot : ℕ) (f : VelocityFrame) : Type 0 where
  pub deadman : f.deadman ≡ true
  pub owner : ManualOwner
  pub owned : get robot w.owners ≡ some owner
  pub same_client : owner.client.ident ≡ client.ident
  pub permitted : may_command client.user ≡ true
  pub same_command : owner.command_id ≡ f.command_id
  pub newer : leb_ℤ f.seq owner.seq ≡ false
  pub bound_to : bound w robot owner ≡ true
  pub holds_lease : owns_lease w robot owner ≡ true
  pub age : Float
  pub aged : f.age ≡ some age
  pub not_early : le (negate (nano 50_000_000)) age ≡ true
  pub not_late : le age (nano 300_000_000) ≡ true
  pub accepted : owner.phase ≡ active
  pub session : RobotSession
  pub registered : get robot w.robots ≡ some session
  pub no_hazard : teleop_reason (manual_view w session) ≡ none
  pub policy : TeleopPolicy
  pub policy_now : resolve_for w session ≡ resolved policy
  pub policy_kept : same_signature policy owner.policy ≡ true
  pub within_policy : over_policy owner.policy f.linear f.angular ≡ false

was_active : (p : Phase) → is_active p ≡ true → p ≡ active
was_active p h = ground arith

timely_age :
    (o : Option Float)
    → in_time o ≡ true
    → (a : Float) × (o ≡ some a)
      × (le (negate (nano 50_000_000)) a ≡ true)
      × (le a (nano 300_000_000) ≡ true)
timely_age none h = absurd (false≢true h)
timely_age (some a) h = let (early, late) = and_true _ _ h in (a, refl, early, late)

safe_session :
    (w : World) (o : Option RobotSession)
    → hazard w o ≡ false
    → (s : RobotSession) × (o ≡ some s) × (teleop_reason (manual_view w s) ≡ none)
safe_session w none h = absurd (false≢true (sym h))
safe_session w (some s) h = (s, refl, no_reason (teleop_reason (manual_view w s)) h)
  where
    no_reason : {A : Type 0} (r : Option A) → is_some r ≡ false → r ≡ none
    no_reason none e = refl
    no_reason (some r) e = absurd (false≢true (sym e))

same_policy :
    (r : Outcome) (q : TeleopPolicy)
    → still_authorizes r q ≡ true
    → (p : TeleopPolicy) × (r ≡ resolved p) × (same_signature p q ≡ true)
same_policy (refused r) q h = absurd (false≢true h)
same_policy (resolved p) q h = (p, refl, h)

kept_policy :
    (w : World) (s : RobotSession) (o : Option RobotSession) (owner : ManualOwner)
    → o ≡ some s
    → policy_problem w o owner ≡ false
    → (p : TeleopPolicy) × (resolve_for w s ≡ resolved p) × (same_signature p owner.policy ≡ true)
kept_policy w s o owner e h =
    same_policy (resolve_for w s) owner.policy
      (not-false _ (subst (λ x. policy_problem w x owner ≡ false) e h))

-- What the tests of a frame that moves a robot come to.
pub driven :
    (w : World) (client : Client) (robot : ℕ) (f : VelocityFrame) (o : ManualOwner)
    → f.deadman ≡ true
    → get robot w.owners ≡ some o
    → identified w robot client f o ≡ true
    → in_time f.age ≡ true
    → is_active o.phase ≡ true
    → hazard w (get robot w.robots) ≡ false
    → policy_problem w (get robot w.robots) o ≡ false
    → over_policy o.policy f.linear f.angular ≡ false
    → Driven w client robot f
unfolding identified
driven w client robot f o held owned own timely accepted safe kept within =
    let same_ids = o.client.ident == client.ident in
    let allowed = may_command client.user in
    let same_id = o.command_id == f.command_id in
    let newer = not (leb_ℤ f.seq o.seq) in
    let (own, lease) =
      and_true (same_ids && allowed && same_id && newer && bound w robot o) _ own in
    let (own, bound_to) = and_true (same_ids && allowed && same_id && newer) _ own in
    let (own, fresh) = and_true (same_ids && allowed && same_id) newer own in
    let (own, command) = and_true (same_ids && allowed) same_id own in
    let (client_same, may) = and_true same_ids allowed own in
    let (age, aged, early, late) = timely_age f.age timely in
    let (s, found, clear) = safe_session w (get robot w.robots) safe in
    let (p, now, same) = kept_policy w s (get robot w.robots) o found kept in
    record {
      deadman = held;
      owner = o;
      owned = owned;
      same_client = (==_iff o.client.ident client.ident).0 client_same;
      permitted = may;
      same_command = (==_iff o.command_id f.command_id).0 command;
      newer = not-true _ fresh;
      bound_to = bound_to;
      holds_lease = lease;
      age = age;
      aged = aged;
      not_early = early;
      not_late = late;
      accepted = was_active o.phase accepted;
      session = s;
      registered = found;
      no_hazard = clear;
      policy = p;
      policy_now = now;
      policy_kept = same;
      within_policy = within;
    }
