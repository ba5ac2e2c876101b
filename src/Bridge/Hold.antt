-- ===== src/Bridge/Hold.antt =====
-- Hazards that keep `TeleopSession` closed, ros2_ws/src/patrolbot_web_bridge/patrolbot_web_bridge/
-- teleop.py: the robot's configuration maintenance relies on it.
use patrolbot_dashboard.Base.{
  ℕ, ◌≡◌, refl, ap, sym, ◌∙◌, true, false, false≢true, not, ◌||◌, Option, none, some, List, [], ◌∷◌,
  All, if-holds, if-split, is_none, is_some, maybe,
}
use patrolbot_dashboard.Protocol.Commands.{CommandOutcome}
use patrolbot_dashboard.TuningPolicy.{field}
use patrolbot_dashboard.Bridge.Policy.{RuntimePolicy}
use patrolbot_dashboard.Bridge.Session.{
  Cause, malformed, unsafe, Env, TeleopSession, StepResult, state_of, done, say, confirm_start,
  StartRequest, check_start, start_checked, start, tick, active, was_seen, fresh, valid_id,
}
use patrolbot_dashboard.Bridge.Frame.{not_dict, dict, frame, names}
use patrolbot_dashboard.Bridge.Watchdog.{finish-Stopped}
use patrolbot_dashboard.Bridge.History.{
  Call, starts, confirms, ticks, frames, ends, Step, run_call, take_step, run,
}

hazard_reason :
    (h : Option ℕ) (d : Option RuntimePolicy × Option Cause)
    → is_some h ≡ true
    → is_some ((maybe d (λ r. (none, some (unsafe r))) h).1) ≡ true
hazard_reason (some r) d e = refl
hazard_reason none d e = absurd (false≢true e)

-- No start passes while a hazard is reported.
check_start-is_some :
    (s : TeleopSession) (env : Env) (q : StartRequest)
    → is_some env.safety ≡ true
    → is_some (check_start s env q).1 ≡ true
unfolding check_start
check_start-is_some s env q unsafe_now =
    let G = λ (x : Option RuntimePolicy × Option Cause). is_some x.1 ≡ true in
    if-holds G (not q.authorized || not (valid_id env.uuid q.command_id)) _ _ refl (
      if-holds G (active s) _ _ refl (
        if-holds G (was_seen s q.command_id) _ _ refl (
          if-holds G (not (fresh s env q.received_at)) _ _ refl
            (hazard_reason env.safety _ unsafe_now))))

start_checked-closed :
    (s : TeleopSession) (env : Env) (q : StartRequest) (context : ℕ)
    (x : Option RuntimePolicy × Option Cause)
    → is_some x.1 ≡ true
    → s.command_id ≡ none
    → (state_of (start_checked s env q context x)).command_id ≡ none
unfolding start_checked say
start_checked-closed s env q context (_, some r) e idle = idle
start_checked-closed s env q context (_, none) e idle = absurd (false≢true e)

run_call-closed :
    (c : Call) (s : TeleopSession) (env : Env) (context : ℕ)
    → is_some env.safety ≡ true
    → s.command_id ≡ none
    → (run_call c s env context).command_id ≡ none
unfolding run_call start confirm_start tick frame
run_call-closed (starts q) s env context h idle =
    start_checked-closed s env q context _ (check_start-is_some s env q h) idle
run_call-closed confirms s env context h idle =
    if-split (λ (r : StepResult). (state_of r).command_id ≡ none) (not (active s) || s.acknowledged)
      (done s false) _ (λ _. idle)
      (λ e. absurd (false≢true (sym e ∙ ap (λ i. not (is_some i) || s.acknowledged) idle)))
run_call-closed ticks s env context h idle =
    if-split (λ (u : TeleopSession). u.command_id ≡ none) (not (active s)) s _ (λ _. idle)
      (λ e. absurd (false≢true (sym e ∙ ap (λ i. not (is_some i)) idle)))
run_call-closed (frames not_dict received_at) s env context h idle =
    (finish-Stopped s malformed CommandOutcome.failed).idle
run_call-closed (frames (dict m) received_at) s env context h idle =
    if-split (λ (r : StepResult). (state_of r).command_id ≡ none)
      (is_none s.command_id || not (names (field "command_id" m) s.command_id)) (done s false) _
      (λ _. idle)
      (λ e.
        absurd
          (false≢true (sym e ∙ ap (λ i. is_none i || not (names (field "command_id" m) i)) idle)))
run_call-closed (ends reason outcome) s env context h idle = (finish-Stopped s reason outcome).idle

-- A closed session stays closed through any calls as long as each of them meets a hazard, such as
-- the hold of configuration maintenance.
pub run_closed :
    (steps : List Step) (s : TeleopSession)
    → All (λ x. is_some x.env.safety ≡ true) steps
    → s.command_id ≡ none
    → (run steps s).command_id ≡ none
run_closed [] s h idle = idle
run_closed (x ∷ rest) s (h, hs) idle =
    run_closed rest (take_step x s) hs (run_call-closed x.call s x.env x.context h idle)
