-- ===== src/Bridge/History.antt =====
-- Calls of `TeleopSession` one after another, ros2_ws/src/patrolbot_web_bridge/patrolbot_web_bridge/
-- teleop.py: its lock makes each call one step.
use patrolbot_dashboard.Base.{ℕ, refl, List, [], ◌∷◌}
use patrolbot_dashboard.Base.Float.{Float}
use patrolbot_dashboard.Base.Grown.{Grown, Grown-map, Grown-trans}
use patrolbot_dashboard.Protocol.Commands.{CommandOutcome}
use patrolbot_dashboard.Bridge.Session.{
  Cause, Message, Env, TeleopSession, state_of, finish, confirm_start, StartRequest, start, tick,
}
use patrolbot_dashboard.Bridge.Frame.{Payload, frame}
use patrolbot_dashboard.Bridge.Messages.{
  Puts, Gives-state, finish-Puts, confirm_start-Gives, start-Gives, tick-Puts,
}
use patrolbot_dashboard.Bridge.Motion.{MayPublish, MayPublish-said, frame-MayPublish}

pub data Call : Type 0 where
  starts : StartRequest → Call
  confirms ticks : Call
  frames : Payload → Float → Call
  ends : Cause → CommandOutcome → Call

-- A call, what it reads from outside, and the connection that it comes on.
pub record Step : Type 0 where
  pub call : Call
  pub env : Env
  pub context : ℕ

unfoldable pub run_call : Call → TeleopSession → Env → ℕ → TeleopSession
run_call (starts q) s env context = state_of (start s env q context)
run_call confirms s env context = state_of (confirm_start s env context)
run_call ticks s env context = tick s env context
run_call (frames data_in received_at) s env context =
    state_of (frame s env data_in context received_at)
run_call (ends reason outcome) s env context = finish s reason outcome

abbrev pub take_step : Step → TeleopSession → TeleopSession
take_step x s = run_call x.call s x.env x.context

abbrev pub run : List Step → TeleopSession → TeleopSession
run [] s = s
run (x ∷ rest) s = run rest (take_step x s)

-- A history met the step `x` in the state `u`.
pub data Met : TeleopSession → List Step → TeleopSession → Step → Type 0 where
  now : {s : TeleopSession} {x : Step} {rest : List Step} → Met s (x ∷ rest) s x
  later :
      {s : TeleopSession} {x y : Step} {rest : List Step} {u : TeleopSession}
      → Met (take_step y s) rest u x
      → Met s (y ∷ rest) u x

pub run_call-Puts :
    (c : Call) (s : TeleopSession) (env : Env) (context : ℕ)
    → Puts (MayPublish s env context) s (run_call c s env context)
unfolding run_call
run_call-Puts (starts q) s env context =
    let P = MayPublish s env context in
    Gives-state P s _ (start-Gives P (refl, refl) (MayPublish-said s env context) s env q context)
run_call-Puts confirms s env context =
    let P = MayPublish s env context in
    Gives-state P s _
      (confirm_start-Gives P (refl, refl) (MayPublish-said s env context) s env context)
run_call-Puts ticks s env context =
    tick-Puts (MayPublish s env context) (refl, refl) (MayPublish-said s env context) s env context
run_call-Puts (frames data_in received_at) s env context =
    Gives-state (MayPublish s env context) s _ (frame-MayPublish s env data_in context received_at)
run_call-Puts (ends reason outcome) s env context =
    finish-Puts (MayPublish s env context) (refl, refl) (MayPublish-said s env context) s reason
      outcome

-- A step of the history that met a state in which it might publish the message.
pub record Allowed (s : TeleopSession) (steps : List Step) (m : Message) : Type 0 where
  pub state : TeleopSession
  pub step : Step
  pub met : Met s steps state step
  pub may : MayPublish state step.env step.context m

-- Over any history of starts, confirmations, frames, ticks and ends, with any clock, policy, safety
-- answers and publication outcomes, every velocity that goes out is zero or was allowed to the
-- session in the very state in which one of the steps met it.
pub run-Allowed :
    (steps : List Step) (s : TeleopSession) → Grown (Allowed s steps) s.sent (run steps s).sent
run-Allowed [] s = ([], tt, refl)
run-Allowed (x ∷ rest) s =
    let s' = take_step x s in
    let first : Grown (Allowed s (x ∷ rest)) s.sent s'.sent =
      Grown-map (MayPublish s x.env x.context) _ _ _
        (λ m may. record { state = s; step = x; met = now; may = may })
        ((run_call-Puts x.call s x.env x.context).grown) in
    let others : Grown (Allowed s (x ∷ rest)) s'.sent (run rest s').sent =
      Grown-map (Allowed s' rest) _ _ _
        (λ m a. record { state = a.state; step = a.step; met = later a.met; may = a.may })
        (run-Allowed rest s') in
    Grown-trans _ s.sent s'.sent _ first others
