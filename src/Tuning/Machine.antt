-- ===== src/Tuning/Machine.antt =====
-- The steps of server/app/tuning/broker.py in any order: `hub_is` is whatever the hub does to the robots'
-- sessions between two steps, and the tasks go on one by one.
use patrolbot_dashboard.Base.{ℕ, ◌+◌, Bool, ◌==◌, Option, List, [], ◌∷◌, find, maybe, if◌then◌else◌}
use patrolbot_dashboard.Base.Dict.{get}
use patrolbot_dashboard.Hub.{RobotSession}
use patrolbot_dashboard.Tuning.{Payload, Stage, Pending, TuningBroker, lost_result, finish}
use patrolbot_dashboard.Tuning.Requests.{request, send_ends, resumed}
use patrolbot_dashboard.Tuning.Replies.{Reply, handle_response, disconnected, shutdown}

pub data Step : Type 0 where
  requests : Bool → ℕ → Payload → Step
  sends : Bool → ℕ → Step
  times_out : ℕ → Step
  resumes : ℕ → Step
  responds : ℕ → ℕ → Reply → Step
  disconnects : ℕ → ℕ → Step
  shuts_down : Step
  hub_is : List (ℕ × RobotSession) → Step

abbrev pub task_at : ℕ → List Pending → Option Pending
task_at number = find (λ t. t.number == number)

abbrev pub on_task : ℕ → (Pending → TuningBroker → TuningBroker) → TuningBroker → TuningBroker
on_task number f b = maybe b (λ t. f t b) (task_at number b.tasks)

abbrev pub on_sending : Bool → Pending → TuningBroker → TuningBroker
on_sending went t b = elim t.stage [ Stage.sending ↦ send_ends went t b | Stage.waiting ↦ b ]

abbrev pub on_timeout : Pending → TuningBroker → TuningBroker
on_timeout t b = elim t.stage [
  | Stage.sending ↦ b
  | Stage.waiting ↦ maybe (finish t (lost_result t) b) (λ r. b) t.future
]

abbrev pub on_resume : Pending → TuningBroker → TuningBroker
on_resume t b = elim t.stage [
  | Stage.sending ↦ b
  | Stage.waiting ↦ maybe b (λ r. resumed t r b) t.future
]

unfoldable pub step : Step → TuningBroker → TuningBroker
unfolding request send_ends resumed finish handle_response disconnected shutdown get
step (Step.requests administrator robot p) b = request administrator robot p b
step (Step.sends went number) b = on_task number (on_sending went) b
step (Step.times_out number) b = on_task number on_timeout b
step (Step.resumes number) b = on_task number on_resume b
step (Step.responds robot session reply) b =
    maybe b (λ s. if s.ident == session then handle_response s reply b else b) (get robot b.robots)
step (Step.disconnects robot session) b = disconnected robot session b
step Step.shuts_down b = shutdown b
step (Step.hub_is robots) b = record b { robots = robots }

unfoldable pub run : List (ℕ × Step) → TuningBroker → TuningBroker
unfolding step
run [] b = b
run ((wait, s) ∷ steps) b = run steps (step s (record b { clock = b.clock + wait }))
