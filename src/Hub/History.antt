-- ===== src/Hub/History.antt =====
-- Histories of the hub of server/app/telemetry/hub.py: which motion samples it keeps. An action runs to
-- its end before the next one.
use patrolbot_dashboard.Base.{
  ℕ, suc, ◌+◌, Bool, Option, none, some, List, [], ◌∷◌, or_default, if-holds, maybe-split, ◌≡◌,
  refl, sym, subst, arith,
}
use patrolbot_dashboard.Base.Dict.{get, AllValues, get-AllValues, insert-AllValues}
use patrolbot_dashboard.Protocol.Telemetry.{BaseStateData, MotionData}
use patrolbot_dashboard.Store.State.{new_state, empty}
use patrolbot_dashboard.Store.Calls.{Call}
use patrolbot_dashboard.Hub.{RobotSession, Task}
use patrolbot_dashboard.Hub.Connections.{robot_connected}
use patrolbot_dashboard.Hub.Fleet.{
  TelemetryHub, Action, env_of, task_of, any_session, fresh_session, commit, on_current, connect,
  act, run,
}
use patrolbot_dashboard.Hub.Runs.{
  Runs, apply-Runs, message-Runs, reply-Runs, notice-Runs, connect-Runs, disconnect-Runs,
}
use patrolbot_dashboard.Hub.Motion.{Current, LiveAt, Runs-Live}

abbrev Live : TelemetryHub → Type 0
Live h = AllValues (LiveAt h.clock) h.robots

commit-Live :
    (robot : ℕ) (t : Task) (h : TelemetryHub)
    → LiveAt h.clock t.session
    → Live h
    → Live (commit robot t h)
unfolding commit
commit-Live robot t h p l = insert-AllValues (LiveAt h.clock) robot t.session h.robots p l

on_current-Live :
    (test : RobotSession → Bool) (f : Task → Task) (robot : ℕ) (h : TelemetryHub)
    → ((t : Task) → Runs (env_of h) t (f t))
    → Live h
    → Live (on_current test f robot h)
unfolding on_current
on_current-Live test f robot h runs l =
    maybe-split Live h _ (get robot h.robots) (λ e. l)
      (λ s e.
        if-holds Live (test s) _ h
          (commit-Live robot (f (task_of h s)) h
            (Runs-Live (env_of h) (task_of h s) (f (task_of h s)) (runs (task_of h s))
              (get-AllValues (LiveAt h.clock) robot h.robots s l e))
            l)
          l)

fresh-Live : (robot : ℕ) (h : TelemetryHub) → LiveAt h.clock (fresh_session robot h)
unfolding fresh_session new_state empty
fresh-Live robot h = (omega arith, tt)

previous-Live :
    (robot : ℕ) (h : TelemetryHub)
    → Live h
    → LiveAt h.clock (or_default (fresh_session robot h) (get robot h.robots))
previous-Live robot h l = from (get robot h.robots) refl
  where
    from :
        (found : Option RobotSession)
        → get robot h.robots ≡ found
        → LiveAt h.clock (or_default (fresh_session robot h) found)
    from none e = fresh-Live robot h
    from (some s) e = get-AllValues (LiveAt h.clock) robot h.robots s l e

connect-Live : (robot websocket : ℕ) (h : TelemetryHub) → Live h → Live (connect robot websocket h)
unfolding connect
connect-Live robot websocket h l =
    let begun = task_of h (or_default (fresh_session robot h) (get robot h.robots)) in
    let ended = robot_connected (env_of h) (suc h.next_ident) websocket begun in
    commit-Live robot ended h
      (Runs-Live (env_of h) begun ended
        (connect-Runs (env_of h) begun (suc h.next_ident) websocket begun Runs.idle)
        (previous-Live robot h l))
      l

act-Live : (a : Action) (h : TelemetryHub) → Live h → Live (act a h)
unfolding act
act-Live (Action.connects robot websocket) h l = connect-Live robot websocket h l
act-Live (Action.disconnects ident robot websocket) h l =
    on_current-Live _ _ robot h (λ t. disconnect-Runs (env_of h) t websocket t Runs.idle) l
act-Live (Action.receives ident robot message) h l =
    on_current-Live _ _ robot h (λ t. message-Runs (env_of h) t message t Runs.idle) l
act-Live (Action.replies ident robot) h l =
    on_current-Live _ _ robot h (λ t. reply-Runs (env_of h) t t Runs.idle) l
act-Live (Action.ticks robot) h l =
    on_current-Live any_session _ robot h (λ t. apply-Runs (env_of h) t t Runs.idle) l
act-Live (Action.notices robot severity title message) h l =
    on_current-Live any_session _ robot h
      (λ t. notice-Runs (env_of h) t (Call.says severity title message) t tt Runs.idle) l
act-Live (Action.seeds n) h l = l

LiveAt-later :
    (now wait : ℕ) (m : List (ℕ × RobotSession))
    → AllValues (LiveAt now) m
    → AllValues (LiveAt (now + wait)) m
LiveAt-later now wait [] l = tt
LiveAt-later now wait ((k, s) ∷ m) ((h, c), l) = ((omega (arith, h), c), LiveAt-later now wait m l)

run-Live : (actions : List (ℕ × Action)) (h : TelemetryHub) → Live h → Live (run actions h)
unfolding run
run-Live [] h l = l
run-Live ((wait, a) ∷ actions) h l =
    run-Live actions _
      (act-Live a (record h { clock = h.clock + wait }) (LiveAt-later h.clock wait h.robots l))

-- The motion sample that a robot's state keeps is of the session generation of its base state.
abbrev pub Matched : RobotSession → Type 0
Matched s =
    (m : MotionData)
    → s.state.motion.value ≡ some m
    → (b : BaseStateData) × (s.state.base_state.value ≡ some b)
      × (m.session_generation ≡ b.session_generation)

LiveAt-Matched : (now : ℕ) (s : RobotSession) → LiveAt now s → Matched s
LiveAt-Matched now s (h, c) m e =
    let (b, t, base, time, same, since) = subst (Current s.connected_mono s.state.base_state) e c in
    (b, base, same)

AllMatched :
    (now : ℕ) (m : List (ℕ × RobotSession)) → AllValues (LiveAt now) m → AllValues Matched m
AllMatched now [] l = tt
AllMatched now ((k, s) ∷ m) (p, l) = (LiveAt-Matched now s p, AllMatched now m l)

-- In every history of a hub without robots, each motion sample that is kept is of the session
-- generation of the base state that is kept with it: nothing that a robot sends, loses or repeats,
-- and no connection that replaces another, leaves a sample of another drive-base session behind.
pub run-Matched :
    (actions : List (ℕ × Action)) (h : TelemetryHub)
    → h.robots ≡ []
    → AllValues Matched (run actions h).robots
run-Matched actions h empty_hub =
    AllMatched (run actions h).clock (run actions h).robots
      (run-Live actions h (subst (AllValues (LiveAt h.clock)) (sym empty_hub) tt))
