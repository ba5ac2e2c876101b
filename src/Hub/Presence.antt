-- ===== src/Hub/Presence.antt =====
-- Which connection server/app/telemetry/hub.py shows, and what a superseded one can still do.
use patrolbot_dashboard.Base.{
  ℕ, suc, ◌-◌, ◌≤◌, Bool, true, false, none, some, [], maybe-holds, or_default, if-holds, if-split,
  if◌then◌else◌, ◌≡◌, refl, ap, ◌∙◌, sym, subst, arith,
}
use patrolbot_dashboard.Base.Dict.{get, get-insert_self}
use patrolbot_dashboard.Base.Float.{nano, lt}
use patrolbot_dashboard.Protocol.Telemetry.{Connection, online, stale, offline}
use patrolbot_dashboard.Store.State.{Store, add_event, heartbeat_age}
use patrolbot_dashboard.Store.Diagnostics.{refresh_diagnostics}
use patrolbot_dashboard.Store.Records.{same_connection, set_connection}
use patrolbot_dashboard.Store.Calls.{Call, call}
use patrolbot_dashboard.Hub.{
  RobotSession, Env, Frame, Output, Task, out, store_of, on_store, emit_derived,
}
use patrolbot_dashboard.Hub.Messages.{Message, handle_message}
use patrolbot_dashboard.Hub.Connections.{
  judged, persist_last_pose, change_connection, apply_connection, replaced, supersede,
  robot_connected, robot_disconnected,
}
use patrolbot_dashboard.Hub.Fleet.{
  TelemetryHub, Action, env_of, task_of, any_session, is_session, fresh_session, commit, on_current,
  connect, act, command_reply,
}
use patrolbot_dashboard.Hub.Motion.{emits-session, out-session}

-- What the calls of the hub keep of a session: which object it is.
abbrev SameIdent : Task → Task → Type 0
SameIdent t u = u.session.ident ≡ t.session.ident

on_store-ident : (env : Env) (c : Call) (t : Task) → SameIdent t (on_store env c t)
unfolding on_store
on_store-ident env c t = refl

same_connection_eq : (a b : Connection) → same_connection a b ≡ true → a ≡ b
same_connection_eq a b h = ground arith

add_event-connection :
    (s : Store) (severity : _) (alert : _)
    → (add_event severity alert s).state.connection ≡ s.state.connection
unfolding add_event
add_event-connection s severity alert = refl

set_connection-connection :
    (next : Connection) (s : Store) → (set_connection next s).state.connection ≡ next
unfolding set_connection
set_connection-connection next s =
    if-split (λ (x : Store). x.state.connection ≡ next) (same_connection next s.state.connection) s
      _ (λ h. sym (same_connection_eq next s.state.connection h)) (λ h. refl)

-- The session of a task shows a connection, and is still the same object.
abbrev Shows : Connection → ℕ → Task → Type 0
Shows next ident t = (t.session.state.connection ≡ next) × (t.session.ident ≡ ident)

persist-session : (env : Env) (t : Task) → (persist_last_pose env t).session ≡ t.session
unfolding persist_last_pose
persist-session env t =
    if-holds (λ (x : Task). x.session ≡ t.session) env.has_db _ t
      (maybe-holds (λ (x : Task). x.session ≡ t.session) t _ t.session.state.pose.value refl
        (λ pose. out-session (Output.pose_stored t.session.robot_id pose) t))
      refl

connects-Shows :
    (env : Env) (next : Connection) (t : Task)
    → Shows next t.session.ident (on_store env (Call.connects next) t)
unfolding on_store call
connects-Shows env next t = (set_connection-connection next (store_of t), refl)

change-Shows :
    (env : Env) (next : Connection) (t : Task)
    → Shows next t.session.ident (change_connection env next t)
unfolding change_connection
change-Shows env next t =
    let saved : Task = if same_connection next offline then persist_last_pose env t else t in
    let same : saved.session ≡ t.session =
      if-holds (λ (x : Task). x.session ≡ t.session) (same_connection next offline)
        (persist_last_pose env t) t (persist-session env t) refl in
    let told : Task =
      out (Output.published t.session.robot_id (Frame.state_connection next))
        (on_store env (Call.connects next) saved) in
    let (shown, ident) = connects-Shows env next saved in
    subst (λ s. (s.state.connection ≡ next) × (s.ident ≡ t.session.ident))
      (sym (
        emits-session env told
        ∙ out-session (Output.published t.session.robot_id (Frame.state_connection next))
            (on_store env (Call.connects next) saved)))
      (shown, ident ∙ ap (λ s. s.ident) same)

derived-Shows :
    (env : Env) (next : Connection) (ident : ℕ) (t : Task)
    → Shows next ident t
    → Shows next ident (emit_derived env t)
unfolding emit_derived out on_store call refresh_diagnostics
derived-Shows env next ident t h = h

apply-Shows :
    (env : Env) (t : Task) → Shows (judged env t.session) t.session.ident (apply_connection env t)
unfolding apply_connection
apply-Shows env t =
    let next = judged env t.session in
    let settled : Task =
      if same_connection next t.session.state.connection then t else change_connection env next t in
    subst (λ s. (s.state.connection ≡ next) × (s.ident ≡ t.session.ident))
      (sym (out-session (Output.teleop_changed t.session.ident) (emit_derived env settled)))
      (derived-Shows env next t.session.ident settled (
        if-split (Shows next t.session.ident) (same_connection next t.session.state.connection) t _
          (λ h. (sym (same_connection_eq next t.session.state.connection h), refl))
          (λ h. change-Shows env next t)))

-- What a connection gives a robot: a new session object.
connected-ident :
    (env : Env) (ident websocket : ℕ) (t : Task)
    → (robot_connected env ident websocket t).session.ident ≡ ident
unfolding robot_connected replaced on_store
connected-ident env ident websocket t =
    let old = supersede env t in
    let new : Task = record old { session = replaced env ident websocket old.session } in
    let greeted = on_store env (Call.heartbeats env.now) (on_store env (Call.declares []) new) in
    (apply-Shows env greeted).1

module _ (test : RobotSession → Bool) (f : Task → Task) (robot : ℕ) (h : TelemetryHub)
    (s : RobotSession) where
  on_current_taken :
      get robot h.robots ≡ some s
      → test s ≡ true
      → get robot (on_current test f robot h).robots ≡ some (f (task_of h s)).session
  unfolding on_current commit
  on_current_taken found passes =
      rw found (rw passes (get-insert_self robot (f (task_of h s)).session h.robots))

  on_current_refused : get robot h.robots ≡ some s → test s ≡ false → on_current test f robot h ≡ h
  unfolding on_current
  on_current_refused found fails = rw found (rw fails refl)

pub connect_found :
    (robot websocket : ℕ) (h : TelemetryHub)
    → (s : RobotSession) × (get robot (connect robot websocket h).robots ≡ some s)
      × (s.ident ≡ suc h.next_ident)
unfolding connect commit
connect_found robot websocket h =
    let begun = task_of h (or_default (fresh_session robot h) (get robot h.robots)) in
    let ended = robot_connected (env_of h) (suc h.next_ident) websocket begun in
    (
      ended.session,
      get-insert_self robot ended.session h.robots,
      connected-ident (env_of h) (suc h.next_ident) websocket begun,
    )

-- What a robot's socket and the age of its last heartbeat say of its connection, in words of their
-- own: no socket or no heartbeat is offline, a heartbeat younger than the online threshold online, and
-- an older one stale below the offline threshold and offline from there on.
pub record Judged (h : TelemetryHub) (s : RobotSession) (c : Connection) : Type 0 where
  pub no_socket : s.websocket ≡ none → c ≡ offline
  pub no_heartbeat : s.state.last_heartbeat_mono ≡ none → c ≡ offline
  pub young :
      (socket t : ℕ)
      → s.websocket ≡ some socket
      → s.state.last_heartbeat_mono ≡ some t
      → lt (nano (h.clock - t)) h.settings.online_threshold_s ≡ true
      → c ≡ online
  pub silent :
      (socket t : ℕ)
      → s.websocket ≡ some socket
      → s.state.last_heartbeat_mono ≡ some t
      → lt (nano (h.clock - t)) h.settings.online_threshold_s ≡ false
      → lt (nano (h.clock - t)) h.settings.offline_threshold_s ≡ true
      → c ≡ stale
  pub lost :
      (socket t : ℕ)
      → s.websocket ≡ some socket
      → s.state.last_heartbeat_mono ≡ some t
      → lt (nano (h.clock - t)) h.settings.online_threshold_s ≡ false
      → lt (nano (h.clock - t)) h.settings.offline_threshold_s ≡ false
      → c ≡ offline

judged-no_heartbeat :
    (env : Env) (s : RobotSession) → s.state.last_heartbeat_mono ≡ none → judged env s ≡ offline
unfolding judged heartbeat_age
judged-no_heartbeat env s e = ground arith

judged-Judged : (h : TelemetryHub) (s : RobotSession) → Judged h s (judged (env_of h) s)
unfolding judged heartbeat_age
judged-Judged h s = record {
  no_socket = λ e. rw e refl;
  no_heartbeat = judged-no_heartbeat (env_of h) s;
  young = λ socket t w e y. rw (w, e, y) refl;
  silent = λ socket t w e y z. rw (w, e, y, z) refl;
  lost = λ socket t w e y z. rw (w, e, y, z) refl;
}

-- After every tick of the monitor, a robot's connection shows as what its socket and the age of its
-- last heartbeat at the tick say, however it showed before: offline without a socket, without a
-- heartbeat, or with one as old as both thresholds; online with a heartbeat younger than the online
-- threshold; stale between the two.
pub tick-Judged :
    (robot : ℕ) (h : TelemetryHub) (before : RobotSession)
    → get robot h.robots ≡ some before
    → (after : RobotSession) × (get robot (act (Action.ticks robot) h).robots ≡ some after)
      × Judged h before after.state.connection
unfolding act
tick-Judged robot h before found =
    let judge = apply_connection (env_of h) in
    (
      (judge (task_of h before)).session,
      on_current_taken any_session judge robot h before found refl,
      subst (Judged h before) (sym (apply-Shows (env_of h) (task_of h before)).0)
          (judged-Judged h before),
    )

-- Once a robot's connection is replaced, nothing that still comes from the session object before it
-- changes the hub: no message, no command reply and no loss of its socket.
pub connect_supersedes :
    (robot websocket socket : ℕ) (message : Message) (h : TelemetryHub) (old : ℕ)
    → old ≤ h.next_ident
    → let new = connect robot websocket h in
      (act (Action.receives old robot message) new ≡ new)
      × (act (Action.replies old robot) new ≡ new)
      × (act (Action.disconnects old robot socket) new ≡ new)
unfolding act
connect_supersedes robot websocket socket message h old earlier =
    let new = connect robot websocket h in
    let (s, found, ident) = connect_found robot websocket h in
    let other : is_session old s ≡ false = ground arith in
    (
      on_current_refused (is_session old) (handle_message (env_of new) message) robot new s found
          other,
      on_current_refused (is_session old) (command_reply (env_of new)) robot new s found other,
      on_current_refused (is_session old) (robot_disconnected (env_of new) socket) robot new s found
          other,
    )
