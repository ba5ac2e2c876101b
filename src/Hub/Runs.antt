-- ===== src/Hub/Runs.antt =====
-- What a call of server/app/telemetry/hub.py does to its task, step by step: it calls the store, leaves
-- outputs, emits the events, and may put a session in another's place.
use patrolbot_dashboard.Base.{
  ℕ, Bool, true, false, ◌||◌, none, [], ◌⊎◌, inl, inr, if-split, if-holds, or_false, maybe-holds,
  ◌≡◌, refl,
}
use patrolbot_dashboard.Base.Float.{Float}
use patrolbot_dashboard.Protocol.Telemetry.{MotionData, Connection, offline}
use patrolbot_dashboard.Store.Records.{same_connection}
use patrolbot_dashboard.Store.Calls.{Call, drop_motion, call}
use patrolbot_dashboard.Hub.{
  RobotSession, Channel, Frame, Output, Env, Task, out, out_if, on_store, emit_events, emit_derived,
  emit_event,
}
use patrolbot_dashboard.Hub.Messages.{
  Message, unvouched, untimely, aged, follow_up, rebroadcast, take_in, take_motion, take_battery,
  take_hello, dispatch, handle_message,
}
use patrolbot_dashboard.Hub.Connections.{
  judged, persist_last_pose, change_connection, apply_connection, replaced, supersede,
  robot_connected, disconnect, robot_disconnected,
}
use patrolbot_dashboard.Hub.Fleet.{command_reply}

-- Outputs other than the publication of an event.
abbrev pub plain : Output → Bool
plain (Output.published _ (Frame.event_append _)) = false
plain _ = true

-- What a call of the store must obey: its time is the clock's, and a motion sample is vouched for.
abbrev pub Fair : Env → Task → Call → Type 0
Fair env t (Call.base_states now sample) = now ≡ env.now
Fair env t (Call.motions now sample) = (now ≡ env.now) × (unvouched t.session sample ≡ false)
Fair env t _ = Unit

-- What a new session object must obey: it is of this connection, or it connects now and has no
-- motion sample.
abbrev pub Takes : Env → RobotSession → RobotSession → Type 0
Takes env old new =
    (new.state ≡ old.state)
    × ((new.connected_mono ≡ old.connected_mono)
        ⊎ ((new.connected_mono ≡ env.now) × (new.state.motion.value ≡ none)))

pub data Runs (env : Env) (u : Task) : Task → Type 0 where
  idle : Runs env u u
  calls : (t : Task) (c : Call) → Fair env t c → Runs env u t → Runs env u (on_store env c t)
  outs : (t : Task) (o : Output) → plain o ≡ true → Runs env u t → Runs env u (out o t)
  emits : (t : Task) → Runs env u t → Runs env u (emit_events env t)
  moves :
      (t : Task) (s : RobotSession)
      → Takes env t.session s
      → Runs env u t
      → Runs env u (record t { session = s })

aged-unvouched :
    (age : Float) (sample : MotionData) (t : Task)
    → unvouched t.session sample ≡ false
    → unvouched t.session (aged age sample) ≡ false
unfolding unvouched aged
aged-unvouched age sample t h = h

module _ (env : Env) (u : Task) where
  out_if-Runs :
      (b : Bool) (o : Output) (t : Task) → plain o ≡ true → Runs env u t → Runs env u (out_if b o t)
  out_if-Runs b o t p r = if-holds (Runs env u) b (out o t) t (Runs.outs t o p r) r

  derived-Runs : (t : Task) → Runs env u t → Runs env u (emit_derived env t)
  unfolding emit_derived
  derived-Runs t r =
      Runs.outs (on_store env (Call.refreshes env.now) t) _ refl
        (Runs.calls t (Call.refreshes env.now) tt r)

  follow_up-Runs : (t : Task) → Runs env u t → Runs env u (follow_up env t)
  unfolding follow_up
  follow_up-Runs t r =
      Runs.outs (emit_derived env (emit_events env t)) _ refl
        (derived-Runs (emit_events env t) (Runs.emits t r))

  rebroadcast-Runs :
      (channel : Channel) (t : Task) → Runs env u t → Runs env u (rebroadcast env channel t)
  unfolding rebroadcast
  rebroadcast-Runs channel t r =
      follow_up-Runs _
        (Runs.outs t (Output.published t.session.robot_id (Frame.telemetry channel)) refl r)

  take_in-Runs :
      (channel : Channel) (c : Call) (t : Task)
      → Fair env t c
      → Runs env u t
      → Runs env u (take_in env channel c t)
  unfolding take_in
  take_in-Runs channel c t f r =
      rebroadcast-Runs channel _
        (Runs.outs (on_store env c t) (Output.recorded channel) refl (Runs.calls t c f r))

  motion-Runs :
      (sample : MotionData) (age : Float) (t : Task)
      → Runs env u t
      → Runs env u (take_motion env sample age t)
  unfolding take_motion
  motion-Runs sample age t r =
      if-split (Runs env u) (unvouched t.session sample || untimely age) t _ (λ h. r)
        (λ h.
          take_in-Runs Channel.motion (Call.motions env.now (aged age sample)) t
            (refl, aged-unvouched age sample t (or_false _ (untimely age) h).0) r)

  dispatch-Runs :
      (message : Message) (t : Task) → Runs env u t → Runs env u (dispatch env message t)
  unfolding dispatch take_hello take_battery
  dispatch-Runs (Message.hello names) t r = follow_up-Runs _ (
      Runs.outs (on_store env (Call.declares names) t)
        (Output.published t.session.robot_id (Frame.state_capabilities names)) refl
        (Runs.calls t (Call.declares names) tt r))
  dispatch-Runs Message.heartbeat t r = follow_up-Runs t r
  dispatch-Runs (Message.pose x) t r = take_in-Runs _ (Call.poses env.now x) t tt r
  dispatch-Runs (Message.lidar x) t r = take_in-Runs _ (Call.lidars env.now x) t tt r
  dispatch-Runs (Message.path x) t r = take_in-Runs _ (Call.paths env.now x) t tt r
  dispatch-Runs (Message.battery x) t r = rebroadcast-Runs Channel.battery _ (
      out_if-Runs env.has_db (Output.battery_stored t.session.robot_id) _ refl (
        Runs.outs (on_store env (Call.batteries env.now x) t) (Output.recorded Channel.battery) refl
          (Runs.calls t (Call.batteries env.now x) tt r)))
  dispatch-Runs (Message.base_state x) t r = take_in-Runs _ (Call.base_states env.now x) t refl r
  dispatch-Runs (Message.motion x age) t r = motion-Runs x age t r
  dispatch-Runs (Message.diagnostics x) t r = take_in-Runs _ (Call.diagnoses env.now x) t tt r
  dispatch-Runs (Message.resources x) t r =
      rebroadcast-Runs Channel.resources _ (Runs.calls t (Call.resources env.now x) tt r)
  dispatch-Runs (Message.map x) t r =
      rebroadcast-Runs Channel.map _ (Runs.calls t (Call.maps env.now x) tt r)
  dispatch-Runs Message.tuning_response t r =
      Runs.outs t (Output.tuning_reply t.session.ident) refl r
  dispatch-Runs Message.other t r = follow_up-Runs t r

  persist-Runs : (t : Task) → Runs env u t → Runs env u (persist_last_pose env t)
  unfolding persist_last_pose
  persist-Runs t r =
      if-holds (Runs env u) env.has_db _ t
        (maybe-holds (Runs env u) t _ t.session.state.pose.value r
          (λ pose. Runs.outs t (Output.pose_stored t.session.robot_id pose) refl r))
        r

  change-Runs :
      (state : Connection) (t : Task) → Runs env u t → Runs env u (change_connection env state t)
  unfolding change_connection
  change-Runs state t r = Runs.emits _ (
      Runs.outs _ (Output.published t.session.robot_id (Frame.state_connection state)) refl (
        Runs.calls _ (Call.connects state) tt
          (if-holds (Runs env u) (same_connection state offline) _ t (persist-Runs t r) r)))

  pub apply-Runs : (t : Task) → Runs env u t → Runs env u (apply_connection env t)
  unfolding apply_connection
  apply-Runs t r = Runs.outs _ (Output.teleop_changed t.session.ident) refl (
      derived-Runs _ (
        if-holds (Runs env u) (same_connection (judged env t.session) t.session.state.connection) t
          _ r (change-Runs (judged env t.session) t r)))

  pub message-Runs :
      (message : Message) (t : Task) → Runs env u t → Runs env u (handle_message env message t)
  unfolding handle_message
  message-Runs message t r = dispatch-Runs message _ (Runs.calls t (Call.heartbeats env.now) tt r)

  pub reply-Runs : (t : Task) → Runs env u t → Runs env u (command_reply env t)
  unfolding command_reply
  reply-Runs t r =
      Runs.outs _ (Output.command_reply t.session.ident) refl
        (Runs.calls t (Call.heartbeats env.now) tt r)

  pub notice-Runs :
      (c : Call) (t : Task) → Fair env t c → Runs env u t → Runs env u (emit_event env c t)
  unfolding emit_event
  notice-Runs c t f r = Runs.emits _ (Runs.calls t c f r)

  supersede-Runs :
      (t : Task)
      → Runs env u t
      → Runs env u (supersede env t) × ((supersede env t).session.state.motion.value ≡ none)
  unfolding supersede on_store call drop_motion out
  supersede-Runs t r =
      let revoked : Runs env u (
          out (Output.teleop_revoked t.session.robot_id)
            (on_store env Call.drops_motion (out (Output.tuning_disconnected t.session.ident) t))) =
        Runs.outs _ (Output.teleop_revoked t.session.robot_id) refl (
          Runs.calls _ Call.drops_motion tt
            (Runs.outs t (Output.tuning_disconnected t.session.ident) refl r)) in
      maybe-holds (λ (x : Task). Runs env u x × (x.session.state.motion.value ≡ none)) _ _
        t.session.websocket (revoked, refl)
        (λ w. (Runs.outs _ (Output.closed w) refl revoked, refl))

  pub connect-Runs :
      (ident websocket : ℕ) (t : Task)
      → Runs env u t
      → Runs env u (robot_connected env ident websocket t)
  unfolding robot_connected
  connect-Runs ident websocket t r =
      let (old, still) = supersede-Runs t r in
      apply-Runs _ (
        Runs.calls _ (Call.heartbeats env.now) tt (
          Runs.calls _ (Call.declares []) tt (
            Runs.moves (supersede env t) (replaced env ident websocket (supersede env t).session)
              (unfold replaced in (refl, inr (refl, still))) old)))

  pub disconnect-Runs :
      (websocket : ℕ) (t : Task) → Runs env u t → Runs env u (robot_disconnected env websocket t)
  unfolding robot_disconnected disconnect
  disconnect-Runs websocket t r =
      if-holds (Runs env u) _ _ t
        (apply-Runs _ (
          Runs.outs _ (Output.tuning_disconnected t.session.ident) refl (
            Runs.calls _ Call.drops_motion tt (
              Runs.calls _ Call.silences tt (
                Runs.outs _ (Output.teleop_revoked t.session.robot_id) refl
                  (Runs.moves t (record t.session { websocket = none }) (refl, inl refl) r))))))
        r
