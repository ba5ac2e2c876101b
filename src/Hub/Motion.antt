-- ===== src/Hub/Motion.antt =====
-- Which motion samples server/app/telemetry/hub.py keeps.
use patrolbot_dashboard.Base.{
  ℕ, ◌≤◌, ltb, Bool, true, false, false≢true, not, ◌||◌, Option, none, some, List, [], ◌∷◌, eqb_ℤ,
  eqb_ℤ_iff, inl, inr, if-split, if-holds, or_false, not-false, maybe, ◌≡◌, refl, ap, ◌∙◌, sym,
  subst, arith,
}
use patrolbot_dashboard.Protocol.Telemetry.{BaseStateData, MotionData}
use patrolbot_dashboard.Broker.State.{Slice}
use patrolbot_dashboard.Store.State.{
  EventData, Alert, Severity, RobotState, Store, empty, set, add_event, record_heartbeat,
  set_capabilities,
}
use patrolbot_dashboard.Store.Records.{
  record_lidar, record_path, record_resources, other_session, kept_motion, record_base_state,
  record_motion,
}
use patrolbot_dashboard.Store.Effects.{
  Emits, Quiet, record_pose-Quiet, record_battery-Quiet, refresh-Quiet, record_diagnostics-Quiet,
  record_map-Quiet, set_connection-Quiet,
}
use patrolbot_dashboard.Store.Calls.{Call, drop_motion, lose_heartbeat, call}
use patrolbot_dashboard.Hub.{
  RobotSession, Env, Task, out, store_of, on_store, emit_each, emit_events, Output,
}
use patrolbot_dashboard.Hub.Messages.{unvouched}
use patrolbot_dashboard.Hub.Runs.{Runs, Fair, Takes}

-- There is a base state of the sample's session, and it came since a time.
abbrev pub Vouches : ℕ → Slice BaseStateData → MotionData → Type 0
Vouches since base m =
    (b : BaseStateData) × (t : ℕ) × (base.value ≡ some b)
    × (base.received_mono ≡ some t)
    × (m.session_generation ≡ b.session_generation)
    × (since ≤ t)

abbrev pub Current : ℕ → Slice BaseStateData → Option MotionData → Type 0
Current since base none = Unit
Current since base (some m) = Vouches since base m

-- A session is no younger than the clock, and the motion sample that it keeps is vouched for by a
-- base state that came on this connection.
abbrev pub LiveAt : ℕ → RobotSession → Type 0
LiveAt now s =
    (s.connected_mono ≤ now) × Current s.connected_mono s.state.base_state s.state.motion.value

-- ------------------------------------------------------------------ the calls of the store

add_event-kept :
    (severity : Severity) (alert : Alert) (s : Store)
    → ((add_event severity alert s).state.base_state ≡ s.state.base_state)
      × ((add_event severity alert s).state.motion ≡ s.state.motion)
unfolding add_event
add_event-kept severity alert s = (refl, refl)

Quiet-kept :
    (s t : Store)
    → Quiet s t
    → (t.state.base_state ≡ s.state.base_state) × (t.state.motion ≡ s.state.motion)
Quiet-kept s _ Emits.idle = (refl, refl)
Quiet-kept s _ (Emits.update t r e q) =
    let (base, motion) = Quiet-kept s t q in
    (ap (λ k. k.base_state) e ∙ base, ap (λ k. k.motion) e ∙ motion)
Quiet-kept s _ (Emits.emit t severity alert h q) =
    let (base, motion) = Quiet-kept s t q in
    ((add_event-kept severity alert t).0 ∙ base, (add_event-kept severity alert t).1 ∙ motion)

Quiet-Current :
    (since : ℕ) (s t : Store)
    → Quiet s t
    → Current since s.state.base_state s.state.motion.value
    → Current since t.state.base_state t.state.motion.value
Quiet-Current since s t q c =
    let (base, motion) = Quiet-kept s t q in
    subst (λ b. Current since b t.state.motion.value) (sym base)
      (subst (λ m. Current since s.state.base_state m.value) (sym motion) c)

kept_motion-Current :
    (since now : ℕ) (sample : BaseStateData) (motion : Slice MotionData)
    → since ≤ now
    → Current since (set now sample) (kept_motion sample motion).value
unfolding kept_motion empty set
kept_motion-Current since now sample motion h =
    if-split (λ (x : Slice MotionData). Current since (set now sample) x.value)
      (maybe false (λ m. other_session m sample) motion.value) _ motion (λ e. tt)
      (fits motion.value)
  where
    fits :
        (m : Option MotionData)
        → maybe false (λ x. other_session x sample) m ≡ false
        → Current since (set now sample) m
    fits none e = tt
    fits (some m) e = (
      sample,
      now,
      refl,
      refl,
      (eqb_ℤ_iff m.session_generation sample.session_generation).0 (not-false _ e),
      h,
    )

record_base_state-Current :
    (since now : ℕ) (sample : BaseStateData) (s : Store)
    → since ≤ now
    → let r = (record_base_state now sample s).state in Current since r.base_state r.motion.value
unfolding record_base_state
record_base_state-Current since now sample s h = kept_motion-Current since now sample _ h

abbrev earlier_epoch : RobotSession → MotionData → Bool
earlier_epoch session sample =
    maybe false (λ m. ltb sample.odom_epoch_generation m.odom_epoch_generation)
      session.state.motion.value

unvouched-Vouches :
    (session : RobotSession) (sample : MotionData)
    → unvouched session sample ≡ false
    → Vouches session.connected_mono session.state.base_state sample
unfolding unvouched
unvouched-Vouches session sample h =
    let base = session.state.base_state in
    let other_base =
      maybe true (λ b. not (eqb_ℤ sample.session_generation b.session_generation)) base.value in
    let before = maybe true (λ t. ltb t session.connected_mono) base.received_mono in
    let (rest, epoch) = or_false (other_base || before) (earlier_epoch session sample) h in
    let (other, late) = or_false other_base before rest in
    let (b, e, same) = known base.value other in
    let (t, e', since) = received base.received_mono late in (b, t, e, e', same, since)
  where
    known :
        (base : Option BaseStateData)
        → maybe true (λ b. not (eqb_ℤ sample.session_generation b.session_generation)) base ≡ false
        → (b : BaseStateData) × (base ≡ some b) × (sample.session_generation ≡ b.session_generation)
    known none e = absurd (false≢true (sym e))
    known (some b) e =
        (b, refl, (eqb_ℤ_iff sample.session_generation b.session_generation).0 (not-false _ e))

    received :
        (time : Option ℕ)
        → maybe true (λ t. ltb t session.connected_mono) time ≡ false
        → (t : ℕ) × (time ≡ some t) × (session.connected_mono ≤ t)
    received none e = absurd (false≢true (sym e))
    received (some t) e = (t, refl, ground arith)

record_motion-Current :
    (now : ℕ) (sample : MotionData) (session : RobotSession) (s : Store)
    → session.state ≡ s.state
    → unvouched session sample ≡ false
    → Current session.connected_mono s.state.base_state s.state.motion.value
    → let r = (record_motion now sample s).state in
      Current session.connected_mono r.base_state r.motion.value
unfolding record_motion set
record_motion-Current now sample session s e h c =
    if-holds (λ (x : Store). Current session.connected_mono x.state.base_state x.state.motion.value)
      (maybe false (other_session sample) s.state.base_state.value) s _ c
      (subst (λ (r : RobotState). Vouches session.connected_mono r.base_state sample) e
        (unvouched-Vouches session sample h))

call-Live :
    (env : Env) (c : Call) (t : Task)
    → Fair env t c
    → LiveAt env.now t.session
    → LiveAt env.now (on_store env c t).session
unfolding on_store call record_lidar record_path record_resources record_heartbeat set_capabilities
    drop_motion lose_heartbeat
call-Live env (Call.poses now x) t f (h, c) =
    (h, Quiet-Current _ (store_of t) _ (record_pose-Quiet _ env.settings now x _ Emits.idle) c)
call-Live env (Call.lidars now x) t f l = l
call-Live env (Call.paths now x) t f l = l
call-Live env (Call.batteries now x) t f (h, c) =
    (h, Quiet-Current _ (store_of t) _ (record_battery-Quiet _ env.settings now x _ Emits.idle) c)
call-Live env (Call.base_states now x) t f (h, c) =
    (h, record_base_state-Current t.session.connected_mono now x (store_of t) (omega (arith, h, f)))
call-Live env (Call.motions now x) t (f, vouched) (h, c) =
    (h, record_motion-Current now x t.session (store_of t) refl vouched c)
call-Live env (Call.diagnoses now x) t f (h, c) = (
  h,
  Quiet-Current _ (store_of t) _ (record_diagnostics-Quiet _ env.settings now x _ Emits.idle) c,
)
call-Live env (Call.resources now x) t f l = l
call-Live env (Call.maps now x) t f (h, c) =
    (h, Quiet-Current _ (store_of t) _ (record_map-Quiet _ now x _ Emits.idle) c)
call-Live env (Call.connects state) t f (h, c) =
    (h, Quiet-Current _ (store_of t) _ (set_connection-Quiet _ state _ Emits.idle) c)
call-Live env (Call.declares names) t f l = l
call-Live env (Call.heartbeats now) t f l = l
call-Live env (Call.refreshes now) t f (h, c) =
    (h, Quiet-Current _ (store_of t) _ (refresh-Quiet _ env.settings now _ Emits.idle) c)
call-Live env (Call.says severity title message) t f (h, c) = (
  h,
  Quiet-Current _ (store_of t) (add_event severity (Alert.notice title message) (store_of t))
      (Emits.emit _ _ _ refl Emits.idle) c,
)
call-Live env Call.silences t f l = l
call-Live env Call.drops_motion t f (h, c) = (h, tt)

-- ------------------------------------------------------------------ the calls of the hub

pub out-session : (o : Output) (t : Task) → (out o t).session ≡ t.session
unfolding out
out-session o t = refl

emit_each-session :
    (env : Env) (events : List EventData) (t : Task) → (emit_each env events t).session ≡ t.session
unfolding emit_each out
emit_each-session env [] t = refl
emit_each-session env (e ∷ events) t =
    emit_each-session env events _
    ∙ if-holds (λ (x : Task). x.session ≡ t.session) env.has_db _ _ refl refl

pub emits-session : (env : Env) (t : Task) → (emit_events env t).session ≡ t.session
unfolding emit_events
emits-session env t = emit_each-session env t.pending (record t { pending = [] })

moves-Live :
    (env : Env) (old new : RobotSession)
    → Takes env old new
    → LiveAt env.now old
    → LiveAt env.now new
moves-Live env old new (state, inl time) (h, c) = (
  omega (arith, time, h),
  subst (λ k. Current k new.state.base_state new.state.motion.value) (sym time)
      (subst (λ (r : RobotState). Current old.connected_mono r.base_state r.motion.value)
        (sym state) c),
)
moves-Live env old new (state, inr (time, nothing)) (h, c) =
    (omega (arith, time), subst (Current new.connected_mono new.state.base_state) (sym nothing) tt)

pub Runs-Live :
    (env : Env) (u t : Task) → Runs env u t → LiveAt env.now u.session → LiveAt env.now t.session
Runs-Live env u _ Runs.idle l = l
Runs-Live env u _ (Runs.calls t c f r) l = call-Live env c t f (Runs-Live env u t r l)
Runs-Live env u _ (Runs.outs t o h r) l =
    subst (LiveAt env.now) (sym (out-session o t)) (Runs-Live env u t r l)
Runs-Live env u _ (Runs.emits t r) l =
    subst (LiveAt env.now) (sym (emits-session env t)) (Runs-Live env u t r l)
Runs-Live env u _ (Runs.moves t s h r) l = moves-Live env t.session s h (Runs-Live env u t r l)
