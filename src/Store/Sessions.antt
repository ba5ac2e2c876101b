-- ===== src/Store/Sessions.antt =====
-- The motion sample and the base state of server/app/telemetry/store.py belong to one drive-base
-- session, and the emergency stop is announced once for every press and release.
use patrolbot_dashboard.Base.{
  ℕ, Bool, true, false, not, Option, none, some, List, [], ◌∷◌, ◌++◌, eqb_ℤ_iff, maybe, if-split,
  if-holds, not-false, ◌≡◌, refl, ap, ◌∙◌, sym, subst, arith,
}
use mathlib.Core.List.{append_assoc, append-nil}
use patrolbot_dashboard.Protocol.Telemetry.{BaseStateData, MotionData}
use patrolbot_dashboard.Broker.State.{Slice}
use patrolbot_dashboard.Store.State.{
  Settings, empty, set, Severity, Alert, EventData, EventIdAllocator, Store, on_state,
  record_heartbeat, set_capabilities, made, add_event, new_state,
}
use patrolbot_dashboard.Store.Records.{
  record_lidar, record_path, record_resources, other_session, kept_motion, estop_event, estop_edge,
  bumper_edge, record_base_state, record_motion,
}
use patrolbot_dashboard.Store.Effects.{
  Emits, emit_if, other_alert, Kept, kept, Quiet, record_pose-Quiet, record_battery-Quiet,
  refresh-Quiet, record_diagnostics-Quiet, record_map-Quiet, set_connection-Quiet,
}
use patrolbot_dashboard.Store.Calls.{Call, drop_motion, lose_heartbeat, call, run}
use patrolbot_dashboard.Store.Numbering.{started}

-- A motion sample that is kept has the session generation of the base state, if there is one.
abbrev pub OneSession : Option BaseStateData → Option MotionData → Type 0
OneSession (some b) (some m) = m.session_generation ≡ b.session_generation
OneSession _ _ = Unit

-- What the announcements of an emergency stop say, in their order: pressed or released.
abbrev pub estop_mark : Alert → List Bool
estop_mark Alert.estop_pressed = true ∷ []
estop_mark Alert.estop_released = false ∷ []
estop_mark _ = []

abbrev pub estop_marks : List EventData → List Bool
estop_marks [] = []
estop_marks (e ∷ events) = estop_mark e.alert ++ estop_marks events

-- The marks alternate, from a first value to a last one.
abbrev pub Alternates : Bool → List Bool → Bool → Type 0
Alternates b [] c = b ≡ c
Alternates b (x ∷ xs) c = (x ≡ not b) × Alternates x xs c

-- Both, of what the events say and of what the state keeps.
abbrev SoundOf : List EventData → Kept → Type 0
SoundOf events k =
    OneSession k.base_state.value k.motion.value
    × Alternates false (estop_marks events) k.prev_estop

abbrev pub Sound : Store → Type 0
Sound s = SoundOf s.returned (kept s.state)

marks-append :
    (xs : List EventData) (e : EventData)
    → estop_marks (xs ++ (e ∷ [])) ≡ estop_marks xs ++ estop_mark e.alert
marks-append [] e = append-nil (estop_mark e.alert)
marks-append (x ∷ xs) e =
    ap (λ l. estop_mark x.alert ++ l) (marks-append xs e)
    ∙ sym (append_assoc (estop_mark x.alert) (estop_marks xs) (estop_mark e.alert))

Alternates-append :
    (b : Bool) (xs : List Bool) (c d : Bool)
    → Alternates b xs c
    → d ≡ not c
    → Alternates b (xs ++ (d ∷ [])) d
Alternates-append b [] c d h e = (e ∙ ap not (sym h), refl)
Alternates-append b (x ∷ xs) c d (p, a) e = (p, Alternates-append x xs c d a e)

mark_other : (a : Alert) → other_alert a ≡ true → estop_mark a ≡ []
mark_other a h = ground arith

unmarked :
    (severity : Severity) (alert : Alert) (s : Store)
    → other_alert alert ≡ true
    → estop_mark (made severity alert s).alert ≡ []
unfolding made
unmarked severity alert s h = mark_other alert h

emitted :
    (severity : Severity) (alert : Alert) (s : Store)
    → SoundOf (s.returned ++ (made severity alert s ∷ [])) (kept s.state)
    → Sound (add_event severity alert s)
unfolding add_event
emitted severity alert s i = i

Quiet-Sound : (s t : Store) → Quiet s t → Sound s → Sound t
Quiet-Sound s _ Emits.idle i = i
Quiet-Sound s _ (Emits.update t r e q) i = subst (SoundOf t.returned) (sym e) (Quiet-Sound s t q i)
Quiet-Sound s _ (Emits.emit t severity alert h q) i =
    let (one, marks) = Quiet-Sound s t q i in
    let e : EventData = made severity alert t in
    let same : estop_marks (t.returned ++ (e ∷ [])) ≡ estop_marks t.returned =
      marks-append t.returned e
      ∙ ap (λ l. estop_marks t.returned ++ l) (unmarked severity alert t h)
      ∙ append-nil (estop_marks t.returned) in
    emitted severity alert t
      (one, subst (λ l. Alternates false l t.state.prev_estop) (sym same) marks)

estop_edge-Sound : (sample : BaseStateData) (s : Store) → Sound s → Sound (estop_edge sample s)
unfolding estop_edge add_event made
estop_edge-Sound sample s (one, marks) = edge sample.estop_pressed s.state.prev_estop refl
  where
    edge :
        (now before : Bool)
        → s.state.prev_estop ≡ before
        → Sound (on_state (λ r. record r { prev_estop = now }) (estop_event now before s))
    edge true true h = (one, subst (Alternates false (estop_marks s.returned)) h marks)
    edge false false h = (one, subst (Alternates false (estop_marks s.returned)) h marks)
    edge true false h = (
      one,
      rw (marks-append s.returned (made Severity.critical Alert.estop_pressed s)) (
          Alternates-append false (estop_marks s.returned) s.state.prev_estop true marks
            (ap not (sym h))),
    )
    edge false true h = (
      one,
      rw (marks-append s.returned (made Severity.info Alert.estop_released s)) (
          Alternates-append false (estop_marks s.returned) s.state.prev_estop false marks
            (ap not (sym h))),
    )

bumper_edge-Quiet : (sample : BaseStateData) (s : Store) → Quiet s (bumper_edge sample s)
unfolding bumper_edge
bumper_edge-Quiet sample s = Emits.update _ _ refl (
    emit_if other_alert kept s _ _ _ s
      (if-holds (λ a. other_alert a ≡ true) sample.bumpers_front _ _ refl refl) Emits.idle)

kept_motion-OneSession :
    (sample : BaseStateData) (motion : Slice MotionData)
    → OneSession (some sample) (kept_motion sample motion).value
unfolding kept_motion empty
kept_motion-OneSession sample motion =
    if-split (λ (x : Slice MotionData). OneSession (some sample) x.value)
      (maybe false (λ m. other_session m sample) motion.value) _ motion (λ h. tt)
      (fits motion.value)
  where
    fits :
        (m : Option MotionData)
        → maybe false (λ x. other_session x sample) m ≡ false
        → OneSession (some sample) m
    fits none h = tt
    fits (some m) h = (eqb_ℤ_iff m.session_generation sample.session_generation).0 (not-false _ h)

record_base_state-Sound :
    (now : ℕ) (sample : BaseStateData) (s : Store)
    → Sound s
    → Sound (record_base_state now sample s)
unfolding record_base_state set
record_base_state-Sound now sample s i =
    let (one, marks) =
      Quiet-Sound (estop_edge sample s) (bumper_edge sample (estop_edge sample s))
        (bumper_edge-Quiet sample (estop_edge sample s)) (estop_edge-Sound sample s i) in
    (kept_motion-OneSession sample _, marks)

record_motion-Sound :
    (now : ℕ) (sample : MotionData) (s : Store) → Sound s → Sound (record_motion now sample s)
unfolding record_motion set
record_motion-Sound now sample s (one, marks) =
    if-split Sound (maybe false (other_session sample) s.state.base_state.value) s _
      (λ h. (one, marks)) (λ h. (fits s.state.base_state.value h, marks))
  where
    fits :
        (base : Option BaseStateData)
        → maybe false (other_session sample) base ≡ false
        → OneSession base (some sample)
    fits none h = tt
    fits (some b) h = (eqb_ℤ_iff sample.session_generation b.session_generation).0 (not-false _ h)

drop_motion-Sound : (s : Store) → Sound s → Sound (on_state drop_motion s)
unfolding drop_motion empty
drop_motion-Sound s (one, marks) = (nothing s.state.base_state.value, marks)
  where
    nothing : (base : Option BaseStateData) → OneSession base none
    nothing none = tt
    nothing (some b) = tt

call-Sound : (settings : Settings) (c : Call) (s : Store) → Sound s → Sound (call settings c s)
unfolding call record_lidar record_path record_resources record_heartbeat set_capabilities
    lose_heartbeat
call-Sound settings (Call.poses now x) s i =
    Quiet-Sound s _ (record_pose-Quiet s settings now x s Emits.idle) i
call-Sound settings (Call.lidars now x) s i = i
call-Sound settings (Call.paths now x) s i = i
call-Sound settings (Call.batteries now x) s i =
    Quiet-Sound s _ (record_battery-Quiet s settings now x s Emits.idle) i
call-Sound settings (Call.base_states now x) s i = record_base_state-Sound now x s i
call-Sound settings (Call.motions now x) s i = record_motion-Sound now x s i
call-Sound settings (Call.diagnoses now x) s i =
    Quiet-Sound s _ (record_diagnostics-Quiet s settings now x s Emits.idle) i
call-Sound settings (Call.resources now x) s i = i
call-Sound settings (Call.maps now x) s i =
    Quiet-Sound s _ (record_map-Quiet s now x s Emits.idle) i
call-Sound settings (Call.connects c) s i =
    Quiet-Sound s _ (set_connection-Quiet s c s Emits.idle) i
call-Sound settings (Call.declares names) s i = i
call-Sound settings (Call.heartbeats now) s i = i
call-Sound settings (Call.refreshes now) s i =
    Quiet-Sound s _ (refresh-Quiet s settings now s Emits.idle) i
call-Sound settings (Call.says severity title message) s i =
    Quiet-Sound s (add_event severity (Alert.notice title message) s)
      (Emits.emit s _ _ refl Emits.idle) i
call-Sound settings Call.silences s i = i
call-Sound settings Call.drops_motion s i = drop_motion-Sound s i

run-Sound :
    (settings : Settings) (calls : List Call) (s : Store) → Sound s → Sound (run settings calls s)
unfolding run
run-Sound settings [] s i = i
run-Sound settings (c ∷ calls) s i =
    run-Sound settings calls (call settings c s) (call-Sound settings c s i)

started-Sound : (ids : EventIdAllocator) → Sound (started ids)
unfolding new_state empty
started-Sound ids = (tt, refl)

-- After every history of calls on a new robot state, a motion sample that is kept beside a base state
-- has the base state's session generation: no snapshot mixes two drive-base sessions.
pub run-OneSession :
    (settings : Settings) (ids : EventIdAllocator) (calls : List Call)
    → let r = (run settings calls (started ids)).state in
      OneSession r.base_state.value r.motion.value
run-OneSession settings ids calls = (run-Sound settings calls _ (started-Sound ids)).0

-- In every history of calls on a new robot state, the events that announce the emergency stop
-- alternate, beginning with a press, and the last one is what the state remembers of the button: no
-- press is announced twice without a release between, however often the robot repeats it.
pub run-Alternates :
    (settings : Settings) (ids : EventIdAllocator) (calls : List Call)
    → let s = run settings calls (started ids) in
      Alternates false (estop_marks s.returned) s.state.prev_estop
run-Alternates settings ids calls = (run-Sound settings calls _ (started-Sound ids)).1
