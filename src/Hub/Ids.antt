-- ===== src/Hub/Ids.antt =====
-- The ids of the events that server/app/telemetry/hub.py publishes, over all robots.
use patrolbot_dashboard.Base.{
  ℕ, suc, ◌+◌, ◌≤◌, ◌<◌, max, Bool, true, List, [], ◌∷◌, ◌++◌, length, if-holds, maybe-holds,
  or_default, ◌≡◌, refl, ap, ◌∙◌, sym, subst, arith,
}
use mathlib.Core.List.{
  append_assoc, append-nil, Mem, mem-cons, not-mem-nil, Nodup, Nodup-nil, Nodup-cons, Perm,
}
use mathlib.Core.List.Perm
use mathlib.Core.Logic.Or
use mathlib.Core.HLevel.{⊥_prop}
use patrolbot_dashboard.Base.Dict.{get}
use patrolbot_dashboard.Store.State.{EventData, seed}
use patrolbot_dashboard.Store.Calls.{Call, call}
use patrolbot_dashboard.Store.Numbering.{Numbered, call-Grows, Grows-Logged}
use patrolbot_dashboard.Hub.{
  RobotSession, Frame, Output, Env, Task, out, out_if, store_of, on_store, emit_each, emit_events,
}
use patrolbot_dashboard.Hub.Connections.{robot_connected}
use patrolbot_dashboard.Hub.Fleet.{
  TelemetryHub, Action, any_session, fresh_session, env_of, task_of, commit, on_current, connect,
  act, run,
}
use patrolbot_dashboard.Hub.Runs.{
  Runs, plain, apply-Runs, message-Runs, reply-Runs, notice-Runs, connect-Runs, disconnect-Runs,
}

abbrev id_in : Output → List ℕ
id_in (Output.published _ (Frame.event_append e)) = e.id ∷ []
id_in _ = []

-- The ids of the published events, in their order.
abbrev pub ids_in : List Output → List ℕ
ids_in [] = []
ids_in (o ∷ outputs) = id_in o ++ ids_in outputs

abbrev ids_of : List EventData → List ℕ
ids_of [] = []
ids_of (e ∷ events) = e.id ∷ ids_of events

-- The numbers rise strictly, from a bound on, and end below another.
abbrev pub Rising : ℕ → List ℕ → ℕ → Type 0
Rising lo [] hi = lo ≤ hi
Rising lo (x ∷ xs) hi = (lo ≤ x) × Rising (suc x) xs hi

Rising-wider : (lo : ℕ) (xs : List ℕ) (hi up : ℕ) → Rising lo xs hi → hi ≤ up → Rising lo xs up
Rising-wider lo [] hi up r h = omega (arith, r, h)
Rising-wider lo (x ∷ xs) hi up (p, r) h = (p, Rising-wider (suc x) xs hi up r h)

Rising-Numbered :
    (lo : ℕ) (xs : List ℕ) (hi : ℕ) (news : List EventData)
    → Rising lo xs hi
    → Numbered hi news
    → Rising lo (xs ++ ids_of news) (hi + length news)
Rising-Numbered lo [] hi [] r u = omega (arith, r)
Rising-Numbered lo [] hi (e ∷ news) r (p, u) = (
  omega (arith, r, p),
  subst (λ k. Rising (suc e.id) (ids_of news) k) (omega (arith, p))
      (Rising-Numbered (suc e.id) [] (suc hi) news (omega (arith, p)) u),
)
Rising-Numbered lo (x ∷ xs) hi news (p, r) u = (p, Rising-Numbered (suc x) xs hi news r u)

Rising-le : (lo : ℕ) (xs : List ℕ) (hi : ℕ) → Rising lo xs hi → lo ≤ hi
Rising-le lo [] hi r = r
Rising-le lo (x ∷ xs) hi (p, r) =
    let low : suc x ≤ hi = Rising-le (suc x) xs hi r in omega (arith, p, low)

Rising-front : (lo : ℕ) (xs ys : List ℕ) (hi : ℕ) → Rising lo (xs ++ ys) hi → Rising lo xs hi
Rising-front lo [] [] hi r = r
Rising-front lo [] (y ∷ ys) hi (p, r) =
    let low : suc y ≤ hi = Rising-le (suc y) ys hi r in omega (arith, p, low)
Rising-front lo (x ∷ xs) ys hi (p, r) = (p, Rising-front (suc x) xs ys hi r)

ids_in-append : (xs ys : List Output) → ids_in (xs ++ ys) ≡ ids_in xs ++ ids_in ys
ids_in-append [] ys = refl
ids_in-append (x ∷ xs) ys =
    ap (λ l. id_in x ++ l) (ids_in-append xs ys)
    ∙ sym (append_assoc (id_in x) (ids_in xs) (ids_in ys))

ids_of-append : (xs ys : List EventData) → ids_of (xs ++ ys) ≡ ids_of xs ++ ids_of ys
ids_of-append [] ys = refl
ids_of-append (x ∷ xs) ys = ap (λ l. x.id ∷ l) (ids_of-append xs ys)

-- What a task has published and what it will publish rise, below the next id.
abbrev Fresh : Task → Type 0
Fresh t = Rising 0 (ids_in t.outputs ++ ids_of t.pending) t.event_ids.next_id

on_store-Fresh : (env : Env) (c : Call) (t : Task) → Fresh t → Fresh (on_store env c t)
unfolding on_store
on_store-Fresh env c t f =
    let s = call env.settings c (store_of t) in
    let (news, old, ids, next, same) =
      Grows-Logged (store_of t) s (call-Grows env.settings c (store_of t)) in
    let joined : ids_in t.outputs ++ ids_of s.returned
        ≡ (ids_in t.outputs ++ ids_of t.pending) ++ ids_of news =
      ap (λ l. ids_in t.outputs ++ ids_of l) old
      ∙ ap (λ l. ids_in t.outputs ++ l) (ids_of-append t.pending news)
      ∙ sym (append_assoc (ids_in t.outputs) (ids_of t.pending) (ids_of news)) in
    subst (λ l. Rising 0 l s.event_ids.next_id) (sym joined)
      (subst (Rising 0 ((ids_in t.outputs ++ ids_of t.pending) ++ ids_of news)) (sym next)
        (Rising-Numbered 0 (ids_in t.outputs ++ ids_of t.pending) t.event_ids.next_id news f ids))

plain-id : (o : Output) → plain o ≡ true → id_in o ≡ []
plain-id o h = ground arith

ids_in-out : (o : Output) (t : Task) → plain o ≡ true → ids_in (out o t).outputs ≡ ids_in t.outputs
unfolding out
ids_in-out o t h =
    ids_in-append t.outputs (o ∷ [])
    ∙ ap (λ l. ids_in t.outputs ++ (l ++ [])) (plain-id o h)
    ∙ append-nil (ids_in t.outputs)

out-Fresh : (o : Output) (t : Task) → plain o ≡ true → Fresh t → Fresh (out o t)
unfolding out
out-Fresh o t h f =
    subst (λ l. Rising 0 (l ++ ids_of t.pending) t.event_ids.next_id) (sym (ids_in-out o t h)) f

-- A task that has published the ids of another and then one more, and is else like it.
abbrev OneMore : ℕ → Task → Task → Type 0
OneMore n t u =
    (ids_in u.outputs ≡ ids_in t.outputs ++ (n ∷ []))
    × (u.event_ids.next_id ≡ t.event_ids.next_id)
    × (u.pending ≡ t.pending)

publish-OneMore :
    (env : Env) (e : EventData) (t : Task)
    → OneMore e.id t (
        out_if env.has_db (Output.event_stored t.session.robot_id e) (
          out
            (Output.event_recorded e)
            (out (Output.published t.session.robot_id (Frame.event_append e)) t)))
unfolding out
publish-OneMore env e t =
    let said : Task = out (Output.published t.session.robot_id (Frame.event_append e)) t in
    let kept : Task = out (Output.event_recorded e) said in
    let first : ids_in said.outputs ≡ ids_in t.outputs ++ (e.id ∷ []) =
      ids_in-append t.outputs (Output.published t.session.robot_id (Frame.event_append e) ∷ []) in
    let second : ids_in kept.outputs ≡ ids_in t.outputs ++ (e.id ∷ []) =
      ids_in-out (Output.event_recorded e) said refl ∙ first in
    if-holds (OneMore e.id t) env.has_db (out (Output.event_stored t.session.robot_id e) kept) kept
      (ids_in-out (Output.event_stored t.session.robot_id e) kept refl ∙ second, refl, refl)
      (second, refl, refl)

emit_each-Fresh :
    (env : Env) (events : List EventData) (t : Task)
    → Rising 0 (ids_in t.outputs ++ ids_of events) t.event_ids.next_id
    → t.pending ≡ []
    → Fresh (emit_each env events t)
unfolding emit_each
emit_each-Fresh env [] t f e =
    subst (λ l. Rising 0 (ids_in t.outputs ++ ids_of l) t.event_ids.next_id) (sym e) f
emit_each-Fresh env (e ∷ events) t f nothing =
    let (ids, next, same) = publish-OneMore env e t in
    emit_each-Fresh env events _
      (subst (Rising 0 _) (sym next) (
        subst (λ l. Rising 0 l t.event_ids.next_id)
          (sym (
            ap (λ l. l ++ ids_of events) ids
            ∙ append_assoc (ids_in t.outputs) (e.id ∷ []) (ids_of events)))
          f))
      (same ∙ nothing)

emits-Fresh : (env : Env) (t : Task) → Fresh t → Fresh (emit_events env t)
unfolding emit_events
emits-Fresh env t f = emit_each-Fresh env t.pending (record t { pending = [] }) f refl

Runs-Fresh : (env : Env) (u t : Task) → Runs env u t → Fresh u → Fresh t
Runs-Fresh env u _ Runs.idle f = f
Runs-Fresh env u _ (Runs.calls t c h r) f = on_store-Fresh env c t (Runs-Fresh env u t r f)
Runs-Fresh env u _ (Runs.outs t o h r) f = out-Fresh o t h (Runs-Fresh env u t r f)
Runs-Fresh env u _ (Runs.emits t r) f = emits-Fresh env t (Runs-Fresh env u t r f)
Runs-Fresh env u _ (Runs.moves t s h r) f = Runs-Fresh env u t r f

-- What the hub has published, of every robot, rises below the next id.
abbrev Published : TelemetryHub → Type 0
Published h = Rising 0 (ids_in h.outputs) h.event_ids.next_id

commit-Published :
    (robot : ℕ) (t : Task) (h : TelemetryHub) → Fresh t → Published (commit robot t h)
unfolding commit
commit-Published robot t h f =
    Rising-front 0 (ids_in t.outputs) (ids_of t.pending) t.event_ids.next_id f

begun-Fresh : (h : TelemetryHub) (s : RobotSession) → Published h → Fresh (task_of h s)
begun-Fresh h s p =
    subst (λ l. Rising 0 l h.event_ids.next_id) (sym (append-nil (ids_in h.outputs))) p

on_current-Published :
    (test : RobotSession → Bool) (f : Task → Task) (robot : ℕ) (h : TelemetryHub)
    → ((t : Task) → Runs (env_of h) t (f t))
    → Published h
    → Published (on_current test f robot h)
unfolding on_current
on_current-Published test f robot h runs p = maybe-holds Published h _ (get robot h.robots) p (λ s.
    if-holds Published (test s) _ h
      (commit-Published robot (f (task_of h s)) h (
        Runs-Fresh (env_of h) (task_of h s) (f (task_of h s)) (runs (task_of h s))
          (begun-Fresh h s p)))
      p)

connect-Published :
    (robot websocket : ℕ) (h : TelemetryHub) → Published h → Published (connect robot websocket h)
unfolding connect
connect-Published robot websocket h p =
    let begun = task_of h (or_default (fresh_session robot h) (get robot h.robots)) in
    let ended = robot_connected (env_of h) (suc h.next_ident) websocket begun in
    commit-Published robot ended h (
      Runs-Fresh (env_of h) begun ended
        (connect-Runs (env_of h) begun (suc h.next_ident) websocket begun Runs.idle)
        (begun-Fresh h (or_default (fresh_session robot h) (get robot h.robots)) p))

act-Published : (a : Action) (h : TelemetryHub) → Published h → Published (act a h)
unfolding act seed
act-Published (Action.connects robot websocket) h p = connect-Published robot websocket h p
act-Published (Action.disconnects ident robot websocket) h p =
    on_current-Published _ _ robot h (λ t. disconnect-Runs (env_of h) t websocket t Runs.idle) p
act-Published (Action.receives ident robot message) h p =
    on_current-Published _ _ robot h (λ t. message-Runs (env_of h) t message t Runs.idle) p
act-Published (Action.replies ident robot) h p =
    on_current-Published _ _ robot h (λ t. reply-Runs (env_of h) t t Runs.idle) p
act-Published (Action.ticks robot) h p =
    on_current-Published any_session _ robot h (λ t. apply-Runs (env_of h) t t Runs.idle) p
act-Published (Action.notices robot severity title message) h p =
    on_current-Published any_session _ robot h
      (λ t. notice-Runs (env_of h) t (Call.says severity title message) t tt Runs.idle) p
act-Published (Action.seeds n) h p =
    Rising-wider 0 (ids_in h.outputs) h.event_ids.next_id (max h.event_ids.next_id n) p
      (omega arith)

run-Published :
    (actions : List (ℕ × Action)) (h : TelemetryHub) → Published h → Published (run actions h)
unfolding run
run-Published [] h p = p
run-Published ((wait, a) ∷ actions) h p =
    run-Published actions _ (act-Published a (record h { clock = h.clock + wait }) p)

Rising-above : (lo : ℕ) (xs : List ℕ) (hi x : ℕ) → x < lo → Rising lo xs hi → ¬ Mem x xs
Rising-above lo [] hi x h r m = not-mem-nil m
Rising-above lo (y ∷ xs) hi x h (p, r) m =
    Or.elim ⊥_prop (mem-cons.0 m) (λ e. omega (arith, e, p, h))
      (λ k. Rising-above (suc y) xs hi x (omega (arith, p, h)) r k)

Rising-Nodup : (lo : ℕ) (xs : List ℕ) (hi : ℕ) → Rising lo xs hi → Nodup xs
Rising-Nodup lo [] hi r = Nodup-nil
Rising-Nodup lo (x ∷ xs) hi (p, r) =
    Nodup-cons.1 (Rising-above (suc x) xs hi x (omega arith) r, Rising-Nodup (suc x) xs hi r)

-- In every history of a hub that has published nothing, with any number of robots that connect, fail,
-- are superseded and raise events, and with the allocator seeded at any time: whatever the order in
-- which the published events reach the browsers, no two of them, of any robots, share an id.
pub run-Nodup :
    (actions : List (ℕ × Action)) (h : TelemetryHub) (order : List ℕ)
    → h.outputs ≡ []
    → Perm (ids_in (run actions h).outputs) order
    → Nodup order
run-Nodup actions h order fresh p = Perm.nodup p (
    Rising-Nodup 0 _ (run actions h).event_ids.next_id (
      run-Published actions h
        (subst (λ o. Rising 0 (ids_in o) h.event_ids.next_id) (sym fresh) (omega arith))))
