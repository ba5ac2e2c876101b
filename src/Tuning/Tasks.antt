-- ===== src/Tuning/Tasks.antt =====
-- What the lists of tasks of server/app/tuning/broker.py keep when tasks go on, end or lose their robot.
use patrolbot_dashboard.Base.{
  ℕ, ◌≤◌, Bool, true, false, ◌==◌, ◌&&◌, Option, none, some, List, [], ◌∷◌, All, In, is_none, maybe,
  if-holds, if-split, if◌then◌else◌, ◌≡◌, refl, sym, subst, ==_iff, and_true, ◌⊎◌, inl, inr, arith,
}
use patrolbot_dashboard.Tuning.{
  Outcome, TuningResponse, Pending, Result, Event, TuningBroker, pending_count, unknown_response,
  leave,
}
use patrolbot_dashboard.Tuning.Requests.{set_waiting}
use patrolbot_dashboard.Tuning.Replies.{resolve, lose_if, unlisted}

-- A response says that the outcome is unknown, or it is the robot's reply, taken for this task.
abbrev pub Backed : List Event → ℕ → TuningResponse → Type 0
Backed events number r = (r.outcome ≡ Outcome.unknown) ⊎ In (Event.accepted number r) events

abbrev pub ResultBacked : List Event → ℕ → Bool → Result → Type 0
ResultBacked events number mutation (Result.raised refusal) = mutation ≡ false
ResultBacked events number mutation (Result.response r) = Backed events number r

-- Every task ended well: no mutation by an error, and none with an outcome that the robot did not give.
abbrev pub Honest : List Event → Type 0
Honest [] = Unit
Honest (Event.returned number mutation result ∷ events) =
    ResultBacked events number mutation result × Honest events
Honest (_ ∷ events) = Honest events

abbrev pub FutureBacked : List Event → Pending → Type 0
FutureBacked events t = maybe Unit (λ o. maybe Unit (Backed events t.number) o) t.future

-- The tasks, the events and the bound on the entries.
abbrev pub GoodOf : ℕ → List Pending → List Event → Type 0
GoodOf limit tasks events =
    All (FutureBacked events) tasks × Honest events × (pending_count tasks ≤ limit)

abbrev pub Good : TuningBroker → Type 0
Good b = GoodOf b.max_pending b.tasks b.events

pub later :
    (e : Event) (events : List Event) (t : Pending)
    → FutureBacked events t
    → FutureBacked (e ∷ events) t
later e events t h = from t.future h
  where
    from :
        (o : Option (Option TuningResponse))
        → maybe Unit (λ x. maybe Unit (Backed events t.number) x) o
        → maybe Unit (λ x. maybe Unit (Backed (e ∷ events) t.number) x) o
    from none k = tt
    from (some none) k = tt
    from (some (some r)) (inl u) = inl u
    from (some (some r)) (inr i) = inr (inr i)

pub later-All :
    (e : Event) (events : List Event) (tasks : List Pending)
    → All (FutureBacked events) tasks
    → All (FutureBacked (e ∷ events)) tasks
later-All e events [] a = tt
later-All e events (t ∷ tasks) (p, a) = (later e events t p, later-All e events tasks a)

-- ------------------------------------------------------------------ the list of tasks

module _ (events : List Event) (t : Pending) where
  pub leave-Backed :
      (tasks : List Pending)
      → All (FutureBacked events) tasks
      → All (FutureBacked events) (leave t tasks)
  unfolding leave
  leave-Backed [] a = tt
  leave-Backed (u ∷ tasks) (p, a) =
      if-holds (All (FutureBacked events)) (u.number == t.number) _ _ (leave-Backed tasks a) (
        if-holds (All (FutureBacked events)) (u.request_id == t.request_id) _ _
          (p, leave-Backed tasks a) (p, leave-Backed tasks a))

  pub waiting-Backed :
      (tasks : List Pending)
      → All (FutureBacked events) tasks
      → All (FutureBacked events) (set_waiting t tasks)
  unfolding set_waiting
  waiting-Backed [] a = tt
  waiting-Backed (u ∷ tasks) (p, a) =
      (if-holds (FutureBacked events) (u.number == t.number) _ u p p, waiting-Backed tasks a)

  pub resolve-Backed :
      (r : TuningResponse) (tasks : List Pending)
      → Backed events t.number r
      → All (FutureBacked events) tasks
      → All (FutureBacked events) (resolve t (some r) tasks)
  unfolding resolve
  resolve-Backed r [] h a = tt
  resolve-Backed r (u ∷ tasks) h (p, a) = (
    if-split (FutureBacked events) (u.number == t.number && is_none u.future) _ u
        (λ hit.
          subst (λ n. Backed events n r)
            (sym ((==_iff u.number t.number).0 (and_true _ (is_none u.future) hit).0)) h)
        (λ miss. p),
    resolve-Backed r tasks h a,
  )

pub lose-Backed :
    (events : List Event) (test : Pending → Bool) (tasks : List Pending)
    → All (FutureBacked events) tasks
    → All (FutureBacked events) (lose_if test tasks)
unfolding lose_if
lose-Backed events test [] a = tt
lose-Backed events test (u ∷ tasks) (p, a) = (
  if-holds (FutureBacked events) (u.listed && test u && is_none u.future) _ u (lost u.mutation) p,
  lose-Backed events test tasks a,
)
  where
    lost :
        (m : Bool)
        → maybe Unit
            (Backed events u.number)
            (if m then some (unknown_response u.request_id) else none)
    lost true = inl refl
    lost false = tt

pub unlisted-Backed :
    (events : List Event) (tasks : List Pending)
    → All (FutureBacked events) tasks
    → All (FutureBacked events) (unlisted tasks)
unlisted-Backed events [] a = tt
unlisted-Backed events (u ∷ tasks) (p, a) = (p, unlisted-Backed events tasks a)

pub leave-count :
    (t : Pending) (tasks : List Pending) → pending_count (leave t tasks) ≤ pending_count tasks
unfolding leave
leave-count t [] = omega arith
leave-count t (u ∷ tasks) = ground (arith, leave-count t tasks)

pub waiting-count :
    (t : Pending) (tasks : List Pending) → pending_count (set_waiting t tasks) ≡ pending_count tasks
unfolding set_waiting
waiting-count t [] = refl
waiting-count t (u ∷ tasks) = ground (arith, waiting-count t tasks)

pub resolve-count :
    (t : Pending) (r : Option TuningResponse) (tasks : List Pending)
    → pending_count (resolve t r tasks) ≡ pending_count tasks
unfolding resolve
resolve-count t r [] = refl
resolve-count t r (u ∷ tasks) = ground (arith, resolve-count t r tasks)

pub lose-count :
    (test : Pending → Bool) (tasks : List Pending)
    → pending_count (lose_if test tasks) ≡ pending_count tasks
unfolding lose_if
lose-count test [] = refl
lose-count test (u ∷ tasks) = ground (arith, lose-count test tasks)

pub unlisted-count : (tasks : List Pending) → pending_count (unlisted tasks) ≡ 0
unlisted-count [] = refl
unlisted-count (u ∷ tasks) = unlisted-count tasks
