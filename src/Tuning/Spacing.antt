-- ===== src/Tuning/Spacing.antt =====
-- Which mutations server/app/tuning/broker.py lets through again.
use patrolbot_dashboard.Base.{
  ℕ, zero, suc, ◌+◌, ◌≤◌, ◌<◌, false, ◌==◌, ==_iff, List, [], ◌∷◌, ltb, leb, take, if-holds,
  Bool-cases, ◌≡◌, refl, sym, subst, inl, inr, false≢true, arith, ap, ◌∙◌,
}
use patrolbot_dashboard.Base.Dict.{pop}
use patrolbot_dashboard.Tuning.Recent.{Within, Within-pop, Within-drop, Within-take, Within-has}
use patrolbot_dashboard.Tuning.{Event, TuningBroker, prune_seen, has, remember}

-- Counted from the newest, what was remembered in the last places that the limit leaves, and is not
-- yet old, is among the first ids that are kept; and nothing was remembered in the future.
abbrev pub Covered : ℕ → ℕ → ℕ → ℕ → List (ℕ × ℕ) → List Event → Type 0
Covered i limit now ttl seen [] = Unit
Covered i limit now ttl seen (Event.remembered j u ∷ events) =
    (u ≤ now)
    × (i < limit → now ≤ u + ttl → Within (suc i) j u seen)
    × Covered (suc i) limit now ttl seen events
Covered i limit now ttl seen (_ ∷ events) = Covered i limit now ttl seen events

-- Among a number of the ids that were remembered before a time, newest first, an id stands only where
-- its retention has passed.
abbrev pub Apart : ℕ → ℕ → ℕ → ℕ → List Event → Type 0
Apart zero ttl id time events = Unit
Apart (suc n) ttl id time [] = Unit
Apart (suc n) ttl id time (Event.remembered j u ∷ events) =
    (j ≡ id → u + ttl < time) × Apart n ttl id time events
Apart (suc n) ttl id time (_ ∷ events) = Apart (suc n) ttl id time events

abbrev pub before_note : List Event → List Event
before_note [] = []
before_note (e ∷ events) = events

-- The last event notes an id at a time.
abbrev pub NotedAs : ℕ → ℕ → List Event → Type 0
NotedAs id time [] = ⊥
NotedAs id time (Event.remembered j u ∷ events) = (j ≡ id) × (u ≡ time)
NotedAs id time (_ ∷ events) = ⊥

-- Among the mutations sent since a number of ids were noted, an id stands only where its retention
-- has passed.
abbrev pub SentApart : ℕ → ℕ → ℕ → ℕ → List Event → Type 0
SentApart zero ttl id time events = Unit
SentApart (suc n) ttl id time [] = Unit
SentApart (suc n) ttl id time (Event.mutation_sent j u ∷ events) =
    (j ≡ id → u + ttl < time) × SentApart (suc n) ttl id time events
SentApart (suc n) ttl id time (Event.remembered j u ∷ events) = SentApart n ttl id time events
SentApart (suc n) ttl id time (_ ∷ events) = SentApart (suc n) ttl id time events

-- Every mutation that was sent was noted right before, under its id and at its time, and stands apart
-- from all that was noted, and from all that was sent, before that.
abbrev pub Spaced : ℕ → ℕ → List Event → Type 0
Spaced limit ttl [] = Unit
Spaced limit ttl (Event.mutation_sent id time ∷ events) =
    NotedAs id time events
    × Apart limit ttl id time (before_note events)
    × SentApart limit ttl id time (before_note events)
    × Spaced limit ttl events
Spaced limit ttl (_ ∷ events) = Spaced limit ttl events

-- What stands apart from all that was noted stands apart from all that was sent.
pub Apart-SentApart :
    (limit ttl n id time : ℕ) (events : List Event)
    → Spaced limit ttl events
    → Apart n ttl id time events
    → SentApart n ttl id time events
Apart-SentApart limit ttl zero id time events s a = tt
Apart-SentApart limit ttl (suc n) id time [] s a = tt
Apart-SentApart limit ttl (suc n) id time
      (Event.mutation_sent j u ∷ (Event.remembered i v ∷ events)) (noted, apart, sent, s) (old, a) =
    (
      λ same. subst (λ t. t + ttl < time) noted.1 (old (noted.0 ∙ same)),
      Apart-SentApart limit ttl n id time events s a,
    )
Apart-SentApart limit ttl (suc n) id time (Event.mutation_sent j u ∷ []) (noted, apart, sent, s) a =
    absurd noted
Apart-SentApart limit ttl (suc n) id time
      (Event.mutation_sent j u ∷ (Event.mutation_sent i v ∷ events)) (noted, apart, sent, s) a =
    absurd noted
Apart-SentApart limit ttl (suc n) id time (Event.mutation_sent j u ∷ (Event.accepted i r ∷ events))
      (noted, apart, sent, s) a =
    absurd noted
Apart-SentApart limit ttl (suc n) id time
      (Event.mutation_sent j u ∷ (Event.returned i m r ∷ events)) (noted, apart, sent, s) a =
    absurd noted
Apart-SentApart limit ttl (suc n) id time (Event.mutation_sent j u ∷ (Event.turned_away r ∷ events))
      (noted, apart, sent, s) a =
    absurd noted
Apart-SentApart limit ttl (suc n) id time (Event.remembered j u ∷ events) s (old, a) =
    Apart-SentApart limit ttl n id time events s a
Apart-SentApart limit ttl (suc n) id time (Event.accepted j r ∷ events) s a =
    Apart-SentApart limit ttl (suc n) id time events s a
Apart-SentApart limit ttl (suc n) id time (Event.returned j m r ∷ events) s a =
    Apart-SentApart limit ttl (suc n) id time events s a
Apart-SentApart limit ttl (suc n) id time (Event.turned_away r ∷ events) s a =
    Apart-SentApart limit ttl (suc n) id time events s a

abbrev pub Kept : TuningBroker → Type 0
Kept b =
    Covered 0 b.dedupe_limit b.clock b.dedupe_ttl b.seen b.events
    × Spaced b.dedupe_limit b.dedupe_ttl b.events

module _ (limit now ttl : ℕ) where
  -- The ids may change where nothing that is covered is lost.
  pub Covered-map :
      (i : ℕ) (seen new : List (ℕ × ℕ)) (events : List Event)
      → ((n j u : ℕ) → n ≤ limit → now ≤ u + ttl → u ≤ now → Within n j u seen → Within n j u new)
      → Covered i limit now ttl seen events
      → Covered i limit now ttl new events
  Covered-map i seen new [] f c = tt
  Covered-map i seen new (Event.remembered j u ∷ events) f (h, w, c) = (
    h,
    λ less fresh. f (suc i) j u (omega (arith, less)) fresh h (w less fresh),
    Covered-map (suc i) seen new events f c,
  )
  Covered-map i seen new (Event.mutation_sent j u ∷ events) f c = Covered-map i seen new events f c
  Covered-map i seen new (Event.accepted j u ∷ events) f c = Covered-map i seen new events f c
  Covered-map i seen new (Event.returned j u r ∷ events) f c = Covered-map i seen new events f c
  Covered-map i seen new (Event.turned_away r ∷ events) f c = Covered-map i seen new events f c

  Covered-push :
      (i rid : ℕ) (seen : List (ℕ × ℕ)) (events : List Event)
      → Covered i limit now ttl seen events
      → Covered (suc i) limit now ttl ((rid, now) ∷ pop rid seen) events
  Covered-push i rid seen [] c = tt
  Covered-push i rid seen (Event.remembered j u ∷ events) (h, w, c) = (
    h,
    λ less fresh. elim (Bool-cases (rid == j)) [
      | inl same ↦ inl ((==_iff rid j).0 same, h)
      | inr other ↦
          inr (Within-pop j u (suc i) rid seen (λ e. ground arith) (w (omega (arith, less)) fresh))
    ],
    Covered-push (suc i) rid seen events c,
  )
  Covered-push i rid seen (Event.mutation_sent j u ∷ events) c = Covered-push i rid seen events c
  Covered-push i rid seen (Event.accepted j u ∷ events) c = Covered-push i rid seen events c
  Covered-push i rid seen (Event.returned j u r ∷ events) c = Covered-push i rid seen events c
  Covered-push i rid seen (Event.turned_away r ∷ events) c = Covered-push i rid seen events c

  pub Covered-later :
      (i wait : ℕ) (seen : List (ℕ × ℕ)) (events : List Event)
      → Covered i limit now ttl seen events
      → Covered i limit (now + wait) ttl seen events
  Covered-later i wait seen [] c = tt
  Covered-later i wait seen (Event.remembered j u ∷ events) (h, w, c) = (
    omega (arith, h),
    λ less fresh. w less (omega (arith, fresh)),
    Covered-later (suc i) wait seen events c,
  )
  Covered-later i wait seen (Event.mutation_sent j u ∷ events) c =
      Covered-later i wait seen events c
  Covered-later i wait seen (Event.accepted j u ∷ events) c = Covered-later i wait seen events c
  Covered-later i wait seen (Event.returned j u r ∷ events) c = Covered-later i wait seen events c
  Covered-later i wait seen (Event.turned_away r ∷ events) c = Covered-later i wait seen events c

  pub Covered-Apart :
      (i n rid : ℕ) (seen : List (ℕ × ℕ)) (events : List Event)
      → i + n ≡ limit
      → has rid seen ≡ false
      → Covered i limit now ttl seen events
      → Apart n ttl rid now events
  Covered-Apart i zero rid seen events e absent c = tt
  Covered-Apart i (suc n) rid seen [] e absent c = tt
  Covered-Apart i (suc n) rid seen (Event.remembered j u ∷ events) e absent (h, w, c) = (
    λ same. elim (Bool-cases (ltb (u + ttl) now)) [
      | inl past ↦ ground arith
      | inr fresh ↦ absurd (
          false≢true (
            sym absent
            ∙ ap (λ k. has k seen) (sym same)
            ∙ Within-has j u (suc i) seen (w (omega (arith, e)) (ground arith))))
    ],
    Covered-Apart (suc i) n rid seen events (omega (arith, e)) absent c,
  )
  Covered-Apart i (suc n) rid seen (Event.mutation_sent j u ∷ events) e absent c =
      Covered-Apart i (suc n) rid seen events e absent c
  Covered-Apart i (suc n) rid seen (Event.accepted j u ∷ events) e absent c =
      Covered-Apart i (suc n) rid seen events e absent c
  Covered-Apart i (suc n) rid seen (Event.returned j u r ∷ events) e absent c =
      Covered-Apart i (suc n) rid seen events e absent c
  Covered-Apart i (suc n) rid seen (Event.turned_away r ∷ events) e absent c =
      Covered-Apart i (suc n) rid seen events e absent c

pub pruned-Within :
    (b : TuningBroker) (n j u : ℕ)
    → b.clock ≤ u + b.dedupe_ttl
    → Within n j u b.seen
    → Within n j u (prune_seen b).seen
unfolding prune_seen
pruned-Within b n j u fresh w =
    if-holds (Within n j u) (leb b.dedupe_ttl 0) b.seen _ w
      (Within-drop j u n b.clock b.dedupe_ttl b.seen fresh w)

-- Once an id is noted, the kept ids cover the events with the note.
pub remember-Kept : (rid : ℕ) (b : TuningBroker) → Kept b → Kept (remember rid b)
unfolding remember
remember-Kept rid b (covered, spaced) =
    let first : TuningBroker = record b { seen = (rid, b.clock) ∷ pop rid b.seen } in
    let still : (n j u : ℕ)
        → n ≤ b.dedupe_limit
        → b.clock ≤ u + b.dedupe_ttl
        → u ≤ b.clock
        → Within n j u first.seen
        → Within n j u (take b.dedupe_limit (prune_seen first).seen) =
      λ n j u few fresh past w.
        Within-take j u n b.dedupe_limit (prune_seen first).seen few
          (pruned-Within first n j u fresh w) in
    (
      (
        omega arith,
        λ less fresh.
            still 1 rid b.clock (omega (arith, less)) fresh (omega arith) (inl (refl, omega arith)),
        Covered-map b.dedupe_limit b.clock b.dedupe_ttl 1 first.seen _ b.events still
            (Covered-push b.dedupe_limit b.clock b.dedupe_ttl 0 rid b.seen b.events covered),
      ),
      spaced,
    )
