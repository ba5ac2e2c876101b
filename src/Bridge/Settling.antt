-- ===== src/Bridge/Settling.antt =====
-- Flapping values settle and topics keep their distance, ros2_ws/src/patrolbot_web_bridge/
-- patrolbot_web_bridge/throttle.py.
use patrolbot_dashboard.Base.{
  Bool, true, false, false≢true, not, Option, none, some, List, [], ◌∷◌, if◌then◌else◌, if-split,
  if-holds, not-false, or_default, subst, is_some, ◌⊎◌, inl, inr, ◌≡◌, refl, sym, ap, ◌∙◌,
}
use patrolbot_dashboard.Base.Float.{Float, nano, le, sub}
use patrolbot_dashboard.Bridge.Throttle.{
  Debounce, new_debounce, is, restart, update, Throttle, new_throttle, ready,
}

-- A reading: when, and what.
pub record Reading (A : Type 0) : Type 0 where
  pub at : Float
  pub value : A

-- The latest readings all equal `v`, since one that was taken at `since`; the latest comes first.
pub data Streak {A : Type 0} (v : A) (since : Float) : List (Reading A) → Type 0 where
  first : {past : List (Reading A)} → Streak v since (record { at = since; value = v } ∷ past)
  more :
      {t : Float} {past : List (Reading A)}
      → Streak v since past
      → Streak v since (record { at = t; value = v } ∷ past)

module _ {A : Type 0} (same : A → A → Bool) (sound : (a b : A) → same a b ≡ true → a ≡ b) where
  abbrev pub readings_of : List (Reading A) → Debounce A → Debounce A
  readings_of [] d = d
  readings_of (r ∷ past) d = update same (readings_of past d) r.value r.at

  -- The candidate is what the latest readings were, since its time.
  abbrev Follows : List (Reading A) → Debounce A → Type 0
  Follows past d = (v : A) → d.candidate ≡ some v → Streak v d.candidate_since past

  -- The stable value stays, or becomes a value that every reading had for long enough.
  abbrev pub Settles : Debounce A → Debounce A → Float → List (Reading A) → Type 0
  Settles d d' now past =
      (d'.stable ≡ d.stable)
      ⊎ ((v : A) × (since : Float) × (d'.stable ≡ some v)
          × Streak v since past
          × (le d.settle_s (sub now since) ≡ true))

  -- One call of `update`.
  abbrev Goes : Debounce A → Float → List (Reading A) → Debounce A → Type 0
  Goes d now past d' = Follows past d' × (d.seeded ≡ true → Settles d d' now past)

  restart-Follows :
      (d : Debounce A) (v : A) (t : Float) (past : List (Reading A)) (w : A)
      → some v ≡ some w
      → Streak w t (record { at = t; value = v } ∷ past)
  restart-Follows d v t past w e =
      subst (λ x. Streak x t (record { at = t; value = v } ∷ past)) (ap (or_default v) e) first

  is-some : (v : A) (o : Option A) → is same v o ≡ true → o ≡ some v
  is-some v none h = absurd (false≢true h)
  is-some v (some c) h = ap some (sym (sound v c h))

  extends :
      (d : Debounce A) (v : A) (t : Float) (past : List (Reading A))
      → Follows past d
      → d.candidate ≡ some v
      → (w : A) → d.candidate ≡ some w
      → Streak w d.candidate_since (record { at = t; value = v } ∷ past)
  extends d v t past f c w e =
      let same_value : w ≡ v = ap (or_default w) (sym e ∙ c) in
      subst (λ x. Streak w d.candidate_since (record { at = t; value = x } ∷ past)) same_value
        (more (f w e))

  update-Goes :
      (d : Debounce A) (v : A) (t : Float) (past : List (Reading A))
      → Follows past d
      → Goes d t (record { at = t; value = v } ∷ past) (update same d v t)
  unfolding update
  update-Goes d v t past f =
      let r = record { at = t; value = v } ∷ past in
      let again : Goes d t r (restart same d v t) = (restart-Follows d v t past, λ _. inl refl) in
      if-split (Goes d t r) (not d.seeded) _ _
        (λ new. (restart-Follows d v t past, λ old. absurd (false≢true (sym (ap not old) ∙ new))))
        (λ _. if-holds (Goes d t r) (is same v d.stable) _ _ again (
          if-split (Goes d t r) (not (is same v d.candidate)) _ _ (λ _. again)
            (λ kept.
              let c = is-some v d.candidate (not-false _ kept) in
              let streak = extends d v t past f c in
              if-split (Goes d t r) (le d.settle_s (sub t d.candidate_since)) _ _
                (λ long. (streak, λ _. inr (v, d.candidate_since, refl, streak v c, long)))
                (λ _. (streak, λ _. inl refl)))))

  readings_of-Follows :
      (settle_s : Float) (past : List (Reading A))
      → Follows past (readings_of past (new_debounce settle_s))
  unfolding new_debounce
  readings_of-Follows settle_s [] v e = absurd (false≢true (ap is_some e))
  readings_of-Follows settle_s (r ∷ past) v e =
      (update-Goes (readings_of past (new_debounce settle_s)) r.value r.at past
          (readings_of-Follows settle_s past)).0
        v e

  -- After any readings, one more leaves the published value as it is, unless it and every reading
  -- since a time at least `settle_s` ago were one same value, which is then published.
  pub update-Settles :
      (settle_s : Float) (past : List (Reading A)) (v : A) (t : Float)
      → (readings_of past (new_debounce settle_s)).seeded ≡ true
      → Settles
          (readings_of past (new_debounce settle_s))
          (update same (readings_of past (new_debounce settle_s)) v t)
          t
          (record { at = t; value = v } ∷ past)
  update-Settles settle_s past v t seeded =
      (update-Goes (readings_of past (new_debounce settle_s)) v t past
          (readings_of-Follows settle_s past)).1
        seeded

-- The times at which a throttle let something pass, the latest first, for calls at `times`.
abbrev pub passes : List Float → Throttle → Throttle × List Float
passes [] t = (t, [])
passes (now ∷ earlier) t =
    let (u, granted) = passes earlier t in
    let (w, ok) = ready u now in (w, if ok then now ∷ granted else granted)

abbrev pub latest : List Float → Float
latest [] = nano 0
latest (t ∷ _) = t

abbrev pub Spaced : Float → List Float → Type 0
Spaced interval [] = Unit
Spaced interval (t ∷ earlier) =
    (le interval (sub t (latest earlier)) ≡ true) × Spaced interval earlier

abbrev Keeps : Float → Throttle × List Float → Type 0
Keeps interval x = (x.0.min_interval ≡ interval) × (x.0.last ≡ latest x.1) × Spaced interval x.1

ready-Keeps :
    (interval : Float) (u : Throttle) (granted : List Float) (now : Float)
    → Keeps interval (u, granted)
    → Keeps interval ((ready u now).0, if (ready u now).1 then now ∷ granted else granted)
unfolding ready
ready-Keeps interval u granted now (i, l, s) =
    if-split (λ (x : Throttle × Bool). Keeps interval (x.0, if x.1 then now ∷ granted else granted))
      (le u.min_interval (sub now u.last)) (record u { last = now }, true) (u, false)
      (λ ok. (
        i,
        refl,
        (
          ap (λ a. le a (sub now (latest granted))) (sym i)
              ∙ ap (λ b. le u.min_interval (sub now b)) (sym l)
              ∙ ok,
          s,
        ),
      ))
      (λ _. (i, l, s))

passes-Keeps :
    (interval : Float) (times : List Float) → Keeps interval (passes times (new_throttle interval))
unfolding new_throttle
passes-Keeps interval [] = (refl, refl, tt)
passes-Keeps interval (now ∷ earlier) =
    let x = passes earlier (new_throttle interval) in
    ready-Keeps interval x.0 x.1 now (passes-Keeps interval earlier)

-- Whenever a new throttle is asked, what it lets pass is never closer together than its interval,
-- and the first is that far from the clock's zero.
pub passes-Spaced :
    (interval : Float) (times : List Float)
    → Spaced interval (passes times (new_throttle interval)).1
passes-Spaced interval times = (passes-Keeps interval times).2
