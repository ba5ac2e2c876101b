-- ===== src/Broker/Replay.antt =====
-- Duplicate protection: `_seen` and `_remember` of server/app/commands/broker.py.
use patrolbot_dashboard.Base.{
  ℕ, zero, suc, ◌≤◌, ◌-◌, ◌≡◌, refl, Bool, true, false, none, some, List, [], ◌∷◌, ◌++◌, length,
  length-append, arith, if◌then◌else◌, ◌||◌, is_some, false≢true, sym, ap, ◌∙◌,
}
use patrolbot_dashboard.Broker.State.{World, duplicate, member}
use patrolbot_dashboard.Broker.Checks.{
  Request, Checked, check_duplicate, remember, drop_first, seen_limit,
}

length-drop_first : (n : ℕ) (xs : List ℕ) → length (drop_first n xs) ≡ length xs - n
length-drop_first zero xs = omega arith
length-drop_first (suc n) [] = omega arith
length-drop_first (suc n) (x ∷ xs) = omega (arith, length-drop_first n xs)

member-last : (k : ℕ) (xs : List ℕ) → member k (xs ++ (k ∷ [])) ≡ true
unfolding member
member-last k [] = ground arith
member-last k (x ∷ xs) = ground (arith, member-last k xs)

-- Dropping fewer than all of a list keeps its last element.
member-drop_last :
    (n k : ℕ) (xs : List ℕ) → n ≤ length xs → member k (drop_first n (xs ++ (k ∷ []))) ≡ true
member-drop_last zero k xs h = member-last k xs
member-drop_last (suc n) k [] h = ground arith
member-drop_last (suc n) k (x ∷ xs) h = member-drop_last n k xs (omega arith)

length-remember : (k : ℕ) (seen : List ℕ) → length (remember k seen) ≤ seen_limit
unfolding remember
length-remember k seen =
    omega (arith, length-drop_first (length (seen ++ (k ∷ [])) - seen_limit) (seen ++ (k ∷ [])))

member-remember : (k : ℕ) (seen : List ℕ) → member k (remember k seen) ≡ true
unfolding remember
member-remember k seen =
    member-drop_last (length (seen ++ (k ∷ [])) - seen_limit) k seen
      (omega (arith, length-append seen (k ∷ [])))

passed_world :
    (b : Bool) (x : Checked) (w u : World)
    → is_some x.1 ≡ true
    → (if b then x else (w, none)) ≡ (u, none)
    → u ≡ w
passed_world true x w u r h = absurd (false≢true (sym (ap (λ (c : Checked). is_some c.1) h) ∙ r))
passed_world false x w u r h = sym (ap (λ (c : Checked). c.0) h)

seen_after :
    (q : Request) (w v : World)
    → check_duplicate q w ≡ (v, none)
    → v.seen ≡ remember q.payload.command_id w.seen
unfolding check_duplicate
seen_after q w v h =
    ap (λ (x : World). x.seen)
      (passed_world (member q.payload.command_id w.seen || w.recorded q.payload.command_id)
        (w, some duplicate) (record w { seen = remember q.payload.command_id w.seen }) v refl h)

seen_refused :
    (q : Request) (w : World)
    → member q.payload.command_id w.seen ≡ true
    → check_duplicate q w ≡ (w, some duplicate)
unfolding check_duplicate
seen_refused q w h = rw h refl

-- Once a request passed the duplicate check, a request with the same id, whoever sends it, is
-- refused as a duplicate right after, and at most 512 ids are remembered.
pub replay_refused :
    (q again : Request) (w v : World)
    → again.payload.command_id ≡ q.payload.command_id
    → check_duplicate q w ≡ (v, none)
    → (check_duplicate again v ≡ (v, some duplicate)) × (length v.seen ≤ seen_limit)
replay_refused q again w v e h =
    let now = seen_after q w v h in
    (
      seen_refused again v (rw (e, now) (member-remember q.payload.command_id w.seen)),
      rw now (length-remember q.payload.command_id w.seen),
    )
