-- ===== src/Writer/Accepted.antt =====
-- Which submissions server/app/database/writer.py accepts, and in which order.
use mathlib.Core.List.{append_assoc, append-nil}
use patrolbot_dashboard.Base.{
  ℕ, Bool, true, false, not, ◌&&◌, List, [], ◌∷◌, ◌++◌, length, leb, ◌==◌, if◌then◌else◌, is_none,
  if-holds, ◌≡◌, refl, sym, ap, subst, ◌∙◌, ◌⊎◌, inl, inr,
}
use patrolbot_dashboard.Writer.{
  Worker, waiting, ended, writing, BackgroundWriter, new_writer, worker_at, running, start, put,
  submit, take_next, get_next, end_write, cancel, stop_begin, Event, starts, stops, submits, gets,
  cancels, ends, step, run,
}

-- The writes that are submitted, in their order.
abbrev pub offered : List Event → List ℕ
offered [] = []
offered (submits w ∷ events) = w ∷ offered events
offered (_ ∷ events) = offered events

-- The first list is left of the second by leaving some elements out.
abbrev pub Within : List ℕ → List ℕ → Type 0
Within [] ys = Unit
Within (x ∷ xs) [] = ⊥
Within (x ∷ xs) (y ∷ ys) = ((x ≡ y) × Within xs ys) ⊎ Within (x ∷ xs) ys

Within-skip : (xs : List ℕ) (y : ℕ) (ys : List ℕ) → Within xs ys → Within xs (y ∷ ys)
Within-skip [] y ys h = tt
Within-skip (x ∷ xs) y ys h = inr h

abbrev Same : BackgroundWriter → BackgroundWriter → Type 0
Same s s' = s'.accepted ≡ s.accepted

start-Same : (s : BackgroundWriter) → Same s (start s)
unfolding start
start-Same s = if-holds (Same s) (running s) _ _ refl refl

get_next-Same : (s : BackgroundWriter) (k : ℕ) (w : Worker) → Same s (get_next s k w)
unfolding get_next take_next
get_next-Same s k waiting = taken s.queue
  where
    taken : (queue : List ℕ) → (take_next s k queue).accepted ≡ s.accepted
    taken [] = refl
    taken (w ∷ queue) = refl
get_next-Same s k ended = refl
get_next-Same s k (writing _) = refl

end_write-Same :
    (s : BackgroundWriter) (k : ℕ) (ok : Bool) (w : Worker) → Same s (end_write s k ok w)
unfolding end_write
end_write-Same s k true (writing w) = refl
end_write-Same s k false (writing w) = refl
end_write-Same s k true waiting = refl
end_write-Same s k true ended = refl
end_write-Same s k false waiting = refl
end_write-Same s k false ended = refl

cancel-Same : (s : BackgroundWriter) (k : ℕ) (w : Worker) → Same s (cancel s k w)
unfolding cancel
cancel-Same s k waiting = refl
cancel-Same s k (writing w) = refl
cancel-Same s k ended = refl

-- What a submission adds to the accepted writes: the write, or nothing.
abbrev OneMore : ℕ → BackgroundWriter → BackgroundWriter → Type 0
OneMore w s s' = (s'.accepted ≡ s.accepted ++ (w ∷ [])) ⊎ (s'.accepted ≡ s.accepted)

put-OneMore : (s : BackgroundWriter) (w : ℕ) → OneMore w s (put s w).0
unfolding put
put-OneMore s w =
    if-holds (λ (x : BackgroundWriter × Bool). OneMore w s x.0)
      (not (s.maxsize == 0) && leb s.maxsize (length s.queue)) _ _ (inr refl) (inl refl)

submit-OneMore : (s : BackgroundWriter) (w : ℕ) → OneMore w s (submit s w).0
unfolding submit
submit-OneMore s w =
    let begun : BackgroundWriter = if is_none s.task then start s else s in
    let same : begun.accepted ≡ s.accepted =
      if-holds (Same s) (is_none s.task) (start s) s (start-Same s) refl in
    elim (put-OneMore begun w) [
      | inl more ↦ inl (more ∙ ap (λ t. t ++ (w ∷ [])) same)
      | inr as_before ↦ inr (as_before ∙ same)
    ]

-- The accepted writes grow by some of those that are offered, in order.
abbrev Grows : List ℕ → List ℕ → List ℕ → Type 0
Grows old offers new = (news : List ℕ) × (new ≡ old ++ news) × Within news offers

Grows-from : (old mid offers new : List ℕ) → mid ≡ old → Grows mid offers new → Grows old offers new
Grows-from old mid offers new e g = subst (λ t. Grows t offers new) e g

Grows-one :
    (w : ℕ) (s t : BackgroundWriter) (offers new : List ℕ)
    → OneMore w s t
    → Grows t.accepted offers new
    → Grows s.accepted (w ∷ offers) new
Grows-one w s t offers new (inl more) (news, e, h) =
    (w ∷ news, e ∙ ap (λ l. l ++ news) more ∙ append_assoc s.accepted (w ∷ []) news, inl (refl, h))
Grows-one w s t offers new (inr same) (news, e, h) =
    (news, e ∙ ap (λ l. l ++ news) same, Within-skip news w offers h)

run-Grows :
    (events : List Event) (s : BackgroundWriter)
    → Grows s.accepted (offered events) (run events s).accepted
unfolding step stop_begin
run-Grows [] s = ([], sym (append-nil s.accepted), tt)
run-Grows (starts ∷ events) s =
    Grows-from s.accepted _ (offered events) _ (start-Same s) (run-Grows events (start s))
run-Grows (stops ∷ events) s = run-Grows events (stop_begin s)
run-Grows (submits w ∷ events) s =
    Grows-one w s (submit s w).0 (offered events) _ (submit-OneMore s w)
      (run-Grows events (submit s w).0)
run-Grows (gets k ∷ events) s =
    Grows-from s.accepted _ (offered events) _ (get_next-Same s k (worker_at k s.workers))
      (run-Grows events (get_next s k (worker_at k s.workers)))
run-Grows (cancels k ∷ events) s =
    Grows-from s.accepted _ (offered events) _ (cancel-Same s k (worker_at k s.workers))
      (run-Grows events (cancel s k (worker_at k s.workers)))
run-Grows (ends k ok ∷ events) s =
    Grows-from s.accepted _ (offered events) _ (end_write-Same s k ok (worker_at k s.workers))
      (run-Grows events (end_write s k ok (worker_at k s.workers)))

-- A new writer accepts some of the writes that are submitted, in the order of their submission.
pub accepted-Within :
    (events : List Event) (maxsize : ℕ)
    → Within (run events (new_writer maxsize)).accepted (offered events)
unfolding new_writer
accepted-Within events maxsize =
    let (news, e, h) = run-Grows events (new_writer maxsize) in
    subst (λ l. Within l (offered events)) (sym e) h
