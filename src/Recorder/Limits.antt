-- ===== src/Recorder/Limits.antt =====
-- How much a recording of server/app/recordings/recorder.py stores.
use patrolbot_dashboard.Base.{
  ℕ, ◌+◌, ◌≤◌, Bool, true, false, false≢true, not, ◌&&◌, ◌||◌, none, List, [], ◌∷◌, String, All,
  length, length-append, leb, ◌==◌, is_none, if-holds, if-split, if◌then◌else◌, ◌≡◌, refl, ap, ◌∙◌,
  arith,
}
use patrolbot_dashboard.Base.Float.{Float}
use patrolbot_dashboard.Base.Text.{contains}
use patrolbot_dashboard.Writer.{
  Worker, waiting, ended, writing, BackgroundWriter, worker_at, running, put, submit, take_next,
  get_next, end_write, cancel, stop_begin, gets, cancels, ends, submits,
}
use patrolbot_dashboard.Writer
use patrolbot_dashboard.Recorder.{
  Recorder, max_samples, stop, shutdown, store, offer_at, offer, Event, starts, stops, shuts_down,
  offers, runs, step,
}

abbrev pub run : List Event → Recorder → Recorder
run [] r = r
run (e ∷ events) r = run events (step e r)

-- No start, and nothing else that submits to the recorder's writer.
abbrev pub within_recording : Event → Bool
within_recording (starts _ _) = false
within_recording (runs (submits _)) = false
within_recording _ = true

start-accepted : (s : BackgroundWriter) → (Writer.start s).accepted ≡ s.accepted
unfolding Writer.start
start-accepted s =
    if-holds (λ (x : BackgroundWriter). x.accepted ≡ s.accepted) (running s) s _ refl refl

put-accepted :
    (s : BackgroundWriter) (w : ℕ)
    → length (put s w).0.accepted ≡ (if (put s w).1 then 1 else 0) + length s.accepted
unfolding put
put-accepted s w =
    if-holds
      (λ (x : BackgroundWriter × Bool).
        length x.0.accepted ≡ (if x.1 then 1 else 0) + length s.accepted)
      (not (s.maxsize == 0) && leb s.maxsize (length s.queue)) _ _ (omega arith)
      (rw (length-append s.accepted (w ∷ [])) (omega arith))

submit-accepted :
    (s : BackgroundWriter) (w : ℕ)
    → length (submit s w).0.accepted ≡ (if (submit s w).1 then 1 else 0) + length s.accepted
unfolding submit
submit-accepted s w =
    let u = if is_none s.task then Writer.start s else s in
    let same : u.accepted ≡ s.accepted =
      if-holds (λ (x : BackgroundWriter). x.accepted ≡ s.accepted) (is_none s.task) _ s
        (start-accepted s) refl in
    put-accepted u w ∙ ap (λ t. (if (put u w).1 then 1 else 0) + length t) same

take_next-accepted :
    (s : BackgroundWriter) (k : ℕ) (queue : List ℕ) → (take_next s k queue).accepted ≡ s.accepted
unfolding take_next
take_next-accepted s k [] = refl
take_next-accepted s k (w ∷ queue) = refl

get_next-accepted :
    (s : BackgroundWriter) (k : ℕ) (w : Worker) → (get_next s k w).accepted ≡ s.accepted
unfolding get_next
get_next-accepted s k waiting = take_next-accepted s k s.queue
get_next-accepted s k ended = refl
get_next-accepted s k (writing _) = refl

end_write-accepted :
    (s : BackgroundWriter) (k : ℕ) (ok : Bool) (w : Worker)
    → (end_write s k ok w).accepted ≡ s.accepted
unfolding end_write
end_write-accepted s k true (writing w) = refl
end_write-accepted s k false (writing w) = refl
end_write-accepted s k true waiting = refl
end_write-accepted s k true ended = refl
end_write-accepted s k false waiting = refl
end_write-accepted s k false ended = refl

cancel-accepted : (s : BackgroundWriter) (k : ℕ) (w : Worker) → (cancel s k w).accepted ≡ s.accepted
unfolding cancel
cancel-accepted s k waiting = refl
cancel-accepted s k (writing w) = refl
cancel-accepted s k ended = refl

-- As many samples were counted as writes were accepted, and never more than the limit.
pub record Tallies (r r' : Recorder) : Type 0 where
  pub counted : r'.samples + length r.writer.accepted ≡ r.samples + length r'.writer.accepted
  pub limited : r.samples ≤ max_samples → r'.samples ≤ max_samples

Tallies-same :
    (r r' : Recorder)
    → r'.samples ≡ r.samples
    → r'.writer.accepted ≡ r.writer.accepted
    → Tallies r r'
Tallies-same r r' s a = record { counted = rw a (rw s refl); limited = λ h. rw s h }

Tallies-trans : (r u v : Recorder) → Tallies r u → Tallies u v → Tallies r v
Tallies-trans r u v a b =
    let x = a.counted in
    let y = b.counted in record { counted = omega arith; limited = λ h. b.limited (a.limited h) }

store-Tallies : (r : Recorder) (write : ℕ) → Tallies r (store r write)
unfolding store
store-Tallies r write =
    let n = submit-accepted r.writer write in
    if-split (Tallies r) (leb max_samples r.samples) r _ (λ _. Tallies-same r r refl refl)
      (λ room. record { counted = ground arith; limited = λ h. ground arith })

offer-Tallies :
    (r : Recorder) (kind : String) (now : Float) (write : ℕ) → Tallies r (offer r kind now write)
unfolding offer offer_at
offer-Tallies r kind now write =
    let noted = record r { last_mono = (kind, now) ∷ r.last_mono } in
    if-holds (Tallies r) (not r.has_db || is_none r.active || not (contains kind r.channels)) r _
      (Tallies-same r r refl refl)
      (if-holds (Tallies r) _ r _ (Tallies-same r r refl refl)
        (Tallies-trans r noted _ (Tallies-same r noted refl refl) (store-Tallies noted write)))

step-Tallies : (e : Event) (r : Recorder) → within_recording e ≡ true → Tallies r (step e r)
unfolding step stop shutdown stop_begin Writer.step
step-Tallies (starts channels row) r h = absurd (false≢true h)
step-Tallies stops r h =
    if-holds (Tallies r) (not r.has_db || is_none r.active) r _ (Tallies-same r r refl refl)
      (Tallies-same r _ refl refl)
step-Tallies shuts_down r h = Tallies-same r _ refl refl
step-Tallies (offers kind now write) r h = offer-Tallies r kind now write
step-Tallies (runs (submits w)) r h = absurd (false≢true h)
step-Tallies (runs Writer.Event.starts) r h = Tallies-same r _ refl (start-accepted r.writer)
step-Tallies (runs Writer.Event.stops) r h = Tallies-same r _ refl refl
step-Tallies (runs (gets k)) r h =
    Tallies-same r _ refl (get_next-accepted r.writer k (worker_at k r.writer.workers))
step-Tallies (runs (cancels k)) r h =
    Tallies-same r _ refl (cancel-accepted r.writer k (worker_at k r.writer.workers))
step-Tallies (runs (ends k ok)) r h =
    Tallies-same r _ refl (end_write-accepted r.writer k ok (worker_at k r.writer.workers))

-- Through any offers, stops and writes, until the next start, a recorder counts exactly the samples
-- whose writes its queue accepted, dropped ones excluded, and it never counts more than 100000.
pub run-Tallies :
    (events : List Event) (r : Recorder)
    → All (λ e. within_recording e ≡ true) events
    → Tallies r (run events r)
run-Tallies [] r h = Tallies-same r r refl refl
run-Tallies (e ∷ events) r (h, hs) =
    Tallies-trans r (step e r) _ (step-Tallies e r h) (run-Tallies events (step e r) hs)

-- Nothing is stored.
pub record Silent (r r' : Recorder) : Type 0 where
  pub off : r'.active ≡ none
  pub nothing_stored : r'.writer.accepted ≡ r.writer.accepted

step-Silent :
    (e : Event) (r : Recorder) → within_recording e ≡ true → r.active ≡ none → Silent r (step e r)
unfolding step stop shutdown stop_begin offer Writer.step
step-Silent (starts channels row) r h off = absurd (false≢true h)
step-Silent stops r h off =
    if-holds (Silent r) (not r.has_db || is_none r.active) r _
      (record { off = off; nothing_stored = refl }) (record { off = refl; nothing_stored = refl })
step-Silent shuts_down r h off = record { off = off; nothing_stored = refl }
step-Silent (offers kind now write) r h off =
    if-split (Silent r) (not r.has_db || is_none r.active || not (contains kind r.channels)) r _
      (λ _. record { off = off; nothing_stored = refl })
      (λ open_now.
        let idle : is_none r.active ≡ true = ap is_none off in absurd (false≢true (ground arith)))
step-Silent (runs (submits w)) r h off = absurd (false≢true h)
step-Silent (runs Writer.Event.starts) r h off = record {
  off = off;
  nothing_stored = start-accepted r.writer;
}
step-Silent (runs Writer.Event.stops) r h off = record { off = off; nothing_stored = refl }
step-Silent (runs (gets k)) r h off = record {
  off = off;
  nothing_stored = get_next-accepted r.writer k (worker_at k r.writer.workers);
}
step-Silent (runs (cancels k)) r h off = record {
  off = off;
  nothing_stored = cancel-accepted r.writer k (worker_at k r.writer.workers);
}
step-Silent (runs (ends k ok)) r h off = record {
  off = off;
  nothing_stored = end_write-accepted r.writer k ok (worker_at k r.writer.workers);
}

-- A recorder that is not recording stores nothing, whatever is offered to it, until the next start.
pub run-Silent :
    (events : List Event) (r : Recorder)
    → All (λ e. within_recording e ≡ true) events
    → r.active ≡ none
    → Silent r (run events r)
run-Silent [] r h off = record { off = off; nothing_stored = refl }
run-Silent (e ∷ events) r (h, hs) off =
    let a = step-Silent e r h off in
    let b = run-Silent events (step e r) hs a.off in
    record { off = b.off; nothing_stored = b.nothing_stored ∙ a.nothing_stored }
