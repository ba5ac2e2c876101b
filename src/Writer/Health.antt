-- ===== src/Writer/Health.antt =====
-- What `healthy` and a drained queue say of server/app/database/writer.py.
use patrolbot_dashboard.Base.{
  ℕ, ◌+◌, Bool, true, false, not, ◌&&◌, List, [], ◌∷◌, length, length-append, leb, ◌==◌,
  if◌then◌else◌, is_none, if-holds, ◌≡◌, arith, ◌∙◌,
}
use patrolbot_dashboard.Writer.{
  Worker, waiting, ended, writing, BackgroundWriter, new_writer, worker_at, running, start, put,
  submit, healthy, drained, take_next, get_next, end_write, cancel, stop_begin, Event, starts,
  stops, submits, gets, cancels, ends, step, run,
}
use patrolbot_dashboard.Writer.Ledger.{run-Balanced, submissions}

-- `n` more submissions have been answered.
abbrev Answered : ℕ → BackgroundWriter → BackgroundWriter → Type 0
Answered n s s' = length s'.accepted + s'.dropped ≡ n + length s.accepted + s.dropped

start-Answered : (s : BackgroundWriter) → Answered 0 s (start s)
unfolding start
start-Answered s = if-holds (Answered 0 s) (running s) _ _ (omega arith) (omega arith)

put-Answered : (s : BackgroundWriter) (w : ℕ) → Answered 1 s (put s w).0
unfolding put
put-Answered s w =
    if-holds (λ (x : BackgroundWriter × Bool). Answered 1 s x.0)
      (not (s.maxsize == 0) && leb s.maxsize (length s.queue)) _ _ (omega arith)
      (rw (length-append s.accepted (w ∷ [])) (omega arith))

take_next-Answered :
    (s : BackgroundWriter) (k : ℕ) (queue : List ℕ) → Answered 0 s (take_next s k queue)
unfolding take_next
take_next-Answered s k [] = omega arith
take_next-Answered s k (w ∷ queue) = omega arith

get_next-Answered : (s : BackgroundWriter) (k : ℕ) (w : Worker) → Answered 0 s (get_next s k w)
unfolding get_next
get_next-Answered s k waiting = take_next-Answered s k s.queue
get_next-Answered s k ended = omega arith
get_next-Answered s k (writing _) = omega arith

end_write-Answered :
    (s : BackgroundWriter) (k : ℕ) (ok : Bool) (w : Worker) → Answered 0 s (end_write s k ok w)
unfolding end_write
end_write-Answered s k true (writing w) = omega arith
end_write-Answered s k false (writing w) = omega arith
end_write-Answered s k true waiting = omega arith
end_write-Answered s k true ended = omega arith
end_write-Answered s k false waiting = omega arith
end_write-Answered s k false ended = omega arith

cancel-Answered : (s : BackgroundWriter) (k : ℕ) (w : Worker) → Answered 0 s (cancel s k w)
unfolding cancel
cancel-Answered s k waiting = omega arith
cancel-Answered s k (writing w) = omega arith
cancel-Answered s k ended = omega arith

submit-Answered : (s : BackgroundWriter) (w : ℕ) → Answered 1 s (submit s w).0
unfolding submit
submit-Answered s w =
    let u = if is_none s.task then start s else s in
    let a : Answered 0 s u =
      if-holds (Answered 0 s) (is_none s.task) _ _ (start-Answered s) (omega arith) in
    let b = put-Answered u w in omega arith

run-Answered :
    (events : List Event) (s : BackgroundWriter) → Answered (submissions events) s (run events s)
unfolding step stop_begin
run-Answered [] s = omega arith
run-Answered (starts ∷ events) s =
    let a = start-Answered s in let b = run-Answered events (start s) in omega arith
run-Answered (stops ∷ events) s = run-Answered events (stop_begin s)
run-Answered (submits w ∷ events) s =
    let a = submit-Answered s w in let b = run-Answered events (submit s w).0 in omega arith
run-Answered (gets k ∷ events) s =
    let a = get_next-Answered s k (worker_at k s.workers) in
    let b = run-Answered events (get_next s k (worker_at k s.workers)) in omega arith
run-Answered (cancels k ∷ events) s =
    let a = cancel-Answered s k (worker_at k s.workers) in
    let b = run-Answered events (cancel s k (worker_at k s.workers)) in omega arith
run-Answered (ends k ok ∷ events) s =
    let a = end_write-Answered s k ok (worker_at k s.workers) in
    let b = run-Answered events (end_write s k ok (worker_at k s.workers)) in omega arith

-- When a new writer reports itself healthy, its queue has drained and no stop abandoned a write,
-- then exactly as many writes succeeded as were ever submitted.
pub healthy-drained :
    (events : List Event) (maxsize : ℕ)
    → healthy (run events (new_writer maxsize)) ≡ true
    → drained (run events (new_writer maxsize)) ≡ true
    → (run events (new_writer maxsize)).abandoned ≡ 0
    → (run events (new_writer maxsize)).written ≡ submissions events
unfolding healthy
healthy-drained events maxsize fine empty kept =
    let s = run events (new_writer maxsize) in
    let a : length s.accepted + s.dropped ≡ submissions events =
      unfold new_writer in run-Answered events (new_writer maxsize) ∙ omega arith in
    let l = (run-Balanced events maxsize).ledger in ground arith
