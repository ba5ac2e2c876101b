-- ===== src/Writer/Ledger.antt =====
-- The books of server/app/database/writer.py: no write is lost unseen.
use patrolbot_dashboard.Base.{
  ℕ, zero, suc, ◌+◌, Bool, true, false, false≢true, not, ◌&&◌, List, [], ◌∷◌, ◌++◌, length,
  length-append, leb, ◌==◌, if◌then◌else◌, is_none, if-holds, ◌≡◌, refl, sym, ap, ◌∙◌, arith,
}
use patrolbot_dashboard.Writer.{
  Worker, waiting, ended, writing, BackgroundWriter, new_writer, is_ended, worker_at, set_worker,
  running, start, put, submit, take_next, get_next, end_write, cancel, stop_begin, Event, starts,
  stops, submits, gets, cancels, ends, step, run,
}

-- Writes in the hands of a worker.
abbrev in_hand : Worker → ℕ
in_hand (writing _) = 1
in_hand _ = 0

abbrev pub busy : List Worker → ℕ
busy [] = 0
busy (w ∷ ws) = in_hand w + busy ws

-- Every accepted write waits, is being written, or was written, failed or abandoned, and `join`
-- waits for those of the first two kinds.
pub record Balanced (s : BackgroundWriter) : Type 0 where
  pub unfinished_counted : s.unfinished ≡ length s.queue + busy s.workers
  pub ledger : length s.accepted ≡ s.unfinished + s.written + s.failed + s.abandoned

busy-append : (ws : List Worker) → busy (ws ++ (waiting ∷ [])) ≡ busy ws
busy-append [] = omega arith
busy-append (w ∷ ws) = omega (arith, busy-append ws)

-- What a worker is replaced by takes its place on the books.
busy-set_worker :
    (k : ℕ) (v w : Worker) (ws : List Worker)
    → worker_at k ws ≡ w
    → is_ended w ≡ false
    → busy (set_worker k v ws) + in_hand w ≡ busy ws + in_hand v
busy-set_worker k v w [] e h = absurd (false≢true (sym h ∙ ap is_ended (sym e)))
busy-set_worker zero v w (x ∷ ws) e h = rw e (omega arith)
busy-set_worker (suc k) v w (x ∷ ws) e h = omega (arith, busy-set_worker k v w ws e h)

start-Balanced : (s : BackgroundWriter) → Balanced s → Balanced (start s)
unfolding start
start-Balanced s b = if-holds Balanced (running s) _ _ b (record {
  unfinished_counted =
      b.unfinished_counted ∙ ap (λ n. length s.queue + n) (sym (busy-append s.workers));
  ledger = b.ledger;
})

put-Balanced : (s : BackgroundWriter) (w : ℕ) → Balanced s → Balanced (put s w).0
unfolding put
put-Balanced s w b =
    let u = b.unfinished_counted in
    let l = b.ledger in
    if-holds (λ (x : BackgroundWriter × Bool). Balanced x.0)
      (not (s.maxsize == 0) && leb s.maxsize (length s.queue)) _ _
      (record { unfinished_counted = u; ledger = l })
      (record {
        unfinished_counted = rw (length-append s.queue (w ∷ [])) (omega arith);
        ledger = rw (length-append s.accepted (w ∷ [])) (omega arith);
      })

take_next-Balanced :
    (s : BackgroundWriter) (k : ℕ) (queue : List ℕ)
    → worker_at k s.workers ≡ waiting
    → s.queue ≡ queue
    → Balanced s
    → Balanced (take_next s k queue)
unfolding take_next
take_next-Balanced s k [] at e b = b
take_next-Balanced s k (w ∷ queue) at e b =
    let q : length s.queue ≡ suc (length queue) = ap length e in
    let u = b.unfinished_counted in
    let n = busy-set_worker k (writing w) waiting s.workers at refl in
    record { unfinished_counted = omega arith; ledger = b.ledger }

get_next-Balanced :
    (s : BackgroundWriter) (k : ℕ) (w : Worker)
    → worker_at k s.workers ≡ w
    → Balanced s
    → Balanced (get_next s k w)
unfolding get_next
get_next-Balanced s k waiting at b = take_next-Balanced s k s.queue at refl b
get_next-Balanced s k ended at b = b
get_next-Balanced s k (writing _) at b = b

end_write-Balanced :
    (s : BackgroundWriter) (k : ℕ) (ok : Bool) (w : Worker)
    → worker_at k s.workers ≡ w
    → Balanced s
    → Balanced (end_write s k ok w)
unfolding end_write
end_write-Balanced s k true (writing w) at b =
    let u = b.unfinished_counted in
    let l = b.ledger in
    let n = busy-set_worker k waiting (writing w) s.workers at refl in
    record { unfinished_counted = omega arith; ledger = omega arith }
end_write-Balanced s k false (writing w) at b =
    let u = b.unfinished_counted in
    let l = b.ledger in
    let n = busy-set_worker k waiting (writing w) s.workers at refl in
    record { unfinished_counted = omega arith; ledger = omega arith }
end_write-Balanced s k true waiting at b = b
end_write-Balanced s k true ended at b = b
end_write-Balanced s k false waiting at b = b
end_write-Balanced s k false ended at b = b

cancel-Balanced :
    (s : BackgroundWriter) (k : ℕ) (w : Worker)
    → worker_at k s.workers ≡ w
    → Balanced s
    → Balanced (cancel s k w)
unfolding cancel
cancel-Balanced s k waiting at b =
    let u = b.unfinished_counted in
    let n = busy-set_worker k ended waiting s.workers at refl in
    record { unfinished_counted = omega arith; ledger = b.ledger }
cancel-Balanced s k (writing w) at b =
    let u = b.unfinished_counted in
    let l = b.ledger in
    let n = busy-set_worker k ended (writing w) s.workers at refl in
    record { unfinished_counted = omega arith; ledger = omega arith }
cancel-Balanced s k ended at b = b

step-Balanced : (e : Event) (s : BackgroundWriter) → Balanced s → Balanced (step e s)
unfolding step submit stop_begin
step-Balanced starts s b = start-Balanced s b
step-Balanced stops s b = record { unfinished_counted = b.unfinished_counted; ledger = b.ledger }
step-Balanced (submits w) s b =
    put-Balanced (if is_none s.task then start s else s) w
      (if-holds Balanced (is_none s.task) _ _ (start-Balanced s b) b)
step-Balanced (gets k) s b = get_next-Balanced s k (worker_at k s.workers) refl b
step-Balanced (cancels k) s b = cancel-Balanced s k (worker_at k s.workers) refl b
step-Balanced (ends k ok) s b = end_write-Balanced s k ok (worker_at k s.workers) refl b

run-Balanced_from :
    (events : List Event) (s : BackgroundWriter) → Balanced s → Balanced (run events s)
run-Balanced_from [] s b = b
run-Balanced_from (e ∷ events) s b = run-Balanced_from events (step e s) (step-Balanced e s b)

-- After any run of the event loop the queue's count of unfinished writes is the writes that wait
-- and those in a worker's hands, and every write that was accepted is unfinished, written, failed
-- or abandoned by a stop.
pub run-Balanced : (events : List Event) (maxsize : ℕ) → Balanced (run events (new_writer maxsize))
unfolding new_writer
run-Balanced events maxsize =
    run-Balanced_from events (new_writer maxsize)
      (record { unfinished_counted = refl; ledger = refl })

abbrev pub submissions : List Event → ℕ
submissions [] = 0
submissions (submits w ∷ events) = suc (submissions events)
submissions (starts ∷ events) = submissions events
submissions (stops ∷ events) = submissions events
submissions (gets k ∷ events) = submissions events
submissions (cancels k ∷ events) = submissions events
submissions (ends k ok ∷ events) = submissions events
