-- ===== src/Writer/Order.antt =====
-- The queue of server/app/database/writer.py is first in, first out, and bounded.
use mathlib.Core.List.{append_assoc}
use patrolbot_dashboard.Base.{
  ℕ, ◌+◌, ◌≤◌, ◌≢◌, Bool, true, false, not, ◌&&◌, List, [], ◌∷◌, ◌++◌, length, length-append, leb,
  ◌==◌, if◌then◌else◌, is_none, if-split, if-holds, ◌≡◌, refl, sym, ap, subst, ◌∙◌, arith,
}
use patrolbot_dashboard.Writer.Accepted.{offered, Within, accepted-Within}
use patrolbot_dashboard.Writer.{
  Worker, waiting, ended, writing, BackgroundWriter, new_writer, worker_at, running, start, put,
  submit, take_next, get_next, end_write, cancel, stop_begin, Event, starts, stops, submits, gets,
  cancels, ends, step, run,
}

-- What was accepted is what was handed to a worker and then what waits, in order. The writer keeps
-- its maximum, and unless that is 0, at most that many wait.
pub record InOrder (maxsize : ℕ) (s : BackgroundWriter) : Type 0 where
  pub fifo : s.accepted ≡ s.taken ++ s.queue
  pub same_maximum : s.maxsize ≡ maxsize
  pub bounded : maxsize ≢ 0 → length s.queue ≤ maxsize

shorter : {n : ℕ} (w : ℕ) (queue : List ℕ) → length (w ∷ queue) ≤ n → length queue ≤ n
shorter {n} w queue h = omega arith

room_left :
    (maxsize n waits : ℕ)
    → maxsize ≡ n
    → n ≢ 0
    → (not (maxsize == 0) && leb maxsize waits) ≡ false
    → waits + 1 ≤ n
room_left maxsize n waits e h room = ground arith

module _ (n : ℕ) where
  start-InOrder : (s : BackgroundWriter) → InOrder n s → InOrder n (start s)
  unfolding start
  start-InOrder s i =
      if-holds (InOrder n) (running s) _ _ i
        (record { fifo = i.fifo; same_maximum = i.same_maximum; bounded = i.bounded })

  put-InOrder : (s : BackgroundWriter) (w : ℕ) → InOrder n s → InOrder n (put s w).0
  unfolding put
  put-InOrder s w i =
      if-split (λ (x : BackgroundWriter × Bool). InOrder n x.0)
        (not (s.maxsize == 0) && leb s.maxsize (length s.queue)) _ _
        (λ _. record { fifo = i.fifo; same_maximum = i.same_maximum; bounded = i.bounded })
        (λ room. record {
          fifo = ap (λ t. t ++ (w ∷ [])) i.fifo ∙ append_assoc s.taken s.queue (w ∷ []);
          same_maximum = i.same_maximum;
          bounded = λ h.
              rw (length-append s.queue (w ∷ []))
                (room_left s.maxsize n (length s.queue) i.same_maximum h room);
        })

  take_next-InOrder :
      (s : BackgroundWriter) (k : ℕ) (queue : List ℕ)
      → InOrder n s
      → s.queue ≡ queue
      → InOrder n (take_next s k queue)
  unfolding take_next
  take_next-InOrder s k [] i e = i
  take_next-InOrder s k (w ∷ queue) i e = record {
    fifo = i.fifo ∙ ap (λ t. s.taken ++ t) e ∙ sym (append_assoc s.taken (w ∷ []) queue);
    same_maximum = i.same_maximum;
    bounded = λ h. shorter w queue (subst (λ t. length t ≤ n) e (i.bounded h));
  }

  get_next-InOrder :
      (s : BackgroundWriter) (k : ℕ) (w : Worker) → InOrder n s → InOrder n (get_next s k w)
  unfolding get_next
  get_next-InOrder s k waiting i = take_next-InOrder s k s.queue i refl
  get_next-InOrder s k ended i = i
  get_next-InOrder s k (writing _) i = i

  end_write-InOrder :
      (s : BackgroundWriter) (k : ℕ) (ok : Bool) (w : Worker)
      → InOrder n s
      → InOrder n (end_write s k ok w)
  unfolding end_write
  end_write-InOrder s k true (writing w) i = record {
    fifo = i.fifo;
    same_maximum = i.same_maximum;
    bounded = i.bounded;
  }
  end_write-InOrder s k false (writing w) i = record {
    fifo = i.fifo;
    same_maximum = i.same_maximum;
    bounded = i.bounded;
  }
  end_write-InOrder s k true waiting i = i
  end_write-InOrder s k true ended i = i
  end_write-InOrder s k false waiting i = i
  end_write-InOrder s k false ended i = i

  cancel-InOrder :
      (s : BackgroundWriter) (k : ℕ) (w : Worker) → InOrder n s → InOrder n (cancel s k w)
  unfolding cancel
  cancel-InOrder s k waiting i = record {
    fifo = i.fifo;
    same_maximum = i.same_maximum;
    bounded = i.bounded;
  }
  cancel-InOrder s k (writing w) i = record {
    fifo = i.fifo;
    same_maximum = i.same_maximum;
    bounded = i.bounded;
  }
  cancel-InOrder s k ended i = i

  step-InOrder : (e : Event) (s : BackgroundWriter) → InOrder n s → InOrder n (step e s)
  unfolding step submit stop_begin
  step-InOrder starts s i = start-InOrder s i
  step-InOrder stops s i = record {
    fifo = i.fifo;
    same_maximum = i.same_maximum;
    bounded = i.bounded;
  }
  step-InOrder (submits w) s i =
      put-InOrder (if is_none s.task then start s else s) w
        (if-holds (InOrder n) (is_none s.task) _ _ (start-InOrder s i) i)
  step-InOrder (gets k) s i = get_next-InOrder s k (worker_at k s.workers) i
  step-InOrder (cancels k) s i = cancel-InOrder s k (worker_at k s.workers) i
  step-InOrder (ends k ok) s i = end_write-InOrder s k ok (worker_at k s.workers) i

  run-InOrder_from :
      (events : List Event) (s : BackgroundWriter) → InOrder n s → InOrder n (run events s)
  run-InOrder_from [] s i = i
  run-InOrder_from (e ∷ events) s i = run-InOrder_from events (step e s) (step-InOrder e s i)

new_writer-InOrder : (maxsize : ℕ) → InOrder maxsize (new_writer maxsize)
unfolding new_writer
new_writer-InOrder maxsize = record { fifo = refl; same_maximum = refl; bounded = λ _. omega arith }

-- Whatever the event loop runs, a new writer accepts some of the writes that are submitted, in the
-- order of their submission; it hands to its workers what it accepted, in that order and once each,
-- but for those that still wait; and it keeps its maximum, and unless that is 0, no more writes than
-- that wait.
pub run-InOrder :
    (events : List Event) (maxsize : ℕ)
    → let s = run events (new_writer maxsize) in
      Within s.accepted (offered events) × InOrder maxsize s
run-InOrder events maxsize = (
  accepted-Within events maxsize,
  run-InOrder_from maxsize events (new_writer maxsize) (new_writer-InOrder maxsize),
)
