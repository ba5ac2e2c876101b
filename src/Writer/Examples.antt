-- ===== src/Writer/Examples.antt =====
-- A writer with room for one write, and one that is stopped while it writes.
use patrolbot_dashboard.Base.{List, [], ◌∷◌, true, ◌≡◌, refl}
use patrolbot_dashboard.Writer.{
  Event, stops, submits, gets, cancels, ends, new_writer, run, step, start, put, submit, get_next,
  take_next, stop_begin, healthy,
}
use patrolbot_dashboard.Writer.Accepted.{offered, Within}
use patrolbot_dashboard.Writer.Order.{InOrder, run-InOrder}
use patrolbot_dashboard.Writer.Ledger.{busy}
use patrolbot_dashboard.Writer.Health.{healthy-drained}

abbrev events : List Event
events = submits 5 ∷ submits 6 ∷ gets 0 ∷ submits 7 ∷ ends 0 true ∷ stops ∷ cancels 0 ∷ []

run-InOrder_example :
    Within (run events (new_writer 1)).accepted (offered events)
    × InOrder 1 (run events (new_writer 1))
run-InOrder_example = run-InOrder events 1

abbrev quiet : List Event
quiet = submits 5 ∷ gets 0 ∷ ends 0 true ∷ submits 6 ∷ gets 0 ∷ ends 0 true ∷ stops ∷ cancels 0 ∷ []

healthy-drained_example : (run quiet (new_writer 256)).written ≡ 2
unfolding healthy new_writer step
healthy-drained_example = healthy-drained quiet 256 refl refl refl

-- A submission while `stop` drains starts a second worker, and two writes are awaited at once.
two_workers_test :
    busy ((run (submits 1 ∷ gets 0 ∷ stops ∷ submits 2 ∷ gets 1 ∷ []) (new_writer 256)).workers) ≡ 2
unfolding new_writer step submit start put get_next take_next stop_begin
two_workers_test = refl
