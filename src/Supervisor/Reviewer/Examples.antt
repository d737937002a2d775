-- ===== src/Supervisor/Reviewer/Examples.antt =====
-- A reviewer with a review in flight.
use hera_v.Shared.{◌≡◌, refl, true, false, [], ◌∷◌}
use hera_v.Supervisor.Reviewer.{Reviewer, every_n_calls, cost_spike, schedules, ends, run}
use hera_v.Supervisor.Reviewer.Serving.{is_reviewed, anew, schedule-reviewed}

abbrev busy_reviewer : Reviewer
busy_reviewer = record {
  in_flight = true;
  pending = [];
  stopped = false;
  reviews = (every_n_calls ∷ []) ∷ [];
}

schedule-reviewed_example :
    is_reviewed cost_spike
      (run
        (schedules cost_spike ∷ schedules every_n_calls ∷ ends ∷ [])
        (anew busy_reviewer)).reviews
    ≡ true
schedule-reviewed_example =
    schedule-reviewed cost_spike (schedules every_n_calls ∷ ends ∷ []) busy_reviewer refl refl refl
