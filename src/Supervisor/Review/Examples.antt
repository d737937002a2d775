-- ===== src/Supervisor/Review/Examples.antt =====
-- A turn with two edits, a review at every second call.
use hera_v.Shared.{◌≡◌, ◌+◌, ◌*◌, ◌<◌, true, some, List, [], ◌∷◌, arith}
use hera_v.Shared.Text.{codes}
use hera_v.Supervisor.Reviewer.{every_n_calls}
use hera_v.Supervisor.Review.{ReviewConfig, new_triggers, tool_call_requested, tool_call_finished}
use hera_v.Supervisor.Review.Signals.{
  Input, beats, observes, count_requests, count_fires, run, run-every_n,
}

abbrev review_cfg : ReviewConfig
review_cfg = record { review_every_calls = 2; cost_alert_usd = 5 }

abbrev edits : List Input
edits =
    observes true (tool_call_requested (codes "a") (codes "edit") (codes "{}") (codes "x.ts")) 10
    ∷ beats (some 7)
    ∷ observes true (tool_call_finished (codes "a") (codes "ok")) 20
    ∷ observes true (tool_call_requested (codes "b") (codes "edit") (codes "{}") (codes "x.ts")) 30
    ∷ []

run-every_n_example :
    let (last, told) = run review_cfg edits new_triggers in
    (0 + count_requests edits ≡ count_fires every_n_calls told * 2 + last.calls_since_review)
    × (last.calls_since_review < 2)
unfolding new_triggers
run-every_n_example = run-every_n review_cfg edits new_triggers (omega arith)
