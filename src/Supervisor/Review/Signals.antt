-- ===== src/Supervisor/Review/Signals.antt =====
-- How often the triggers of src/supervisor/review.ts fire over a run.
use hera_v.Shared.{
  ℕ, ◌+◌, ◌*◌, ◌<◌, ◌≡◌, max, Bool, true, false, not, ◌&&◌, Option, none, some, List, [], ◌∷◌, ◌++◌,
  arith, if◌then◌else◌, leb, Bool-cases, inl, inr,
}
use hera_v.Shared.Text.{Text}
use hera_v.Supervisor.Reviewer.{TriggerReason, same_reason, every_n_calls}
use hera_v.Supervisor.Review.{
  ReviewConfig, ReviewTriggers, Signal, fires, alerts_cost, ReviewEvent, user_message,
  tool_call_requested, tool_call_finished, turn_finished, other_event, observe_cost, on_exec_event,
  on_event, on_heartbeat, on_requested, on_finished, on_status, count_call, watch_edits, push_call,
  count_and_watch, finish_first,
}

pub data Input : Type 0 where
  beats : Option ℕ → Input
  observes : Bool → ReviewEvent → ℕ → Input

abbrev pub count_fires : TriggerReason → List Signal → ℕ
count_fires reason [] = 0
count_fires reason (fires r ∷ signals) =
    let rest = count_fires reason signals in if same_reason r reason then rest + 1 else rest
count_fires reason (alerts_cost cost ∷ signals) = count_fires reason signals

abbrev is_request : Input → Bool
is_request (observes true (tool_call_requested id tool args path) now) = true
is_request _ = false

abbrev pub count_requests : List Input → ℕ
count_requests [] = 0
count_requests (input ∷ inputs) = (if is_request input then 1 else 0) + count_requests inputs

abbrev begins_turn : Input → Bool
begins_turn (observes true (user_message content) now) = true
begins_turn _ = false

-- The inputs belong to one turn.
abbrev pub in_turn : List Input → Bool
in_turn [] = true
in_turn (input ∷ inputs) = not (begins_turn input) && in_turn inputs

count_fires-append :
    (reason : TriggerReason) (xs ys : List Signal)
    → count_fires reason (xs ++ ys) ≡ count_fires reason xs + count_fires reason ys
count_fires-append reason [] ys = omega arith
count_fires-append reason (fires r ∷ xs) ys = ground (arith, count_fires-append reason xs ys)
count_fires-append reason (alerts_cost cost ∷ xs) ys = count_fires-append reason xs ys

sum_periods :
    (since i n next last a b period : ℕ)
    → since + i ≡ a * period + next
    → next + n ≡ b * period + last
    → since + (i + n) ≡ (a + b) * period + last
sum_periods since i n next last a b period h k = grind arith

module _ (cfg : ReviewConfig) where
  abbrev step : Input → ReviewTriggers → ReviewTriggers × List Signal
  step (beats cost) t = on_heartbeat cfg cost t
  step (observes from_exec event now) t = on_event cfg from_exec event now t

  unfoldable pub run : List Input → ReviewTriggers → ReviewTriggers × List Signal
  unfolding on_heartbeat on_event
  run [] t = (t, [])
  run (input ∷ inputs) t =
      let (next, told) = step input t in let (last, rest) = run inputs next in (last, told ++ rest)

  abbrev period : ℕ
  period = max 1 cfg.review_every_calls

  -- One input of the count of calls.
  abbrev Counts : Input → ReviewTriggers → ReviewTriggers × List Signal → Type 0
  Counts input t (next, told) =
      (t.calls_since_review + (if is_request input then 1 else 0)
        ≡ count_fires every_n_calls told * period + next.calls_since_review)
      × (next.calls_since_review < period)

  observe_cost-since :
      (cost : ℕ) (t : ReviewTriggers)
      → ((observe_cost cfg cost t).0.calls_since_review ≡ t.calls_since_review)
        × (count_fires every_n_calls (observe_cost cfg cost t).1 ≡ 0)
  unfolding observe_cost
  observe_cost-since cost t = ground arith

  on_status-since :
      (status : Text) (t : ReviewTriggers)
      → ((on_status cfg status t).0.calls_since_review ≡ t.calls_since_review)
        × (count_fires every_n_calls (on_status cfg status t).1 ≡ 0)
  on_status-since status t = ground arith

  watch_edits-count :
      (tool path : Text) (t : ReviewTriggers)
      → count_fires every_n_calls (watch_edits cfg tool path t) ≡ 0
  watch_edits-count tool path t = ground arith

  count_call-Counts :
      (t : ReviewTriggers)
      → t.calls_since_review < period
      → (t.calls_since_review + 1
          ≡ count_fires every_n_calls (count_call cfg t).1 * period
            + (count_call cfg t).0.calls_since_review)
        × ((count_call cfg t).0.calls_since_review < period)
  count_call-Counts t h =
      elim (Bool-cases (leb cfg.review_every_calls (t.calls_since_review + 1))) [
        | inl full ↦ rw full (ground arith)
        | inr more ↦ rw more (ground arith)
      ]

  count_and_watch-count :
      (tool path : Text) (t : ReviewTriggers)
      → count_fires every_n_calls (count_and_watch cfg tool path t).1
        ≡ count_fires every_n_calls (count_call cfg t).1
  count_and_watch-count tool path t =
      let (counted, fired) = count_call cfg t in
      omega (
        arith,
        count_fires-append every_n_calls fired (watch_edits cfg tool path counted),
        watch_edits-count tool path counted,
      )

  on_requested-Counts :
      (id tool args path : Text) (now : ℕ) (t : ReviewTriggers)
      → t.calls_since_review < period
      → (t.calls_since_review + 1
          ≡ count_fires every_n_calls (on_requested cfg id tool args path now t).1 * period
            + (on_requested cfg id tool args path now t).0.calls_since_review)
        × ((on_requested cfg id tool args path now t).0.calls_since_review < period)
  unfolding on_requested
  on_requested-Counts id tool args path now t h =
      let pushed = push_call cfg id tool args path now t in
      rw (count_and_watch-count tool path pushed) (count_call-Counts pushed h)

  on_exec_event-Counts :
      (event : ReviewEvent) (now : ℕ) (t : ReviewTriggers)
      → t.calls_since_review < period
      → Counts (observes true event now) t (on_exec_event cfg event now t)
  unfolding on_finished
  on_exec_event-Counts (user_message content) now t h = (ground arith, h)
  on_exec_event-Counts (tool_call_requested id tool args path) now t h =
      on_requested-Counts id tool args path now t h
  on_exec_event-Counts (tool_call_finished id status) now t h =
      ground
        (arith, on_status-since status (record t { calls = finish_first id status now t.calls }))
  on_exec_event-Counts (turn_finished true none) now t h = (ground arith, h)
  on_exec_event-Counts (turn_finished true (some cost)) now t h =
      ground (arith, observe_cost-since cost t)
  on_exec_event-Counts (turn_finished false cost) now t h = (ground arith, h)
  on_exec_event-Counts other_event now t h = (ground arith, h)

  step-Counts :
      (input : Input) (t : ReviewTriggers)
      → t.calls_since_review < period
      → Counts input t (step input t)
  unfolding on_event on_heartbeat
  step-Counts (beats none) t h = (ground arith, h)
  step-Counts (beats (some cost)) t h = ground (arith, observe_cost-since cost t)
  step-Counts (observes true event now) t h = on_exec_event-Counts event now t h
  step-Counts (observes false event now) t h = (ground arith, h)

  -- Over any heartbeats and events a review is asked for at every `review_every_calls` calls, or at each
  -- call where that is zero: the calls since the last one and those requested are the reviews asked
  -- for, each worth that many calls, and the calls that are left, which are fewer. The count must be
  -- below that number at first.
  pub run-every_n :
      (inputs : List Input) (t : ReviewTriggers)
      → t.calls_since_review < period
      → let (last, told) = run inputs t in
        (t.calls_since_review + count_requests inputs
          ≡ count_fires every_n_calls told * period + last.calls_since_review)
        × (last.calls_since_review < period)
  unfolding run
  run-every_n [] t h = (omega arith, h)
  run-every_n (input ∷ inputs) t h =
      let (next, told) = step input t in
      let (last, rest) = run inputs next in
      let (here, low) = step-Counts input t h in
      let (later, end) = run-every_n inputs next low in
      (
        rw (count_fires-append every_n_calls told rest) (
            sum_periods t.calls_since_review (if is_request input then 1 else 0)
              (count_requests inputs) next.calls_since_review last.calls_since_review
              (count_fires every_n_calls told) (count_fires every_n_calls rest) period here later),
        end,
      )
