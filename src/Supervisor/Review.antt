-- ===== src/Supervisor/Review.antt =====
-- src/supervisor/review.ts: ReviewTriggers. Costs are whole
-- numbers of a small unit; what is fired or alerted is an output. An event brings the path of its
-- arguments and their text. The clock does not go back.
mod Examples
pub mod Signals
use hera_v.Shared.{
  ℕ, ◌+◌, ◌-◌, max, Bool, true, false, not, ◌&&◌, Option, none, some, List, [], ◌∷◌, ◌++◌, map,
  if◌then◌else◌, ltb, leb, ◌==◌, length, take, drop, any, keep_if,
}
use hera_v.Shared.Text.{Text, codes, text_eq, to_lower}
use hera_v.Supervisor.ReviewText.{extract_user_request}
use hera_v.Supervisor.Reviewer.{
  TriggerReason, every_n_calls, error_streak, repeated_edit, cost_spike,
}

pub record CallRecord : Type 0 where
  pub id : Text
  pub tool : Text
  pub args_summary : Text
  pub status : Text
  pub started_at : ℕ
  pub duration_ms : Option ℕ
  pub target : Option Text

pub record ReviewConfig : Type 0 where
  pub review_every_calls : ℕ
  pub cost_alert_usd : ℕ

pub record ReviewTriggers : Type 0 where
  pub calls : List CallRecord
  pub calls_since_review : ℕ
  pub error_streak : ℕ
  pub turn_cost : ℕ
  pub cost_alerted : Bool
  pub user_request : Text
  pub turn_index : ℕ
  pub total_calls : ℕ

unfoldable pub new_triggers : ReviewTriggers
new_triggers = record {
  calls = [];
  calls_since_review = 0;
  error_streak = 0;
  turn_cost = 0;
  cost_alerted = false;
  user_request = [];
  turn_index = 0;
  total_calls = 0;
}

pub data Signal : Type 0 where
  fires : TriggerReason → Signal
  alerts_cost : ℕ → Signal

-- The arguments of a request are its id, the tool, the text of its arguments and their path.
pub data ReviewEvent : Type 0 where
  user_message : Text → ReviewEvent
  tool_call_requested : Text → Text → Text → Text → ReviewEvent
  tool_call_finished : Text → Text → ReviewEvent
  turn_finished : Bool → Option ℕ → ReviewEvent
  other_event : ReviewEvent

abbrev pub call_summary_cap : ℕ
call_summary_cap = 300

abbrev write_tools : List Text
write_tools = codes "edit" ∷ codes "multi_edit" ∷ codes "write_to_file" ∷ []

abbrev slash : ℕ → ℕ
slash c = if c == 92 then 47 else c

unfoldable pub normalize_target : Text → Text
unfolding to_lower
normalize_target path = to_lower (map slash path)

abbrev finish_call : Text → Text → ℕ → CallRecord → CallRecord
finish_call id status now c = record c { status = status; duration_ms = some (now - c.started_at) }

-- The first call with the id.
unfoldable pub finish_first : Text → Text → ℕ → List CallRecord → List CallRecord
unfolding text_eq
finish_first id status now [] = []
finish_first id status now (c ∷ calls) =
    let rest = finish_first id status now calls in
    if text_eq c.id id then finish_call id status now c ∷ calls else c ∷ rest

abbrev is_write_tool : Text → Bool
is_write_tool tool = any (text_eq tool) write_tools

abbrev target_of : Text → Text → Option Text
target_of tool path =
    if is_write_tool tool && not (length path == 0) then some (normalize_target path) else none

abbrev has_target : Text → Option Text → Bool
has_target target none = false
has_target target (some t) = text_eq t target

abbrev same_target : Text → List CallRecord → ℕ
same_target path calls = length (keep_if (λ c. has_target (normalize_target path) c.target) calls)

module _ (cfg : ReviewConfig) where
  -- `slice(-n)`
  unfoldable pub recent_calls : ReviewTriggers → List CallRecord
  recent_calls t = drop (length t.calls - max 1 cfg.review_every_calls) t.calls

  unfoldable pub observe_cost : ℕ → ReviewTriggers → ReviewTriggers × List Signal
  observe_cost cost t =
      let seen : ℕ = max t.turn_cost cost in
      if not t.cost_alerted && ltb cfg.cost_alert_usd seen
      then (
        record t { turn_cost = seen; cost_alerted = true },
        alerts_cost seen ∷ fires cost_spike ∷ [],
      )
      else (record t { turn_cost = seen }, [])

  abbrev pub observe : Option ℕ → ReviewTriggers → ReviewTriggers × List Signal
  observe none t = (t, [])
  observe (some cost) t = observe_cost cost t

  abbrev pub count_call : ReviewTriggers → ReviewTriggers × List Signal
  count_call t =
      if leb cfg.review_every_calls (t.calls_since_review + 1)
      then (
        record t { total_calls = t.total_calls + 1; calls_since_review = 0 },
        fires every_n_calls ∷ [],
      )
      else (
        record t { total_calls = t.total_calls + 1; calls_since_review = t.calls_since_review + 1 },
        [],
      )

  abbrev pub watch_edits : Text → Text → ReviewTriggers → List Signal
  watch_edits tool path t =
      if is_write_tool tool && (same_target path t.calls == 3) then fires repeated_edit ∷ [] else []

  unfoldable pub push_call : Text → Text → Text → Text → ℕ → ReviewTriggers → ReviewTriggers
  unfolding normalize_target text_eq
  push_call id tool args path now t = record t {
    calls =
        t.calls
        ++ record {
          id = id;
          tool = tool;
          args_summary = take call_summary_cap args;
          status = codes "pending";
          started_at = now;
          duration_ms = none;
          target = target_of tool path;
        }
          ∷ [];
  }

  abbrev pub count_and_watch : Text → Text → ReviewTriggers → ReviewTriggers × List Signal
  count_and_watch tool path t =
      let (counted, fired) = count_call t in (counted, fired ++ watch_edits tool path counted)

  unfoldable pub on_requested :
      Text → Text → Text → Text → ℕ → ReviewTriggers → ReviewTriggers × List Signal
  unfolding push_call
  on_requested id tool args path now t =
      count_and_watch tool path (push_call id tool args path now t)

  abbrev pub on_status : Text → ReviewTriggers → ReviewTriggers × List Signal
  on_status status t =
      if text_eq status (codes "error")
      then (
        record t { error_streak = t.error_streak + 1 },
        if t.error_streak + 1 == 3 then fires error_streak ∷ [] else [],
      )
      else (record t { error_streak = 0 }, [])

  unfoldable pub on_finished : Text → Text → ℕ → ReviewTriggers → ReviewTriggers × List Signal
  unfolding finish_first text_eq
  on_finished id status now t =
      on_status status (record t { calls = finish_first id status now t.calls })

  abbrev pub on_exec_event : ReviewEvent → ℕ → ReviewTriggers → ReviewTriggers × List Signal
  on_exec_event (user_message content) now t = (
    record t {
      turn_index = t.turn_index + 1;
      user_request = extract_user_request content;
      calls = [];
      error_streak = 0;
      turn_cost = 0;
      cost_alerted = false;
    },
    [],
  )
  on_exec_event (tool_call_requested id tool args path) now t = on_requested id tool args path now t
  on_exec_event (tool_call_finished id status) now t = on_finished id status now t
  on_exec_event (turn_finished is_generating cost) now t =
      if is_generating then observe cost t else (t, [])
  on_exec_event other_event now t = (t, [])

  -- An event of another process is passed over.
  unfoldable pub on_event : Bool → ReviewEvent → ℕ → ReviewTriggers → ReviewTriggers × List Signal
  unfolding on_requested on_finished observe_cost extract_user_request
  on_event from_exec event now t = if from_exec then on_exec_event event now t else (t, [])

  unfoldable pub on_heartbeat : Option ℕ → ReviewTriggers → ReviewTriggers × List Signal
  unfolding observe_cost
  on_heartbeat cost t = observe cost t

  unfoldable pub seed_call_count : ℕ → ℕ → ReviewTriggers → ReviewTriggers
  seed_call_count since_review total t = record t {
    calls_since_review = since_review;
    total_calls = total;
  }
