-- ===== src/Session/Projection/OpenCalls.antt =====
-- src/session/projection.ts: the calls that a log requests and never finishes.
use hera_v.Shared.{
  ◌∙◌, ℕ, Option, none, some, ◌≡◌, refl, ap, String, Bool, false, not, ◌&&◌, ◌||◌, List, [], ◌∷◌,
  arith, any, eq_iff,
}
use hera_v.Shared.Dict.{str_eq}
use hera_v.Shared.Text.{Text}
use hera_v.Session.Records.{
  AgentEvent, session_started, user_message, text_delta, thinking_delta, tool_call_requested,
  tool_call_finished, turn_finished, checkpoint_created, other,
}
use hera_v.Session.Projection.{
  Loop, new_loop, finished_ids, open_calls, drop_turn, project_loop, project_events,
}

-- The ids that the log requests.
abbrev pub requested_ids : List AgentEvent → List String
requested_ids [] = []
requested_ids (tool_call_requested id name args_json ∷ events) = id ∷ requested_ids events
requested_ids (event ∷ events) = requested_ids events

-- An event of the log finishes the call.
abbrev pub is_finished : String → List AgentEvent → Bool
is_finished id [] = false
is_finished id (tool_call_finished own status result ∷ events) =
    str_eq id own || is_finished id events
is_finished id (event ∷ events) = is_finished id events

abbrev pub is_among : String → List String → Bool
is_among id = any (str_eq id)

same_among : (id own : String) (ids : List String) → id ≡ own → is_among id ids ≡ is_among own ids
same_among id own ids e = ap (λ k. is_among k ids) e

is_among-open_calls :
    (id : String) (finished : List String) (events : List AgentEvent)
    → is_among id (open_calls finished events)
      ≡ (is_among id (requested_ids events) && not (is_among id finished))
unfolding open_calls
is_among-open_calls id finished [] = refl
is_among-open_calls id finished (session_started prompt ∷ events) =
    is_among-open_calls id finished events
is_among-open_calls id finished (user_message content prompt_id ∷ events) =
    is_among-open_calls id finished events
is_among-open_calls id finished (text_delta text ∷ events) = is_among-open_calls id finished events
is_among-open_calls id finished (thinking_delta ∷ events) = is_among-open_calls id finished events
is_among-open_calls id finished (tool_call_requested own name args_json ∷ events) =
    ground
      (arith, is_among-open_calls id finished events, eq_iff id own, same_among id own finished)
is_among-open_calls id finished (tool_call_finished own status result ∷ events) =
    is_among-open_calls id finished events
is_among-open_calls id finished (turn_finished role usage cost stop payloads ∷ events) =
    is_among-open_calls id finished events
is_among-open_calls id finished (checkpoint_created text kept prompt_id ∷ events) =
    is_among-open_calls id finished events
is_among-open_calls id finished (other ∷ events) = is_among-open_calls id finished events

is_among-finished_ids :
    (id : String) (events : List AgentEvent)
    → is_among id (finished_ids events) ≡ is_finished id events
unfolding finished_ids
is_among-finished_ids id [] = refl
is_among-finished_ids id (tool_call_finished own status result ∷ events) =
    ap (λ b. str_eq id own || b) (is_among-finished_ids id events)
is_among-finished_ids id (session_started prompt ∷ events) = is_among-finished_ids id events
is_among-finished_ids id (user_message content prompt_id ∷ events) = is_among-finished_ids id events
is_among-finished_ids id (text_delta text ∷ events) = is_among-finished_ids id events
is_among-finished_ids id (thinking_delta ∷ events) = is_among-finished_ids id events
is_among-finished_ids id (tool_call_requested own name args_json ∷ events) =
    is_among-finished_ids id events
is_among-finished_ids id (turn_finished role usage cost stop payloads ∷ events) =
    is_among-finished_ids id events
is_among-finished_ids id (checkpoint_created text kept prompt_id ∷ events) =
    is_among-finished_ids id events
is_among-finished_ids id (other ∷ events) = is_among-finished_ids id events

drop_turn-keeps :
    (o : Option ℕ) (st : Loop) (ids : List String) → (drop_turn o st ids).open_tool_calls ≡ ids
drop_turn-keeps none st ids = refl
drop_turn-keeps (some start) st ids = refl

-- A call is reported as open exactly when an event of the log requests it and none finishes it.
pub open_tool_calls-is_among :
    (parse_todos : Text → Bool) (id : String) (events : List AgentEvent)
    → is_among id (project_events parse_todos events).open_tool_calls
      ≡ (is_among id (requested_ids events) && not (is_finished id events))
unfolding project_events
open_tool_calls-is_among parse_todos id events =
    let st = project_loop parse_todos events new_loop in
    let ids = open_calls (finished_ids events) events in
    ap (is_among id) (drop_turn-keeps st.turn_start_index st ids)
    ∙ is_among-open_calls id (finished_ids events) events
    ∙ ap (λ b. is_among id (requested_ids events) && not b) (is_among-finished_ids id events)
