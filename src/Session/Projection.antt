-- ===== src/Session/Projection.antt =====
-- src/session/projection.ts: the conversation that a session log stands for.
-- Messages and tool calls are shared objects: they lie in two stores, and are named by their
-- places. `parse_todos` is `JSON.parse` of a todo payload.
use hera_v.Shared.{
  ℕ, zero, suc, ◌+◌, ◌-◌, String, Bool, true, false, not, ◌&&◌, ◌||◌, Option, none, some, List, [],
  ◌∷◌, ◌++◌, map, if◌then◌else◌, ltb, length, or_else, is_some, drop, take, get_elem?, set, min,
  any,
}
use hera_v.Shared.Dict.{lookup, insert, str_eq}
use hera_v.Shared.Text.{Text, codes}
use hera_v.Executor.Injection.{render_tool_result}
use hera_v.Session.Records.{
  RoleName, generating, compacting, supervisor, memory, MessageRole, user, assistant, tool,
  OriginKind, by_user, by_tool, by_model, ToolCallStatus, pending, ok, error, timed_out, unknown,
  cancelled, blocked, Usage, ToolCall, Message, AgentEvent, session_started, user_message,
  text_delta, thinking_delta, tool_call_requested, tool_call_finished, turn_finished,
  checkpoint_created, other, PendingAssistant, TurnUsageRecord,
}
mod Turn
pub mod Crash
pub mod OpenCalls

-- The variables of the loop of `projectEvents`.
pub record Loop : Type 0 where
  pub calls : List ToolCall
  pub store : List Message
  pub messages : List ℕ
  pub todo_json : Option Text
  pub turns : List TurnUsageRecord
  pub completed_turns : ℕ
  pub pending_assistant : Option PendingAssistant
  pub turn_start_index : Option ℕ
  pub turn_user_content : Text
  pub turn_prompt_id : String
  pub tool_names : List (String × String)
  pub tool_call_index : List (String × ℕ)

abbrev pub new_loop : Loop
new_loop = record {
  calls = [];
  store = [];
  messages = [];
  todo_json = none;
  turns = [];
  completed_turns = 0;
  pending_assistant = none;
  turn_start_index = none;
  turn_user_content = [];
  turn_prompt_id = "";
  tool_names = [];
  tool_call_index = [];
}

abbrev is_nil {ℓ} : {A : Type ℓ} → List A → Bool
is_nil [] = true
is_nil (x ∷ xs) = false

abbrev pub fresh_pending : PendingAssistant
fresh_pending = record { content = []; tool_calls = []; pushed = false; message = none }

-- `out.messages.push(message)`
abbrev pub push_message : Message → Loop → Loop
push_message m st = record st {
  store = st.store ++ m ∷ [];
  messages = st.messages ++ length st.store ∷ [];
}

abbrev text_message : MessageRole → Text → OriginKind → String → Message
text_message role content kind ref = record {
  role = role;
  content = content;
  tool_calls = [];
  tool_call_id = none;
  usage = none;
  thinking = [];
  origin_kind = kind;
  origin_ref = ref;
}

flush_one : PendingAssistant → Loop → Loop
flush_one p st =
    if not p.pushed && (not (is_nil p.content) || not (is_nil p.tool_calls))
    then record (push_message
        (record (text_message assistant p.content by_model st.turn_prompt_id) {
          tool_calls = p.tool_calls;
        })
        st) {
          pending_assistant = some (record p { pushed = true; message = some (length st.store) });
        }
    else st

abbrev flush_option : Option PendingAssistant → Loop → Loop
flush_option none st = st
flush_option (some p) st = flush_one p st

-- `flushPending`
pub flush_pending : Loop → Loop
unfolding flush_one
flush_pending st = flush_option st.pending_assistant st

-- `if (pending === undefined || pending.pushed) pending = { ... }`
abbrev open_pending : Option PendingAssistant → PendingAssistant
open_pending none = fresh_pending
open_pending (some p) = if p.pushed then fresh_pending else p

-- The turn starts at the place of its own message.
abbrev open_turn : Text → String → Loop → Loop
open_turn content ref st =
    record (push_message (text_message user content by_user ref) (record st {
      turn_start_index = some (length st.messages);
      turn_user_content = content;
      turn_prompt_id = ref;
    })) { pending_assistant = some fresh_pending }

pub on_user_message : Text → Option String → Loop → Loop
unfolding flush_pending
on_user_message content prompt_id st =
    open_turn content (or_else prompt_id "")
      (if is_some st.turn_start_index then flush_pending st else st)

pub on_text_delta : Text → Loop → Loop
on_text_delta text st =
    let p = open_pending st.pending_assistant in
    record st { pending_assistant = some (record p { content = p.content ++ text }) }

-- The message that a further call of the same response joins.
abbrev joins : Option PendingAssistant → Option ℕ
joins none = none
joins (some p) = if p.pushed && is_nil p.content then p.message else none

abbrev with_call : Option Message → ℕ → ℕ → Loop → Loop
with_call none place call st = st
with_call (some m) place call st = record st {
  store = set st.store place (record m { tool_calls = m.tool_calls ++ call ∷ [] });
}

abbrev push_call : ℕ → PendingAssistant → PendingAssistant
push_call call p = record p { tool_calls = p.tool_calls ++ call ∷ [] }

join_call : Option ℕ → ℕ → Loop → Loop
join_call (some place) call st = record (with_call (get_elem? st.store place) place call st) {
  pending_assistant = some (push_call call (or_else st.pending_assistant fresh_pending));
}
join_call none call st = record st {
  pending_assistant = some (push_call call (open_pending st.pending_assistant));
}

pub on_tool_call_requested : String → String → Text → Loop → Loop
unfolding insert join_call
on_tool_call_requested id name args_json st =
    let call = length st.calls in
    let st' = record st {
      tool_names = insert id name st.tool_names;
      calls =
          st.calls
          ++ record { id = id; name = name; args_json = args_json; status = pending; result = none }
            ∷ [];
      tool_call_index = insert id call st.tool_call_index;
    } in
    join_call (joins st.pending_assistant) call st'

abbrev finish_call : Option ToolCall → ℕ → ToolCallStatus → Text → List ToolCall → List ToolCall
finish_call none place status result calls = calls
finish_call (some c) place status result calls =
    set calls place (record c { status = status; result = some result })

abbrev finish_at : Option ℕ → ToolCallStatus → Text → List ToolCall → List ToolCall
finish_at none status result calls = calls
finish_at (some place) status result calls =
    finish_call (get_elem? calls place) place status result calls

abbrev clear_content : Option PendingAssistant → Option PendingAssistant
clear_content none = none
clear_content (some p) = some (record p { content = [] })

abbrev is_ok : ToolCallStatus → Bool
is_ok ok = true
is_ok _ = false

abbrev named : String → Option String → Bool
named name none = false
named name (some n) = str_eq n name

module _ (parse_todos : Text → Bool) where
  pub on_tool_call_finished : String → ToolCallStatus → Text → Loop → Loop
  unfolding flush_pending lookup render_tool_result
  on_tool_call_finished id status result st =
      let st1 = flush_pending st in
      let name = lookup id st1.tool_names in
      let st2 = record st1 {
        calls = finish_at (lookup id st1.tool_call_index) status result st1.calls;
      } in
      let content = render_tool_result result (or_else name "unknown") id in
      let st3 =
        push_message (record (text_message tool content by_tool id) { tool_call_id = some id })
          st2 in
      record st3 {
        todo_json =
            if named "todo_list" name && is_ok status && parse_todos result
            then some result
            else st3.todo_json;
        pending_assistant = clear_content st3.pending_assistant;
      }

  abbrev is_assistant : Option Message → Bool
  is_assistant none = false
  is_assistant (some m) = elim m.role [ assistant ↦ true | _ ↦ false ]

  -- The last assistant message, looked for from the end.
  last_assistant : List Message → List ℕ → Option ℕ
  last_assistant store [] = none
  last_assistant store (place ∷ places) = elim (last_assistant store places) [
    | some later ↦ some later
    | none ↦ if is_assistant (get_elem? store place) then some place else none
  ]

  abbrev new_thinking : List Text → List Text → List Text
  new_thinking [] old = old
  new_thinking (p ∷ ps) old = p ∷ ps

  abbrev used_message : Usage → List Text → Message → Message
  used_message usage payloads m = record m {
    usage = some usage;
    thinking = new_thinking payloads m.thinking;
  }

  abbrev set_message : Option Message → ℕ → Usage → List Text → List Message → List Message
  set_message none place usage payloads store = store
  set_message (some m) place usage payloads store = set store place (used_message usage payloads m)

  abbrev set_usage : Option ℕ → Usage → List Text → List Message → List Message
  set_usage none usage payloads store = store
  set_usage (some place) usage payloads store =
      set_message (get_elem? store place) place usage payloads store

  end_turn : Usage → List Text → Loop → Loop
  unfolding flush_pending last_assistant
  end_turn usage payloads st =
      let st' = flush_pending st in
      record st' {
        store = set_usage (last_assistant st'.store st'.messages) usage payloads st'.store;
        turn_start_index = none;
        completed_turns = st'.completed_turns + 1;
        pending_assistant = none;
      }

  abbrev is_generating : RoleName → Bool
  is_generating generating = true
  is_generating _ = false

  pub on_turn_finished : RoleName → Usage → Option ℕ → Option String → List Text → Loop → Loop
  unfolding end_turn
  on_turn_finished role usage cost stop payloads st =
      let st' = if is_generating role then end_turn usage payloads st else st in
      record st' {
        turns =
            st'.turns
            ++ record { role = role; usage = usage; cost_usd = cost; stop_reason = stop } ∷ [];
      }

  pub on_checkpoint : Text → ℕ → Option String → Loop → Loop
  unfolding flush_pending
  on_checkpoint text kept_messages prompt_id st =
      let st' = flush_pending st in
      let kept = min kept_messages (length st'.messages) in
      let tail = drop (length st'.messages - kept) st'.messages in
      record st' {
        store = st'.store ++ text_message user text by_model (or_else prompt_id "compaction") ∷ [];
        messages = length st'.store ∷ tail;
        turn_start_index = elim st'.turn_start_index [
          | none ↦ none
          | some i ↦ some (min i (suc (length tail)))
        ];
      }

  unfoldable pub on_event : AgentEvent → Loop → Loop
  unfolding on_user_message on_text_delta on_tool_call_requested on_tool_call_finished
      on_turn_finished on_checkpoint
  on_event (session_started prompt) st = st
  on_event (user_message content prompt_id) st = on_user_message content prompt_id st
  on_event (text_delta text) st = on_text_delta text st
  on_event thinking_delta st = st
  on_event (tool_call_requested id name args_json) st = on_tool_call_requested id name args_json st
  on_event (tool_call_finished id status result) st = on_tool_call_finished id status result st
  on_event (turn_finished role usage cost stop payloads) st =
      on_turn_finished role usage cost stop payloads st
  on_event (checkpoint_created text kept prompt_id) st = on_checkpoint text kept prompt_id st
  on_event other st = st

  unfoldable pub project_loop : List AgentEvent → Loop → Loop
  unfolding on_event
  project_loop [] st = st
  project_loop (event ∷ events) st = project_loop events (on_event event st)

-- The ids that a `tool_call_finished` names.
unfoldable pub finished_ids : List AgentEvent → List String
finished_ids [] = []
finished_ids (tool_call_finished id status result ∷ events) = id ∷ finished_ids events
finished_ids (event ∷ events) = finished_ids events

unfoldable pub open_calls : List String → List AgentEvent → List String
open_calls finished [] = []
open_calls finished (tool_call_requested id name args_json ∷ events) =
    let rest = open_calls finished events in if any (str_eq id) finished then rest else id ∷ rest
open_calls finished (event ∷ events) = open_calls finished events

pub record Projection : Type 0 where
  pub final : Loop
  pub open_tool_calls : List String
  pub incomplete_turn : Option (Text × ℕ)

abbrev drop_turn : Option ℕ → Loop → List String → Projection
drop_turn none st ids = record { final = st; open_tool_calls = ids; incomplete_turn = none }
drop_turn (some start) st ids = record {
  final = record st { messages = take start st.messages };
  open_tool_calls = ids;
  incomplete_turn = some (st.turn_user_content, length st.messages - start);
}

-- `projectEvents`
unfoldable pub project_events : (Text → Bool) → List AgentEvent → Projection
unfolding project_loop finished_ids open_calls
project_events parse_todos events =
    let st = project_loop parse_todos events new_loop in
    drop_turn st.turn_start_index st (open_calls (finished_ids events) events)
