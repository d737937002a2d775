-- ===== src/Executor/Agent/State.antt =====
-- src/executor/agent.ts: the state of the agent, where a turn waits, and what it does to the outside.
-- The messages are those of Executor/Compaction; costs, thinking blocks and debug lines are left out.
use hera_v.Shared.{
  ℕ, zero, suc, String, Bool, true, false, not, ◌&&◌, Option, none, some, List, [], ◌∷◌, ◌++◌, any,
  if◌then◌else◌,
}
use hera_v.Shared.Text.{Text}
use hera_v.Session.Records.{user, assistant, ToolCallStatus, Usage}
use hera_v.Executor.Compaction.{Call, Entry}
use hera_v.Executor.Mailbox.{InjectMailbox, discard_late}

pub record Prompt : Type 0 where
  pub text : Text
  pub note : Option Text

pub data Phase : Type 0 where
  idle model_call tool_call waiting_answer compacting : Phase

pub data AbortReason : Type 0 where
  cancel resume_frozen resume_tool_hang shutdown : AbortReason

pub data StopReason : Type 0 where
  end tool_calls max_output refusal pause cancelled : StopReason

pub data AskKind : Type 0 where
  question continue : AskKind

-- `previous` is the phase to go back to.
pub record PendingAsk : Type 0 where
  pub request_id : ℕ
  pub kind : AskKind
  pub previous : Phase

pub data Severity : Type 0 where
  notice warning error : Severity

pub data ResumeReason : Type 0 where
  restart frozen tool_hang : ResumeReason

-- The events of the agent; an error by its severity and what it is about.
pub data Event : Type 0 where
  user_message : Text → Event
  memory_injected : List Text → Event
  turn_started : Event
  executor_resumed : ResumeReason → Event
  tool_call_requested : String → Event
  tool_call_finished : String → ToolCallStatus → Option Text → Event
  checkpoint_created : ℕ → ℕ → Event
  turn_finished : StopReason → Usage → Event
  error_event : Severity → String → Event
  effect_pending : String → Event

pub data Action : Type 0 where
  emits : Event → Action
  asks : AskKind → ℕ → Action
  answers_tool : ℕ → Action
  fails_ask : ℕ → Action
  calls_model : Action
  executes : String → Action
  terminates_children : Action

-- A call of the model's response; `place` is its place among the calls of the response.
pub record ToolCall : Type 0 where
  pub id : String
  pub name : String
  pub args_json : Text
  pub place : ℕ

pub record Response : Type 0 where
  pub content : Text
  pub calls : List ToolCall
  pub usage : Usage
  pub stop : StopReason

-- The variables of `loop`.
pub record Loop : Type 0 where
  pub pauses : ℕ
  pub reissues : ℕ

-- A call that is being executed, and those behind it.
pub record Work : Type 0 where
  pub loop : Loop
  pub call : ToolCall
  pub rest : List ToolCall

-- What follows a compaction: the check of the request's size, or the response.
pub data After : Type 0 where
  fit_check : Loop → After
  response : Loop → Response → After

-- The `await` at which `runTurn` stands.
pub data Await : Type 0 where
  resting : Await
  opening : Text → List Text → Await
  calling : Loop → Await
  compacts : After → Await
  requesting : Work → Await
  gated : Work → Await
  dispatched : Work → Await
  asking : Work → Await
  closing : Await

-- `signal` is the abort controller in use, with whether it has been aborted; the newest entry of
-- the trace comes first.
pub record Agent : Type 0 where
  pub messages : List Entry
  pub todo_json : Option Text
  pub phase : Phase
  pub turn_active : Bool
  pub turn_usage : Usage
  pub mailbox : InjectMailbox
  pub tool_calls_this_turn : ℕ
  pub turn_index : ℕ
  pub signal : Option Bool
  pub abort_reason : Option AbortReason
  pub pending_ask : Option PendingAsk
  pub ask_counter : ℕ
  pub finishing : Bool
  pub queued_prompt : Option Prompt
  pub ledger_notice_sent : Bool
  pub await : Await
  pub trace : List Action

abbrev pub no_usage : Usage
no_usage = record { uncached_input = 0; cache_write = 0; cache_read = 0; output = 0 }

abbrev pub act : Action → Agent → Agent
act x a = record a { trace = x ∷ a.trace }

abbrev pub emit : Event → Agent → Agent
emit e a = act (emits e) a

abbrev pub push : Entry → Agent → Agent
push m a = record a { messages = a.messages ++ m ∷ [] }

abbrev pub system_note : Text → Entry
system_note content = record { role = user; content = content; calls = []; usage = none }

abbrev reason_aborts : Option AbortReason → Bool
reason_aborts none = false
reason_aborts (some cancel) = true
reason_aborts (some shutdown) = true
reason_aborts (some resume_frozen) = false
reason_aborts (some resume_tool_hang) = false

abbrev pub turn_aborted : Agent → Bool
turn_aborted a = reason_aborts a.abort_reason

abbrev is_assistant : Entry → Bool
is_assistant m = elim m.role [ assistant ↦ true | _ ↦ false ]

abbrev set_call : ℕ → Text → List Call → List Call
set_call n text [] = []
set_call zero text (c ∷ calls) = record c { result = some text } ∷ calls
set_call (suc n) text (c ∷ calls) = c ∷ set_call n text calls

-- `call.result = ...`: the call is an object of the last message of the assistant.
unfoldable pub set_result : ℕ → Text → List Entry → List Entry
set_result n text [] = []
set_result n text (m ∷ messages) =
    if is_assistant m && not (any is_assistant messages)
    then record m { calls = set_call n text m.calls } ∷ messages
    else m ∷ set_result n text messages

-- What a cancelled turn leaves behind: its note ends the last message if that is the assistant's.
abbrev noted : Text → Text → Text
noted note [] = b'[' ∷ note ++ b']' ∷ []
noted note (c ∷ content) = (c ∷ content) ++ b'\n' ∷ b'\n' ∷ b'[' ∷ note ++ b']' ∷ []

unfoldable pub note_cancelled : Text → List Entry → List Entry
note_cancelled note [] =
    record { role = assistant; content = noted note []; calls = []; usage = none } ∷ []
note_cancelled note (m ∷ []) =
    if is_assistant m
    then record m { content = noted note m.content } ∷ []
    else m ∷ record { role = assistant; content = noted note []; calls = []; usage = none } ∷ []
note_cancelled note (m ∷ next ∷ messages) = m ∷ note_cancelled note (next ∷ messages)

-- The end of a turn without `turn_finished`.
unfoldable pub drop_turn : Agent → Agent
unfolding discard_late
drop_turn a = record a {
  turn_active = false;
  phase = idle;
  mailbox = (discard_late a.mailbox).1;
  await = resting;
}
