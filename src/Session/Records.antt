-- ===== src/Session/Records.antt =====
-- src/events.ts and src/models.ts: the events of a session log and the messages of a conversation,
-- as far as the projection reads them. A tool call is named by its place in a store.
use hera_v.Shared.{ℕ, String, Bool, Option, List}
use hera_v.Shared.Text.{Text}

pub data RoleName : Type 0 where
  generating compacting supervisor memory : RoleName

pub data MessageRole : Type 0 where
  user assistant tool : MessageRole

pub data OriginKind : Type 0 where
  by_user by_tool by_model : OriginKind

pub data ToolCallStatus : Type 0 where
  pending ok error timed_out unknown cancelled blocked : ToolCallStatus

pub record Usage : Type 0 where
  pub uncached_input : ℕ
  pub cache_write : ℕ
  pub cache_read : ℕ
  pub output : ℕ

pub record ToolCall : Type 0 where
  pub id : String
  pub name : String
  pub args_json : Text
  pub status : ToolCallStatus
  pub result : Option Text

pub record Message : Type 0 where
  pub role : MessageRole
  pub content : Text
  pub tool_calls : List ℕ
  pub tool_call_id : Option String
  pub usage : Option Usage
  pub thinking : List Text
  pub origin_kind : OriginKind
  pub origin_ref : String

pub data AgentEvent : Type 0 where
  session_started : Text → AgentEvent
  user_message : Text → Option String → AgentEvent
  text_delta : Text → AgentEvent
  thinking_delta : AgentEvent
  tool_call_requested : String → String → Text → AgentEvent
  tool_call_finished : String → ToolCallStatus → Text → AgentEvent
  turn_finished : RoleName → Usage → Option ℕ → Option String → List Text → AgentEvent
  checkpoint_created : Text → ℕ → Option String → AgentEvent
  other : AgentEvent

pub record PendingAssistant : Type 0 where
  pub content : Text
  pub tool_calls : List ℕ
  pub pushed : Bool
  pub message : Option ℕ

pub record TurnUsageRecord : Type 0 where
  pub role : RoleName
  pub usage : Usage
  pub cost_usd : Option ℕ
  pub stop_reason : Option String
