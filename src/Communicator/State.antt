-- ===== src/Communicator/State.antt =====
-- src/communicator/state.ts: what the Communicator knows of its children and of the turn. Times are in
-- milliseconds, on the clock of `performance.now`. An ask is given by the fields that are read here.
use hera_v.Shared.{
  ℕ, suc, ◌+◌, ◌-◌, String, Bool, false, Option, none, some, List, [], ◌∷◌, or_else,
}
use hera_v.Shared.Dict.{lookup, insert}
use hera_v.Shared.Text.{Text}
use hera_v.Process.Lifecycle.{
  RestartBudget, new_budget, turn_started, reset_idle, ChildRole, executor, supervisor,
}

pub record Prompt : Type 0 where
  pub text : Text
  pub note : Option Text

pub record Ask : Type 0 where
  pub is_pending : Bool  -- kind === "pending"
  pub request_id : Text
  pub effect_id : Option Text

pub record Turn : Type 0 where
  pub since : ℕ
  pub tool_calls : ℕ
  pub prompt : Prompt
  pub resumed : ℕ

pub data TurnState : Type 0 where
  idle : TurnState
  running : Turn → TurnState
  waiting_for_answer : Turn → Ask → TurnState

pub data ChildState : Type 0 where
  spawning ready exited : ChildState

-- `ChildRecord` of src/process/lifecycle.ts.
pub record ChildRecord : Type 0 where
  pub epoch : ℕ
  pub state : ChildState
  pub last_heartbeat_at : Option ℕ
  pub last_children : List ℕ
  pub exit_code : Option ℕ
  pub signal : Option String

abbrev pub new_child_record : ℕ → ChildRecord
new_child_record epoch = record {
  epoch = epoch;
  state = spawning;
  last_heartbeat_at = none;
  last_children = [];
  exit_code = none;
  signal = none;
}

pub record CommState : Type 0 where
  pub executor_record : ChildRecord
  pub supervisor_record : ChildRecord
  pub budget : RestartBudget
  pub restarts_this_session : ℕ
  pub interventions : List (String × ℕ)
  pub turn : TurnState
  pub events_appended : ℕ
  pub supervisor_silent_warned : Bool
  pub prompts_in_flight : List ℕ
  pub run_ctx : Text
  pub comm_seq : ℕ
  pub halted : Bool

unfoldable pub new_comm_state : ℕ → CommState
unfolding new_budget
new_comm_state per_turn_restarts = record {
  executor_record = new_child_record 0;
  supervisor_record = new_child_record 0;
  budget = new_budget per_turn_restarts 3 60000;
  restarts_this_session = 0;
  interventions = [];
  turn = idle;
  events_appended = 0;
  supervisor_silent_warned = false;
  prompts_in_flight = [];
  run_ctx = [];
  comm_seq = 0;
  halted = false;
}

abbrev pub child_of : ChildRole → CommState → ChildRecord
child_of executor s = s.executor_record
child_of supervisor s = s.supervisor_record

abbrev pub set_child : ChildRole → ChildRecord → CommState → CommState
set_child executor r s = record s { executor_record = r }
set_child supervisor r s = record s { supervisor_record = r }

unfoldable pub next_epoch : ChildRole → CommState → ℕ
next_epoch role s = suc (child_of role s).epoch

unfoldable pub start_turn : ℕ → Prompt → CommState → CommState
unfolding turn_started reset_idle
start_turn now prompt s = record s {
  turn = running (record { since = now; tool_calls = 0; prompt = prompt; resumed = 0 });
  budget = reset_idle (turn_started s.budget);
}

unfoldable pub end_turn : CommState → CommState
end_turn s = record s { turn = idle }

abbrev resume_turn : TurnState → TurnState
resume_turn idle = idle
resume_turn (running t) = running (record t { resumed = t.resumed + 1 })
resume_turn (waiting_for_answer t ask) = running (record t { resumed = t.resumed + 1 })

unfoldable pub mark_resumed : CommState → CommState
mark_resumed s = record s { turn = resume_turn s.turn }

abbrev wait_turn : Ask → TurnState → TurnState
wait_turn ask idle = idle
wait_turn ask (running t) = waiting_for_answer t ask
wait_turn ask (waiting_for_answer t old) = waiting_for_answer t ask

unfoldable pub wait_for_answer : Ask → CommState → CommState
wait_for_answer ask s = record s { turn = wait_turn ask s.turn }

abbrev answer_turn : TurnState → TurnState
answer_turn idle = idle
answer_turn (running t) = running t
answer_turn (waiting_for_answer t ask) = running t

unfoldable pub answered : CommState → CommState
answered s = record s { turn = answer_turn s.turn }

abbrev more_calls : TurnState → TurnState
more_calls idle = idle
more_calls (running t) = running (record t { tool_calls = t.tool_calls + 1 })
more_calls (waiting_for_answer t ask) =
    waiting_for_answer (record t { tool_calls = t.tool_calls + 1 }) ask

unfoldable pub count_tool_call : CommState → CommState
count_tool_call s = record s { turn = more_calls s.turn }

unfoldable pub count_intervention : String → CommState → CommState
unfolding lookup insert
count_intervention kind s = record s {
  interventions = insert kind (or_else (lookup kind s.interventions) 0 + 1) s.interventions;
}

-- The list of tool processes is the part of a heartbeat that is read later.
unfoldable pub record_heartbeat : ChildRole → ℕ → List ℕ → CommState → CommState
record_heartbeat role now children s =
    set_child role
      (record (child_of role s) { last_heartbeat_at = some now; last_children = children }) s

abbrev age : ℕ → Option ℕ → Option ℕ
age now none = none
age now (some at) = some (now - at)

unfoldable pub heartbeat_age : ChildRole → ℕ → CommState → Option ℕ
heartbeat_age role now s = age now (child_of role s).last_heartbeat_at

pub record ChildStatus : Type 0 where
  pub role : ChildRole
  pub state : ChildState
  pub epoch : ℕ
  pub heartbeat_age_ms : Option ℕ
  pub exit_code : Option ℕ
  pub signal : Option String

pub data TurnKind : Type 0 where
  idle_turn running_turn waiting_turn : TurnKind

pub record StatusSnapshot : Type 0 where
  pub children : List ChildStatus
  pub restarts_this_session : ℕ
  pub interventions : List (String × ℕ)
  pub turn : TurnKind
  pub turn_since_ms : Option ℕ
  pub turn_tool_calls : ℕ
  pub events_appended : ℕ

abbrev kind_of : TurnState → TurnKind
kind_of idle = idle_turn
kind_of (running t) = running_turn
kind_of (waiting_for_answer t ask) = waiting_turn

abbrev turn_of : TurnState → Option Turn
turn_of idle = none
turn_of (running t) = some t
turn_of (waiting_for_answer t ask) = some t

abbrev since_ms : ℕ → Option Turn → Option ℕ
since_ms now none = none
since_ms now (some t) = some (now - t.since)

abbrev calls_of : Option Turn → ℕ
calls_of none = 0
calls_of (some t) = t.tool_calls

child_status : ChildRole → ℕ → CommState → ChildStatus
unfolding heartbeat_age
child_status role now s = record {
  role = role;
  state = (child_of role s).state;
  epoch = (child_of role s).epoch;
  heartbeat_age_ms = heartbeat_age role now s;
  exit_code = (child_of role s).exit_code;
  signal = (child_of role s).signal;
}

-- What `/status` shows; the ids of the session and of the processes are left out.
pub to_status_snapshot : ℕ → CommState → StatusSnapshot
unfolding child_status
to_status_snapshot now s = record {
  children = child_status executor now s ∷ child_status supervisor now s ∷ [];
  restarts_this_session = s.restarts_this_session;
  interventions = s.interventions;
  turn = kind_of s.turn;
  turn_since_ms = since_ms now (turn_of s.turn);
  turn_tool_calls = calls_of (turn_of s.turn);
  events_appended = s.events_appended;
}
