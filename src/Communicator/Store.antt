-- ===== src/Communicator/Store.antt =====
-- src/communicator/core.ts: the data of the Communicator, and the small operations that its handlers
-- share. What it does to the outside is a trace; whether the session file can be written is a
-- part of the state that the environment changes.
use hera_v.Shared.{
  ℕ, ◌+◌, String, Bool, true, false, ◌&&◌, Option, none, some, List, [], ◌∷◌, if◌then◌else◌, ◌==◌,
  map,
}
use hera_v.Shared.Text.{Text}
use hera_v.Process.Envelope.{ProcId, comm, exec, sup}
use hera_v.Process.Lifecycle.{ChildRole, executor, supervisor}
use hera_v.Communicator.State.{CommState, Prompt, Ask}

-- The Communicator's own error lines, by what they say.
pub data Complaint : Type 0 where
  run_is_halted run_halted respawn_failed budget_exhausted : Complaint
  child_exited : ChildRole → Complaint
  restart_performed : ℕ → Complaint
  admission_refused : ChildRole → Complaint

pub data EventKind : Type 0 where
  tool_call_requested turn_finished : EventKind
  supervisor_intervention : String → EventKind
  failure : Complaint → EventKind
  halted_run : EventKind
  other_event : String → EventKind

pub record Event : Type 0 where
  pub proc : ProcId
  pub kind : EventKind
  pub seq : Option ℕ

-- What the Communicator sends to a child of its own accord.
pub data Sent : Type 0 where
  session_open : Sent
  prompt : Prompt → Sent
  answer : Text → Sent
  cancel : Sent
  resolve : Text → Bool → Sent
  halt : Sent
  continue : Bool → Sent
  ack : ℕ → Sent

pub data Notice : Type 0 where
  append_failed : Notice
  restart_requested : Text → Notice
  child_gone : ChildRole → Notice
  could_not_respawn : ChildRole → Notice
  admission : ChildRole → Notice
  supervisor_silent : ℕ → Notice

-- A child is named by its role and its epoch.
pub data Action : Type 0 where
  sends : ChildRole → ℕ → ℕ → Sent → Action
  relays : ChildRole → ℕ → ℕ → Action
  shows : Event → Action
  notices : Notice → Action
  asks : Ask → Action
  kills : ChildRole → ℕ → Action
  spawns : ChildRole → ℕ → Action
  ends_turn : Action
  rejects : String → Action

-- What follows once a respawned child has opened the session.
pub data Then : Type 0 where
  nothing : Then
  send_the_prompt : Prompt → Then
  resume_the_turn : Prompt → Then

-- Where `respawn` waits for a child: for its hello, for its ack of `session_open`, or no more.
pub data Stage : Type 0 where
  awaits_hello : Then → Stage
  awaits_open : ℕ → Then → Stage
  settled : Stage

-- `LiveChild`, for every process that has not exited.
pub record LiveChild : Type 0 where
  pub role : ChildRole
  pub epoch : ℕ
  pub is_ready : Bool
  pub next_id : ℕ
  pub stage : Stage

-- `live` holds at most one process of a role; the others have been replaced. The newest entry of
-- the log and of the trace comes first.
pub record Communicator : Type 0 where
  pub state : CommState
  pub processes : List LiveChild
  pub live_executor : Option ℕ
  pub live_supervisor : Option ℕ
  pub executor_stopped : Bool
  pub shutting_down : Bool
  pub handles_pending : Bool
  pub writable : Bool
  pub log : List Event
  pub trace : List Action

abbrev pub emit : Action → Communicator → Communicator
emit a c = record c { trace = a ∷ c.trace }

abbrev pub with_state : (CommState → CommState) → Communicator → Communicator
with_state f c = record c { state = f c.state }

abbrev pub same_role : ChildRole → ChildRole → Bool
same_role executor executor = true
same_role supervisor supervisor = true
same_role _ _ = false

abbrev pub is_child : ChildRole → ℕ → LiveChild → Bool
is_child role epoch l = same_role l.role role && l.epoch == epoch

unfoldable pub find_child : ChildRole → ℕ → List LiveChild → Option LiveChild
find_child role epoch [] = none
find_child role epoch (l ∷ ls) = if is_child role epoch l then some l else find_child role epoch ls

unfoldable pub change_child : ChildRole → ℕ → (LiveChild → LiveChild) → Communicator → Communicator
change_child role epoch f c = record c {
  processes = map (λ l. if is_child role epoch l then f l else l) c.processes;
}

abbrev pub current : ChildRole → Communicator → Option ℕ
current executor c = c.live_executor
current supervisor c = c.live_supervisor

abbrev pub set_current : ChildRole → Option ℕ → Communicator → Communicator
set_current executor e c = record c { live_executor = e }
set_current supervisor e c = record c { live_supervisor = e }

abbrev is_current_of : Option ℕ → ℕ → Bool
is_current_of none epoch = false
is_current_of (some e) epoch = e == epoch

abbrev pub is_current : ChildRole → ℕ → Communicator → Bool
is_current role epoch c = is_current_of (current role c) epoch

-- `channel.send`: the channel of the child counts the id on.
abbrev send_as : Option LiveChild → ChildRole → ℕ → Sent → Communicator → Communicator
send_as none role epoch what c = c
send_as (some l) role epoch what c =
    emit (sends role epoch l.next_id what)
      (change_child role epoch (λ l. record l { next_id = l.next_id + 1 }) c)

unfoldable pub send_to : ChildRole → ℕ → Sent → Communicator → Communicator
unfolding find_child change_child
send_to role epoch what c = send_as (find_child role epoch c.processes) role epoch what c

abbrev pub send_if : Option ℕ → ChildRole → Sent → Communicator → Communicator
send_if none role what c = c
send_if (some epoch) role what c = send_to role epoch what c

-- `this.live[role]?.channel?.send(...)`
unfoldable pub send_current : ChildRole → Sent → Communicator → Communicator
unfolding send_to
send_current role what c = send_if (current role c) role what c

-- `this.store.append(event)`, which throws if the file cannot be written. It writes a line whole or not
-- at all; that it can throw when the line stands in the file, as `fsync` may, is left out.
unfoldable pub append_and_notify : Event → Communicator → Communicator
append_and_notify event c =
    if c.writable
    then emit (shows event) (record c {
      log = event ∷ c.log;
      state = record c.state { events_appended = c.state.events_appended + 1 };
    })
    else emit (notices append_failed) c

-- An event with the next number of the Communicator's own: `ownError`, `appendOwnEvent`.
unfoldable pub append_numbered : ProcId → EventKind → Communicator → Communicator
unfolding append_and_notify
append_numbered proc kind c =
    append_and_notify (record { proc = proc; kind = kind; seq = some c.state.comm_seq })
      (with_state (λ s. record s { comm_seq = s.comm_seq + 1 }) c)

unfoldable pub append_own : Complaint → Communicator → Communicator
unfolding append_numbered
append_own what c = append_numbered comm (failure what) c

abbrev ready_child : Option LiveChild → Bool
ready_child none = false
ready_child (some l) = l.is_ready

abbrev relay_if : Option ℕ → ChildRole → ℕ → Communicator → Communicator
relay_if none role id c = c
relay_if (some epoch) role id c = emit (relays role epoch id) c

-- `relayTo`: a live child has not exited.
unfoldable pub relay_to : ProcId → ℕ → Communicator → Communicator
relay_to comm id c = c
relay_to exec id c = relay_if c.live_executor executor id c
relay_to sup id c = relay_if c.live_supervisor supervisor id c

abbrev is_ready_at : ChildRole → Option ℕ → Communicator → Bool
is_ready_at role none c = false
is_ready_at role (some epoch) c = ready_child (find_child role epoch c.processes)

unfoldable pub is_ready_role : ChildRole → Communicator → Bool
unfolding find_child
is_ready_role role c = is_ready_at role (current role c) c

unfoldable pub copy_to_supervisor : ℕ → Communicator → Communicator
unfolding is_ready_role
copy_to_supervisor id c =
    if is_ready_role supervisor c then relay_if c.live_supervisor supervisor id c else c
