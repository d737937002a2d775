-- ===== src/Communicator/Messages.antt =====
-- src/communicator/core.ts: what the Communicator does with the messages of its children, and its
-- watch over the Supervisor's heartbeats. A child is named by its role and its epoch.
use hera_v.Shared.{
  ℕ, ◌+◌, ◌*◌, String, Bool, true, false, not, ◌&&◌, Option, none, some, List, [], ◌∷◌,
  if◌then◌else◌, ltb, or_else,
}
use hera_v.Shared.Text.{Text}
use hera_v.Process.Envelope.{ProcId, comm, exec, sup}
use hera_v.Process.Lifecycle.{ChildRole, executor, supervisor}
use hera_v.Communicator.State
use hera_v.Communicator.State.{
  CommState, Prompt, Ask, ChildRecord, ready, new_child_record, new_comm_state, start_turn,
  wait_for_answer, answered, count_tool_call, count_intervention, record_heartbeat, heartbeat_age,
}
use hera_v.Communicator.Store.{
  Communicator, Event, EventKind, tool_call_requested, turn_finished, supervisor_intervention,
  failure, halted_run, other_event, run_halted, admission_refused, Sent, resolve, shows, notices,
  asks, kills, ends_turn, rejects, append_failed, restart_requested, admission, supervisor_silent,
  emit, with_state, is_current, send_to, append_own, append_numbered, relay_to, is_ready_role,
  copy_to_supervisor,
}
use hera_v.Communicator.Spawning.{close_turn, on_hello, on_ack}

-- The payload of a message to the Communicator.
pub data Message : Type 0 where
  hello debug_line : Message
  ack : ℕ → Message
  heartbeat : List ℕ → Message
  event : Event → Message
  ask_user : Ask → Message
  restart_request : Text → Message
  admit_result : Bool → Option Text → Message
  halted : Message
  other : String → Message

abbrev is_exec : ProcId → Bool
is_exec exec = true
is_exec comm = false
is_exec sup = false

abbrev finish_turn : Communicator → Communicator
unfolding close_turn
finish_turn c = close_turn (with_state (λ s. record s { prompts_in_flight = [] }) c)

-- `onTurnEnd` is an output: a frontend that submits a prompt from within it is left out.
unfoldable pub track_event : ProcId → EventKind → Communicator → Communicator
unfolding count_tool_call count_intervention finish_turn
track_event proc tool_call_requested c = with_state count_tool_call c
track_event proc (supervisor_intervention kind) c = with_state (count_intervention kind) c
track_event proc turn_finished c = if is_exec proc then finish_turn c else c
track_event proc (failure what) c = c
track_event proc halted_run c = c
track_event proc (other_event name) c = c

abbrev copy_from : ChildRole → ℕ → Communicator → Communicator
unfolding copy_to_supervisor
copy_from executor id c = copy_to_supervisor id c
copy_from supervisor id c = c

-- Without an ack the write-ahead wait of the Executor decides. An append fails before it writes.
unfoldable pub on_child_event : ChildRole → ℕ → ℕ → Event → Communicator → Communicator
unfolding send_to copy_from track_event
on_child_event role epoch id e c =
    if c.writable
    then (let copied =
          copy_from role id (send_to role epoch (Sent.ack id) (record c { log = e ∷ c.log })) in
        emit (shows e) (
          track_event e.proc e.kind
            (with_state (λ s. record s { events_appended = s.events_appended + 1 }) copied)))
    else emit (notices append_failed) c

abbrev deny_effect : Option Text → ChildRole → ℕ → Communicator → Communicator
unfolding send_to
deny_effect none role epoch c = c
deny_effect (some []) role epoch c = c
deny_effect (some (x ∷ xs)) role epoch c = send_to role epoch (resolve (x ∷ xs) false) c

unfoldable pub on_ask_user : ChildRole → ℕ → Ask → Communicator → Communicator
unfolding wait_for_answer deny_effect
on_ask_user role epoch ask c =
    let waiting = with_state (wait_for_answer ask) c in
    emit (asks ask) (
      if ask.is_pending && not c.handles_pending
      then deny_effect ask.effect_id role epoch waiting
      else waiting)

abbrev kill_current : ChildRole → Option ℕ → Communicator → Communicator
kill_current role none c = c
kill_current role (some epoch) c = emit (kills role epoch) c

unfoldable pub on_restart_request : Text → Communicator → Communicator
on_restart_request reason c =
    kill_current executor c.live_executor (emit (notices (restart_requested reason)) c)

abbrev admit : ChildRole → Bool → Option Text → Communicator → Communicator
unfolding append_own
admit role true (some ctx) c = with_state (λ s. record s { run_ctx = ctx }) c
admit role _ _ c = append_own (admission_refused role) (emit (notices (admission role)) c)

unfoldable pub on_admit_result :
    ChildRole → ℕ → ℕ → Bool → Option Text → Communicator → Communicator
unfolding admit send_to
on_admit_result role epoch id admitted ctx c =
    send_to role epoch (Sent.ack id) (admit role admitted ctx c)

abbrev pub proc_of : ChildRole → ProcId
proc_of executor = exec
proc_of supervisor = sup

abbrev is_executor : ChildRole → Bool
is_executor executor = true
is_executor supervisor = false

unfoldable pub on_halted : ChildRole → ℕ → ℕ → Communicator → Communicator
unfolding append_numbered send_to State.end_turn append_own
on_halted role epoch id c =
    let noted = send_to role epoch (Sent.ack id) (append_numbered (proc_of role) halted_run c) in
    if is_executor role && is_current role epoch noted
    then emit ends_turn (
        append_own run_halted (with_state (λ s. State.end_turn (record s { halted = true })) noted))
    else noted

unfoldable pub on_heartbeat : ChildRole → ℕ → ℕ → List ℕ → Communicator → Communicator
unfolding record_heartbeat relay_to
on_heartbeat executor now id children c =
    relay_to sup id (with_state (record_heartbeat executor now children) c)
on_heartbeat supervisor now id children c = with_state (record_heartbeat supervisor now children) c

-- What is done with a message for the Communicator, by its type.
unfoldable pub receive : ChildRole → ℕ → ℕ → ℕ → Message → Communicator → Communicator
unfolding on_hello on_ack on_heartbeat on_child_event on_ask_user on_restart_request on_admit_result
    on_halted
receive role epoch now id hello c = on_hello role epoch c
receive role epoch now id (ack ref) c = on_ack role epoch ref c
receive role epoch now id (heartbeat children) c = on_heartbeat role now id children c
receive role epoch now id (event e) c = on_child_event role epoch id e c
receive role epoch now id (ask_user ask) c = on_ask_user role epoch ask c
receive role epoch now id (restart_request reason) c = on_restart_request reason c
receive role epoch now id (admit_result admitted ctx) c =
    on_admit_result role epoch id admitted ctx c
receive role epoch now id halted c = on_halted role epoch id c
receive role epoch now id debug_line c = c
receive role epoch now id (other type) c = emit (rejects type) c

-- `route`: what is not for the Communicator is relayed.
unfoldable pub route : ChildRole → ℕ → ℕ → ProcId → ℕ → Message → Communicator → Communicator
unfolding receive relay_to
route role epoch now comm id m c = receive role epoch now id m c
route role epoch now exec id m c = relay_to exec id c
route role epoch now sup id m c = relay_to sup id c

abbrev is_silent : ℕ → Option ℕ → Bool
is_silent heartbeat_ms none = false
is_silent heartbeat_ms (some age) = ltb (2 * heartbeat_ms) age

abbrev pub warned : Bool → Communicator → Communicator
warned b c = with_state (λ s. record s { supervisor_silent_warned = b }) c

unfoldable pub check_supervisor_silence : ℕ → ℕ → Communicator → Communicator
unfolding is_ready_role heartbeat_age
check_supervisor_silence heartbeat_ms now c =
    let age = heartbeat_age supervisor now c.state in
    if not (is_ready_role supervisor c)
    then c
    else (if is_silent heartbeat_ms age
        then (if c.state.supervisor_silent_warned
            then c
            else emit (notices (supervisor_silent (or_else age 0))) (warned true c))
        else warned false c)
