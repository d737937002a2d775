-- ===== src/Communicator/Core/Log.antt =====
-- The session file as the frontend sees it.
pub mod Views
mod Children
use hera_v.Shared.{ℕ, is_some, if◌then◌else◌, ◌≡◌, true, List, [], ◌∷◌, arith}
use hera_v.Process.Envelope.{ProcId, comm, exec, sup}
use hera_v.Process.Lifecycle.{ChildRole, executor, supervisor}
use hera_v.Communicator.State.{Prompt}
use hera_v.Communicator.Store.{Communicator, Event, EventKind, find_child}
use hera_v.Communicator.Messages.{
  Message, hello, debug_line, ack, heartbeat, event, ask_user, restart_request, admit_result,
  halted, other, track_event, on_child_event, receive,
}
use hera_v.Communicator.Core.{
  submit_prompt, Input, submits, answers, cancels, resolves, halts, continues, sent, exits,
  times_out, checks_silence, shuts_down, sets_writable, step, run,
}
use hera_v.Communicator.Core.Log.Views.{IsRecorded}
use hera_v.Communicator.Core.Log.Children.{
  on_hello-IsRecorded, on_ack-IsRecorded, on_timeout-IsRecorded, on_exit-IsRecorded,
}

track_event-IsRecorded :
    (proc : ProcId) (kind : EventKind) {c : Communicator}
    → IsRecorded c
    → IsRecorded (track_event proc kind c)
unfolding track_event
track_event-IsRecorded proc kind r = ground arith

on_child_event-IsRecorded :
    (role : ChildRole) (epoch id : ℕ) (e : Event) {c : Communicator}
    → IsRecorded c
    → IsRecorded (on_child_event role epoch id e c)
unfolding on_child_event
on_child_event-IsRecorded role epoch id e r = ground arith

receive-IsRecorded :
    (role : ChildRole) (epoch now id : ℕ) (m : Message) {c : Communicator}
    → IsRecorded c
    → IsRecorded (receive role epoch now id m c)
unfolding receive
receive-IsRecorded role epoch now id hello r = on_hello-IsRecorded role epoch r
receive-IsRecorded role epoch now id (ack ref) r = on_ack-IsRecorded role epoch ref r
receive-IsRecorded executor epoch now id (heartbeat children) r = ground arith
receive-IsRecorded supervisor epoch now id (heartbeat children) r = ground arith
receive-IsRecorded role epoch now id (event e) r = on_child_event-IsRecorded role epoch id e r
receive-IsRecorded role epoch now id (ask_user ask) r = ground arith
receive-IsRecorded role epoch now id (restart_request reason) r = ground arith
receive-IsRecorded role epoch now id (admit_result admitted ctx) r = ground arith
receive-IsRecorded role epoch now id halted r = ground arith
receive-IsRecorded role epoch now id debug_line r = r
receive-IsRecorded role epoch now id (other type) r = ground arith

submit_prompt-IsRecorded :
    (now : ℕ) (p : Prompt) {c : Communicator} → IsRecorded c → IsRecorded (submit_prompt now p c)
unfolding submit_prompt
submit_prompt-IsRecorded now p r = ground arith

step-IsRecorded : (i : Input) {c : Communicator} → IsRecorded c → IsRecorded (step i c)
unfolding step
step-IsRecorded (submits now p) r = submit_prompt-IsRecorded now p r
step-IsRecorded (answers text) r = ground arith
step-IsRecorded cancels r = ground arith
step-IsRecorded (resolves effect_id allowed) r = ground arith
step-IsRecorded halts r = ground arith
step-IsRecorded (continues proceed) r = ground arith
step-IsRecorded (sent role epoch now comm id m) {c} r =
    ground (arith, receive-IsRecorded role epoch now id m r)
step-IsRecorded (sent role epoch now exec id m) r = ground arith
step-IsRecorded (sent role epoch now sup id m) r = ground arith
step-IsRecorded (exits role epoch now code signal) r =
    on_exit-IsRecorded role epoch now code signal r
step-IsRecorded (times_out role epoch) r = on_timeout-IsRecorded role epoch r
step-IsRecorded (checks_silence heartbeat_ms now) r = ground arith
step-IsRecorded shuts_down r = ground arith
step-IsRecorded (sets_writable b) r = ground arith

-- Whatever happens, the frontend has been shown exactly the events that are in the session file, each
-- once and in the order of the file, and the count of the events appended is the file's length.
pub run-IsRecorded : (is : List Input) {c : Communicator} → IsRecorded c → IsRecorded (run is c)
unfolding run
run-IsRecorded [] r = r
run-IsRecorded (i ∷ is) r = run-IsRecorded is (step-IsRecorded i r)
