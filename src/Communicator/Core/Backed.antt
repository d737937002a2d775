-- ===== src/Communicator/Core/Backed.antt =====
-- The current Executor is a process that has not exited, whatever happens.
pub mod Children
use hera_v.Shared.{ℕ, Option, none, some, List, [], ◌∷◌, arith}
use hera_v.Process.Envelope.{comm, exec, sup}
use hera_v.Process.Lifecycle.{ChildRole, executor, supervisor}
use hera_v.Communicator.State.{answered}
use hera_v.Communicator.Store.{
  Communicator, Sent, answer, cancel, resolve, halt, continue, Event, send_if, send_current,
  with_state,
}
use hera_v.Communicator.Spawning.{stage_of}
use hera_v.Communicator.Messages.{
  Message, hello, debug_line, ack, heartbeat, event, ask_user, restart_request, admit_result,
  halted, other, on_child_event, receive,
}
use hera_v.Communicator.Core.{
  Input, submits, answers, cancels, resolves, halts, continues, sent, exits, times_out,
  checks_silence, shuts_down, sets_writable, step, run,
}
use hera_v.Communicator.Core.Backed.Children.{
  IsBacked, counted_on, send_to-IsBacked, on_exit-IsBacked, submit_prompt-IsBacked,
  timeout_at-IsBacked, ack_at-IsBacked, hello_at-IsBacked,
}

on_child_event-IsBacked :
    (role : ChildRole) (epoch id : ℕ) (e : Event) {c : Communicator}
    → IsBacked c
    → IsBacked (on_child_event role epoch id e c)
unfolding on_child_event
on_child_event-IsBacked role epoch id e {c} r =
    ground (arith, counted_on role epoch c.live_executor c.processes)

receive-IsBacked :
    (role : ChildRole) (epoch now id : ℕ) (m : Message) {c : Communicator}
    → IsBacked c
    → IsBacked (receive role epoch now id m c)
unfolding receive
receive-IsBacked role epoch now id hello {c} r =
    hello_at-IsBacked (stage_of role epoch c) role epoch r
receive-IsBacked role epoch now id (ack ref) {c} r =
    ack_at-IsBacked (stage_of role epoch c) role epoch ref r
receive-IsBacked executor epoch now id (heartbeat children) r = ground arith
receive-IsBacked supervisor epoch now id (heartbeat children) r = ground arith
receive-IsBacked role epoch now id (event e) r = on_child_event-IsBacked role epoch id e r
receive-IsBacked role epoch now id (ask_user ask) {c} r =
    ground (arith, counted_on role epoch c.live_executor c.processes)
receive-IsBacked role epoch now id (restart_request reason) r = ground arith
receive-IsBacked role epoch now id (admit_result admitted ctx) {c} r =
    ground (arith, counted_on role epoch c.live_executor c.processes)
receive-IsBacked role epoch now id halted {c} r =
    ground (arith, counted_on role epoch c.live_executor c.processes)
receive-IsBacked role epoch now id debug_line r = r
receive-IsBacked role epoch now id (other type) r = ground arith

send_if-IsBacked :
    (e : Option ℕ) (role : ChildRole) (what : Sent) {c : Communicator}
    → IsBacked c
    → IsBacked (send_if e role what c)
send_if-IsBacked none role what r = r
send_if-IsBacked (some epoch) role what r = send_to-IsBacked role epoch what r

answered-IsBacked : {c : Communicator} → IsBacked c → IsBacked (with_state answered c)
answered-IsBacked r = ground arith

step-IsBacked : (i : Input) {c : Communicator} → IsBacked c → IsBacked (step i c)
unfolding step
step-IsBacked (submits now p) r = submit_prompt-IsBacked now p r
step-IsBacked (answers text) {c} r =
    answered-IsBacked (send_if-IsBacked c.live_executor executor (answer text) r)
step-IsBacked cancels {c} r = send_if-IsBacked c.live_executor executor cancel r
step-IsBacked (resolves effect_id allowed) {c} r =
    send_if-IsBacked c.live_executor executor (resolve effect_id allowed) r
step-IsBacked halts {c} r =
    send_if-IsBacked (send_current executor halt c).live_supervisor supervisor halt
      (send_if-IsBacked c.live_executor executor halt r)
step-IsBacked (continues proceed) {c} r =
    answered-IsBacked (send_if-IsBacked c.live_executor executor (continue proceed) r)
step-IsBacked (sent role epoch now comm id m) r =
    ground (arith, receive-IsBacked role epoch now id m r)
step-IsBacked (sent role epoch now exec id m) r = ground arith
step-IsBacked (sent role epoch now sup id m) r = ground arith
step-IsBacked (exits role epoch now code signal) r = on_exit-IsBacked role epoch now code signal r
step-IsBacked (times_out role epoch) {c} r =
    timeout_at-IsBacked (stage_of role epoch c) role epoch r
step-IsBacked (checks_silence heartbeat_ms now) r = ground arith
step-IsBacked shuts_down r = ground arith
step-IsBacked (sets_writable b) r = ground arith

pub run-IsBacked : (is : List Input) {c : Communicator} → IsBacked c → IsBacked (run is c)
unfolding run
run-IsBacked [] r = r
run-IsBacked (i ∷ is) r = run-IsBacked is (step-IsBacked i r)
