-- ===== src/Communicator/Core/Halted.antt =====
-- What a halt ends for good.
pub mod Waiting
mod Children
use hera_v.Shared.{ℕ, ◌≡◌, refl, Option, none, some, List, [], ◌∷◌, arith}
use hera_v.Process.Envelope.{comm, exec, sup}
use hera_v.Process.Lifecycle.{ChildRole, executor, supervisor}
use hera_v.Communicator.State.{Prompt, answered}
use hera_v.Communicator.Store.{
  Communicator, Sent, answer, cancel, resolve, halt, continue, Event, with_state, send_current,
  send_if,
}
use hera_v.Communicator.Spawning.{stage_of}
use hera_v.Communicator.Messages.{
  Message, hello, debug_line, ack, heartbeat, event, ask_user, restart_request, admit_result,
  halted, other, on_child_event, receive,
}
use hera_v.Communicator.Core.{
  Input, submits, answers, cancels, resolves, halts, continues, sent, exits, times_out,
  checks_silence, shuts_down, sets_writable, step, run,
}
use hera_v.Communicator.Core.Halted.Waiting.{prompts_of_sent, IsHalted, stage_of-free, counts_on}
use hera_v.Communicator.Core.Halted.Children.{
  send_to-IsHalted, on_exit-IsHalted, submit_prompt-IsHalted, timeout_at-IsHalted, ack_at-IsHalted,
  hello_at-IsHalted,
}

module _ {ps : List Prompt} where
  on_child_event-IsHalted :
      (role : ChildRole) (epoch id : ℕ) (e : Event) {c : Communicator}
      → IsHalted ps c
      → IsHalted ps (on_child_event role epoch id e c)
  unfolding on_child_event
  on_child_event-IsHalted role epoch id e {c} r = ground (arith, counts_on role epoch c.processes)

  receive-IsHalted :
      (role : ChildRole) (epoch now id : ℕ) (m : Message) {c : Communicator}
      → IsHalted ps c
      → IsHalted ps (receive role epoch now id m c)
  unfolding receive
  receive-IsHalted role epoch now id hello {c} r =
      hello_at-IsHalted (stage_of role epoch c) role epoch (stage_of-free role epoch c r.free) r
  receive-IsHalted role epoch now id (ack ref) {c} r =
      ack_at-IsHalted (stage_of role epoch c) role epoch ref (stage_of-free role epoch c r.free) r
  receive-IsHalted executor epoch now id (heartbeat children) r = ground arith
  receive-IsHalted supervisor epoch now id (heartbeat children) r = ground arith
  receive-IsHalted role epoch now id (event e) r = on_child_event-IsHalted role epoch id e r
  receive-IsHalted role epoch now id (ask_user ask) {c} r =
      ground (arith, counts_on role epoch c.processes)
  receive-IsHalted role epoch now id (restart_request reason) r = ground arith
  receive-IsHalted role epoch now id (admit_result admitted ctx) {c} r =
      ground (arith, counts_on role epoch c.processes)
  receive-IsHalted role epoch now id halted {c} r = ground (arith, counts_on role epoch c.processes)
  receive-IsHalted role epoch now id debug_line r = r
  receive-IsHalted role epoch now id (other type) r = ground arith

  send_if-IsHalted :
      (e : Option ℕ) (role : ChildRole) (what : Sent) {c : Communicator}
      → prompts_of_sent what [] ≡ []
      → IsHalted ps c
      → IsHalted ps (send_if e role what c)
  send_if-IsHalted none role what h r = r
  send_if-IsHalted (some epoch) role what h r = send_to-IsHalted role epoch what h r

  answered-IsHalted : {c : Communicator} → IsHalted ps c → IsHalted ps (with_state answered c)
  unfolding answered
  answered-IsHalted r = ground arith

  step-IsHalted : (i : Input) {c : Communicator} → IsHalted ps c → IsHalted ps (step i c)
  unfolding step
  step-IsHalted (submits now p) r = submit_prompt-IsHalted now p r
  step-IsHalted (answers text) {c} r =
      answered-IsHalted (send_if-IsHalted c.live_executor executor (answer text) refl r)
  step-IsHalted cancels {c} r = send_if-IsHalted c.live_executor executor cancel refl r
  step-IsHalted (resolves effect_id allowed) {c} r =
      send_if-IsHalted c.live_executor executor (resolve effect_id allowed) refl r
  step-IsHalted halts {c} r =
      send_if-IsHalted (send_current executor halt c).live_supervisor supervisor halt refl
        (send_if-IsHalted c.live_executor executor halt refl r)
  step-IsHalted (continues proceed) {c} r =
      answered-IsHalted (send_if-IsHalted c.live_executor executor (continue proceed) refl r)
  step-IsHalted (sent role epoch now comm id m) r =
      ground (arith, receive-IsHalted role epoch now id m r)
  step-IsHalted (sent role epoch now exec id m) r = ground arith
  step-IsHalted (sent role epoch now sup id m) r = ground arith
  step-IsHalted (exits role epoch now code signal) r = on_exit-IsHalted role epoch now code signal r
  step-IsHalted (times_out role epoch) {c} r =
      timeout_at-IsHalted (stage_of role epoch c) role epoch r
  step-IsHalted (checks_silence heartbeat_ms now) r = ground arith
  step-IsHalted shuts_down r = ground arith
  step-IsHalted (sets_writable b) r = ground arith

  -- Once the run is halted with no turn active and no prompt waiting for an Executor to start, no
  -- prompt is ever sent again, whatever is submitted, and whatever happens to the children.
  pub run-IsHalted : (is : List Input) {c : Communicator} → IsHalted ps c → IsHalted ps (run is c)
  unfolding run
  run-IsHalted [] r = r
  run-IsHalted (i ∷ is) r = run-IsHalted is (step-IsHalted i r)
