-- ===== src/Communicator/Core/Quiet.antt =====
-- The operations of the Communicator that neither begin nor end a turn, a process or a restart.
use hera_v.Shared.{ℕ, ◌≡◌, ◌∙◌, Bool, true, false, arith}
use hera_v.Process.Envelope.{ProcId, comm, exec, sup}
use hera_v.Process.Lifecycle.{ChildRole, executor, supervisor}
use hera_v.Communicator.State.{Prompt, ChildRecord, mark_resumed}
use hera_v.Communicator.Store.{
  Communicator, Sent, EventKind, Then, nothing, send_the_prompt, resume_the_turn, Complaint,
  with_state, send_to, append_own, append_numbered, relay_to,
}
use hera_v.Communicator.Spawning.{
  is_turn_active, send_prompt, run_then, on_hello, on_ack, change_record,
}
use hera_v.Communicator.Messages.{
  Message, hello, debug_line, ack, heartbeat, event, ask_user, restart_request, admit_result,
  halted, other, receive,
}
use hera_v.Communicator.Core.{
  Input, submits, answers, cancels, resolves, halts, continues, sent, exits, times_out,
  checks_silence, shuts_down, sets_writable, step,
}

-- What most operations leave alone.
pub record IsQuiet (c c' : Communicator) : Type 0 where
  pub same_budget : c'.state.budget ≡ c.state.budget
  pub same_restarts : c'.state.restarts_this_session ≡ c.state.restarts_this_session
  pub same_executor : c'.live_executor ≡ c.live_executor
  pub same_shutting_down : c'.shutting_down ≡ c.shutting_down
  pub same_halted : c'.state.halted ≡ c.state.halted
  pub same_activity : is_turn_active c' ≡ is_turn_active c

pub send_to-IsQuiet :
    (role : ChildRole) (epoch : ℕ) (what : Sent) (c : Communicator)
    → IsQuiet c (send_to role epoch what c)
unfolding send_to
send_to-IsQuiet role epoch what c = ground arith

pub append_numbered-IsQuiet :
    (proc : ProcId) (kind : EventKind) (c : Communicator) → IsQuiet c (append_numbered proc kind c)
unfolding append_numbered
append_numbered-IsQuiet proc kind c = ground arith

pub change_record-IsQuiet :
    (role : ChildRole) (epoch : ℕ) (f : ChildRecord → ChildRecord) (c : Communicator)
    → IsQuiet c (change_record role epoch f c)
unfolding change_record
change_record-IsQuiet executor epoch f c = ground arith
change_record-IsQuiet supervisor epoch f c = ground arith

pub send_prompt-IsQuiet : (p : Prompt) (c : Communicator) → IsQuiet c (send_prompt p c)
unfolding send_prompt
send_prompt-IsQuiet p c = ground arith

pub IsQuiet-trans : {a b c : Communicator} → IsQuiet a b → IsQuiet b c → IsQuiet a c
IsQuiet-trans p q = record {
  same_budget = q.same_budget ∙ p.same_budget;
  same_restarts = q.same_restarts ∙ p.same_restarts;
  same_executor = q.same_executor ∙ p.same_executor;
  same_shutting_down = q.same_shutting_down ∙ p.same_shutting_down;
  same_halted = q.same_halted ∙ p.same_halted;
  same_activity = q.same_activity ∙ p.same_activity;
}

mark_resumed-IsQuiet : (c : Communicator) → IsQuiet c (with_state mark_resumed c)
unfolding mark_resumed
mark_resumed-IsQuiet c = ground arith

pub append_own-IsQuiet : (what : Complaint) (c : Communicator) → IsQuiet c (append_own what c)
unfolding append_own append_numbered
append_own-IsQuiet what c = ground arith

run_then-IsQuiet : (k : Then) (c : Communicator) → IsQuiet c (run_then k c)
unfolding run_then
run_then-IsQuiet nothing c = ground arith
run_then-IsQuiet (send_the_prompt p) c = send_prompt-IsQuiet p c
run_then-IsQuiet (resume_the_turn p) c =
    IsQuiet-trans (mark_resumed-IsQuiet c)
      (IsQuiet-trans (append_own-IsQuiet _ _) (send_prompt-IsQuiet _ _))

pub on_hello-IsQuiet :
    (role : ChildRole) (epoch : ℕ) (c : Communicator) → IsQuiet c (on_hello role epoch c)
unfolding on_hello
on_hello-IsQuiet executor epoch c = ground arith
on_hello-IsQuiet supervisor epoch c = ground arith

pub on_ack-IsQuiet :
    (role : ChildRole) (epoch id : ℕ) (c : Communicator) → IsQuiet c (on_ack role epoch id c)
unfolding on_ack
on_ack-IsQuiet role epoch id c = grind (arith, run_then-IsQuiet)

-- The messages that neither end a turn nor store the event of a child.
abbrev pub is_quiet_message : Message → Bool
is_quiet_message (event e) = false
is_quiet_message halted = false
is_quiet_message hello = true
is_quiet_message debug_line = true
is_quiet_message (ack ref) = true
is_quiet_message (heartbeat children) = true
is_quiet_message (ask_user ask) = true
is_quiet_message (restart_request reason) = true
is_quiet_message (admit_result admitted ctx) = true
is_quiet_message (other type) = true

pub receive-IsQuiet :
    (role : ChildRole) (epoch now id : ℕ) (m : Message) (c : Communicator)
    → is_quiet_message m ≡ true
    → IsQuiet c (receive role epoch now id m c)
unfolding receive
receive-IsQuiet role epoch now id hello c h = on_hello-IsQuiet role epoch c
receive-IsQuiet role epoch now id (ack ref) c h = on_ack-IsQuiet role epoch ref c
receive-IsQuiet executor epoch now id (heartbeat children) c h = ground arith
receive-IsQuiet supervisor epoch now id (heartbeat children) c h = ground arith
receive-IsQuiet role epoch now id (event e) c h = cc
receive-IsQuiet role epoch now id (ask_user ask) c h = ground arith
receive-IsQuiet role epoch now id (restart_request reason) c h = ground arith
receive-IsQuiet role epoch now id (admit_result admitted ctx) c h = ground arith
receive-IsQuiet role epoch now id halted c h = cc
receive-IsQuiet role epoch now id debug_line c h = ground arith
receive-IsQuiet role epoch now id (other type) c h = ground arith

pub relay_to-IsQuiet : (to : ProcId) (id : ℕ) (c : Communicator) → IsQuiet c (relay_to to id c)
unfolding relay_to
relay_to-IsQuiet to id c = ground arith

-- The inputs of which every step is quiet.
abbrev pub is_quiet_input : Input → Bool
is_quiet_input (submits now p) = false
is_quiet_input (answers text) = true
is_quiet_input cancels = true
is_quiet_input (resolves effect_id allowed) = true
is_quiet_input halts = true
is_quiet_input (continues proceed) = true
is_quiet_input (sent role epoch now comm id m) = is_quiet_message m
is_quiet_input (sent role epoch now exec id m) = true
is_quiet_input (sent role epoch now sup id m) = true
is_quiet_input (exits role epoch now code signal) = false
is_quiet_input (times_out role epoch) = false
is_quiet_input (checks_silence heartbeat_ms now) = true
is_quiet_input shuts_down = false
is_quiet_input (sets_writable b) = true

pub step-IsQuiet : (i : Input) (c : Communicator) → is_quiet_input i ≡ true → IsQuiet c (step i c)
unfolding step
step-IsQuiet (submits now p) c h = cc
step-IsQuiet (answers text) c h = ground arith
step-IsQuiet cancels c h = ground arith
step-IsQuiet (resolves effect_id allowed) c h = ground arith
step-IsQuiet halts c h = ground arith
step-IsQuiet (continues proceed) c h = ground arith
step-IsQuiet (sent role epoch now comm id m) c h =
    ground (arith, receive-IsQuiet role epoch now id m c)
step-IsQuiet (sent role epoch now exec id m) c h = ground arith
step-IsQuiet (sent role epoch now sup id m) c h = ground arith
step-IsQuiet (exits role epoch now code signal) c h = cc
step-IsQuiet (times_out role epoch) c h = cc
step-IsQuiet (checks_silence heartbeat_ms now) c h = ground arith
step-IsQuiet shuts_down c h = cc
step-IsQuiet (sets_writable b) c h = ground arith
