-- ===== src/Communicator/Core.antt =====
-- src/communicator/core.ts: the Communicator as a machine that takes one input at a time, from the
-- frontend, from the children, and from the timers. Starting up, `openSession` and `switchSession`
-- are left out.
pub mod Log
mod Examples
pub mod Quiet
pub mod Revived
pub mod Halted
pub mod Attended
pub mod Backed
pub mod Restarts
use hera_v.Shared.{
  ℕ, String, Bool, true, false, not, ◌||◌, Option, some, List, [], ◌∷◌, if◌then◌else◌, is_some,
}
use hera_v.Shared.Text.{Text}
use hera_v.Process.Envelope.{ProcId}
use hera_v.Process.Lifecycle.{ChildRole, executor, supervisor}
use hera_v.Communicator.State.{
  Prompt, ChildRecord, ready, new_child_record, new_comm_state, start_turn, answered,
}
use hera_v.Communicator.Store.{
  Communicator, run_is_halted, Sent, cancel, resolve, halt, continue, LiveChild, settled,
  find_child, send_the_prompt, with_state, send_current, append_own, is_ready_role,
}
use hera_v.Communicator.Spawning.{
  respawn, send_prompt, on_timeout, on_exit, after_exit, note_exit, replace_child,
}
use hera_v.Communicator.Messages.{Message, route, check_supervisor_silence}

unfoldable pub submit_prompt : ℕ → Prompt → Communicator → Communicator
unfolding append_own start_turn is_ready_role respawn send_prompt
submit_prompt now p c =
    if c.state.halted
    then append_own run_is_halted c
    else let started = with_state (start_turn now p) c in
      if c.executor_stopped || not (is_ready_role executor c)
      then respawn executor (send_the_prompt p) (record started { executor_stopped = false })
      else send_prompt p started

unfoldable pub answer_user : Text → Communicator → Communicator
unfolding send_current answered
answer_user text c = with_state answered (send_current executor (Sent.answer text) c)

unfoldable pub cancel_turn : Communicator → Communicator
unfolding send_current
cancel_turn c = send_current executor cancel c

unfoldable pub resolve_pending : Text → Bool → Communicator → Communicator
unfolding send_current
resolve_pending effect_id allowed c = send_current executor (resolve effect_id allowed) c

unfoldable pub halt_children : Communicator → Communicator
unfolding send_current
halt_children c = send_current supervisor halt (send_current executor halt c)

unfoldable pub continue_decision : Bool → Communicator → Communicator
unfolding send_current answered
continue_decision proceed c = with_state answered (send_current executor (continue proceed) c)

pub data Input : Type 0 where
  submits : ℕ → Prompt → Input
  answers : Text → Input
  cancels : Input
  resolves : Text → Bool → Input
  halts : Input
  continues : Bool → Input
  -- A message of a child: its time, whom it is for, its id.
  sent : ChildRole → ℕ → ℕ → ProcId → ℕ → Message → Input
  exits : ChildRole → ℕ → ℕ → Option ℕ → Option String → Input
  -- The wait of `respawn` for a child runs out.
  times_out : ChildRole → ℕ → Input
  checks_silence : ℕ → ℕ → Input
  shuts_down : Input
  -- The session file can be written from now on, or no more.
  sets_writable : Bool → Input

-- The channel of a process that has exited is closed.
abbrev is_alive : ChildRole → ℕ → Communicator → Bool
is_alive role epoch c = is_some (find_child role epoch c.processes)

unfoldable pub step : Input → Communicator → Communicator
unfolding submit_prompt answer_user cancel_turn resolve_pending halt_children continue_decision
    route on_exit after_exit note_exit replace_child on_timeout check_supervisor_silence
step (submits now p) c = submit_prompt now p c
step (answers text) c = answer_user text c
step cancels c = cancel_turn c
step (resolves effect_id allowed) c = resolve_pending effect_id allowed c
step halts c = halt_children c
step (continues proceed) c = continue_decision proceed c
step (sent role epoch now to id m) c =
    if is_alive role epoch c then route role epoch now to id m c else c
step (exits role epoch now code signal) c = on_exit role epoch now code signal c
step (times_out role epoch) c = on_timeout role epoch c
step (checks_silence heartbeat_ms now) c = check_supervisor_silence heartbeat_ms now c
step shuts_down c = record c { shutting_down = true }
step (sets_writable b) c = record c { writable = b }

unfoldable pub run : List Input → Communicator → Communicator
unfolding step
run [] c = c
run (i ∷ is) c = run is (step i c)

abbrev first_child : ChildRole → LiveChild
first_child role = record { role = role; epoch = 1; is_ready = true; next_id = 2; stage = settled }

abbrev first_record : ChildRecord
first_record = record (new_child_record 1) { state = ready }

-- The Communicator after `start`, with both children ready and the session open.
unfoldable pub new_communicator : ℕ → Bool → Communicator
unfolding new_comm_state
new_communicator per_turn_restarts handles_pending = record {
  state = record (new_comm_state per_turn_restarts) {
    executor_record = first_record;
    supervisor_record = first_record;
  };
  processes = first_child executor ∷ first_child supervisor ∷ [];
  live_executor = some 1;
  live_supervisor = some 1;
  executor_stopped = false;
  shutting_down = false;
  handles_pending = handles_pending;
  writable = true;
  log = [];
  trace = [];
}
