-- ===== src/Communicator/Spawning.antt =====
-- src/communicator/core.ts: how a child is spawned, respawned and lost. A promise that `respawn`
-- waits for is the stage of the process; what follows when it is kept or broken is run at once.
use hera_v.Shared.{
  ℕ, ◌+◌, String, Bool, true, false, Option, none, some, ◌∷◌, if◌then◌else◌, ◌==◌, keep_if, not,
}
use hera_v.Shared.Text.{codes, Text}
use hera_v.Process.Lifecycle.{
  ChildRole, executor, supervisor, ExitAction, respawn_resume, end_turn, respawn_idle, stop_idle,
  decide_on_exit,
}
use hera_v.Communicator.State
use hera_v.Communicator.State.{
  CommState, Prompt, ChildRecord, ready, exited, TurnState, idle, running, waiting_for_answer,
  new_child_record, child_of, set_child, next_epoch, mark_resumed,
}
use hera_v.Communicator.Store.{
  Communicator, LiveChild, Then, nothing, send_the_prompt, resume_the_turn, Stage, awaits_hello,
  awaits_open, settled, session_open, prompt, spawns, kills, ends_turn, notices, child_gone,
  could_not_respawn, respawn_failed, budget_exhausted, child_exited, restart_performed, emit,
  with_state, find_child, change_child, set_current, is_current, is_child, send_to, append_own,
  copy_to_supervisor,
}

pub resume_note : Text
resume_note = codes "turn resumed after Executor restart"

unfoldable pub spawn : ChildRole → Then → Communicator → Communicator
unfolding next_epoch
spawn role k c =
    let epoch = next_epoch role c.state in
    let child : LiveChild = record {
      role = role;
      epoch = epoch;
      is_ready = false;
      next_id = 1;
      stage = awaits_hello k;
    } in
    emit (spawns role epoch) (
      set_current role (some epoch) (record c {
        state = set_child role (new_child_record epoch) c.state;
        processes = child ∷ c.processes;
      }))

unfoldable pub respawn : ChildRole → Then → Communicator → Communicator
unfolding spawn
respawn role k c = if c.shutting_down then c else spawn role k c

abbrev is_active : TurnState → Bool
is_active idle = false
is_active (running t) = true
is_active (waiting_for_answer t ask) = true

abbrev pub is_turn_active : Communicator → Bool
is_turn_active c = is_active c.state.turn

unfoldable pub close_turn : Communicator → Communicator
unfolding State.end_turn
close_turn c = emit ends_turn (with_state State.end_turn c)

abbrev fail_role : ChildRole → Communicator → Communicator
unfolding append_own close_turn
fail_role supervisor c = c
fail_role executor c =
    let stopped : Communicator = record c { executor_stopped = true } in
    if is_turn_active c then close_turn (append_own respawn_failed stopped) else stopped

-- The `catch` of `respawn`.
unfoldable pub fail_respawn : ChildRole → Communicator → Communicator
unfolding fail_role
fail_respawn role c =
    if c.shutting_down then c else fail_role role (emit (notices (could_not_respawn role)) c)

-- `exec.channel!.sendReturning`, whose message is copied under its id.
abbrev send_prompt_as : Option LiveChild → Prompt → Communicator → Communicator
unfolding send_to copy_to_supervisor
send_prompt_as none p c = c
send_prompt_as (some l) p c = copy_to_supervisor l.next_id (
    with_state (λ s. record s { prompts_in_flight = l.next_id ∷ s.prompts_in_flight })
      (send_to executor l.epoch (prompt p) c))

abbrev send_prompt_at : Option ℕ → Prompt → Communicator → Communicator
unfolding send_prompt_as find_child
send_prompt_at none p c = c
send_prompt_at (some epoch) p c = send_prompt_as (find_child executor epoch c.processes) p c

unfoldable pub send_prompt : Prompt → Communicator → Communicator
unfolding send_prompt_at
send_prompt p c = send_prompt_at c.live_executor p c

unfoldable pub run_then : Then → Communicator → Communicator
unfolding send_prompt mark_resumed append_own
run_then nothing c = c
run_then (send_the_prompt p) c = send_prompt p c
run_then (resume_the_turn p) c =
    let resumed = with_state mark_resumed c in
    send_prompt (record { text = p.text; note = some resume_note })
      (append_own (restart_performed resumed.state.executor_record.epoch) resumed)

-- The record of a process is that of its role unless a newer process has replaced it.
unfoldable pub change_record :
    ChildRole → ℕ → (ChildRecord → ChildRecord) → Communicator → Communicator
change_record role epoch f c =
    let r = child_of role c.state in
    if r.epoch == epoch then with_state (set_child role (f r)) c else c

abbrev pub stage_in : Option LiveChild → Stage
stage_in none = settled
stage_in (some l) = l.stage

-- A promise of a process that has exited is settled too.
unfoldable pub stage_of : ChildRole → ℕ → Communicator → Stage
unfolding find_child
stage_of role epoch c = stage_in (find_child role epoch c.processes)

abbrev pub hello_at : Stage → ChildRole → ℕ → Communicator → Communicator
hello_at (awaits_hello k) role epoch c = send_to role epoch session_open (
    change_child role epoch (λ l. record l { is_ready = true; stage = awaits_open l.next_id k })
      (change_record role epoch (λ r. record r { state = ready }) c))
hello_at (awaits_open id k) role epoch c = c
hello_at settled role epoch c = c

unfoldable pub on_hello : ChildRole → ℕ → Communicator → Communicator
unfolding stage_of send_to change_child change_record
on_hello role epoch c = hello_at (stage_of role epoch c) role epoch c

abbrev settle : ChildRole → ℕ → Communicator → Communicator
settle role epoch c = change_child role epoch (λ l. record l { stage = settled }) c

abbrev pub ack_at : Stage → ChildRole → ℕ → ℕ → Communicator → Communicator
ack_at (awaits_hello k) role epoch id c = c
ack_at (awaits_open opened k) role epoch id c =
    if opened == id then run_then k (settle role epoch c) else c
ack_at settled role epoch id c = c

unfoldable pub on_ack : ChildRole → ℕ → ℕ → Communicator → Communicator
unfolding stage_of run_then change_child
on_ack role epoch id c = ack_at (stage_of role epoch c) role epoch id c

abbrev pub timeout_at : Stage → ChildRole → ℕ → Communicator → Communicator
timeout_at (awaits_hello k) role epoch c =
    fail_respawn role (emit (kills role epoch) (settle role epoch c))
timeout_at (awaits_open opened k) role epoch c = fail_respawn role (settle role epoch c)
timeout_at settled role epoch c = c

-- The timer of the hello or of the ack runs out.
unfoldable pub on_timeout : ChildRole → ℕ → Communicator → Communicator
unfolding stage_of fail_respawn change_child
on_timeout role epoch c = timeout_at (stage_of role epoch c) role epoch c

abbrev prompt_of : TurnState → Then
prompt_of idle = nothing
prompt_of (running t) = resume_the_turn t.prompt
prompt_of (waiting_for_answer t ask) = resume_the_turn t.prompt

abbrev act_on_exit : ExitAction → Communicator → Communicator
unfolding respawn append_own close_turn
act_on_exit respawn_resume c = respawn executor (prompt_of c.state.turn) (
    with_state (λ s. record s { restarts_this_session = s.restarts_this_session + 1 })
      (emit (notices (child_gone executor)) c))
act_on_exit end_turn c = close_turn (
    emit (notices (child_gone executor))
      (record (append_own budget_exhausted c) { executor_stopped = true }))
act_on_exit respawn_idle c = respawn executor nothing (emit (notices (child_gone executor)) c)
act_on_exit stop_idle c = record (emit (notices (child_gone executor)) c) {
  executor_stopped = true;
}

-- The part of `onChildExit` that follows the bookkeeping.
unfoldable pub replace_child : ChildRole → ℕ → Communicator → Communicator
unfolding act_on_exit append_own respawn decide_on_exit
replace_child supervisor now c =
    respawn supervisor nothing
      (emit (notices (child_gone supervisor)) (append_own (child_exited supervisor) c))
replace_child executor now c =
    let told = append_own (child_exited executor) c in
    let (action, left) = decide_on_exit (is_turn_active told) now told.state.budget in
    act_on_exit action (with_state (λ s. record s { budget = left }) told)

unfoldable pub remove_child : ChildRole → ℕ → Communicator → Communicator
remove_child role epoch c =
    let gone : Communicator = record c {
      processes = keep_if (λ l. not (is_child role epoch l)) c.processes;
    } in
    if is_current role epoch c then set_current role none gone else gone

abbrev pub break_promise : Stage → ChildRole → ℕ → Communicator → Communicator
break_promise (awaits_hello k) role epoch c = fail_respawn role (emit (kills role epoch) c)
break_promise (awaits_open id k) role epoch c = fail_respawn role c
break_promise settled role epoch c = c

unfoldable pub note_exit : ChildRole → ℕ → Option ℕ → Option String → Communicator → Communicator
unfolding remove_child change_record
note_exit role epoch code signal c = remove_child role epoch (
    change_record role epoch (λ r. record r { state = exited; exit_code = code; signal = signal })
      c)

unfoldable pub after_exit : ChildRole → ℕ → Communicator → Communicator
after_exit role now c = if c.shutting_down then c else replace_child role now c

abbrev pub exit_at :
    Option LiveChild → ChildRole → ℕ → ℕ → Option ℕ → Option String → Communicator → Communicator
exit_at none role epoch now code signal c = c
exit_at (some l) role epoch now code signal c =
    break_promise l.stage role epoch (after_exit role now (note_exit role epoch code signal c))

-- The pending promise of a child that exits is broken: the `catch` of its `respawn` runs as soon as
-- `onChildExit` has returned.
unfoldable pub on_exit : ChildRole → ℕ → ℕ → Option ℕ → Option String → Communicator → Communicator
unfolding find_child
on_exit role epoch now code signal c =
    exit_at (find_child role epoch c.processes) role epoch now code signal c
