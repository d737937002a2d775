-- ===== src/Communicator/Core/Revived.antt =====
-- An Executor that exits while it is being started in the middle of a turn.
use hera_v.Shared.{
  ℕ, suc, ◌+◌, List, keep_if, not, ◌<◌, ap, ◌∙◌, String, ◌≡◌, Bool, true, false, Option, none, some,
  ◌∷◌, arith,
}
use hera_v.Process.Lifecycle.{executor, decide_on_exit}
use hera_v.Communicator.State.{Prompt, TurnState, idle, running, waiting_for_answer}
use hera_v.Communicator.Store.{
  Communicator, LiveChild, kills, spawns, Stage, awaits_hello, awaits_open, settled,
  resume_the_turn, is_child, emit, find_child, is_ready_role,
}
use hera_v.Communicator.Spawning.{
  exit_at, stage_of, stage_in, break_promise, note_exit, after_exit, is_turn_active, fail_respawn,
  replace_child, on_exit,
}
use hera_v.Communicator.Core.{submit_prompt}

abbrev pub is_waiting : Stage → Bool
is_waiting (awaits_hello k) = true
is_waiting (awaits_open id k) = true
is_waiting settled = false

-- The prompt of an active turn.
abbrev pub turn_prompt : TurnState → Option Prompt
turn_prompt idle = none
turn_prompt (running t) = some t.prompt
turn_prompt (waiting_for_answer t ask) = some t.prompt

-- A new Executor that has not said hello, and will be given a prompt to resume.
abbrev pub started_with : Prompt → ℕ → LiveChild
started_with p epoch = record {
  role = executor;
  epoch = epoch;
  is_ready = false;
  next_id = 1;
  stage = awaits_hello (resume_the_turn p);
}

after_exit-revives :
    (now : ℕ) (p : Prompt) (c : Communicator)
    → c.shutting_down ≡ false
    → turn_prompt c.state.turn ≡ some p
    → c.state.budget.turn_used < c.state.budget.per_turn_max
    → ((after_exit executor now c).processes
        ≡ started_with p (c.state.executor_record.epoch + 1) ∷ c.processes)
      × ((after_exit executor now c).shutting_down ≡ false)
      × ((after_exit executor now c).live_executor ≡ some (c.state.executor_record.epoch + 1))
unfolding after_exit replace_child decide_on_exit
after_exit-revives now p c a b d = ground arith

fail_respawn-ends :
    (c : Communicator)
    → c.shutting_down ≡ false
    → (is_turn_active (fail_respawn executor c) ≡ false)
      × ((fail_respawn executor c).processes ≡ c.processes)
      × ((fail_respawn executor c).executor_stopped ≡ true)
      × ((fail_respawn executor c).live_executor ≡ c.live_executor)
unfolding fail_respawn
fail_respawn-ends c h = ground arith

break_promise-ends :
    (stage : Stage) (epoch : ℕ) (c : Communicator)
    → is_waiting stage ≡ true
    → c.shutting_down ≡ false
    → (is_turn_active (break_promise stage executor epoch c) ≡ false)
      × ((break_promise stage executor epoch c).processes ≡ c.processes)
      × ((break_promise stage executor epoch c).executor_stopped ≡ true)
      × ((break_promise stage executor epoch c).live_executor ≡ c.live_executor)
break_promise-ends (awaits_hello k) epoch c w h =
    fail_respawn-ends (emit (kills executor epoch) c) h
break_promise-ends (awaits_open id k) epoch c w h = fail_respawn-ends c h
break_promise-ends settled epoch c w h = cc

-- The processes other than the Executor of this epoch.
abbrev pub others : ℕ → List LiveChild → List LiveChild
others epoch processes = keep_if (λ l. not (is_child executor epoch l)) processes

note_exit-keeps :
    (epoch : ℕ) (code : Option ℕ) (signal : Option String) (c : Communicator)
    → let noted = note_exit executor epoch code signal c in
      (noted.shutting_down ≡ c.shutting_down)
      × (noted.state.turn ≡ c.state.turn)
      × (noted.state.budget ≡ c.state.budget)
      × (noted.state.executor_record.epoch ≡ c.state.executor_record.epoch)
      × (noted.processes ≡ others epoch c.processes)
unfolding note_exit
note_exit-keeps epoch code signal c = ground arith

-- Where an Executor exits while it is being started, in an active turn that has a restart left, both
-- paths are taken: the turn is ended and the Executor counts as stopped, and yet a new process, the
-- current Executor now, has been spawned, to which the prompt of the ended turn will be sent.
pub on_exit-revives :
    (epoch now : ℕ) (code : Option ℕ) (signal : Option String) (p : Prompt) (c : Communicator)
    → is_waiting (stage_of executor epoch c) ≡ true
    → c.shutting_down ≡ false
    → turn_prompt c.state.turn ≡ some p
    → c.state.budget.turn_used < c.state.budget.per_turn_max
    → let after = on_exit executor epoch now code signal c in
      let next = c.state.executor_record.epoch + 1 in
      (is_turn_active after ≡ false)
      × (after.executor_stopped ≡ true)
      × (after.live_executor ≡ some next)
      × (after.processes ≡ started_with p next ∷ others epoch c.processes)
unfolding on_exit stage_of
on_exit-revives epoch now code signal p c w s a u =
    at_child (find_child executor epoch c.processes) w
  where
    next : ℕ
    next = c.state.executor_record.epoch + 1

    at_child :
        (l : Option LiveChild)
        → is_waiting (stage_in l) ≡ true
        → (is_turn_active (exit_at l executor epoch now code signal c) ≡ false)
          × ((exit_at l executor epoch now code signal c).executor_stopped ≡ true)
          × ((exit_at l executor epoch now code signal c).live_executor ≡ some next)
          × ((exit_at l executor epoch now code signal c).processes
              ≡ started_with p next ∷ others epoch c.processes)
    at_child none w = cc
    at_child (some l) w =
        let noted = note_exit executor epoch code signal c in
        let (down, turn, budget, epochs, rest) = note_exit-keeps epoch code signal c in
        let (spawned, up, current) =
          after_exit-revives now p noted (down ∙ s) (ap turn_prompt turn ∙ a) (rw budget u) in
        let (ended, kept, stopped, same) =
          break_promise-ends l.stage epoch (after_exit executor now noted) w up in
        (
          ended,
          stopped,
          same ∙ current ∙ ap (λ n. some (n + 1)) epochs,
          kept
              ∙ spawned
              ∙ ap (λ n. started_with p (n + 1) ∷ noted.processes) epochs
              ∙ ap (λ ls. started_with p next ∷ ls) rest,
        )

-- A prompt that is submitted while an Executor is being started spawns another one. The first is
-- neither told nor killed: it stays among the processes.
pub submit_prompt-respawns :
    (now : ℕ) (p : Prompt) (c : Communicator)
    → c.state.halted ≡ false
    → c.shutting_down ≡ false
    → c.live_executor ≡ some c.state.executor_record.epoch
    → is_ready_role executor c ≡ false
    → ((submit_prompt now p c).trace
        ≡ spawns executor (suc c.state.executor_record.epoch) ∷ c.trace)
      × ((submit_prompt now p c).live_executor ≡ some (suc c.state.executor_record.epoch))
      × (find_child executor c.state.executor_record.epoch (submit_prompt now p c).processes
          ≡ find_child executor c.state.executor_record.epoch c.processes)
unfolding submit_prompt
submit_prompt-respawns now p c a b d e = ground arith
