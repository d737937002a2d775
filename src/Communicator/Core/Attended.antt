-- ===== src/Communicator/Core/Attended.antt =====
-- A running turn has an Executor.
use hera_v.Shared.{
  ℕ, not, ◌||◌, is_some, String, ◌≡◌, Bool, true, false, Option, none, some, List, [], ◌∷◌, arith,
  inl, inr, Bool-cases,
}
use hera_v.Process.Envelope.{comm}
use hera_v.Process.Lifecycle.{ChildRole, executor, supervisor, decide_on_exit}
use hera_v.Communicator.State.{Prompt}
use hera_v.Communicator.Store.{
  Communicator, Event, kills, LiveChild, Then, Stage, awaits_hello, awaits_open, settled, emit,
  find_child,
}
use hera_v.Communicator.Spawning.{
  exit_at, break_promise, note_exit, after_exit, is_turn_active, fail_respawn, respawn, on_timeout,
  replace_child, on_exit,
}
use hera_v.Communicator.Messages.{Message, event, halted, on_child_event, on_halted, receive}
use hera_v.Communicator.Core.{
  submit_prompt, Input, submits, sent, exits, times_out, shuts_down, step, run,
}
use hera_v.Communicator.Core.Backed.Children.{is_process, IsBacked}
use hera_v.Communicator.Core.Backed.{run-IsBacked}
use hera_v.Communicator.Core.Quiet.{
  IsQuiet, is_quiet_message, receive-IsQuiet, is_quiet_input, step-IsQuiet,
}

-- The Communicator shuts down, or no turn is active, or there is a live Executor.
abbrev is_attended : Communicator → Bool
is_attended c = c.shutting_down || (not (is_turn_active c) || is_some c.live_executor)

quiet-attended : {c c' : Communicator} → IsQuiet c c' → is_attended c ≡ true → is_attended c' ≡ true
quiet-attended q h = ground arith

fail_respawn-attended : (c : Communicator) → is_attended (fail_respawn executor c) ≡ true
unfolding fail_respawn
fail_respawn-attended c = ground arith

fail_respawn-attended_supervisor :
    (c : Communicator) → is_attended c ≡ true → is_attended (fail_respawn supervisor c) ≡ true
unfolding fail_respawn
fail_respawn-attended_supervisor c h = ground arith

respawn-attended : (k : Then) (c : Communicator) → is_attended (respawn executor k c) ≡ true
unfolding respawn
respawn-attended k c = ground arith

on_timeout-attended :
    (role : ChildRole) (epoch : ℕ) (c : Communicator)
    → is_attended c ≡ true
    → is_attended (on_timeout role epoch c) ≡ true
unfolding on_timeout
on_timeout-attended executor epoch c h = ground arith
on_timeout-attended supervisor epoch c h = ground arith

replace_child-attended :
    (now : ℕ) (c : Communicator) → is_attended (replace_child executor now c) ≡ true
unfolding replace_child decide_on_exit
replace_child-attended now c = ground arith

replace_child-attended_supervisor :
    (now : ℕ) (c : Communicator)
    → is_attended c ≡ true
    → is_attended (replace_child supervisor now c) ≡ true
unfolding replace_child
replace_child-attended_supervisor now c h = ground arith

on_child_event-attended :
    (role : ChildRole) (epoch id : ℕ) (e : Event) (c : Communicator)
    → is_attended c ≡ true
    → is_attended (on_child_event role epoch id e c) ≡ true
unfolding on_child_event
on_child_event-attended role epoch id e c h = ground arith

on_halted-attended :
    (role : ChildRole) (epoch id : ℕ) (c : Communicator)
    → is_attended c ≡ true
    → is_attended (on_halted role epoch id c) ≡ true
unfolding on_halted
on_halted-attended role epoch id c h = ground arith

submit_prompt-attended :
    (now : ℕ) (p : Prompt) (c : Communicator)
    → is_attended c ≡ true
    → is_attended (submit_prompt now p c) ≡ true
unfolding submit_prompt
submit_prompt-attended now p c h = ground arith

note_exit-attended :
    (epoch : ℕ) (code : Option ℕ) (signal : Option String) (c : Communicator)
    → is_attended c ≡ true
    → is_attended (note_exit supervisor epoch code signal c) ≡ true
unfolding note_exit
note_exit-attended epoch code signal c h = ground arith

after_exit-attended : (now : ℕ) (c : Communicator) → is_attended (after_exit executor now c) ≡ true
unfolding after_exit
after_exit-attended now c = ground (arith, replace_child-attended now c)

after_exit-attended_supervisor :
    (now : ℕ) (c : Communicator)
    → is_attended c ≡ true
    → is_attended (after_exit supervisor now c) ≡ true
unfolding after_exit
after_exit-attended_supervisor now c h = ground (arith, replace_child-attended_supervisor now c h)

break_promise-attended :
    (stage : Stage) (role : ChildRole) (epoch : ℕ) (c : Communicator)
    → is_attended c ≡ true
    → is_attended (break_promise stage role epoch c) ≡ true
break_promise-attended (awaits_hello k) executor epoch c h =
    fail_respawn-attended (emit (kills executor epoch) c)
break_promise-attended (awaits_hello k) supervisor epoch c h =
    fail_respawn-attended_supervisor (emit (kills supervisor epoch) c) (ground arith)
break_promise-attended (awaits_open id k) executor epoch c h = fail_respawn-attended c
break_promise-attended (awaits_open id k) supervisor epoch c h =
    fail_respawn-attended_supervisor c h
break_promise-attended settled role epoch c h = h

on_exit-attended :
    (role : ChildRole) (epoch now : ℕ) (code : Option ℕ) (signal : Option String) (c : Communicator)
    → is_attended c ≡ true
    → is_attended (on_exit role epoch now code signal c) ≡ true
unfolding on_exit
on_exit-attended executor epoch now code signal c h =
    elim (find_child executor epoch c.processes)
      as (λ l. is_attended (exit_at l executor epoch now code signal c) ≡ true) [
        | none ↦ h
        | some l ↦ break_promise-attended l.stage executor epoch _ (after_exit-attended now _)
      ]
on_exit-attended supervisor epoch now code signal c h =
    elim (find_child supervisor epoch c.processes)
      as (λ l. is_attended (exit_at l supervisor epoch now code signal c) ≡ true) [
        | none ↦ h
        | some l ↦
            break_promise-attended l.stage supervisor epoch _
              (after_exit-attended_supervisor now _ (note_exit-attended epoch code signal c h))
      ]

receive-attended :
    (role : ChildRole) (epoch now id : ℕ) (m : Message) (c : Communicator)
    → is_attended c ≡ true
    → is_attended (receive role epoch now id m c) ≡ true
unfolding receive
receive-attended role epoch now id m c h = elim (Bool-cases (is_quiet_message m)) [
  | inl q ↦ quiet-attended (receive-IsQuiet role epoch now id m c q) h
  | inr loud ↦ loud_message m loud
]
  where
    loud_message :
        (m : Message)
        → is_quiet_message m ≡ false
        → is_attended (receive role epoch now id m c) ≡ true
    loud_message (event e) l = on_child_event-attended role epoch id e c h
    loud_message halted l = on_halted-attended role epoch id c h
    loud_message _ l = cc

step-attended :
    (i : Input) (c : Communicator) → is_attended c ≡ true → is_attended (step i c) ≡ true
unfolding step
step-attended i c h = elim (Bool-cases (is_quiet_input i)) [
  | inl q ↦ quiet-attended (step-IsQuiet i c q) h
  | inr loud ↦ loud_input i loud
]
  where
    loud_input : (i : Input) → is_quiet_input i ≡ false → is_attended (step i c) ≡ true
    loud_input (submits now p) l = submit_prompt-attended now p c h
    loud_input (sent role epoch now comm id m) l =
        ground (arith, receive-attended role epoch now id m c h)
    loud_input (exits role epoch now code signal) l =
        on_exit-attended role epoch now code signal c h
    loud_input (times_out role epoch) l = on_timeout-attended role epoch c h
    loud_input shuts_down l = ground arith
    loud_input _ l = cc

run-is_attended :
    (is : List Input) (c : Communicator) → is_attended c ≡ true → is_attended (run is c) ≡ true
unfolding run
run-is_attended [] c h = h
run-is_attended (i ∷ is) c h = run-is_attended is (step i c) (step-attended i c h)

abbrev is_running : Option ℕ → List LiveChild → Bool
is_running none processes = false
is_running (some epoch) processes = is_some (find_child executor epoch processes)

-- There is a current Executor, and it is a process that has not exited.
abbrev pub has_executor : Communicator → Bool
has_executor c = is_running c.live_executor c.processes

has_executor-backed :
    (o : Option ℕ) (processes : List LiveChild)
    → is_some o ≡ true
    → is_process o processes ≡ true
    → is_running o processes ≡ true
has_executor-backed none processes h b = cc
has_executor-backed (some epoch) processes h b = b

-- Whatever happens: as long as the Communicator does not shut down, an active turn has an Executor,
-- whose process has not exited. At first the current Executor, if there is one, is such a process,
-- and no turn is active without one.
pub run-attended :
    (is : List Input) (c : Communicator)
    → IsBacked c
    → (c.shutting_down || not (is_turn_active c) || has_executor c) ≡ true
    → ((run is c).shutting_down || not (is_turn_active (run is c)) || has_executor (run is c))
      ≡ true
run-attended is c b h =
    let attended = run-is_attended is c (attended_first c.live_executor h) in
    let later = (run-IsBacked is b).backed in
    let d = run is c in
    ground (arith, attended, has_executor-backed d.live_executor d.processes, later)
  where
    attended_first :
        (o : Option ℕ)
        → (c.shutting_down || not (is_turn_active c) || is_running o c.processes) ≡ true
        → (c.shutting_down || (not (is_turn_active c) || is_some o)) ≡ true
    attended_first none h = ground arith
    attended_first (some e) h = ground arith
