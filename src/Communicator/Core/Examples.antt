-- ===== src/Communicator/Core/Examples.antt =====
-- Runs of the Communicator, and the theorems at them.
use hera_v.Shared.{not, ◌||◌, ◌+◌, ◌≡◌, refl, true, false, none, some, List, [], ◌∷◌, arith, length}
use hera_v.Shared.Text.{codes}
use hera_v.Process.Envelope.{comm, exec}
use hera_v.Process.Lifecycle.{executor}
use hera_v.Communicator.State.{Prompt}
use hera_v.Communicator.Store.{Communicator, Event, turn_finished, tool_call_requested, find_child}
use hera_v.Communicator.Spawning.{on_exit, is_turn_active, stage_of}
use hera_v.Communicator.Messages.{hello, event, halted, ack}
use hera_v.Communicator.Core.{Input, submits, sent, exits, run, new_communicator}
use hera_v.Communicator.Core.Log.{run-IsRecorded}
use hera_v.Communicator.Core.Log.Views.{IsRecorded}
use hera_v.Communicator.Core.Attended.{has_executor, run-attended}
use hera_v.Communicator.Core.Backed.Children.{IsBacked}
use hera_v.Communicator.Core.Halted.{run-IsHalted}
use hera_v.Communicator.Core.Halted.Waiting.{IsHalted, prompts_of}
use hera_v.Communicator.Core.Revived.{started_with, others, on_exit-revives}

abbrev fix : Prompt
fix = record { text = codes "fix the bug"; note = none }

abbrev initial : Communicator
initial = new_communicator 1 true

abbrev call : Event
call = record { proc = exec; kind = tool_call_requested; seq = some 4 }

abbrev done : Event
done = record { proc = exec; kind = turn_finished; seq = some 5 }

-- A turn in which the Executor exits, is restarted and ends the turn.
abbrev one_turn : List Input
one_turn =
    submits 10 fix
    ∷ sent executor 1 12 comm 2 (event call)
    ∷ exits executor 1 20 (some 1) none
    ∷ sent executor 2 30 comm 1 hello
    ∷ sent executor 2 31 comm 2 (ack 1)
    ∷ sent executor 2 40 comm 3 (event done)
    ∷ []

one_turn_prompts : length (prompts_of (run one_turn initial).trace) ≡ 2
unfolding run new_communicator
one_turn_prompts = refl

run-IsRecorded_example : IsRecorded (run one_turn initial)
unfolding new_communicator
run-IsRecorded_example = run-IsRecorded one_turn (record { shown = refl; counted = refl })

initial-IsBacked : IsBacked initial
unfolding new_communicator find_child
initial-IsBacked = record { backed = refl }

run-attended_example :
    ((run one_turn initial).shutting_down
      || not (is_turn_active (run one_turn initial))
      || has_executor (run one_turn initial))
    ≡ true
unfolding new_communicator find_child
run-attended_example = run-attended one_turn initial initial-IsBacked refl

abbrev halted_run : Communicator
unfolding run new_communicator
halted_run = run (submits 10 fix ∷ sent executor 1 12 comm 2 halted ∷ []) initial

run-IsHalted_example : IsHalted (fix ∷ []) (run one_turn halted_run)
unfolding run new_communicator
run-IsHalted_example =
    run-IsHalted one_turn {c = halted_run}
      (record { halted = refl; idle = refl; free = refl; sent = refl })

abbrev starting : Communicator
unfolding run new_communicator
starting =
    run
      (submits 10 fix
        ∷ sent executor 1 12 comm 2 (event done)
        ∷ exits executor 1 20 (some 1) none
        ∷ submits 30 fix
        ∷ [])
      initial

on_exit-revives_example :
    let after = on_exit executor 3 40 (some 1) none starting in
    let next = starting.state.executor_record.epoch + 1 in
    (is_turn_active after ≡ false)
    × (after.executor_stopped ≡ true)
    × (after.live_executor ≡ some next)
    × (after.processes ≡ started_with fix next ∷ others 3 starting.processes)
unfolding run new_communicator stage_of
on_exit-revives_example =
    on_exit-revives 3 40 (some 1) none fix starting refl refl refl (omega arith)
