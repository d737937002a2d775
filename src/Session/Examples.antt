-- ===== src/Session/Examples.antt =====
-- A short log that breaks off in its second turn.
use hera_v.Shared.{
  ◌-◌, ◌≡◌, refl, Bool, false, not, ◌&&◌, none, some, List, [], ◌∷◌, ◌++◌, length, take,
}
use hera_v.Shared.Text.{Text, codes}
use hera_v.Session.Records.{
  AgentEvent, user_message, text_delta, tool_call_requested, tool_call_finished, turn_finished,
  checkpoint_created, generating, ok, Usage,
}
use hera_v.Session.Projection.{new_loop, project_loop, project_events}
use hera_v.Session.Projection.Crash.{crash_tail}
use hera_v.Session.Projection.OpenCalls.{
  is_finished, requested_ids, is_among, open_tool_calls-is_among,
}

abbrev no_todos : Text → Bool
no_todos text = false

abbrev some_usage : Usage
some_usage = record { uncached_input = 10; cache_write = 0; cache_read = 3; output = 5 }

abbrev done : List AgentEvent
done =
    user_message (codes "hi") (some "p1")
    ∷ text_delta (codes "hello")
    ∷ turn_finished generating some_usage none none []
    ∷ []

abbrev broken : List AgentEvent
broken =
    tool_call_requested "c1" "read_file" (codes "{}")
    ∷ tool_call_finished "c1" ok (codes "text")
    ∷ tool_call_requested "c2" "read_file" (codes "{}")
    ∷ []

settled : (project_loop no_todos done new_loop).turn_start_index ≡ none
unfolding project_loop
settled = refl

abbrev log : List AgentEvent
log = done ++ user_message (codes "read") (some "p2") ∷ broken

crash_tail_example :
    let before = project_loop no_todos done new_loop in
    let after = project_events no_todos log in
    (after.final.messages ≡ before.messages)
    × (take (length before.store) after.final.store ≡ before.store)
    × (after.incomplete_turn
        ≡ some (
          codes "read",
          length (project_loop no_todos log new_loop).messages - length before.messages,
        ))
crash_tail_example =
    crash_tail no_todos done broken (codes "read") (some "p2") settled (refl, (refl, (refl, tt)))

-- A checkpoint in the broken turn: the reply to the first message, at place 1, is lost.
checkpoint_loses :
    (project_events no_todos (
      done
      ++ user_message (codes "read") (some "p2")
        ∷ checkpoint_created (codes "so far") 6 none
        ∷ [])).final.messages
    ≡ 3 ∷ 0 ∷ []
unfolding project_events
checkpoint_loses = refl

open_tool_calls-is_among_example :
    is_among "c2" (project_events no_todos log).open_tool_calls
    ≡ (is_among "c2" (requested_ids log) && not (is_finished "c2" log))
open_tool_calls-is_among_example = open_tool_calls-is_among no_todos "c2" log
