-- ===== src/Executor/Agent/Examples.antt =====
-- Turns of the agent, and the theorems at them.
use hera_v.Shared.{ℕ, ◌≡◌, refl, String, false, none, List, [], ◌∷◌, ◌++◌}
use hera_v.Shared.Text.{codes}
use hera_v.Session.Records.{ok, blocked}
use hera_v.Executor.Coalescer.{
  new_coalescer, chunk, flushes, text_kind, thinking_kind, seen, pushed, run-seen,
}
use hera_v.Executor.Coalescer
use hera_v.Executor.SlashCommand.{levenshtein}
use hera_v.Executor.SlashCommand.Distance.{distance, backwards, levenshtein-distance}
use hera_v.Executor.Agent.State.{
  ToolCall, Response, Loop, Agent, tool_calls, end, cancel, frozen, calling, no_usage,
}
use hera_v.Executor.Agent.Turn.{Host}
use hera_v.Executor.Agent.Rounds.{returned, failed, resume_note}
use hera_v.Executor.Agent.{
  Input, prompts, acked, model_ends, gate_dispatches, tool_ends, gate_returns, cancels, resumes,
  step, run, new_agent,
}
use hera_v.Executor.Agent.Stopped.{run-IsStopped}
use hera_v.Executor.Agent.Stopped.Rounds.{IsStopped, executed_of}
use hera_v.Executor.Agent.Gaps.{cancel_undone}

abbrev host : Host
host = record {
  max_tool_calls = 20;
  auto_continue = false;
  max_input = 1000;
  threshold = 900;
  system_prompt = codes "You are Hera.";
  tools_json = codes "[]";
  workflows = [];
  cwd = codes "/w";
  date = λ n. codes "2026-01-01 10:00";
  run_ctx = [];
}

abbrev call : String → ℕ → ToolCall
call id place = record { id = id; name = "list_dir"; args_json = codes "{}"; place = place }

abbrev two_calls : Response
two_calls = record {
  content = codes "Looking.";
  calls = call "a" 0 ∷ call "b" 1 ∷ [];
  usage = no_usage;
  stop = tool_calls;
}

-- A turn up to the first tool at work.
abbrev opening : List Input
opening =
    prompts (record { text = codes "fix it"; note = none })
    ∷ acked
    ∷ model_ends (returned two_calls)
    ∷ acked
    ∷ gate_dispatches
    ∷ []

abbrev finishing : List Input
finishing =
    tool_ends
    ∷ gate_returns 1 ok (codes "main.ts") false
    ∷ acked
    ∷ gate_returns 0 blocked (codes "denied") false
    ∷ model_ends
        (returned (record { content = codes "Done."; calls = []; usage = no_usage; stop = end }))
    ∷ acked
    ∷ []

whole_turn_executed : executed_of (run host (opening ++ finishing) new_agent).trace ≡ "a" ∷ []
unfolding run new_agent
whole_turn_executed = refl

abbrev cancelled_agent : Agent
unfolding run new_agent
cancelled_agent = run host (opening ++ cancels cancel ∷ []) new_agent

run-IsStopped_example : IsStopped ("a" ∷ []) (run host finishing cancelled_agent)
unfolding run new_agent
run-IsStopped_example =
    run-IsStopped host finishing {a = cancelled_agent} refl
      (record { over = refl; alone = refl; executed = refl })

abbrev first_round : Loop
first_round = record { pauses = 0; reissues = 0 }

abbrev calling_agent : Agent
unfolding run new_agent
calling_agent =
    run host (prompts (record { text = codes "fix it"; note = none }) ∷ acked ∷ []) new_agent

cancel_undone_example :
    (step host
      (model_ends (failed "aborted"))
      (step host (resumes frozen) (step host (cancels cancel) calling_agent))).await
    ≡ calling (record { pauses = 0; reissues = 1 })
unfolding run new_agent resume_note
cancel_undone_example =
    cancel_undone host first_round "aborted" false calling_agent refl refl refl refl refl refl refl

run-seen_example :
    seen text_kind (
      Coalescer.run
        (chunk text_kind (codes "He")
          ∷ chunk thinking_kind (codes "?")
          ∷ flushes
          ∷ chunk text_kind (codes "ra")
          ∷ [])
        new_coalescer)
    ≡ codes "Hera"
unfolding new_coalescer
run-seen_example =
    run-seen text_kind
      (chunk text_kind (codes "He")
        ∷ chunk thinking_kind (codes "?")
        ∷ flushes
        ∷ chunk text_kind (codes "ra")
        ∷ [])
      new_coalescer

levenshtein-distance_example :
    levenshtein (codes "comit") (codes "commit")
    ≡ distance (backwards (codes "comit") []) (backwards (codes "commit") [])
levenshtein-distance_example = levenshtein-distance (codes "comit") (codes "commit")
