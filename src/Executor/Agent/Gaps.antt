-- ===== src/Executor/Agent/Gaps.antt =====
-- Where a turn goes on although it should end.
use hera_v.Shared.{ℕ, ◌<◌, ◌≡◌, String, Bool, true, false, none, some, List, ◌∷◌, arith}
use hera_v.Shared.Text.{Text}
use hera_v.Session.Records.{ToolCallStatus}
use hera_v.Executor.Agent.State
use hera_v.Executor.Agent.State.{
  Prompt, Phase, idle, model_call, tool_call, waiting_answer, compacting, AbortReason, cancel,
  resume_frozen, frozen, ResumeReason, AskKind, question, continue, PendingAsk, Event, Action,
  emits, asks, answers_tool, fails_ask, calls_model, executes, terminates_children, StopReason,
  Response, Loop, Work, After, fit_check, response, Await, resting, opening, calling, compacts,
  requesting, gated, dispatched, asking, closing, Agent, ToolCall, act, emit, turn_aborted,
  system_note, drop_turn,
}
use hera_v.Executor.Agent.Turn.{Host, fits, call_model, go_round, request, next_tool}
use hera_v.Executor.Agent.Rounds.{failed, resume_note, on_aborted, on_outcome, on_opened}
use hera_v.Executor.Agent.Tools.{report_unavailable, go_to_next, on_gate_result}
use hera_v.Executor.Agent.Inbound.{on_cancel, on_resume}
use hera_v.Executor.Agent.{acked, model_ends, cancels, resumes, step}

-- Where the gate is unavailable or halted, `end_prompt` is set, and yet the turn goes on: the next
-- call of the response is requested, as long as the limit of calls allows it.
on_gate_result-goes_on :
    (host : Host) (loop : Loop) (call next : ToolCall) (rest : List ToolCall) (seconds : ℕ)
    (status : ToolCallStatus) (text : Text) (a : Agent)
    → turn_aborted a ≡ false
    → a.tool_calls_this_turn < host.max_tool_calls
    → (on_gate_result host
        (record { loop = loop; call = call; rest = next ∷ rest })
        seconds
        status
        text
        true
        a).await
      ≡ requesting (record { loop = loop; call = next; rest = rest })
unfolding on_gate_result go_to_next report_unavailable next_tool request
on_gate_result-goes_on host loop call next rest seconds status text a h l = ground arith

-- A resume of the Supervisor that comes while a cancelled call of the model is being aborted takes
-- the place of the cancellation: where the request fits, the model is called once more.
pub cancel_undone :
    (host : Host) (l : Loop) (message : String) (aborted : Bool) (a : Agent)
    → a.await ≡ calling l
    → a.turn_active ≡ true
    → a.phase ≡ model_call
    → a.signal ≡ some aborted
    → a.pending_ask ≡ none
    → l.reissues ≡ 0
    → fits host (State.push (system_note resume_note) a) ≡ true
    → (step host
        (model_ends (failed message))
        (step host (resumes frozen) (step host (cancels cancel) a))).await
      ≡ calling (record l { reissues = 1 })
unfolding step on_cancel on_resume on_outcome on_aborted go_round call_model fits
cancel_undone host l message aborted a w t p s q z f = ground arith

-- A cancellation that comes before the first call of the model does not prevent that call.
pub cancel_unseen :
    (host : Host) (message : Text) (ids : List Text) (a : Agent)
    → a.await ≡ opening message ids
    → a.turn_active ≡ true
    → a.pending_ask ≡ none
    → fits host (State.push (system_note message) a) ≡ true
    → (step host acked (step host (cancels cancel) a)).await
      ≡ calling (record { pauses = 0; reissues = 0 })
unfolding step on_cancel on_opened go_round call_model fits
cancel_unseen host message ids a w t q f = ground arith
