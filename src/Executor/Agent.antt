-- ===== src/Executor/Agent.antt =====
-- src/executor/agent.ts: the agent as a machine that takes one input at a time: a message of the
-- Communicator or the Supervisor, or the end of what it awaits. An acknowledgement that does not come
-- ends the process.
pub mod State
pub mod Turn
pub mod Rounds
pub mod Tools
pub mod Inbound
pub mod Orderly
pub mod Stopped
pub mod Gaps
mod Examples
use hera_v.Shared.{ℕ, String, Bool, false, Option, none, List, [], ◌∷◌, if◌then◌else◌}
use hera_v.Shared.Text.{Text, includes, trim}
use hera_v.Session.Records.{ToolCallStatus}
use hera_v.Executor.Mailbox.{
  Inject, push, new_mailbox, set_prompt_context, drain_for_user_message, drain_for_tool_result,
  build_user_message, append_note_to_tool_result, discard_late, decimal_from,
}
use hera_v.Executor.Compaction.{
  compacted, drop_old_tool_results, project_from_messages, should_compact, estimate_request_size,
  fits_window,
}
use hera_v.Executor.Injection.{render_tool_result}
use hera_v.Executor.SlashCommand.{expand_slash_command}
use hera_v.Executor.Agent.State.{
  Prompt, idle, AbortReason, ResumeReason, notice, warning, error, error_event, effect_pending,
  Work, Await, resting, opening, calling, compacts, requesting, gated, dispatched, closing, Agent,
  emit, no_usage, drop_turn, set_result, note_cancelled,
}
use hera_v.Executor.Agent.Turn.{
  Host, cancel_note, finish, call_model, begin_compaction, wants_compaction, fits, give_up,
  after_fit_check, go_round, request, ask_continue, next_tool, after_response,
}
use hera_v.Executor.Agent.Rounds.{
  Outcome, on_outcome, on_compacted, run_turn, on_opened, on_closed, on_aborted, take_response,
  start_turn,
}
use hera_v.Executor.Agent.Tools.{
  on_requested, on_dispatch, on_tool_end, on_gate_result, settle_result, report_tool,
  report_unavailable, go_to_next, close_ask, on_proceed,
}
use hera_v.Executor.Agent.Inbound.{ask_question, on_answer, on_continue, on_cancel, on_resume}

pub data Input : Type 0 where
  prompts : Prompt → Input
  -- The acknowledgement that the turn waits for.
  acked : Input
  model_notices : String → Input
  model_ends : Outcome → Input
  compaction_ends : Option Text → Input
  gate_dispatches : Input
  gate_unavailable : Input
  gate_pends : Input
  tool_asks : Input
  tool_ends : Input
  gate_returns : ℕ → ToolCallStatus → Text → Bool → Input
  -- Something in the turn throws.
  throws : Input
  answers : ℕ → Input
  continues : Bool → Input
  cancels : AbortReason → Input
  resumes : ResumeReason → Input
  injects : Inject → Input
  survivors_found : Input

abbrev pub at_ack : Host → Await → Agent → Agent
at_ack host (opening message ids) a = on_opened host message ids a
at_ack host (requesting w) a = on_requested w a
at_ack host closing a = on_closed host a
at_ack host _ a = a

abbrev pub at_outcome : Host → Outcome → Await → Agent → Agent
at_outcome host o (calling l) a = on_outcome host l o a
at_outcome host o _ a = a

abbrev pub at_compacted : Host → Option Text → Await → Agent → Agent
at_compacted host checkpoint (compacts k) a = on_compacted host k checkpoint a
at_compacted host checkpoint _ a = a

-- A test of where the turn waits for the gate, and what is done there.
abbrev pub when_gated : Await → (Work → Agent → Agent) → Agent → Agent
when_gated (gated w) f a = f w a
when_gated _ f a = a

abbrev pub when_dispatched : Await → (Work → Agent → Agent) → Agent → Agent
when_dispatched (dispatched w) f a = f w a
when_dispatched _ f a = a

-- The `catch` of `runTurn`.
unfoldable pub on_throw : Agent → Agent
on_throw a =
    if a.turn_active
    then drop_turn (emit (error_event error "turn failed") (record a { signal = none }))
    else a

unfoldable pub step : Host → Input → Agent → Agent
step host (prompts p) a = run_turn host p a
step host acked a = at_ack host a.await a
step host (model_notices text) a = emit (error_event notice text) a
step host (model_ends o) a = at_outcome host o a.await a
step host (compaction_ends checkpoint) a = at_compacted host checkpoint a.await a
step host gate_dispatches a = when_gated a.await on_dispatch a
step host gate_unavailable a =
    when_gated a.await (λ w. emit (error_event warning "gate unavailable for effect")) a
step host gate_pends a = when_gated a.await (λ w. emit (effect_pending w.call.name)) a
step host tool_asks a = when_dispatched a.await (λ w. ask_question) a
step host tool_ends a = when_dispatched a.await on_tool_end a
step host (gate_returns seconds status text end_prompt) a =
    when_gated a.await (λ w. on_gate_result host w seconds status text end_prompt) a
step host throws a = on_throw a
step host (answers id) a = on_answer host id a
step host (continues proceed) a = on_continue host proceed a
step host (cancels reason) a = on_cancel host reason a
step host (resumes reason) a = on_resume reason a
step host (injects inject) a = record a { mailbox = push inject a.mailbox }
step host survivors_found a =
    emit (error_event warning "tool child processes survived termination") a

unfoldable pub run : Host → List Input → Agent → Agent
unfolding step on_throw set_result note_cancelled drop_turn cancel_note finish call_model
    begin_compaction wants_compaction fits give_up after_fit_check go_round request ask_continue
    next_tool after_response on_aborted take_response on_outcome on_compacted start_turn run_turn
    on_opened on_closed on_requested on_dispatch on_tool_end settle_result report_tool
    report_unavailable go_to_next on_gate_result close_ask on_proceed ask_question on_answer
    on_continue on_cancel on_resume set_prompt_context drain_for_user_message drain_for_tool_result
    build_user_message append_note_to_tool_result discard_late decimal_from push compacted
    drop_old_tool_results project_from_messages should_compact estimate_request_size fits_window
    render_tool_result expand_slash_command includes trim
run host [] a = a
run host (i ∷ is) a = run host is (step host i a)

unfoldable pub new_agent : Agent
unfolding new_mailbox
new_agent = record {
  messages = [];
  todo_json = none;
  phase = idle;
  turn_active = false;
  turn_usage = no_usage;
  mailbox = new_mailbox;
  tool_calls_this_turn = 0;
  turn_index = 0;
  signal = none;
  abort_reason = none;
  pending_ask = none;
  ask_counter = 0;
  finishing = false;
  queued_prompt = none;
  ledger_notice_sent = false;
  await = resting;
  trace = [];
}
