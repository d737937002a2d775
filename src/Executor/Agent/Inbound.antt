-- ===== src/Executor/Agent/Inbound.antt =====
-- src/executor/agent.ts: the handlers of what comes in while a turn runs.
use hera_v.Shared.{
  ℕ, ◌+◌, Bool, true, false, not, ◌||◌, Option, none, some, [], if◌then◌else◌, ◌==◌, is_some,
}
use hera_v.Executor.Agent.State.{
  Phase, idle, model_call, tool_call, waiting_answer, compacting, AbortReason, resume_frozen,
  resume_tool_hang, AskKind, question, continue, PendingAsk, ResumeReason, restart, frozen,
  tool_hang, executor_resumed, asks, answers_tool, fails_ask, terminates_children, Await, asking,
  Agent, act, emit,
}
use hera_v.Executor.Agent.Turn.{Host, next_tool}
use hera_v.Executor.Agent.Tools.{close_ask, on_proceed}

-- The tool `ask_user` asks a question of its own.
unfoldable pub ask_question : Agent → Agent
ask_question a = act (asks question (a.ask_counter + 1)) (record a {
  ask_counter = a.ask_counter + 1;
  phase = waiting_answer;
  pending_ask =
      some (record { request_id = a.ask_counter + 1; kind = question; previous = a.phase });
})

-- The question whether to continue is settled where `loop` waits for it.
abbrev pub proceed_at : Host → Await → Bool → Agent → Agent
proceed_at host (asking w) proceed a = on_proceed host w proceed a
proceed_at host _ proceed a = a

abbrev pub stop_at : Host → Await → Agent → Agent
stop_at host (asking w) a = next_tool host w.loop [] a
stop_at host _ a = a

abbrev pub answer_ask : Host → ℕ → AskKind → PendingAsk → Agent → Agent
answer_ask host id question ask a = act (answers_tool id) (close_ask ask a)
answer_ask host id continue ask a = proceed_at host a.await true (close_ask ask a)

abbrev pub answer_if : Host → ℕ → Option PendingAsk → Agent → Agent
answer_if host id none a = a
answer_if host id (some ask) a =
    if ask.request_id == id then answer_ask host id ask.kind ask a else a

-- `onAnswer`: an answer settles whatever question has its id.
unfoldable pub on_answer : Host → ℕ → Agent → Agent
on_answer host id a = answer_if host id a.pending_ask a

abbrev pub continue_ask : Host → Bool → AskKind → PendingAsk → Agent → Agent
continue_ask host proceed question ask a = a
continue_ask host proceed continue ask a = proceed_at host a.await proceed (close_ask ask a)

abbrev pub continue_if : Host → Bool → Option PendingAsk → Agent → Agent
continue_if host proceed none a = a
continue_if host proceed (some ask) a = continue_ask host proceed ask.kind ask a

unfoldable pub on_continue : Host → Bool → Agent → Agent
on_continue host proceed a = continue_if host proceed a.pending_ask a

abbrev pub abort : Option Bool → Option Bool
abort none = none
abort (some b) = some true

abbrev pub reject_ask : Host → AskKind → PendingAsk → Agent → Agent
reject_ask host question ask a = act (fails_ask ask.request_id) (close_ask ask a)
reject_ask host continue ask a = stop_at host a.await (close_ask ask a)

abbrev pub reject_if : Host → Option PendingAsk → Agent → Agent
reject_if host none a = a
reject_if host (some ask) a = reject_ask host ask.kind ask a

-- `onCancel`; children that survive their termination are reported later.
unfoldable pub on_cancel : Host → AbortReason → Agent → Agent
on_cancel host reason a =
    if not a.turn_active
    then a
    else reject_if host a.pending_ask
        (act terminates_children (record a { abort_reason = some reason; signal = abort a.signal }))

abbrev pub resume_in : Phase → Agent → Agent
resume_in model_call a = record a { abort_reason = some resume_frozen; signal = abort a.signal }
resume_in tool_call a =
    act terminates_children
      (record a { abort_reason = some resume_tool_hang; signal = abort a.signal })
resume_in idle a = a
resume_in waiting_answer a = a
resume_in compacting a = a

abbrev is_resting_phase : Phase → Bool
is_resting_phase idle = true
is_resting_phase waiting_answer = true
is_resting_phase model_call = false
is_resting_phase tool_call = false
is_resting_phase compacting = false

abbrev is_restart : ResumeReason → Bool
is_restart restart = true
is_restart frozen = false
is_restart tool_hang = false

-- Without a call or a tool in flight, the process has recovered by itself.
unfoldable pub on_resume : ResumeReason → Agent → Agent
on_resume reason a =
    if not a.turn_active || is_resting_phase a.phase
    then a
    else if is_restart reason
    then a
    else if is_some a.signal
    then resume_in a.phase a
    else emit (executor_resumed reason) a
