-- ===== src/Executor/Agent/Tools.antt =====
-- src/executor/agent.ts: `executeTool` behind the gate, and the question whether to continue. The
-- gate is that of Harness/Gate: it may run the `dispatch` that it is given, and it returns a result.
use hera_v.Shared.{
  ℕ, ◌+◌, Bool, true, false, not, ◌&&◌, Option, none, some, List, [], ◌∷◌, ◌++◌, if◌then◌else◌,
}
use hera_v.Shared.Dict.{str_eq}
use hera_v.Shared.Text.{Text, codes, includes}
use hera_v.Session.Records.{tool, ToolCallStatus, ok, error, timed_out, cancelled, blocked}
use hera_v.Executor.Compaction.{Entry}
use hera_v.Executor.Injection.{render_tool_result}
use hera_v.Executor.Mailbox.{decimal_from, drain_for_tool_result, append_note_to_tool_result}
use hera_v.Executor.Agent.State
use hera_v.Executor.Agent.State.{
  Phase, tool_call, idle, model_call, compacting, waiting_answer, cancel, resume_frozen,
  resume_tool_hang, shutdown, AbortReason, notice, warning, tool_hang, memory_injected,
  executor_resumed, tool_call_finished, error_event, asks, executes, ToolCall, Loop, Work, gated,
  dispatched, resting, Agent, PendingAsk, act, emit, push, turn_aborted, set_result, end,
}
use hera_v.Executor.Agent.Turn.{Host, finish, next_tool, request}

-- The request line is on disk: the gate is asked.
unfoldable pub on_requested : Work → Agent → Agent
on_requested w a = record a { await = gated w }

-- The `dispatch` that the gate is given; an aborted turn executes nothing.
unfoldable pub on_dispatch : Work → Agent → Agent
on_dispatch w a =
    if turn_aborted a
    then a
    else act (executes w.call.id)
        (record a { phase = tool_call; signal = some false; await = dispatched w })

-- The tool has ended; the gate returns next.
unfoldable pub on_tool_end : Work → Agent → Agent
on_tool_end w a = record a { signal = none; await = gated w }

abbrev tool_hung : Option AbortReason → Bool
tool_hung none = false
tool_hung (some resume_tool_hang) = true
tool_hung (some resume_frozen) = false
tool_hung (some cancel) = false
tool_hung (some shutdown) = false

abbrev non_empty : Text → Text → Text
non_empty [] other = other
non_empty (c ∷ text) other = c ∷ text

abbrev keep_todo : ToolCall → ToolCallStatus → Text → Agent → Agent
keep_todo c ok text a = if str_eq c.name "todo_list" then record a { todo_json = some text } else a
keep_todo c _ text a = a

abbrev warn_ledger : ToolCallStatus → Text → Agent → Agent
warn_ledger error text a =
    if not a.ledger_notice_sent && includes text (codes "was not read in this session")
    then emit (error_event notice "the read ledger starts empty in this Executor lifetime")
        (record a { ledger_notice_sent = true })
    else a
warn_ledger _ text a = a

-- The status and text that a stall resume or a cancellation puts in place of the tool's.
unfoldable pub settle_result : ℕ → ToolCallStatus → Text → Agent → ToolCallStatus × Text × Agent
settle_result seconds blocked text a = (blocked, text, a)
settle_result seconds status text a =
    if tool_hung a.abort_reason
    then (
      timed_out,
      codes "tool terminated by supervisor after "
          ++ decimal_from (seconds + 1) seconds
          ++ codes " s without completion",
      emit (executor_resumed tool_hang) (record a { abort_reason = none }),
    )
    else if turn_aborted a
    then (cancelled, non_empty text (codes "cancelled"), a)
    else (status, text, a)

abbrev with_note : Text → Option Text → Text
with_note text none = text
with_note text (some note) = append_note_to_tool_result text note

abbrev tell_memories : List Text → Agent → Agent
tell_memories [] a = a
tell_memories (id ∷ ids) a = emit (memory_injected (id ∷ ids)) a

abbrev tool_message : ToolCall → Text → Entry
tool_message c content = record {
  role = tool;
  content = render_tool_result content c.name c.id;
  calls = [];
  usage = none;
}

-- The result is recorded, with what was injected meanwhile.
unfoldable pub report_tool : ToolCall → ToolCallStatus → Text → Agent → Agent
report_tool c status text a =
    let (note, ids, box) = drain_for_tool_result a.mailbox in
    push (tool_message c (with_note text note)) (
      tell_memories ids (
        emit (tool_call_finished c.id status note)
          (record a { mailbox = box; messages = set_result c.place text a.messages })))

abbrev pub watch_ledger : ToolCall → ToolCallStatus × Text × Agent → Agent
watch_ledger c (status, text, a) =
    report_tool c status text (warn_ledger status text (keep_todo c status text a))

-- `end_prompt`: the gate is unavailable or halted.
unfoldable pub report_unavailable : ToolCall → ToolCallStatus → Text → Agent → Agent
report_unavailable c status text a = push (tool_message c text) (
    emit (tool_call_finished c.id status none)
      (record a { messages = set_result c.place text a.messages }))

-- What follows a call: `if (this.turnAborted()) break`, or the next one.
unfoldable pub go_to_next : Host → Work → Agent → Agent
go_to_next host w a =
    if turn_aborted a then finish State.cancelled a else next_tool host w.loop w.rest a

-- The gate returns; the tool ran for `seconds`.
unfoldable pub on_gate_result : Host → Work → ℕ → ToolCallStatus → Text → Bool → Agent → Agent
on_gate_result host w seconds status text true a =
    go_to_next host w (report_unavailable w.call status text a)
on_gate_result host w seconds status text false a =
    go_to_next host w (watch_ledger w.call (settle_result seconds status text a))

-- A question that is settled leads back to the phase before it.
abbrev back_to : Phase → Phase
back_to waiting_answer = tool_call
back_to idle = idle
back_to model_call = model_call
back_to tool_call = tool_call
back_to compacting = compacting

abbrev leave_waiting : Phase → Phase → Phase
leave_waiting waiting_answer previous = back_to previous
leave_waiting idle previous = idle
leave_waiting model_call previous = model_call
leave_waiting tool_call previous = tool_call
leave_waiting compacting previous = compacting

unfoldable pub close_ask : PendingAsk → Agent → Agent
close_ask ask a = record a { pending_ask = none; phase = leave_waiting a.phase ask.previous }

-- The user has decided whether the prompt goes on beyond its limit of calls.
unfoldable pub on_proceed : Host → Work → Bool → Agent → Agent
on_proceed host w true a = request w (record a { tool_calls_this_turn = 0 })
on_proceed host w false a =
    finish end
      (emit (error_event State.error "tool call limit reached and the user declined to continue") a)
