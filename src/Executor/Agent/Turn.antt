-- ===== src/Executor/Agent/Turn.antt =====
-- src/executor/agent.ts: `runTurn` and `loop` between their awaits, with the checks of the context's
-- size and the compaction. `ask_continue` and `request` are where the tools begin.
use hera_v.Shared.{
  ℕ, ◌+◌, Bool, true, false, some, List, [], ◌∷◌, ◌++◌, if◌then◌else◌, ltb, leb, ◌==◌,
}
use hera_v.Shared.Text.{Text, codes}
use hera_v.Executor.Compaction.{
  keep_tail_messages, project_from_messages, should_compact, estimate_request_size, fits_window,
  drop_old_tool_results,
}
use hera_v.Executor.Mailbox.{decimal_from}
use hera_v.Executor.SlashCommand.{Workflow}
use hera_v.Executor.Agent.State.{
  model_call, waiting_answer, compacting, StopReason, end, tool_calls, max_output, refusal, pause,
  cancelled, continue, notice, warning, error, tool_call_requested, turn_finished, error_event,
  asks, calls_model, ToolCall, Response, Loop, Work, After, fit_check, calling, compacts,
  requesting, asking, closing, Agent, act, emit, turn_aborted, note_cancelled,
}

-- The configuration, and what the agent is built with.
pub record Host : Type 0 where
  pub max_tool_calls : ℕ
  pub auto_continue : Bool
  pub max_input : ℕ
  pub threshold : ℕ
  pub system_prompt : Text
  pub tools_json : Text
  pub workflows : List Workflow
  pub cwd : Text
  pub date : ℕ → Text  -- at each turn
  pub run_ctx : Text

abbrev is_empty : Text → Bool
is_empty [] = true
is_empty (c ∷ s) = false

unfoldable pub cancel_note : ℕ → Text
unfolding decimal_from
cancel_note n =
    codes "turn cancelled after "
    ++ decimal_from (n + 1) n
    ++ (if n == 1 then codes " tool call" else codes " tool calls")

abbrev leave_note : StopReason → Agent → Agent
unfolding cancel_note note_cancelled
leave_note cancelled a = record a {
  messages = note_cancelled (cancel_note a.tool_calls_this_turn) a.messages;
}
leave_note _ a = a

-- `finish` up to the acknowledgement of `turn_finished`.
unfoldable pub finish : StopReason → Agent → Agent
unfolding leave_note
finish stop a =
    let noted = leave_note stop a in
    emit (turn_finished stop noted.turn_usage) (record noted { finishing = true; await = closing })

unfoldable pub call_model : Loop → Agent → Agent
call_model l a =
    act calls_model (record a { phase = model_call; signal = some false; await = calling l })

unfoldable pub begin_compaction : After → Agent → Agent
begin_compaction k a = record (emit (error_event notice "Compacting context") a) {
  phase = compacting;
  await = compacts k;
}

unfoldable pub wants_compaction : Host → Agent → Bool
wants_compaction host a = should_compact (project_from_messages a.messages) host.threshold

unfoldable pub fits : Host → Agent → Bool
fits host a =
    fits_window (estimate_request_size host.system_prompt host.tools_json a.messages) host.max_input

unfoldable pub give_up : Agent → Agent
unfolding finish
give_up a = finish end (emit (error_event warning "request exceeds the model's context window") a)

-- The rest of `checkFit` after the compaction, and the call.
unfoldable pub after_fit_check : Host → Loop → Agent → Agent
unfolding fits call_model give_up drop_old_tool_results
after_fit_check host l a =
    if fits host a
    then call_model l a
    else let (trimmed, dropped) = drop_old_tool_results a.messages keep_tail_messages in
      let shorter : Agent = record a { messages = trimmed } in
      if ltb 0 dropped
      then (if fits host shorter then call_model l shorter else give_up shorter)
      else give_up a

-- The head of `loop`.
unfoldable pub go_round : Host → Loop → Agent → Agent
unfolding fits wants_compaction call_model begin_compaction after_fit_check
go_round host l a =
    if fits host a
    then call_model l a
    else if wants_compaction host a
    then begin_compaction (fit_check l) a
    else after_fit_check host l a

-- `executeTool` up to the acknowledgement of `tool_call_requested`.
unfoldable pub request : Work → Agent → Agent
request w a =
    emit (tool_call_requested w.call.id)
      (record a { tool_calls_this_turn = a.tool_calls_this_turn + 1; await = requesting w })

unfoldable pub ask_continue : Work → Agent → Agent
ask_continue w a = act (asks continue (a.ask_counter + 1)) (record a {
  ask_counter = a.ask_counter + 1;
  phase = waiting_answer;
  pending_ask =
      some (record { request_id = a.ask_counter + 1; kind = continue; previous = a.phase });
  await = asking w;
})

-- The head of the loop over the calls of a response.
unfoldable pub next_tool : Host → Loop → List ToolCall → Agent → Agent
unfolding finish go_round request ask_continue
next_tool host l [] a = if turn_aborted a then finish cancelled a else go_round host l a
next_tool host l (call ∷ rest) a =
    let w : Work = record { loop = l; call = call; rest = rest } in
    if turn_aborted a
    then finish cancelled a
    else if leb host.max_tool_calls a.tool_calls_this_turn
    then (if host.auto_continue
        then request w (record a { tool_calls_this_turn = 0 })
        else ask_continue w a)
    else request w a

abbrev after_pause : Host → Loop → Agent → Agent
after_pause host l a =
    if l.pauses == 0 then go_round host (record l { pauses = l.pauses + 1 }) a else finish end a

abbrev pub start_tools : Host → Loop → List ToolCall → Agent → Agent
start_tools host l [] a = finish end a
start_tools host l (call ∷ rest) a = next_tool host l (call ∷ rest) a

-- What `loop` does with a response once it has been pushed.
abbrev pub after_stop : Host → Loop → List ToolCall → StopReason → Agent → Agent
after_stop host l calls refusal a =
    finish refusal (emit (error_event error "the model refused to continue") a)
after_stop host l calls max_output a =
    finish max_output (emit (error_event warning "the model hit its output limit") a)
after_stop host l calls pause a = after_pause host l a
after_stop host l calls end a = start_tools host l calls a
after_stop host l calls tool_calls a = start_tools host l calls a
after_stop host l calls cancelled a = start_tools host l calls a

unfoldable pub after_response : Host → Loop → Response → Agent → Agent
unfolding finish go_round next_tool
after_response host l r a = after_stop host l r.calls r.stop a
