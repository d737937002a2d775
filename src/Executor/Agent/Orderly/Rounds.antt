-- ===== src/Executor/Agent/Orderly/Rounds.antt =====
-- That an agent stays orderly from one await to the next.
use hera_v.Shared.{
  ℕ, ◌<◌, ◌≡◌, Bool, true, false, Option, none, some, List, [], ◌∷◌, arith, if-holds,
}
use hera_v.Shared.Text.{Text}
use hera_v.Session.Records.{ToolCallStatus, blocked}
use hera_v.Executor.SlashCommand.{Expanded, content, unknown}
use hera_v.Executor.Agent.State
use hera_v.Executor.Agent.State.{
  Prompt, Event, Response, Loop, Work, After, fit_check, response, Await, resting, opening, calling,
  compacts, requesting, gated, dispatched, asking, closing, Agent, act, emit, turn_aborted,
  drop_turn, ToolCall, end,
}
use hera_v.Executor.Agent.Turn.{Host}
use hera_v.Executor.Agent.Rounds.{
  Outcome, returned, failed, on_aborted, take_response, on_outcome, go_on, on_compacted, open_turn,
  begin_turn, tell_restart, run_queued, start_turn, run_turn, on_opened, on_closed,
}
use hera_v.Executor.Agent.Tools.{
  on_requested, on_dispatch, on_tool_end, settle_result, report_tool, watch_ledger,
  report_unavailable, go_to_next, on_gate_result, on_proceed,
}
use hera_v.Executor.Agent.Orderly.Running.{
  IsRunning, IsOrderly, finish-IsOrderly, begin_compaction-IsOrderly, after_fit_check-IsOrderly,
  go_round-IsOrderly, request-IsOrderly, next_tool-IsOrderly, after_response-IsOrderly,
}

module _ {host : Host} where
  drop_turn-IsOrderly : {a : Agent} → IsRunning host a → IsOrderly host (drop_turn a)
  unfolding drop_turn
  drop_turn-IsOrderly r = ground arith

  on_aborted-IsOrderly :
      (l : Loop) {a : Agent} → IsRunning host a → IsOrderly host (on_aborted host l a)
  unfolding on_aborted
  on_aborted-IsOrderly l r =
      if-holds (IsOrderly host) _ (go_round-IsOrderly _ (ground arith))
        (finish-IsOrderly State.cancelled r)

  module _ (positive : 0 < host.max_tool_calls) where
    take_response-IsOrderly :
        (l : Loop) (r : Response) {a : Agent}
        → IsRunning host a
        → IsOrderly host (take_response host l r a)
    unfolding take_response
    take_response-IsOrderly l r h =
        if-holds (IsOrderly host) _ (begin_compaction-IsOrderly _ (ground arith))
          (after_response-IsOrderly positive l r (ground arith))

    pub on_outcome-IsOrderly :
        (l : Loop) (o : Outcome) {a : Agent}
        → IsRunning host a
        → IsOrderly host (on_outcome host l o a)
    unfolding on_outcome
    on_outcome-IsOrderly l (returned r) h =
        if-holds (IsOrderly host) _ (on_aborted-IsOrderly l (ground arith))
          (take_response-IsOrderly l r (ground arith))
    on_outcome-IsOrderly l (failed message) h =
        if-holds (IsOrderly host) _ (on_aborted-IsOrderly l (ground arith))
          (drop_turn-IsOrderly (ground arith))

    go_on-IsOrderly : (k : After) {a : Agent} → IsRunning host a → IsOrderly host (go_on host k a)
    go_on-IsOrderly (fit_check l) r = after_fit_check-IsOrderly l r
    go_on-IsOrderly (response l r) h = after_response-IsOrderly positive l r h

    pub on_compacted-IsOrderly :
        (k : After) (checkpoint : Option Text) {a : Agent}
        → IsRunning host a
        → IsOrderly host (on_compacted host k checkpoint a)
    unfolding on_compacted
    on_compacted-IsOrderly k none {a} r = go_on-IsOrderly k (ground arith)
    on_compacted-IsOrderly k (some checkpoint) {a} r = go_on-IsOrderly k (ground arith)

    open_turn-IsOrderly :
        (e : Expanded) {a : Agent} → IsRunning host a → IsOrderly host (open_turn host e a)
    open_turn-IsOrderly (unknown name close) {a} r =
        finish-IsOrderly end {a = emit (State.error_event State.error "Unknown workflow") a}
          (ground arith)
    open_turn-IsOrderly (content text workflow) r = ground arith

    begun-IsRunning :
        (p : Prompt) {a : Agent}
        → IsOrderly host a
        → IsRunning host (tell_restart p.note (begin_turn host p a))
    begun-IsRunning p r = ground arith

    start_turn-IsOrderly :
        (p : Prompt) {a : Agent} → IsOrderly host a → IsOrderly host (start_turn host p a)
    unfolding start_turn
    start_turn-IsOrderly p {a} r =
        if-holds (IsOrderly host) _ (finish-IsOrderly end (told (begun-IsRunning p r)))
          (open_turn-IsOrderly _ (begun-IsRunning p r))
      where
        told :
            {b : Agent}
            → IsRunning host b
            → IsRunning host (
                emit (State.error_event State.error "empty prompt -> nothing sent to the model.") b)
        told q = ground arith

    pub run_turn-IsOrderly :
        (p : Prompt) {a : Agent} → IsOrderly host a → IsOrderly host (run_turn host p a)
    unfolding run_turn
    run_turn-IsOrderly p {a} r = ground (arith, start_turn-IsOrderly p r)

    pub on_opened-IsOrderly :
        (message : Text) (ids : List Text) {a : Agent}
        → IsRunning host a
        → IsOrderly host (on_opened host message ids a)
    unfolding on_opened
    on_opened-IsOrderly message [] r = go_round-IsOrderly _ (ground arith)
    on_opened-IsOrderly message (id ∷ ids) r = go_round-IsOrderly _ (ground arith)

    run_queued-IsOrderly :
        (q : Option Prompt) {a : Agent} → IsOrderly host a → IsOrderly host (run_queued host q a)
    run_queued-IsOrderly none r = r
    run_queued-IsOrderly (some p) r = run_turn-IsOrderly p (ground arith)

    closed-IsOrderly :
        {a : Agent}
        → IsOrderly host a
        → IsOrderly host (drop_turn (record a { finishing = false; abort_reason = none }))
    unfolding drop_turn
    closed-IsOrderly r = ground arith

    pub on_closed-IsOrderly : {a : Agent} → IsOrderly host a → IsOrderly host (on_closed host a)
    unfolding on_closed
    on_closed-IsOrderly {a} r = run_queued-IsOrderly a.queued_prompt (closed-IsOrderly r)

    -- Tools.
    pub on_requested-IsOrderly :
        (w : Work) {a : Agent}
        → a.await ≡ requesting w
        → IsOrderly host a
        → IsOrderly host (on_requested w a)
    unfolding on_requested
    on_requested-IsOrderly w h r = ground arith

    pub on_dispatch-IsOrderly :
        (w : Work) {a : Agent}
        → a.await ≡ gated w
        → IsOrderly host a
        → IsOrderly host (on_dispatch w a)
    unfolding on_dispatch
    on_dispatch-IsOrderly w h r = ground arith

    pub on_tool_end-IsOrderly :
        (w : Work) {a : Agent}
        → a.await ≡ dispatched w
        → IsOrderly host a
        → IsOrderly host (on_tool_end w a)
    unfolding on_tool_end
    on_tool_end-IsOrderly w h r = ground arith

    go_to_next-IsOrderly :
        (w : Work) {a : Agent} → IsRunning host a → IsOrderly host (go_to_next host w a)
    unfolding go_to_next
    go_to_next-IsOrderly w r =
        if-holds (IsOrderly host) _ (finish-IsOrderly State.cancelled r)
          (next_tool-IsOrderly positive w.loop w.rest r)

    report_unavailable-IsRunning :
        (c : ToolCall) (status : ToolCallStatus) (text : Text) {a : Agent}
        → IsRunning host a
        → IsRunning host (report_unavailable c status text a)
    unfolding report_unavailable
    report_unavailable-IsRunning c status text r = ground arith

    settle_result-IsRunning :
        (seconds : ℕ) (status : ToolCallStatus) (text : Text) {a : Agent}
        → IsRunning host a
        → IsRunning host ((settle_result seconds status text a).2)
    unfolding settle_result
    settle_result-IsRunning seconds blocked text r = r
    settle_result-IsRunning seconds _ text r = ground arith

    watch_ledger-IsRunning :
        (c : ToolCall) (x : ToolCallStatus × Text × Agent)
        → IsRunning host (x.2)
        → IsRunning host (watch_ledger c x)
    unfolding report_tool
    watch_ledger-IsRunning c (status, text, a) r = ground arith

    pub on_gate_result-IsOrderly :
        (w : Work) (seconds : ℕ) (status : ToolCallStatus) (text : Text) (end_prompt : Bool)
        {a : Agent}
        → IsRunning host a
        → IsOrderly host (on_gate_result host w seconds status text end_prompt a)
    unfolding on_gate_result
    on_gate_result-IsOrderly w seconds status text true r =
        go_to_next-IsOrderly w (report_unavailable-IsRunning w.call status text r)
    on_gate_result-IsOrderly w seconds status text false r =
        go_to_next-IsOrderly w
          (watch_ledger-IsRunning w.call _ (settle_result-IsRunning seconds status text r))

    pub on_proceed-IsOrderly :
        (w : Work) (proceed : Bool) {a : Agent}
        → IsRunning host a
        → IsOrderly host (on_proceed host w proceed a)
    unfolding on_proceed
    on_proceed-IsOrderly w true r = request-IsOrderly w positive (ground arith)
    on_proceed-IsOrderly w false r = finish-IsOrderly end (ground arith)
