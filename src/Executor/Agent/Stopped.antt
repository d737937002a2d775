-- ===== src/Executor/Agent/Stopped.antt =====
-- What a cancellation stops, and what it does not.
pub mod Rounds
use hera_v.Shared.{
  ℕ, ◌≡◌, refl, String, Bool, true, false, Option, none, some, List, [], ◌∷◌, arith, if-holds, all,
}
use hera_v.Shared.Text.{Text}
use hera_v.Session.Records.{ToolCallStatus, blocked}
use hera_v.Executor.Agent.State
use hera_v.Executor.Agent.State.{
  AbortReason, cancel, resume_frozen, AskKind, question, continue, PendingAsk, terminates_children,
  Work, Await, opening, calling, compacts, requesting, gated, asking, closing, Agent, ToolCall, act,
  drop_turn,
}
use hera_v.Executor.Agent.Turn.{Host, finish, request}
use hera_v.Executor.Agent.Rounds.{Outcome, on_closed}
use hera_v.Executor.Agent.Tools.{
  on_requested, on_dispatch, on_tool_end, settle_result, report_tool, watch_ledger,
  report_unavailable, go_to_next, on_gate_result, close_ask, on_proceed,
}
use hera_v.Executor.Agent.Inbound.{
  ask_question, proceed_at, stop_at, answer_ask, answer_if, on_answer, continue_ask, continue_if,
  on_continue, reject_ask, reject_if, abort, on_cancel,
}
use hera_v.Executor.Agent.{
  Input, prompts, acked, model_notices, model_ends, compaction_ends, gate_dispatches,
  gate_unavailable, gate_pends, tool_asks, tool_ends, gate_returns, throws, answers, continues,
  cancels, resumes, injects, survivors_found, at_ack, at_outcome, at_compacted, when_gated,
  on_throw, step, run,
}
use hera_v.Executor.Agent.Stopped.Rounds.{
  is_resting, IsStopped, IsAborted, aborted-IsStopped, finish-IsAborted, next_tool-IsAborted,
  on_outcome-IsAborted, on_compacted-IsAborted, on_opened-IsAborted,
}

-- A cancellation, or nothing that could undo one.
abbrev pub is_harmless : Input → Bool
is_harmless (prompts p) = false
is_harmless (resumes reason) = false
is_harmless (cancels cancel) = true
is_harmless (cancels State.shutdown) = true
is_harmless (cancels resume_frozen) = false
is_harmless (cancels State.resume_tool_hang) = false
is_harmless _ = true

module _ {ids : List String} where
  watch_ledger-IsAborted :
      (c : ToolCall) (x : ToolCallStatus × Text × Agent)
      → IsAborted ids (x.2)
      → IsAborted ids (watch_ledger c x)
  unfolding report_tool
  watch_ledger-IsAborted c (status, text, a) r = ground arith

  settle_result-IsAborted :
      (seconds : ℕ) (status : ToolCallStatus) (text : Text) {a : Agent}
      → IsAborted ids a
      → IsAborted ids ((settle_result seconds status text a).2)
  unfolding settle_result
  settle_result-IsAborted seconds blocked text r = r
  settle_result-IsAborted seconds _ text r = ground arith

  report_unavailable-IsAborted :
      (c : ToolCall) (status : ToolCallStatus) (text : Text) {a : Agent}
      → IsAborted ids a
      → IsAborted ids (report_unavailable c status text a)
  unfolding report_unavailable
  report_unavailable-IsAborted c status text r = ground arith

  -- An agent that waits for something is aborted; one at rest does nothing.
  aborted : {a : Agent} → is_resting a.await ≡ false → IsStopped ids a → IsAborted ids a
  aborted h r = ground arith

  close_ask-IsStopped :
      (ask : PendingAsk) {a : Agent} → IsStopped ids a → IsStopped ids (close_ask ask a)
  unfolding close_ask
  close_ask-IsStopped ask r = ground arith

module _ {ids : List String} (host : Host) where
  go_to_next-IsAborted :
      (w : Work) {a : Agent} → IsAborted ids a → IsAborted ids (go_to_next host w a)
  unfolding go_to_next
  go_to_next-IsAborted w r = ground (arith, finish-IsAborted State.cancelled r)

  on_gate_result-IsAborted :
      (w : Work) (seconds : ℕ) (status : ToolCallStatus) (text : Text) (end_prompt : Bool)
      {a : Agent}
      → IsAborted ids a
      → IsAborted ids (on_gate_result host w seconds status text end_prompt a)
  unfolding on_gate_result
  on_gate_result-IsAborted w seconds status text true r =
      go_to_next-IsAborted w (report_unavailable-IsAborted w.call status text r)
  on_gate_result-IsAborted w seconds status text false r =
      go_to_next-IsAborted w
        (watch_ledger-IsAborted w.call _ (settle_result-IsAborted seconds status text r))

  on_proceed-IsAborted :
      (w : Work) (proceed : Bool) {a : Agent}
      → IsAborted ids a
      → IsAborted ids (on_proceed host w proceed a)
  unfolding on_proceed request finish
  on_proceed-IsAborted w true r = ground arith
  on_proceed-IsAborted w false r = ground arith

  proceed_at-IsStopped :
      (w : Await) (proceed : Bool) {a : Agent}
      → a.await ≡ w
      → IsStopped ids a
      → IsStopped ids (proceed_at host w proceed a)
  proceed_at-IsStopped (asking w) proceed h r =
      aborted-IsStopped (on_proceed-IsAborted w proceed (aborted (ground arith) r))
  proceed_at-IsStopped _ proceed h r = r

  at_ack-IsStopped :
      (w : Await) {a : Agent} → a.await ≡ w → IsStopped ids a → IsStopped ids (at_ack host w a)
  unfolding on_requested on_closed drop_turn
  at_ack-IsStopped (opening message memories) h r =
      aborted-IsStopped (on_opened-IsAborted host message memories (aborted (ground arith) r))
  at_ack-IsStopped (requesting w) h r = ground arith
  at_ack-IsStopped closing h r = ground arith
  at_ack-IsStopped _ h r = r

  stop_at-IsStopped :
      (w : Await) {a : Agent} → a.await ≡ w → IsStopped ids a → IsStopped ids (stop_at host w a)
  stop_at-IsStopped (asking w) h r =
      aborted-IsStopped (next_tool-IsAborted host w.loop [] (aborted (ground arith) r))
  stop_at-IsStopped _ h r = r

  at_outcome-IsStopped :
      (o : Outcome) (w : Await) {a : Agent}
      → a.await ≡ w
      → IsStopped ids a
      → IsStopped ids (at_outcome host o w a)
  at_outcome-IsStopped o (calling l) h r =
      aborted-IsStopped (on_outcome-IsAborted host l o (aborted (ground arith) r))
  at_outcome-IsStopped o _ h r = r

  at_compacted-IsStopped :
      (checkpoint : Option Text) (w : Await) {a : Agent}
      → a.await ≡ w
      → IsStopped ids a
      → IsStopped ids (at_compacted host checkpoint w a)
  at_compacted-IsStopped checkpoint (compacts k) h r =
      aborted-IsStopped (on_compacted-IsAborted host k checkpoint (aborted (ground arith) r))
  at_compacted-IsStopped checkpoint _ h r = r

  answer_if-IsStopped :
      (id : ℕ) (o : Option PendingAsk) {a : Agent}
      → IsStopped ids a
      → IsStopped ids (answer_if host id o a)
  unfolding close_ask
  answer_if-IsStopped id none r = r
  answer_if-IsStopped id (some ask) {a} r = if-holds (IsStopped ids) _ (by_kind ask.kind) r
    where
      by_kind : (kind : AskKind) → IsStopped ids (answer_ask host id kind ask a)
      by_kind question = ground arith
      by_kind continue = proceed_at-IsStopped a.await true refl (close_ask-IsStopped ask r)

  continue_if-IsStopped :
      (proceed : Bool) (o : Option PendingAsk) {a : Agent}
      → IsStopped ids a
      → IsStopped ids (continue_if host proceed o a)
  unfolding close_ask
  continue_if-IsStopped proceed none r = r
  continue_if-IsStopped proceed (some ask) {a} r = by_kind ask.kind
    where
      by_kind : (kind : AskKind) → IsStopped ids (continue_ask host proceed kind ask a)
      by_kind question = r
      by_kind continue = proceed_at-IsStopped a.await proceed refl (close_ask-IsStopped ask r)

  reject_if-IsStopped :
      (o : Option PendingAsk) {a : Agent} → IsStopped ids a → IsStopped ids (reject_if host o a)
  unfolding close_ask
  reject_if-IsStopped none r = r
  reject_if-IsStopped (some ask) {a} r = by_kind ask.kind
    where
      by_kind : (kind : AskKind) → IsStopped ids (reject_ask host kind ask a)
      by_kind question = ground arith
      by_kind continue = stop_at-IsStopped a.await refl (close_ask-IsStopped ask r)

  on_cancel-IsStopped :
      (reason : AbortReason) {a : Agent}
      → is_harmless (cancels reason) ≡ true
      → IsStopped ids a
      → IsStopped ids (on_cancel host reason a)
  unfolding on_cancel
  on_cancel-IsStopped reason {a} h r =
      if-holds (IsStopped ids) _ r (reject_if-IsStopped a.pending_ask (marked reason h r))
    where
      marked :
          (reason : AbortReason) {b : Agent}
          → is_harmless (cancels reason) ≡ true
          → IsStopped ids b
          → IsStopped ids (
              act terminates_children
                (record b { abort_reason = some reason; signal = abort b.signal }))
      marked reason h q = ground arith

  gate_result-IsStopped :
      (w : Await) (seconds : ℕ) (status : ToolCallStatus) (text : Text) (end_prompt : Bool)
      {a : Agent}
      → a.await ≡ w
      → IsStopped ids a
      → IsStopped ids (when_gated w (λ v. on_gate_result host v seconds status text end_prompt) a)
  gate_result-IsStopped (gated w) seconds status text end_prompt h r =
      aborted-IsStopped
        (on_gate_result-IsAborted w seconds status text end_prompt (aborted (ground arith) r))
  gate_result-IsStopped _ seconds status text end_prompt h r = r

  step-IsStopped :
      (i : Input) {a : Agent}
      → is_harmless i ≡ true
      → IsStopped ids a
      → IsStopped ids (step host i a)
  unfolding step on_answer on_continue on_dispatch on_tool_end on_throw drop_turn ask_question
  step-IsStopped (prompts p) h r = cc
  step-IsStopped acked {a} h r = at_ack-IsStopped a.await refl r
  step-IsStopped (model_notices text) h r = ground arith
  step-IsStopped (model_ends o) {a} h r = at_outcome-IsStopped o a.await refl r
  step-IsStopped (compaction_ends checkpoint) {a} h r =
      at_compacted-IsStopped checkpoint a.await refl r
  step-IsStopped gate_dispatches h r = ground arith
  step-IsStopped gate_unavailable h r = ground arith
  step-IsStopped gate_pends h r = ground arith
  step-IsStopped tool_asks h r = ground arith
  step-IsStopped tool_ends h r = ground arith
  step-IsStopped (gate_returns seconds status text end_prompt) {a} h r =
      gate_result-IsStopped a.await seconds status text end_prompt refl r
  step-IsStopped throws h r = ground arith
  step-IsStopped (answers id) {a} h r = answer_if-IsStopped id a.pending_ask r
  step-IsStopped (continues proceed) {a} h r = continue_if-IsStopped proceed a.pending_ask r
  step-IsStopped (cancels reason) h r = on_cancel-IsStopped reason h r
  step-IsStopped (resumes reason) h r = cc
  step-IsStopped (injects inject) h r = ground arith
  step-IsStopped survivors_found h r = ground arith

  -- Once a turn is cancelled, with no prompt queued behind it, no tool is executed any more, whatever
  -- comes in but a new prompt, a resume of the Supervisor, or an abort under the name of a resume.
  pub run-IsStopped :
      (is : List Input) {a : Agent}
      → all is_harmless is ≡ true
      → IsStopped ids a
      → IsStopped ids (run host is a)
  unfolding run
  run-IsStopped [] h r = r
  run-IsStopped (i ∷ is) h r = run-IsStopped is (ground arith) (step-IsStopped i (ground arith) r)
