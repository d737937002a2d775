-- ===== src/Executor/Agent/Stopped/Rounds.antt =====
-- That an aborted turn stays aborted and executes nothing, from one await to the next.
use hera_v.Shared.{
  ◌+◌, ◌≡◌, String, Bool, true, false, ◌||◌, Option, none, some, List, [], ◌∷◌, arith, if-holds,
}
use hera_v.Shared.Text.{Text}
use hera_v.Executor.Agent.State
use hera_v.Executor.Agent.State.{
  Prompt, Phase, idle, model_call, tool_call, waiting_answer, compacting, AbortReason, cancel,
  resume_frozen, frozen, ResumeReason, AskKind, question, continue, PendingAsk, Event, Action,
  emits, asks, answers_tool, fails_ask, calls_model, executes, terminates_children, StopReason,
  Response, Loop, Work, After, fit_check, response, Await, resting, opening, calling, compacts,
  requesting, gated, dispatched, asking, closing, Agent, ToolCall, act, emit, turn_aborted,
  drop_turn,
}
use hera_v.Executor.Agent.Turn.{
  Host, finish, call_model, begin_compaction, give_up, after_fit_check, go_round, next_tool,
  after_stop, after_response,
}
use hera_v.Executor.Agent.Rounds.{
  Outcome, returned, failed, on_aborted, take_response, on_outcome, go_on, on_compacted, on_opened,
}

-- The tools that were executed, the last one first.
abbrev pub executed_of : List Action → List String
executed_of [] = []
executed_of (executes id ∷ xs) = id ∷ executed_of xs
executed_of (_ ∷ xs) = executed_of xs

abbrev pub is_resting : Await → Bool
is_resting resting = true
is_resting _ = false

-- The turn is aborted or over, no prompt is queued, and `ids` have been executed.
pub record IsStopped (ids : List String) (a : Agent) : Type 0 where
  pub over : (turn_aborted a || is_resting a.await) ≡ true
  pub alone : a.queued_prompt ≡ none
  pub executed : executed_of a.trace ≡ ids

-- The turn is aborted, whatever it waits for.
pub record IsAborted (ids : List String) (a : Agent) : Type 0 where
  pub aborted : turn_aborted a ≡ true
  pub alone : a.queued_prompt ≡ none
  pub executed : executed_of a.trace ≡ ids

module _ {ids : List String} where
  pub aborted-IsStopped : {a : Agent} → IsAborted ids a → IsStopped ids a
  aborted-IsStopped r = ground arith

  pub finish-IsAborted :
      (stop : StopReason) {a : Agent} → IsAborted ids a → IsAborted ids (finish stop a)
  unfolding finish
  finish-IsAborted stop r = ground arith

  pub call_model-IsAborted :
      (l : Loop) {a : Agent} → IsAborted ids a → IsAborted ids (call_model l a)
  unfolding call_model
  call_model-IsAborted l r = ground arith

  pub begin_compaction-IsAborted :
      (k : After) {a : Agent} → IsAborted ids a → IsAborted ids (begin_compaction k a)
  unfolding begin_compaction
  begin_compaction-IsAborted k r = ground arith

  pub give_up-IsAborted : {a : Agent} → IsAborted ids a → IsAborted ids (give_up a)
  unfolding give_up
  give_up-IsAborted r = ground arith

  pub drop_turn-IsAborted : {a : Agent} → IsAborted ids a → IsAborted ids (drop_turn a)
  unfolding drop_turn
  drop_turn-IsAborted r = ground arith

module _ {ids : List String} (host : Host) where
  pub after_fit_check-IsAborted :
      (l : Loop) {a : Agent} → IsAborted ids a → IsAborted ids (after_fit_check host l a)
  unfolding after_fit_check
  after_fit_check-IsAborted l {a} r = grind (arith, call_model-IsAborted, give_up-IsAborted)

  pub go_round-IsAborted :
      (l : Loop) {a : Agent} → IsAborted ids a → IsAborted ids (go_round host l a)
  unfolding go_round
  go_round-IsAborted l {a} r = ground (
    arith,
    call_model-IsAborted l r,
    begin_compaction-IsAborted (fit_check l) r,
    after_fit_check-IsAborted l r,
  )

  pub next_tool-IsAborted :
      (l : Loop) (calls : List ToolCall) {a : Agent}
      → IsAborted ids a
      → IsAborted ids (next_tool host l calls a)
  unfolding next_tool
  next_tool-IsAborted l [] r = ground (arith, finish-IsAborted State.cancelled r)
  next_tool-IsAborted l (call ∷ rest) r = ground (arith, finish-IsAborted State.cancelled r)

  pub after_stop-IsAborted :
      (l : Loop) (calls : List ToolCall) (stop : StopReason) {a : Agent}
      → IsAborted ids a
      → IsAborted ids (after_stop host l calls stop a)
  unfolding finish
  after_stop-IsAborted l calls State.refusal r = ground arith
  after_stop-IsAborted l calls State.max_output r = ground arith
  after_stop-IsAborted l calls State.pause r = ground (
    arith,
    finish-IsAborted State.end r,
    go_round-IsAborted (record l { pauses = l.pauses + 1 }) r,
  )
  after_stop-IsAborted l [] _ r = finish-IsAborted State.end r
  after_stop-IsAborted l (call ∷ rest) _ r = next_tool-IsAborted l (call ∷ rest) r

  pub after_response-IsAborted :
      (l : Loop) (r : Response) {a : Agent}
      → IsAborted ids a
      → IsAborted ids (after_response host l r a)
  unfolding after_response
  after_response-IsAborted l r h = after_stop-IsAborted l r.calls r.stop h

  pub take_response-IsAborted :
      (l : Loop) (r : Response) {a : Agent}
      → IsAborted ids a
      → IsAborted ids (take_response host l r a)
  unfolding take_response
  take_response-IsAborted l r h =
      if-holds (IsAborted ids) _ (begin_compaction-IsAborted _ (ground arith))
        (after_response-IsAborted l r (ground arith))

  pub on_aborted-IsAborted :
      (l : Loop) {a : Agent} → IsAborted ids a → IsAborted ids (on_aborted host l a)
  unfolding on_aborted
  on_aborted-IsAborted l r = ground (arith, finish-IsAborted State.cancelled r)

  pub on_outcome-IsAborted :
      (l : Loop) (o : Outcome) {a : Agent} → IsAborted ids a → IsAborted ids (on_outcome host l o a)
  unfolding on_outcome
  on_outcome-IsAborted l (returned r) h =
      if-holds (IsAborted ids) _ (on_aborted-IsAborted l (ground arith))
        (take_response-IsAborted l r (ground arith))
  on_outcome-IsAborted l (failed message) h =
      if-holds (IsAborted ids) _ (on_aborted-IsAborted l (ground arith))
        (drop_turn-IsAborted (ground arith))

  pub go_on-IsAborted : (k : After) {a : Agent} → IsAborted ids a → IsAborted ids (go_on host k a)
  go_on-IsAborted (fit_check l) r = after_fit_check-IsAborted l r
  go_on-IsAborted (response l r) h = after_response-IsAborted l r h

  pub on_compacted-IsAborted :
      (k : After) (checkpoint : Option Text) {a : Agent}
      → IsAborted ids a
      → IsAborted ids (on_compacted host k checkpoint a)
  unfolding on_compacted
  on_compacted-IsAborted k none r = go_on-IsAborted k (ground arith)
  on_compacted-IsAborted k (some checkpoint) r = go_on-IsAborted k (ground arith)

  pub on_opened-IsAborted :
      (message : Text) (memories : List Text) {a : Agent}
      → IsAborted ids a
      → IsAborted ids (on_opened host message memories a)
  unfolding on_opened
  on_opened-IsAborted message [] r = go_round-IsAborted _ (ground arith)
  on_opened-IsAborted message (id ∷ memories) r = go_round-IsAborted _ (ground arith)
