-- ===== src/Executor/Agent/Orderly/Running.antt =====
-- What holds of an agent at work, and that the parts of `loop` keep it.
use hera_v.Shared.{
  ℕ, ◌+◌, ◌≤◌, ◌<◌, ◌≡◌, String, Bool, true, false, ◌&&◌, List, [], ◌∷◌, arith, if◌then◌else◌, any,
}
use hera_v.Shared.{eq_refl}
use hera_v.Shared.Dict.{str_eq}
use hera_v.Executor.Agent.State.{
  StopReason, end, tool_calls, max_output, refusal, pause, cancelled, Event, tool_call_requested,
  turn_finished, Action, emits, executes, ToolCall, Response, Loop, Work, After, fit_check, Await,
  resting, requesting, gated, dispatched, closing, Agent,
}
use hera_v.Executor.Agent.Turn.{
  Host, finish, call_model, begin_compaction, give_up, after_fit_check, go_round, request,
  ask_continue, next_tool, start_tools, after_stop, after_response,
}

abbrev is_request_event : String → Event → Bool
is_request_event id (tool_call_requested i) = str_eq i id
is_request_event id _ = false

abbrev is_request : String → Action → Bool
is_request id (emits e) = is_request_event id e
is_request id _ = false

-- Every tool that was executed had been requested before. The newest action comes first.
abbrev pub written : List Action → Bool
written [] = true
written (executes id ∷ xs) = any (is_request id) xs && written xs
written (_ ∷ xs) = written xs

abbrev ends_in : Event → ℕ
ends_in (turn_finished stop usage) = 1
ends_in _ = 0

abbrev pub turns_finished : List Action → ℕ
turns_finished [] = 0
turns_finished (emits e ∷ xs) = ends_in e + turns_finished xs
turns_finished (_ ∷ xs) = turns_finished xs

abbrev pub is_busy : Await → Bool
is_busy resting = false
is_busy _ = true

-- The request of the call that the gate has is in the trace.
abbrev pub has_request : Await → List Action → Bool
has_request (requesting w) xs = any (is_request w.call.id) xs
has_request (gated w) xs = any (is_request w.call.id) xs
has_request (dispatched w) xs = any (is_request w.call.id) xs
has_request _ xs = true

-- A turn whose end has not been written yet.
abbrev pub is_unfinished : Await → Bool
is_unfinished resting = false
is_unfinished closing = false
is_unfinished _ = true

-- An agent within a turn that has not been ended.
pub record IsRunning (host : Host) (a : Agent) : Type 0 where
  pub active : a.turn_active ≡ true
  pub within : a.tool_calls_this_turn ≤ host.max_tool_calls
  pub sound : written a.trace ≡ true
  pub unfinished : turns_finished a.trace < a.turn_index

-- A turn is active where the agent waits for something; its calls are within the limit; a tool is
-- executed after its request; no turn is finished twice.
pub record IsOrderly (host : Host) (a : Agent) : Type 0 where
  pub active : a.turn_active ≡ is_busy a.await
  pub within : a.tool_calls_this_turn ≤ host.max_tool_calls
  pub sound : written a.trace ≡ true
  pub requested : has_request a.await a.trace ≡ true
  pub counted : turns_finished a.trace + (if is_unfinished a.await then 1 else 0) ≤ a.turn_index

module _ {host : Host} where
  pub finish-IsOrderly :
      (stop : StopReason) {a : Agent} → IsRunning host a → IsOrderly host (finish stop a)
  unfolding finish
  finish-IsOrderly stop r = ground arith

  pub call_model-IsOrderly :
      (l : Loop) {a : Agent} → IsRunning host a → IsOrderly host (call_model l a)
  unfolding call_model
  call_model-IsOrderly l r = ground arith

  pub begin_compaction-IsOrderly :
      (k : After) {a : Agent} → IsRunning host a → IsOrderly host (begin_compaction k a)
  unfolding begin_compaction
  begin_compaction-IsOrderly k r = ground arith

  give_up-IsOrderly : {a : Agent} → IsRunning host a → IsOrderly host (give_up a)
  unfolding give_up
  give_up-IsOrderly r = ground arith

  pub after_fit_check-IsOrderly :
      (l : Loop) {a : Agent} → IsRunning host a → IsOrderly host (after_fit_check host l a)
  unfolding after_fit_check
  after_fit_check-IsOrderly l {a} r = grind (arith, call_model-IsOrderly, give_up-IsOrderly)

  pub go_round-IsOrderly :
      (l : Loop) {a : Agent} → IsRunning host a → IsOrderly host (go_round host l a)
  unfolding go_round
  go_round-IsOrderly l {a} r = ground (
    arith,
    call_model-IsOrderly l r,
    begin_compaction-IsOrderly (fit_check l) r,
    after_fit_check-IsOrderly l r,
  )

  pub request-IsOrderly :
      (w : Work) {a : Agent}
      → a.tool_calls_this_turn < host.max_tool_calls
      → IsRunning host a
      → IsOrderly host (request w a)
  unfolding request
  request-IsOrderly w {a} h r = ground (arith, eq_refl w.call.id)

  ask_continue-IsOrderly :
      (w : Work) {a : Agent} → IsRunning host a → IsOrderly host (ask_continue w a)
  unfolding ask_continue
  ask_continue-IsOrderly w r = ground arith

  module _ (positive : 0 < host.max_tool_calls) where
    pub next_tool-IsOrderly :
        (l : Loop) (calls : List ToolCall) {a : Agent}
        → IsRunning host a
        → IsOrderly host (next_tool host l calls a)
    unfolding next_tool
    next_tool-IsOrderly l [] r =
        ground (arith, finish-IsOrderly cancelled r, go_round-IsOrderly l r)
    next_tool-IsOrderly l (call ∷ rest) {a} r = ground (arith, eq_refl call.id)

    start_tools-IsOrderly :
        (l : Loop) (calls : List ToolCall) {a : Agent}
        → IsRunning host a
        → IsOrderly host (start_tools host l calls a)
    start_tools-IsOrderly l [] h = finish-IsOrderly end h
    start_tools-IsOrderly l (call ∷ rest) h = next_tool-IsOrderly l (call ∷ rest) h

    after_stop-IsOrderly :
        (l : Loop) (calls : List ToolCall) (stop : StopReason) {a : Agent}
        → IsRunning host a
        → IsOrderly host (after_stop host l calls stop a)
    unfolding finish
    after_stop-IsOrderly l calls refusal h = ground arith
    after_stop-IsOrderly l calls max_output h = ground arith
    after_stop-IsOrderly l calls pause h =
        ground
          (arith, finish-IsOrderly end h, go_round-IsOrderly (record l { pauses = l.pauses + 1 }) h)
    after_stop-IsOrderly l calls end h = start_tools-IsOrderly l calls h
    after_stop-IsOrderly l calls tool_calls h = start_tools-IsOrderly l calls h
    after_stop-IsOrderly l calls cancelled h = start_tools-IsOrderly l calls h

    pub after_response-IsOrderly :
        (l : Loop) (r : Response) {a : Agent}
        → IsRunning host a
        → IsOrderly host (after_response host l r a)
    unfolding after_response
    after_response-IsOrderly l r h = after_stop-IsOrderly l r.calls r.stop h
