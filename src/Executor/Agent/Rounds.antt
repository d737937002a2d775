-- ===== src/Executor/Agent/Rounds.antt =====
-- src/executor/agent.ts: what `runTurn`, `loop` and `finish` do after each await but those of tools.
use hera_v.Shared.{
  ◌+◌, String, Bool, true, false, not, ◌&&◌, ◌||◌, Option, none, some, List, [], ◌∷◌, ◌++◌, map,
  if◌then◌else◌, ◌==◌, length,
}
use hera_v.Shared.Text.{Text, codes, trim}
use hera_v.Session.Records.{assistant, Usage}
use hera_v.Executor.Compaction.{Call, compacted}
use hera_v.Executor.Mailbox.{
  is_nil, decimal_from, set_prompt_context, drain_for_user_message, build_user_message,
}
use hera_v.Executor.SlashCommand.{Expanded, content, unknown, expand_slash_command}
use hera_v.Executor.Agent.State.{
  Prompt, cancel, resume_frozen, resume_tool_hang, shutdown, end, cancelled, warning, error,
  restart, frozen, user_message, memory_injected, turn_started, executor_resumed,
  checkpoint_created, error_event, ToolCall, StopReason, Response, Loop, After, fit_check, response,
  opening, Agent, AbortReason, no_usage, emit, push, system_note, drop_turn,
}
use hera_v.Executor.Agent.Turn.{
  Host, finish, go_round, begin_compaction, after_fit_check, after_response, wants_compaction,
}

-- How a call of the model ends: with a response, or with an error of the provider.
pub data Outcome : Type 0 where
  returned : Response → Outcome
  failed : String → Outcome

abbrev frozen_reason : Option AbortReason → Bool
frozen_reason none = false
frozen_reason (some resume_frozen) = true
frozen_reason (some resume_tool_hang) = false
frozen_reason (some cancel) = false
frozen_reason (some shutdown) = false

unfoldable pub resume_note : Text
resume_note = codes "<supervisor_note>\nturn resumed by supervisor after stall\n</supervisor_note>"

-- A frozen call is issued again once.
unfoldable pub on_aborted : Host → Loop → Agent → Agent
on_aborted host l a =
    if frozen_reason a.abort_reason && l.reissues == 0
    then go_round host (record l { reissues = l.reissues + 1 })
        (emit (executor_resumed frozen)
          (push (system_note resume_note) (record a { abort_reason = none })))
    else finish cancelled a

abbrev add_usage : Usage → Usage → Usage
add_usage u v = record {
  uncached_input = u.uncached_input + v.uncached_input;
  cache_write = u.cache_write + v.cache_write;
  cache_read = u.cache_read + v.cache_read;
  output = u.output + v.output;
}

abbrev call_of : ToolCall → Call
call_of c = record { args_json = c.args_json; result = none }

unfoldable pub take_response : Host → Loop → Response → Agent → Agent
take_response host l r a =
    let pushed =
      push
        (record {
          role = assistant;
          content = r.content;
          calls = map call_of r.calls;
          usage = some r.usage;
        })
        (record a { turn_usage = add_usage a.turn_usage r.usage }) in
    if wants_compaction host pushed
    then begin_compaction (response l r) pushed
    else after_response host l r pushed

abbrev is_cancelled : StopReason → Bool
is_cancelled cancelled = true
is_cancelled _ = false

abbrev aborted_signal : Option Bool → Bool
aborted_signal none = false
aborted_signal (some b) = b

-- The call of the model ends in the loop `l`.
unfoldable pub on_outcome : Host → Loop → Outcome → Agent → Agent
on_outcome host l (returned r) a =
    let over : Agent = record a { signal = none } in
    if aborted_signal a.signal || is_cancelled r.stop
    then on_aborted host l over
    else take_response host l r over
on_outcome host l (failed message) a =
    let over : Agent = record a { signal = none } in
    if aborted_signal a.signal
    then on_aborted host l over
    else drop_turn (emit (error_event error message) over)

abbrev pub go_on : Host → After → Agent → Agent
go_on host (fit_check l) a = after_fit_check host l a
go_on host (response l r) a = after_response host l r a

-- The compaction ends with a checkpoint, or has failed.
unfoldable pub on_compacted : Host → After → Option Text → Agent → Agent
on_compacted host k none a = go_on host k (emit (error_event warning "compaction failed") a)
on_compacted host k (some checkpoint) a =
    let (messages, truncated) = compacted checkpoint a.messages in
    go_on host k
      (emit (checkpoint_created truncated (length messages)) (record a { messages = messages }))

abbrev is_blank : Text → Bool
is_blank text = is_nil (trim text)

abbrev pub begin_turn : Host → Prompt → Agent → Agent
begin_turn host p a = record a {
  turn_active = true;
  turn_index = a.turn_index + 1;
  mailbox =
      set_prompt_context (codes "prompt_" ++ decimal_from (a.turn_index + 2) (a.turn_index + 1))
        a.mailbox;
  tool_calls_this_turn = 0;
  turn_usage = no_usage;
  abort_reason = none;
}

abbrev pub tell_restart : Option Text → Agent → Agent
tell_restart none a = a
tell_restart (some note) a = emit (executor_resumed restart) a

abbrev pub open_turn : Host → Expanded → Agent → Agent
open_turn host (unknown name close) a = finish end (emit (error_event error "Unknown workflow") a)
open_turn host (content text workflow) a =
    let (drained, box) = drain_for_user_message a.mailbox in
    let message = build_user_message text drained.blocks (host.date a.turn_index) host.cwd in
    emit (user_message message)
      (record a { mailbox = box; await = opening message drained.memory_ids })

-- `runTurn` for an agent at rest.
unfoldable pub start_turn : Host → Prompt → Agent → Agent
start_turn host p a =
    let begun = tell_restart p.note (begin_turn host p a) in
    if is_blank p.text
    then finish end (emit (error_event error "empty prompt -> nothing sent to the model.") begun)
    else open_turn host (expand_slash_command p.text host.workflows) begun

abbrev none_queued : Option Prompt → Bool
none_queued none = true
none_queued (some p) = false

unfoldable pub run_turn : Host → Prompt → Agent → Agent
run_turn host p a =
    if not a.turn_active
    then start_turn host p a
    else if a.finishing && none_queued a.queued_prompt
    then record a { queued_prompt = some p }
    else emit (error_event warning "prompt received while a turn is active") a

abbrev tell_memories : List Text → Agent → Agent
tell_memories [] a = a
tell_memories (id ∷ ids) a = emit (memory_injected (id ∷ ids)) a

-- The user's message is on disk.
unfoldable pub on_opened : Host → Text → List Text → Agent → Agent
on_opened host message ids a =
    go_round host (record { pauses = 0; reissues = 0 })
      (emit turn_started (push (system_note message) (tell_memories ids a)))

abbrev pub run_queued : Host → Option Prompt → Agent → Agent
run_queued host none a = a
run_queued host (some p) a = run_turn host p (record a { queued_prompt = none })

-- `turn_finished` is on disk.
unfoldable pub on_closed : Host → Agent → Agent
on_closed host a =
    run_queued host a.queued_prompt
      (drop_turn (record a { finishing = false; abort_reason = none }))
