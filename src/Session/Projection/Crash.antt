-- ===== src/Session/Projection/Crash.antt =====
-- src/session/projection.ts: a log that breaks off inside a turn.
use mathlib.Core.Path.{subst}
use hera_v.Shared.{
  ◌-◌, take-all, or_else, ℕ, ◌≡◌, refl, sym, ◌∙◌, String, Bool, true, false, Option, none, some,
  List, [], ◌∷◌, ◌++◌, arith, All, if◌then◌else◌, length, length-append, take, take-append_long,
  is_some,
}
use hera_v.Shared.Text.{Text}
use hera_v.Session.Records.{
  generating, user, by_user, AgentEvent, session_started, user_message, text_delta, thinking_delta,
  tool_call_requested, tool_call_finished, turn_finished, checkpoint_created, other,
}
use hera_v.Session.Projection.{
  open_turn, drop_turn, text_message, Loop, new_loop, flush_pending, on_event, project_loop,
  project_events, on_user_message,
}
use hera_v.Session.Projection.Turn.{
  Since, on_text_delta-Since, on_tool_call_requested-Since, on_tool_call_finished-Since,
  on_turn_finished-Since,
}

-- The events that neither end a turn nor start one nor compact the conversation.
abbrev pub stays_open : AgentEvent → Bool
stays_open (user_message content prompt_id) = false
stays_open (turn_finished generating usage cost stop payloads) = false
stays_open (checkpoint_created text kept prompt_id) = false
stays_open _ = true

module _ (parse_todos : Text → Bool) where
  on_event-Since :
      (start st : Loop) (content : Text) (event : AgentEvent)
      → stays_open event ≡ true
      → Since start content st
      → Since start content (on_event parse_todos event st)
  unfolding on_event
  on_event-Since start st content (session_started prompt) o h = h
  on_event-Since start st content (user_message c prompt_id) o h = cc
  on_event-Since start st content (text_delta text) o h =
      on_text_delta-Since start st content text h
  on_event-Since start st content thinking_delta o h = h
  on_event-Since start st content (tool_call_requested id name args_json) o h =
      on_tool_call_requested-Since start st content id name args_json h
  on_event-Since start st content (tool_call_finished id status result) o h =
      on_tool_call_finished-Since parse_todos start st content id status result h
  on_event-Since start st content (turn_finished role usage cost stop payloads) o h =
      on_turn_finished-Since parse_todos start st content role usage cost stop payloads
        (ground (arith, o)) h
  on_event-Since start st content (checkpoint_created text kept prompt_id) o h = cc
  on_event-Since start st content other o h = h

  project_loop-Since :
      (start : Loop) (content : Text) (events : List AgentEvent) (st : Loop)
      → All (λ event. stays_open event ≡ true) events
      → Since start content st
      → Since start content (project_loop parse_todos events st)
  unfolding project_loop
  project_loop-Since start content [] st o h = h
  project_loop-Since start content (event ∷ events) st (o, os) h =
      project_loop-Since start content events (on_event parse_todos event st) os
        (on_event-Since start st content event o h)

  project_loop-append :
      (events more : List AgentEvent) (st : Loop)
      → project_loop parse_todos (events ++ more) st
        ≡ project_loop parse_todos more (project_loop parse_todos events st)
  unfolding project_loop
  project_loop-append [] more st = refl
  project_loop-append (event ∷ events) more st =
      project_loop-append events more (on_event parse_todos event st)

  open_turn-Since :
      (st : Loop) (content : Text) (ref : String) → Since st content (open_turn content ref st)
  open_turn-Since st content ref = record {
    places =
        take-append_long (length st.messages) st.messages (length st.store ∷ []) (omega arith)
        ∙ take-all st.messages;
    objects = take-append_long (length st.store) st.store _ (omega arith) ∙ take-all st.store;
    long = omega (arith, length-append st.messages (length st.store ∷ []));
    big = omega (arith, length-append st.store (text_message user content by_user ref ∷ []));
    opened = refl;
    asked = refl;
    own = λ place e. ground (arith, e);
  }

  on_user_message-Since :
      (st : Loop) (content : Text) (prompt_id : Option String)
      → st.turn_start_index ≡ none
      → Since st content (on_user_message content prompt_id st)
  unfolding on_user_message
  on_user_message-Since st content prompt_id h =
      let ref = or_else prompt_id "" in
      subst
        (λ o. Since st content (open_turn content ref (if is_some o then flush_pending st else st)))
        (sym h) (open_turn-Since st content ref)

  whole_log-Since :
      (done turn : List AgentEvent) (content : Text) (prompt_id : Option String)
      → (project_loop parse_todos done new_loop).turn_start_index ≡ none
      → All (λ event. stays_open event ≡ true) turn
      → Since
          (project_loop parse_todos done new_loop)
          content
          (project_loop parse_todos (done ++ user_message content prompt_id ∷ turn) new_loop)
  unfolding project_loop on_event
  whole_log-Since done turn content prompt_id settled stays =
      let before = project_loop parse_todos done new_loop in
      subst (Since before content)
        (sym (project_loop-append done (user_message content prompt_id ∷ turn) new_loop))
        (project_loop-Since before content turn (on_user_message content prompt_id before) stays
          (on_user_message-Since before content prompt_id settled))

  drop_turn-Since :
      (start st : Loop) (content : Text) (ids : List String) (o : Option ℕ)
      → o ≡ some (length start.messages)
      → Since start content st
      → ((drop_turn o st ids).final.messages ≡ start.messages)
        × (take (length start.store) (drop_turn o st ids).final.store ≡ start.store)
        × ((drop_turn o st ids).incomplete_turn
            ≡ some (content, length st.messages - length start.messages))
  drop_turn-Since start st content ids none e h = cc
  drop_turn-Since start st content ids (some n) e h =
      let n_eq : length start.messages ≡ n = ground (arith, e) in
      let report : (drop_turn (some (length start.messages)) st ids).incomplete_turn
          ≡ some (content, length st.messages - length start.messages) =
        ground (arith, h.asked) in
      subst
        (λ n.
          ((drop_turn (some n) st ids).final.messages ≡ start.messages)
          × (take (length start.store) (drop_turn (some n) st ids).final.store ≡ start.store)
          × ((drop_turn (some n) st ids).incomplete_turn
              ≡ some (content, length st.messages - length start.messages)))
        n_eq (h.places, h.objects, report)

  -- A log that breaks off in a turn, in which the conversation was not compacted (no checkpoint was
  -- written), after a part at whose end no turn was open, projects to the
  -- conversation of that part: the same places, the message objects that were there as they were.
  -- The turn's own text is reported as incomplete, with the number of the messages dropped.
  pub crash_tail :
      (done turn : List AgentEvent) (content : Text) (prompt_id : Option String)
      → (project_loop parse_todos done new_loop).turn_start_index ≡ none
      → All (λ event. stays_open event ≡ true) turn
      → let before = project_loop parse_todos done new_loop in
        let log = done ++ user_message content prompt_id ∷ turn in
        let after = project_events parse_todos log in
        (after.final.messages ≡ before.messages)
        × (take (length before.store) after.final.store ≡ before.store)
        × (after.incomplete_turn
            ≡ some (
              content,
              length (project_loop parse_todos log new_loop).messages - length before.messages,
            ))
  unfolding project_events
  crash_tail done turn content prompt_id settled stays =
      let before = project_loop parse_todos done new_loop in
      let log = done ++ user_message content prompt_id ∷ turn in
      let h = whole_log-Since done turn content prompt_id settled stays in
      drop_turn-Since before (project_loop parse_todos log new_loop) content _ _ h.opened h
