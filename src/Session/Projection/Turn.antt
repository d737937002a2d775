-- ===== src/Session/Projection/Turn.antt =====
-- src/session/projection.ts: what the events inside a turn leave of the conversation before it.
use hera_v.Shared.{
  if-holds, not, ◌&&◌, ◌||◌, or_else, ℕ, ◌≤◌, ◌≡◌, refl, ◌∙◌, String, Bool, false, Option, none,
  some, List, [], ◌∷◌, ◌++◌, arith, length, length-append, take, take-append_long, take-set,
  length-set, get_elem?,
}
use hera_v.Shared.Text.{Text}
use hera_v.Session.Records.{
  RoleName, assistant, by_model, Message, Usage, ToolCallStatus, PendingAssistant,
}
use hera_v.Session.Projection.{
  flush_option, open_pending, fresh_pending, joins, with_call, push_call, text_message,
  clear_content, is_nil, is_generating, Loop, push_message, flush_pending, flush_one, on_text_delta,
  on_tool_call_requested, on_tool_call_finished, join_call, on_turn_finished,
}

abbrev pub IsOwn : ℕ → Option PendingAssistant → Type 0
IsOwn n none = Unit
IsOwn n (some p) = (place : ℕ) → p.message ≡ some place → n ≤ place

-- What a turn leaves of the conversation that it started from.
pub record Since (start : Loop) (content : Text) (st : Loop) : Type 0 where
  pub places : take (length start.messages) st.messages ≡ start.messages
  pub objects : take (length start.store) st.store ≡ start.store
  pub long : length start.messages ≤ length st.messages
  pub big : length start.store ≤ length st.store
  pub opened : st.turn_start_index ≡ some (length start.messages)
  pub asked : st.turn_user_content ≡ content
  pub own : IsOwn (length start.store) st.pending_assistant

push_message-Since :
    (start st : Loop) (content : Text) (m : Message)
    → Since start content st
    → Since start content (push_message m st)
push_message-Since start st content m h = record {
  places =
      take-append_long (length start.messages) st.messages (length st.store ∷ []) h.long ∙ h.places;
  objects = take-append_long (length start.store) st.store (m ∷ []) h.big ∙ h.objects;
  long = omega (arith, h.long, length-append st.messages (length st.store ∷ []));
  big = omega (arith, h.big, length-append st.store (m ∷ []));
  opened = h.opened;
  asked = h.asked;
  own = h.own;
}

-- The parts of a state that a change of the pending answer leaves alone.
module _ (start st : Loop) (content : Text) (h : Since start content st) where
  pending-Since :
      (p : Option PendingAssistant)
      → IsOwn (length start.store) p
      → Since start content (record st { pending_assistant = p })
  pending-Since p own = record {
    places = h.places;
    objects = h.objects;
    long = h.long;
    big = h.big;
    opened = h.opened;
    asked = h.asked;
    own = own;
  }

flush_one-Since :
    (start st : Loop) (content : Text) (p : PendingAssistant)
    → Since start content st
    → Since start content (flush_one p st)
unfolding flush_one
flush_one-Since start st content p h =
    let m = record (text_message assistant p.content by_model st.turn_prompt_id) {
      tool_calls = p.tool_calls;
    } in
    let pushed = push_message-Since start st content m h in
    if-holds (Since start content)
      (not p.pushed && (not (is_nil p.content) || not (is_nil p.tool_calls)))
      (pending-Since start (push_message m st) content pushed _
        (λ place e. ground (arith, e, h.big)))
      h

flush_option-Since :
    (start st : Loop) (content : Text) (p : Option PendingAssistant)
    → Since start content st
    → Since start content (flush_option p st)
flush_option-Since start st content none h = h
flush_option-Since start st content (some p) h = flush_one-Since start st content p h

pub flush_pending-Since :
    (start st : Loop) (content : Text)
    → Since start content st
    → Since start content (flush_pending st)
unfolding flush_pending
flush_pending-Since start st content h = flush_option-Since start st content st.pending_assistant h

IsOwn-open_pending :
    (n : ℕ) (p : Option PendingAssistant) → IsOwn n p → IsOwn n (some (open_pending p))
IsOwn-open_pending n none h = ground arith
IsOwn-open_pending n (some p) h = ground (arith, h)

IsOwn-clear_content : (n : ℕ) (p : Option PendingAssistant) → IsOwn n p → IsOwn n (clear_content p)
IsOwn-clear_content n none h = tt
IsOwn-clear_content n (some p) h = h

pub on_text_delta-Since :
    (start st : Loop) (content text : Text)
    → Since start content st
    → Since start content (on_text_delta text st)
unfolding on_text_delta
on_text_delta-Since start st content text h =
    pending-Since start st content h _
      (IsOwn-open_pending (length start.store) st.pending_assistant h.own)

-- A call that joins an answer of this turn is written into a message of this turn.
with_call-Since :
    (start st : Loop) (content : Text) (m : Option Message) (place call : ℕ)
    → length start.store ≤ place
    → Since start content st
    → Since start content (with_call m place call st)
with_call-Since start st content none place call b h = h
with_call-Since start st content (some m) place call b h =
    let m' = record m { tool_calls = m.tool_calls ++ call ∷ [] } in
    record {
      places = h.places;
      objects = take-set (length start.store) st.store place m' b ∙ h.objects;
      long = h.long;
      big = omega (arith, h.big, length-set st.store place m');
      opened = h.opened;
      asked = h.asked;
      own = h.own;
    }

IsOwn-push_call :
    (n : ℕ) (p : Option PendingAssistant) (call : ℕ)
    → IsOwn n p
    → IsOwn n (some (push_call call (or_else p fresh_pending)))
IsOwn-push_call n none call h = ground arith
IsOwn-push_call n (some p) call h = h

join_call-Since :
    (start st : Loop) (content : Text) (joined : Option ℕ) (call : ℕ)
    → ((place : ℕ) → joined ≡ some place → length start.store ≤ place)
    → Since start content st
    → Since start content (join_call joined call st)
unfolding join_call
join_call-Since start st content none call b h =
    pending-Since start st content h _
      (IsOwn-open_pending (length start.store) st.pending_assistant h.own)
join_call-Since start st content (some place) call b h =
    pending-Since start _ content
      (with_call-Since start st content (get_elem? st.store place) place call (b place refl) h) _
      (IsOwn-push_call (length start.store) st.pending_assistant call h.own)

joins_own :
    (n : ℕ) (p : Option PendingAssistant) (place : ℕ) → IsOwn n p → joins p ≡ some place → n ≤ place
joins_own n none place h e = ground (arith, e)
joins_own n (some p) place h e = ground (arith, h place, e)

pub on_tool_call_requested-Since :
    (start st : Loop) (content : Text) (id name : String) (args_json : Text)
    → Since start content st
    → Since start content (on_tool_call_requested id name args_json st)
unfolding on_tool_call_requested
on_tool_call_requested-Since start st content id name args_json h =
    join_call-Since start _ content (joins st.pending_assistant) (length st.calls)
      (λ place e. joins_own (length start.store) st.pending_assistant place h.own e)
      (record {
        places = h.places;
        objects = h.objects;
        long = h.long;
        big = h.big;
        opened = h.opened;
        asked = h.asked;
        own = h.own;
      })

module _ (parse_todos : Text → Bool) where
  pub on_tool_call_finished-Since :
      (start st : Loop) (content : Text) (id : String) (status : ToolCallStatus) (result : Text)
      → Since start content st
      → Since start content (on_tool_call_finished parse_todos id status result st)
  unfolding on_tool_call_finished
  on_tool_call_finished-Since start st content id status result h =
      let flushed = flush_pending-Since start st content h in
      let pushed = push_message-Since start (flush_pending st) content _ flushed in
      record {
        places = pushed.places;
        objects = pushed.objects;
        long = pushed.long;
        big = pushed.big;
        opened = flushed.opened;
        asked = flushed.asked;
        own =
            IsOwn-clear_content (length start.store) (flush_pending st).pending_assistant
              flushed.own;
      }

  pub on_turn_finished-Since :
      (start st : Loop) (content : Text) (role : RoleName) (usage : Usage) (cost : Option ℕ)
      (stop : Option String) (payloads : List Text)
      → is_generating parse_todos role ≡ false
      → Since start content st
      → Since start content (on_turn_finished parse_todos role usage cost stop payloads st)
  unfolding on_turn_finished
  on_turn_finished-Since start st content role usage cost stop payloads r h = ground (arith, r, h)
