-- ===== src/Executor/Compaction.antt =====
-- src/executor/compaction.ts: when a conversation is compacted, and what is kept of it. The summary
-- itself is the model's. A length of a text is that of its code units; `JSON.stringify` of the tool
-- definitions is a parameter.
use hera_v.Shared.{
  ℕ, zero, suc, ◌+◌, ◌-◌, ◌*◌, ◌/◌, Bool, true, false, not, ◌&&◌, Option, none, some, List, [], ◌∷◌,
  ◌++◌, if◌then◌else◌, ltb, leb, length, min, any, drop, or_else,
}
use hera_v.Shared.Text.{Text, codes, trim}
use hera_v.Session.Records.{MessageRole, assistant, tool, user, Usage}
pub mod Keeping

pub record Call : Type 0 where
  pub args_json : Text
  pub result : Option Text

-- What compaction reads of a message.
pub record Entry : Type 0 where
  pub role : MessageRole
  pub content : Text
  pub calls : List Call
  pub usage : Option Usage

abbrev pub keep_tail_messages : ℕ
keep_tail_messages = 6

unfoldable pub project_tokens : ℕ → ℕ → ℕ
project_tokens anchor_tokens chars = anchor_tokens + chars / 4

abbrev is_assistant : MessageRole → Bool
is_assistant assistant = true
is_assistant _ = false

abbrev pub is_tool : Entry → Bool
is_tool m = elim m.role [ tool ↦ true | _ ↦ false ]

abbrev usage_tokens : Usage → ℕ
usage_tokens u = u.uncached_input + u.cache_read + u.cache_write + u.output

abbrev args_chars : List Call → ℕ
args_chars [] = 0
args_chars (c ∷ calls) = length c.args_json + args_chars calls

-- The anchor's tokens, and the characters of the messages after it.
abbrev anchored : Entry → Option Usage → ℕ × ℕ → ℕ × ℕ
anchored m none (tokens, chars) = (tokens, chars + length m.content + args_chars m.calls)
anchored m (some u) (tokens, chars) =
    if is_assistant m.role
    then (usage_tokens u, 0)
    else (tokens, chars + length m.content + args_chars m.calls)

anchor_from : List Entry → ℕ × ℕ → ℕ × ℕ
anchor_from [] sofar = sofar
anchor_from (m ∷ messages) sofar = anchor_from messages (anchored m m.usage sofar)

unfoldable pub project_from_messages : List Entry → ℕ
unfolding project_tokens anchor_from
project_from_messages messages =
    let (tokens, chars) = anchor_from messages (0, 0) in project_tokens tokens chars

-- `fraction * maxInput`, rounded down, is the parameter `part`.
pub compaction_threshold : (ℕ → ℕ) → ℕ → Option ℕ → Option ℕ → ℕ
compaction_threshold part max_tokens max_input context_window =
    min (part (or_else max_input (or_else context_window 128000))) max_tokens

unfoldable pub should_compact : ℕ → ℕ → Bool
should_compact projected threshold = leb threshold projected

abbrev call_chars : List Call → ℕ
call_chars [] = 0
call_chars (c ∷ calls) = length c.args_json + length (or_else c.result []) + call_chars calls

message_chars : List Entry → ℕ
message_chars [] = 0
message_chars (m ∷ messages) = length m.content + call_chars m.calls + message_chars messages

unfoldable pub estimate_request_size : Text → Text → List Entry → ℕ
unfolding message_chars
estimate_request_size system_prompt tools_json messages =
    (length system_prompt + length tools_json + message_chars messages) / 4

unfoldable pub fits_window : ℕ → ℕ → Bool
fits_window estimated max_input = leb estimated max_input

-- `splice` at the place that `findIndex` finds.
remove_first : List Entry → List Entry
remove_first [] = []
remove_first (m ∷ messages) =
    let rest = remove_first messages in if is_tool m then messages else m ∷ rest

-- Each round takes one message away, so the number of messages is fuel enough.
drop_loop : ℕ → ℕ → List Entry → List Entry × ℕ
unfolding remove_first
drop_loop zero floor messages = (messages, 0)
drop_loop (suc fuel) floor messages =
    let (rest, dropped) = drop_loop fuel floor (remove_first messages) in
    if ltb floor (length messages) && any is_tool messages
    then (rest, suc dropped)
    else (messages, 0)

unfoldable pub drop_old_tool_results : List Entry → ℕ → List Entry × ℕ
unfolding drop_loop
drop_old_tool_results messages floor = drop_loop (length messages) floor messages

-- `while (cut < tail.length && tail[cut]?.role === "tool") cut++`, and the slice from there.
cut_tools : List Entry → List Entry
cut_tools [] = []
cut_tools (m ∷ tail) = let rest = cut_tools tail in if is_tool m then rest else m ∷ tail

-- The messages that `compact` keeps behind the checkpoint.
unfoldable pub kept_tail : List Entry → List Entry
unfolding cut_tools
kept_tail messages = cut_tools (drop (length messages - keep_tail_messages) messages)

-- The new conversation and the number of messages that the summary stands for.
unfoldable pub compacted : Text → List Entry → List Entry × ℕ
unfolding kept_tail
compacted checkpoint_text messages =
    let tail = kept_tail messages in
    (
      record { role = user; content = checkpoint_text; calls = []; usage = none } ∷ tail,
      length messages - length tail,
    )

abbrev join_parts : List Text → Text
join_parts [] = []
join_parts (part ∷ []) = part
join_parts (part ∷ next ∷ parts) = part ++ codes "\n\n" ++ join_parts (next ∷ parts)

abbrev todo_parts : Option Text → List Text
todo_parts none = []
todo_parts (some todo_json) =
    codes "# Current working TODO list (keep this up to date with todo_list tool):"
    ∷ todo_json
    ∷ codes "Make sure to continue working off of this TODO list"
    ∷ []

pub build_checkpoint : Text → Text → Text → Option Text → Text
unfolding trim
build_checkpoint objective summary code_history todo_json = join_parts (
    codes
        "The following is a summary of important context from your previous session.\n{{ CHECKPOINT 1 }}"
      ∷ codes "# Objective:"
      ∷ trim objective
      ∷ todo_parts todo_json
    ++ (codes "# Session Summary:"
        ∷ trim summary
        ∷ codes "# Code Interaction Summary:"
        ∷ trim code_history
        ∷ codes "DO NOT ACKNOWLEDGE THIS CHECKPOINT MESSAGE."
        ∷ []))
