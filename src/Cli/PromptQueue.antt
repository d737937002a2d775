-- ===== src/Cli/PromptQueue.antt =====
-- src/cli/prompt_queue.ts: the parser of a file of prompts between fences. An error is given by the
-- rule that it names; the text of its message is left out.
use hera_v.Shared.{
  ℕ, zero, suc, ◌+◌, Bool, true, false, not, ◌&&◌, ◌||◌, Option, none, some, List, [], ◌∷◌, ◌++◌,
  if◌then◌else◌, ◌==◌, leb, all, drop, any,
}
use hera_v.Shared.Text.{Text, codes, text_eq, trim, trim_end, is_space}
pub mod Layout

pub data QueueRule : Type 0 where
  first_line_fence fence_length unclosed_fence missing_separator zero_prompts content_after_close :
      QueueRule

pub data Parsed : Type 0 where
  prompts_of : List Text → Parsed
  violates : QueueRule → Parsed

abbrev next_is_newline : Text → Bool
next_is_newline [] = false
next_is_newline (c ∷ s) = c == 10

abbrev push_front : ℕ → List Text → List Text
push_front c [] = (c ∷ []) ∷ []
push_front c (line ∷ lines) = (c ∷ line) ∷ lines

-- `text.split(/\r?\n/)`
pub split_lines : Text → List Text
split_lines [] = [] ∷ []
split_lines (c ∷ s) =
    let rest = split_lines s in
    if c == 10
    then [] ∷ rest
    else if (c == 13) && next_is_newline s
    then rest
    else push_front c rest

-- The number of backticks that a line starts with.
unfoldable pub ticks : Text → ℕ
ticks [] = 0
ticks (c ∷ s) = let rest = ticks s in if c == 96 then suc rest else 0

-- A character that `.` does not match.
abbrev ends_line : ℕ → Bool
ends_line c = any (λ d. c == d) (10 ∷ 13 ∷ 8232 ∷ 8233 ∷ [])

-- `FENCE.test(line.trim())`
unfoldable pub is_fence : Text → Bool
unfolding trim ticks
is_fence line =
    let t = trim line in leb 3 (ticks t) && all (λ c. not (ends_line c)) (drop (ticks t) t)

unfoldable pub fence_ticks : Text → ℕ
unfolding trim ticks
fence_ticks line = ticks (trim line)

-- A line of at least n backticks and nothing else.
unfoldable pub closes : ℕ → Text → Bool
unfolding trim ticks is_space
closes n line =
    let t = trim line in leb 3 (ticks t) && all is_space (drop (ticks t) t) && leb n (ticks t)

unfoldable pub is_blank : Text → Bool
unfolding trim
is_blank line = text_eq (trim line) []

unfoldable pub is_separator : Text → Bool
unfolding trim
is_separator line = text_eq (trim line) (codes "---")

abbrev pub join_lines : List Text → Text
join_lines [] = []
join_lines (line ∷ []) = line
join_lines (line ∷ next ∷ lines) = line ++ codes "\n" ++ join_lines (next ∷ lines)

-- `body.join("\n").replace(/\s+$/, "")`
unfoldable pub prompt_text : List Text → Text
unfolding trim_end
prompt_text body = trim_end (join_lines body)

-- Where the loops of the parser stand: before an opening fence, inside a prompt whose fence has n
-- backticks, after a prompt, after a separator.
pub data Place : Type 0 where
  expects_fence : Place
  in_body : ℕ → List Text → Place
  after_prompt : Place
  in_commentary : Place

abbrev finish : List Text → Parsed
finish [] = violates zero_prompts
finish (p ∷ prompts) = prompts_of (p ∷ prompts)

abbrev at_end : Place → List Text → Parsed
at_end expects_fence prompts = finish prompts
at_end (in_body n body) prompts = violates unclosed_fence
at_end after_prompt prompts = finish prompts
at_end in_commentary prompts = violates missing_separator

-- What one line comes to: a violation, or the next place with the prompts so far.
pub data Next : Type 0 where
  stop : QueueRule → Next
  go : Place → List Text → Next

abbrev open_fence : Text → List Text → Next
open_fence line prompts =
    if leb (fence_ticks line) 9
    then go (in_body (fence_ticks line) []) prompts
    else stop fence_length

unfoldable pub on_line : Place → List Text → Text → Next
unfolding is_fence fence_ticks closes is_blank is_separator prompt_text
on_line expects_fence prompts line =
    if is_fence line
    then open_fence line prompts
    else if is_blank line
    then go expects_fence prompts
    else stop first_line_fence
on_line (in_body n body) prompts line =
    if closes n line
    then go after_prompt (prompts ++ prompt_text body ∷ [])
    else go (in_body n (body ++ line ∷ [])) prompts
on_line after_prompt prompts line =
    if is_blank line
    then go after_prompt prompts
    else if is_separator line
    then go in_commentary prompts
    else if is_fence line
    then stop missing_separator
    else stop content_after_close
on_line in_commentary prompts line =
    if is_fence line
    then open_fence line prompts
    else if is_separator line
    then stop missing_separator
    else go in_commentary prompts

-- A violation ends the parse: it is thrown.
unfoldable pub advance : Next → Text → Next
unfolding on_line
advance (stop rule) line = stop rule
advance (go place prompts) line = on_line place prompts line

abbrev pub result_of : Next → Parsed
result_of (stop rule) = violates rule
result_of (go place prompts) = at_end place prompts

unfoldable pub parse_from : Next → List Text → Parsed
unfolding advance
parse_from next [] = result_of next
parse_from next (line ∷ lines) = parse_from (advance next line) lines

abbrev pub parse_first : List Text → Parsed
parse_first [] = violates zero_prompts
parse_first (line ∷ lines) =
    if is_fence line
    then parse_from (go expects_fence []) (line ∷ lines)
    else violates first_line_fence

pub skip_blank : List Text → List Text
unfolding is_blank
skip_blank [] = []
skip_blank (line ∷ lines) = if is_blank line then skip_blank lines else line ∷ lines

pub parse_lines : List Text → Parsed
unfolding parse_from skip_blank
parse_lines lines = parse_first (skip_blank lines)

-- `parsePromptQueueFile`
pub parse_prompt_queue_file : Text → Parsed
unfolding parse_lines split_lines
parse_prompt_queue_file text = parse_lines (split_lines text)
