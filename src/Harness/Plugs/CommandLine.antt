-- ===== src/Harness/Plugs/CommandLine.antt =====
-- src/harness/plugs/localguards.ts: how the guards read a command line, as code units.
-- Each loop is a step on the loop's variables, taken for one character after the other.
use mathlib.Core.List.{reverse}
use hera_v.Shared.{
  ℕ, Bool, true, false, not, ◌&&◌, ◌||◌, Option, none, some, List, [], ◌∷◌, ◌++◌, ◌==◌, any, drop,
  length, if◌then◌else◌, ◌-◌,
}
use hera_v.Shared.Text.{
  Text, codes, text_eq, starts_with, includes, is_space, trim, trim_start, to_lower,
}
pub mod Pieces
pub mod Joined

pub record TokenLoop : Type 0 where
  pub tokens : List Text
  pub current : Text
  pub quote : Option ℕ
  pub in_token : Bool

abbrev pub is_quote : ℕ → Bool
is_quote ch = (ch == 34) || (ch == 39)

abbrev keeps_quote : ℕ → ℕ → Option ℕ
keeps_quote ch q = if ch == q then none else some q

abbrev push_char : ℕ → TokenLoop → TokenLoop
push_char ch st = record st { current = st.current ++ ch ∷ [] }

token_outside : ℕ → TokenLoop → TokenLoop
unfolding is_space
token_outside ch st =
    if is_quote ch
    then record st { current = st.current ++ ch ∷ []; quote = some ch; in_token = true }
    else if is_space ch
    then if st.in_token
      then record st { tokens = st.tokens ++ st.current ∷ []; current = []; in_token = false }
      else st
    else record st { current = st.current ++ ch ∷ []; in_token = true }

token_step : Option ℕ → ℕ → TokenLoop → TokenLoop
unfolding token_outside
token_step none ch st = token_outside ch st
token_step (some q) ch st = record st { current = st.current ++ ch ∷ []; quote = keeps_quote ch q }

token_loop : TokenLoop → Text → TokenLoop
unfolding token_step
token_loop st [] = st
token_loop st (ch ∷ s) = token_loop (token_step st.quote ch st) s

abbrev token_start : TokenLoop
token_start = record { tokens = []; current = []; quote = none; in_token = false }

unfoldable pub tokenize : Text → List Text
unfolding token_loop
tokenize line =
    let st = token_loop token_start line in
    if st.in_token then st.tokens ++ st.current ∷ [] else st.tokens

-- `replace(/^["']+|["']+$/g, "")`
drop_quotes : Text → Text
drop_quotes [] = []
drop_quotes (c ∷ s) = if is_quote c then drop_quotes s else c ∷ s

unquote : Text → Text
unfolding drop_quotes
unquote s = reverse (drop_quotes (reverse (drop_quotes s)))

-- What follows the last slash, where a backslash counts as one.
abbrev is_slash : ℕ → Bool
is_slash c = (c == 47) || (c == 92)

base_name : Text → Text
base_name [] = []
base_name (c ∷ s) = if any is_slash s then base_name s else if is_slash c then s else c ∷ s

-- `if (token.toLowerCase().endsWith(".exe")) token = token.slice(0, -4)`
drop_exe : Text → Text
unfolding starts_with to_lower
drop_exe s =
    if starts_with (reverse (to_lower s)) (codes "exe.") then reverse (drop 4 (reverse s)) else s

abbrev first_or_empty : List Text → Text
first_or_empty [] = []
first_or_empty (t ∷ ts) = t

abbrev is_empty : Text → Bool
is_empty [] = true
is_empty (c ∷ s) = false

unfoldable pub normalize_first_token : Text → Text
unfolding tokenize unquote base_name drop_exe trim to_lower
normalize_first_token line =
    let stripped = trim line in
    if is_empty stripped
    then []
    else to_lower (drop_exe (base_name (unquote (first_or_empty (tokenize stripped)))))

pub record SplitLoop : Type 0 where
  pub pieces : List Text
  pub current : Text
  pub in_single : Bool
  pub in_double : Bool
  pub escaped : Bool
  pub skip : Bool  -- the next character was taken by `i++`

abbrev pub next_is : ℕ → Text → Bool
next_is c [] = false
next_is c (d ∷ s) = d == c

abbrev cut : SplitLoop → SplitLoop
cut st = record st { pieces = st.pieces ++ st.current ∷ []; current = [] }

abbrev append_char : ℕ → SplitLoop → SplitLoop
append_char ch st = record st { current = st.current ++ ch ∷ [] }

-- Outside quotes, and not after a backtick.
split_plain : ℕ → Text → SplitLoop → SplitLoop
split_plain ch rest st =
    if ch == 39
    then append_char ch (record st { in_single = true })
    else if ch == 34
    then append_char ch (record st { in_double = true })
    else if ((ch == 38) && next_is 38 rest) || ((ch == 124) && next_is 124 rest)
    then cut (record st { skip = true })
    else if (ch == 124) || (ch == 59) || (ch == 10)
    then cut st
    else append_char ch st

pub split_step : ℕ → Text → SplitLoop → SplitLoop
unfolding split_plain
split_step ch rest st =
    if st.skip
    then record st { skip = false }
    else if st.escaped
    then append_char ch (record st { escaped = false })
    else if (ch == 96) && not st.in_single
    then append_char ch (record st { escaped = true })
    else if st.in_single
    then append_char ch (record st { in_single = not (ch == 39) })
    else if st.in_double
    then append_char ch (record st { in_double = not (ch == 34) })
    else split_plain ch rest st

pub split_loop : SplitLoop → Text → SplitLoop
unfolding split_step
split_loop st [] = st
split_loop st (ch ∷ s) = split_loop (split_step ch s st) s

abbrev pub split_start : SplitLoop
split_start = record {
  pieces = [];
  current = [];
  in_single = false;
  in_double = false;
  escaped = false;
  skip = false;
}

unfoldable pub split_pieces : Text → List Text
unfolding split_loop
split_pieces line = let st = split_loop split_start line in st.pieces ++ st.current ∷ []

-- `& x` and `. x` call x.
drop_call : Text → Text
unfolding trim_start starts_with
drop_call s =
    if starts_with s (codes "& ")
      || starts_with s (38 ∷ 9 ∷ [])
      || starts_with s (codes ". ")
      || starts_with s (46 ∷ 9 ∷ [])
    then trim_start (drop 2 s)
    else s

abbrev last_is : ℕ → Text → Bool
last_is c s = next_is c (reverse s)

abbrev inner : Text → Text
inner s = trim (reverse (drop 1 (reverse (drop 1 s))))

-- One pair of parentheses or braces round the whole statement is taken off.
drop_brackets : Text → Text
unfolding trim
drop_brackets s =
    if next_is 40 s && last_is 41 s
    then inner s
    else if next_is 123 s && last_is 125 s
    then inner s
    else s

-- The body of the loop over the pieces.
statement_of : Text → Text
unfolding drop_call drop_brackets trim
statement_of raw = drop_brackets (drop_call (trim raw))

statements_of : List Text → List Text
unfolding statement_of
statements_of [] = []
statements_of (raw ∷ pieces) =
    let rest = statements_of pieces in
    if is_empty (trim raw)
    then rest
    else if is_empty (statement_of raw)
    then rest
    else statement_of raw ∷ rest

unfoldable pub split_statements : Text → List Text
unfolding split_pieces statements_of
split_statements line = statements_of (split_pieces line)
