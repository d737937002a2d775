-- ===== src/Cli/PromptQueue/Layout.antt =====
-- What a file of prompts looks like, line by line, and that src/cli/prompt_queue.ts reads it back.
use hera_v.Shared.{
  Bool-cases, inl, inr, ℕ, ◌≤◌, ◌≡◌, refl, sym, ap, ◌∙◌, true, false, not, all, Bool, if◌then◌else◌,
  List, [], ◌∷◌, ◌++◌, arith, All,
}
use mathlib.Core.Path.{subst}
use mathlib.Core.List.{append_assoc, append-nil, reverse, reverse-append, reverse-reverse}
use hera_v.Shared.Text.{Text, codes, trim, text_eq, text_eq→eq, is_space, trim_start, trim_end}
use hera_v.Cli.PromptQueue.{
  ticks, prompts_of, Place, expects_fence, in_body, after_prompt, in_commentary, go, on_line,
  parse_from, parse_first, parse_lines, skip_blank, is_fence, fence_ticks, closes, is_blank,
  is_separator, prompt_text, join_lines, finish,
}

-- A prompt between its fences, blank lines after it, and what stands before the next one: a
-- separator and commentary.
pub record Block : Type 0 where
  pub opening : Text
  pub body : List Text
  pub prompt : Text
  pub trailing : Text
  pub closing : Text
  pub gap : List Text
  pub separator : Text
  pub notes : List Text

abbrev is_no_line : List Text → Bool
is_no_line [] = true
is_no_line (line ∷ lines) = false

-- The lines of a text, with a newline between two.
abbrev pub as_text : List Text → Text
as_text [] = []
as_text (line ∷ lines) = if is_no_line lines then line else line ++ codes "\n" ++ as_text lines

-- The last character of a text is no white space.
abbrev pub ends_visibly : Text → Bool
ends_visibly [] = true
ends_visibly (c ∷ []) = not (is_space c)
ends_visibly (c ∷ d ∷ s) = ends_visibly (d ∷ s)

pub record IsBlock (b : Block) : Type 0 where
  pub opens : is_fence b.opening ≡ true
  pub short : fence_ticks b.opening ≤ 9
  pub inside : All (λ line. closes (fence_ticks b.opening) line ≡ false) b.body
  pub said : as_text b.body ≡ b.prompt ++ b.trailing
  pub visible : ends_visibly b.prompt ≡ true
  pub invisible : all is_space b.trailing ≡ true
  pub shut : closes (fence_ticks b.opening) b.closing ≡ true
  pub empty : All (λ line. is_blank line ≡ true) b.gap
  pub separates : is_separator b.separator ≡ true
  pub comments : All (λ line. (is_fence line ≡ false) × (is_separator line ≡ false)) b.notes

abbrev pub lines_of : Block → List Text
lines_of b = b.opening ∷ b.body ++ b.closing ∷ b.gap

-- The blocks of a file: the separator and the notes stand between one block and the next.
abbrev pub layout : Block → List Block → List Text
layout b [] = lines_of b
layout b (next ∷ blocks) = lines_of b ++ (b.separator ∷ (b.notes ++ layout next blocks))

abbrev pub texts_of : List Block → List Text
texts_of [] = []
texts_of (b ∷ blocks) = b.prompt ∷ texts_of blocks

join_lines-as_text : (lines : List Text) → join_lines lines ≡ as_text lines
join_lines-as_text [] = refl
join_lines-as_text (line ∷ []) = refl
join_lines-as_text (line ∷ next ∷ lines) =
    ap (λ s. line ++ codes "\n" ++ s) (join_lines-as_text (next ∷ lines))

reverse-cons : (c : ℕ) (s t : Text) → reverse (c ∷ s) ++ t ≡ reverse s ++ c ∷ t
reverse-cons c s t =
    ap (λ r. r ++ t) (reverse-append (c ∷ []) s) ∙ append_assoc (reverse s) (c ∷ []) t

trim_start-blank : (s t : Text) → all is_space s ≡ true → trim_start (reverse s ++ t) ≡ trim_start t
unfolding trim_start
trim_start-blank [] t h = refl
trim_start-blank (c ∷ s) t h =
    ap trim_start (reverse-cons c s t) ∙ trim_start-blank s (c ∷ t) (ground arith) ∙ ground arith

trim_start-visible :
    (c : ℕ) (s t : Text)
    → ends_visibly (c ∷ s) ≡ true
    → trim_start (reverse (c ∷ s) ++ t) ≡ reverse (c ∷ s) ++ t
unfolding trim_start
trim_start-visible c [] t h = ground arith
trim_start-visible c (d ∷ s) t h =
    ap trim_start (reverse-cons c (d ∷ s) t)
    ∙ trim_start-visible d s (c ∷ t) h
    ∙ sym (reverse-cons c (d ∷ s) t)

trim_start-reverse : (s : Text) → ends_visibly s ≡ true → trim_start (reverse s) ≡ reverse s
unfolding trim_start
trim_start-reverse [] h = refl
trim_start-reverse (c ∷ s) h =
    ap trim_start (sym (append-nil (reverse (c ∷ s))))
    ∙ trim_start-visible c s [] h
    ∙ append-nil (reverse (c ∷ s))

-- The prompt that is read is the text of the body without the white space at its end.
prompt_text-said : (b : Block) → IsBlock b → prompt_text b.body ≡ b.prompt
unfolding prompt_text trim_end
prompt_text-said b h =
    ap (λ s. reverse (trim_start (reverse s))) (join_lines-as_text b.body ∙ h.said)
    ∙ ap (λ s. reverse (trim_start s)) (reverse-append b.prompt b.trailing)
    ∙ ap reverse (
        trim_start-blank b.trailing (reverse b.prompt) h.invisible
        ∙ trim_start-reverse b.prompt h.visible)
    ∙ reverse-reverse b.prompt

read_body :
    (n : ℕ) (sofar prompts body rest : List Text) (closing : Text)
    → All (λ line. closes n line ≡ false) body
    → closes n closing ≡ true
    → parse_from (go (in_body n sofar) prompts) (body ++ closing ∷ rest)
      ≡ parse_from (go after_prompt (prompts ++ prompt_text (sofar ++ body) ∷ [])) rest
unfolding parse_from on_line
read_body n sofar prompts [] rest closing h shut =
    let read : on_line (in_body n sofar) prompts closing
        ≡ go after_prompt (prompts ++ prompt_text sofar ∷ []) =
      rw shut in
    ap (λ x. parse_from x rest) read
    ∙ ap (λ x. parse_from (go after_prompt (prompts ++ prompt_text x ∷ [])) rest)
        (sym (append-nil sofar))
read_body n sofar prompts (line ∷ body) rest closing (inside, h) shut =
    let read : on_line (in_body n sofar) prompts line
        ≡ go (in_body n (sofar ++ line ∷ [])) prompts =
      rw inside in
    ap (λ x. parse_from x (body ++ closing ∷ rest)) read
    ∙ read_body n (sofar ++ line ∷ []) prompts body rest closing h shut
    ∙ ap (λ x. parse_from (go after_prompt (prompts ++ prompt_text x ∷ [])) rest)
        (append_assoc sofar (line ∷ []) body)

skip_gap :
    (prompts gap rest : List Text)
    → All (λ line. is_blank line ≡ true) gap
    → parse_from (go after_prompt prompts) (gap ++ rest) ≡ parse_from (go after_prompt prompts) rest
unfolding parse_from on_line
skip_gap prompts [] rest h = refl
skip_gap prompts (line ∷ gap) rest (blank, h) =
    let read : on_line after_prompt prompts line ≡ go after_prompt prompts = rw blank in
    ap (λ x. parse_from x (gap ++ rest)) read ∙ skip_gap prompts gap rest h

skip_notes :
    (prompts notes rest : List Text)
    → All (λ line. (is_fence line ≡ false) × (is_separator line ≡ false)) notes
    → parse_from (go in_commentary prompts) (notes ++ rest)
      ≡ parse_from (go in_commentary prompts) rest
unfolding parse_from on_line
skip_notes prompts [] rest h = refl
skip_notes prompts (line ∷ notes) rest ((plain, single), h) =
    let read : on_line in_commentary prompts line ≡ go in_commentary prompts = rw (plain, single) in
    ap (λ x. parse_from x (notes ++ rest)) read ∙ skip_notes prompts notes rest h

-- One block, read from its opening fence on, adds its prompt.
read_block :
    (b : Block) (place : Place) (prompts rest : List Text)
    → IsBlock b
    → on_line place prompts b.opening ≡ go (in_body (fence_ticks b.opening) []) prompts
    → parse_from (go place prompts) (lines_of b ++ rest)
      ≡ parse_from (go after_prompt (prompts ++ b.prompt ∷ [])) rest
unfolding parse_from
read_block b place prompts rest h opened =
    let after = prompts ++ b.prompt ∷ [] in
    ap (λ x. parse_from x ((b.body ++ b.closing ∷ b.gap) ++ rest)) opened
    ∙ ap (λ x. parse_from (go (in_body (fence_ticks b.opening) []) prompts) x)
        (append_assoc b.body (b.closing ∷ b.gap) rest)
    ∙ read_body (fence_ticks b.opening) [] prompts b.body (b.gap ++ rest) b.closing h.inside h.shut
    ∙ ap (λ x. parse_from (go after_prompt (prompts ++ x ∷ [])) (b.gap ++ rest))
        (prompt_text-said b h)
    ∙ skip_gap after b.gap rest h.empty

opened_at_start :
    (b : Block) (prompts : List Text)
    → IsBlock b
    → on_line expects_fence prompts b.opening ≡ go (in_body (fence_ticks b.opening) []) prompts
unfolding on_line
opened_at_start b prompts h = ground (arith, h.opens, h.short)

opened_after_notes :
    (b : Block) (prompts : List Text)
    → IsBlock b
    → on_line in_commentary prompts b.opening ≡ go (in_body (fence_ticks b.opening) []) prompts
unfolding on_line
opened_after_notes b prompts h = ground (arith, h.opens, h.short)

dashes_visible : text_eq (codes "---") [] ≡ false
unfolding text_eq
dashes_visible = refl

separator_visible : (line : Text) → is_separator line ≡ true → is_blank line ≡ false
unfolding is_separator is_blank
separator_visible line h =
    ap (λ t. text_eq t []) (text_eq→eq (trim line) (codes "---") h) ∙ dashes_visible

no_ticks : ticks [] ≡ 0
unfolding ticks
no_ticks = refl

fence_visible : (line : Text) → is_fence line ≡ true → is_blank line ≡ false
unfolding is_fence is_blank
fence_visible line h = elim (Bool-cases (text_eq (trim line) [])) [
  | inl same ↦
      let none_there : ticks (trim line) ≡ 0 =
        ap ticks (text_eq→eq (trim line) [] same) ∙ no_ticks in
      ground (arith, h, none_there)
  | inr other ↦ other
]

separated :
    (b : Block) (prompts : List Text)
    → IsBlock b
    → on_line after_prompt prompts b.separator ≡ go in_commentary prompts
unfolding on_line
separated b prompts h = ground (arith, h.separates, separator_visible b.separator h.separates)

finish-cons :
    (prompts : List Text) (p : Text) → finish (prompts ++ p ∷ []) ≡ prompts_of (prompts ++ p ∷ [])
finish-cons [] p = refl
finish-cons (q ∷ prompts) p = refl

-- A whole file, read from its first fence on.
read_layout :
    (b : Block) (blocks : List Block) (place : Place) (prompts : List Text)
    → IsBlock b
    → All IsBlock blocks
    → on_line place prompts b.opening ≡ go (in_body (fence_ticks b.opening) []) prompts
    → parse_from (go place prompts) (layout b blocks)
      ≡ prompts_of (prompts ++ texts_of (b ∷ blocks))
unfolding parse_from
read_layout b [] place prompts h hs opened =
    ap (parse_from (go place prompts)) (sym (append-nil (lines_of b)))
    ∙ read_block b place prompts [] h opened
    ∙ finish-cons prompts (b.prompt)
read_layout b (next ∷ blocks) place prompts h (k, ks) opened =
    let after = prompts ++ b.prompt ∷ [] in
    read_block b place prompts (b.separator ∷ (b.notes ++ layout next blocks)) h opened
    ∙ ap (λ x. parse_from x (b.notes ++ layout next blocks)) (separated b after h)
    ∙ skip_notes after b.notes (layout next blocks) h.comments
    ∙ read_layout next blocks in_commentary after k ks (opened_after_notes next after k)
    ∙ ap prompts_of (append_assoc prompts (b.prompt ∷ []) (texts_of (next ∷ blocks)))

skip_leading :
    (leading lines : List Text)
    → All (λ line. is_blank line ≡ true) leading
    → skip_blank (leading ++ lines) ≡ skip_blank lines
unfolding skip_blank
skip_leading [] lines h = refl
skip_leading (line ∷ leading) lines (blank, h) =
    let read : skip_blank (line ∷ leading ++ lines) ≡ skip_blank (leading ++ lines) = rw blank in
    read ∙ skip_leading leading lines h

kept_fence :
    (line : Text) (lines : List Text)
    → is_blank line ≡ false
    → skip_blank (line ∷ lines) ≡ line ∷ lines
unfolding skip_blank
kept_fence line lines h = rw h refl

parse_fenced :
    (line : Text) (lines : List Text)
    → is_fence line ≡ true
    → parse_first (line ∷ lines) ≡ parse_from (go expects_fence []) (line ∷ lines)
parse_fenced line lines h = rw h refl

parse_block :
    (b : Block) (rest : List Text)
    → IsBlock b
    → parse_first (skip_blank (lines_of b ++ rest))
      ≡ parse_from (go expects_fence []) (lines_of b ++ rest)
parse_block b rest h =
    ap parse_first (
      kept_fence b.opening ((b.body ++ b.closing ∷ b.gap) ++ rest)
        (fence_visible b.opening h.opens))
    ∙ parse_fenced b.opening ((b.body ++ b.closing ∷ b.gap) ++ rest) h.opens

parse_layout :
    (b : Block) (blocks : List Block)
    → IsBlock b
    → parse_first (skip_blank (layout b blocks))
      ≡ parse_from (go expects_fence []) (layout b blocks)
parse_layout b [] h =
    subst (λ l. parse_first (skip_blank l) ≡ parse_from (go expects_fence []) l)
      (append-nil (lines_of b)) (parse_block b [] h)
parse_layout b (next ∷ blocks) h = parse_block b (b.separator ∷ (b.notes ++ layout next blocks)) h

-- A file of well-formed prompts is read back: after any blank lines, prompts between fences of three
-- to nine backticks, each but the last followed by a separator and commentary, parse to exactly
-- those prompts, in order: the lines between the fences, joined, without the white space at the end. The commentary and the fences are no part of any of them.
pub parse_lines-layout :
    (leading : List Text) (b : Block) (blocks : List Block)
    → All (λ line. is_blank line ≡ true) leading
    → IsBlock b
    → All IsBlock blocks
    → parse_lines (leading ++ layout b blocks) ≡ prompts_of (texts_of (b ∷ blocks))
unfolding parse_lines
parse_lines-layout leading b blocks e h hs =
    ap parse_first (skip_leading leading (layout b blocks) e)
    ∙ parse_layout b blocks h
    ∙ read_layout b blocks expects_fence [] h hs (opened_at_start b [] h)
