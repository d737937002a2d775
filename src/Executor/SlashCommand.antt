-- ===== src/Executor/SlashCommand.antt =====
-- src/executor/agent.ts: slash commands, with the suggestions for an unknown one.
use hera_v.Shared.{
  ℕ, suc, ◌+◌, ◌/◌, ◌≡◌, refl, min, max, Bool, not, Option, none, some, List, [], ◌∷◌, ◌++◌, map,
  if◌then◌else◌, ltb, leb, ◌==◌, length, take, any, keep_if,
}
use hera_v.Shared.Text.{Text, codes, text_eq, starts_with, is_space, trim}
pub mod Distance

pub record Workflow : Type 0 where
  pub name : Text
  pub content : Text

pub data Expanded : Type 0 where
  content : Text → Option Text → Expanded
  unknown : Text → List Text → Expanded

-- The next row of the table: `left` stands before, `corner` above it, `above` holds what is above.
unfoldable pub next_row : ℕ → ℕ → ℕ → Text → List ℕ → List ℕ
next_row c left corner [] above = []
next_row c left corner (d ∷ b) [] = []
next_row c left corner (d ∷ b) (up ∷ above) =
    let cost = if c == d then 0 else 1 in
    let here = min (min (up + 1) (left + 1)) (corner + cost) in here ∷ next_row c here up b above

-- `i` rows are done, and `row` is the last, without its first column.
unfoldable pub rows : ℕ → Text → Text → List ℕ → List ℕ
unfolding next_row
rows i [] b row = row
rows i (c ∷ a) b row = rows (suc i) a b (next_row c (suc i) i b row)

abbrev pub count_from : ℕ → Text → List ℕ
count_from n [] = []
count_from n (d ∷ b) = n ∷ count_from (suc n) b

abbrev pub last_or : ℕ → List ℕ → ℕ
last_or n [] = n
last_or n (m ∷ row) = last_or m row

unfoldable pub levenshtein : Text → Text → ℕ
unfolding rows
levenshtein a b = last_or (length a) (rows 0 a b (count_from 1 b))

abbrev find_workflow : Text → List Workflow → Option Workflow
find_workflow name [] = none
find_workflow name (w ∷ workflows) =
    if text_eq w.name name then some w else find_workflow name workflows

abbrev first_word : Text → Text
first_word [] = []
first_word (c ∷ s) = if is_space c then [] else c ∷ first_word s

-- `sort((a, b) => a.d - b.d)`, which keeps the order of equals.
abbrev insert_by : ℕ × Text → List (ℕ × Text) → List (ℕ × Text)
insert_by x [] = x ∷ []
insert_by x (y ∷ ys) = if ltb (x.0) (y.0) then x ∷ y ∷ ys else y ∷ insert_by x ys

abbrev sort_by : List (ℕ × Text) → List (ℕ × Text) → List (ℕ × Text)
sort_by sorted [] = sorted
sort_by sorted (x ∷ xs) = sort_by (insert_by x sorted) xs

abbrev is_named : Text → Text → Bool
is_named n m = text_eq m n

unfoldable pub suggestions : Text → List Text → List Text
unfolding levenshtein starts_with text_eq
suggestions name names =
    let prefixed = keep_if (λ n. starts_with n name) names in
    let others = keep_if (λ n. not (any (is_named n) prefixed)) names in
    let measured = map (λ n. (levenshtein name n, n)) others in
    let close = keep_if (λ (x : ℕ × Text). leb (x.0) (max 2 (length name / 2))) measured in
    take 3 (prefixed ++ map (λ (x : ℕ × Text). x.1) (sort_by [] close))

abbrev expand_as : Text → Text → List Workflow → Option Workflow → Expanded
unfolding suggestions
expand_as stripped name workflows none =
    unknown name (suggestions name (map (λ w. w.name) workflows))
expand_as stripped name workflows (some w) =
    content
      (stripped
        ++ codes "\n<workflows>\n@[/"
        ++ w.name
        ++ codes "] is a [Workflow]:\n<workflow>\nThe user mentioned the ("
        ++ w.name
        ++ codes ") workflow. Here are its contents:\n"
        ++ w.content
        ++ codes "\n</workflow>\n</workflows>")
      (some w.name)

abbrev expand_stripped : Text → Text → List Workflow → Expanded
unfolding expand_as is_space text_eq
expand_stripped input [] workflows = content input none
expand_stripped input (c ∷ s) workflows =
    if c == b'/'
    then (let name = first_word s in
        expand_as (c ∷ s) name workflows (find_workflow name workflows))
    else content input none

-- A trimmed input that begins with a slash begins with its name.
unfoldable pub expand_slash_command : Text → List Workflow → Expanded
unfolding expand_stripped trim
expand_slash_command input workflows = expand_stripped input (trim input) workflows

levenshtein_test : levenshtein (codes "comit") (codes "commit") ≡ 1
unfolding levenshtein
levenshtein_test = refl

suggestions_test :
    suggestions (codes "comit") (codes "verify" ∷ codes "commit" ∷ codes "commits" ∷ [])
    ≡ codes "commit" ∷ codes "commits" ∷ []
unfolding suggestions
suggestions_test = refl
