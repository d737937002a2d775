-- ===== src/Supervisor/ReviewText.antt =====
-- src/supervisor/review.ts: extractUserRequest and parseReviewText, with their patterns.
use hera_v.Shared.{
  ℕ, ◌-◌, Bool, ◌&&◌, ◌||◌, Option, none, some, [], ◌∷◌, ◌++◌, if◌then◌else◌, ltb, ◌==◌, length,
  take, drop,
}
use hera_v.Shared.Text.{Text, codes, starts_with, trim, to_lower}

-- The text after the first `mark`.
unfoldable pub after : Text → Text → Option Text
unfolding starts_with
after mark [] = none
after mark (c ∷ s) =
    let rest = after mark s in
    if starts_with (c ∷ s) mark then some (drop (length mark) (c ∷ s)) else rest

abbrev with_front : ℕ → Option Text → Option Text
with_front c none = none
with_front c (some s) = some (c ∷ s)

-- The text before the first `mark`.
unfoldable pub before : Text → Text → Option Text
unfolding starts_with
before mark [] = none
before mark (c ∷ s) =
    let rest = before mark s in if starts_with (c ∷ s) mark then some [] else with_front c rest

abbrev request_open : Text
request_open = codes "<user_request>" ++ 10 ∷ []

abbrev request_close : Text
request_close = 10 ∷ codes "</user_request>"

abbrev text_or : Text → Option Text → Text
text_or content none = content
text_or content (some s) = s

abbrev before_close : Option Text → Option Text
before_close none = none
before_close (some s) = before request_close s

unfoldable pub extract_user_request : Text → Text
unfolding after before
extract_user_request content =
    take 2000 (text_or content (before_close (after request_open content)))

abbrev governance_note_max : ℕ
governance_note_max = 600

abbrev is_quote : ℕ → Bool
is_quote c = (c == 34) || (c == 39)

-- An optional character of a pattern.
abbrev skip_one : (ℕ → Bool) → Text → Text
skip_one test [] = []
skip_one test (c ∷ s) = if test c then s else c ∷ s

abbrev is_dot : ℕ → Bool
is_dot c = c == 46

abbrev ends_no_action : Text → Bool
ends_no_action s = length (skip_one is_dot (skip_one is_quote (skip_one is_dot s))) == 0

-- `/^["']?no action\.?["']?\.?$/i`
unfoldable pub is_no_action : Text → Bool
unfolding starts_with to_lower
is_no_action s =
    let rest : Text = skip_one is_quote (to_lower s) in
    starts_with rest (codes "no action") && ends_no_action (drop 9 rest)

abbrev cap_note : Text → Text
cap_note s =
    if ltb governance_note_max (length s)
    then take (governance_note_max - 3) s ++ codes "..."
    else s

unfoldable pub parse_review_text : Text → Option Text
unfolding is_no_action trim
parse_review_text answer =
    let trimmed : Text = trim answer in
    if (length trimmed == 0) || is_no_action trimmed then none else some (cap_note trimmed)
