-- ===== src/Harness/Plugs/CommandLine/Joined.antt =====
-- What the pieces of a command line are: what stands between the separators outside quotes.
use mathlib.Core.List.{append_assoc, append-nil}
use hera_v.Shared.{
  ℕ, suc, ◌≡◌, ◌<◌, ◌≤◌, refl, sym, ap, ◌∙◌, Bool, true, false, not, ◌&&◌, ◌||◌, List, [], ◌∷◌,
  ◌++◌, ◌==◌, All, arith, Bool-cases, inl, inr, if◌then◌else◌, length, length-append, take, drop,
  any,
}
use hera_v.Shared.Text.{Text, codes, text_eq}
use hera_v.Harness.Plugs.CommandLine.{
  SplitLoop, next_is, split_step, split_loop, split_start, split_pieces,
}
use hera_v.Harness.Plugs.CommandLine.Pieces.{
  cuts, step_current, step_cut, after_skip, split_pieces-stable,
}

-- Where a reader of a command line stands: between quotes or not, or after a backtick.
pub data Mode : Type 0 where
  plain single double plain_tick double_tick : Mode

abbrev pub next_mode : Mode → ℕ → Mode
next_mode plain c =
    if c == 96 then plain_tick else if c == 39 then single else if c == 34 then double else plain
next_mode single c = if c == 39 then plain else single
next_mode double c = if c == 96 then double_tick else if c == 34 then plain else double
next_mode plain_tick c = plain
next_mode double_tick c = double

-- A separator is `;`, `|`, the end of a line, `&&` or `||`.
abbrev pub separates : Mode → ℕ → Text → Bool
separates plain c s = ((c == 38) && next_is 38 s) || (c == 124) || (c == 59) || (c == 10)
separates _ c s = false

unfoldable pub has_separator_in : Mode → Text → Bool
has_separator_in mode [] = false
has_separator_in mode (c ∷ s) = separates mode c s || has_separator_in (next_mode mode c) s

-- A separator stands in the text outside quotes and not after a backtick.
abbrev pub has_separator : Text → Bool
has_separator s = has_separator_in plain s

abbrev pub separators : List Text
separators = codes "&&" ∷ codes "||" ∷ codes "|" ∷ codes ";" ∷ (10 ∷ []) ∷ []

abbrev pub is_separator_text : Text → Bool
is_separator_text s = any (text_eq s) separators

-- Pieces with a separator after each but the last.
abbrev pub glue : List Text → List Text → Text
glue [] seps = []
glue (p ∷ ps) [] = p
glue (p ∷ ps) (sep ∷ seps) = p ++ (sep ++ glue ps seps)

abbrev mode_of : SplitLoop → Mode
mode_of st =
    if st.escaped
    then (if st.in_double then double_tick else plain_tick)
    else if st.in_single
    then single
    else if st.in_double
    then double
    else plain

abbrev is_fit : SplitLoop → Bool
is_fit st = not (st.in_single && (st.in_double || st.escaped))

step_mode :
    (c : ℕ) (s : Text) (st : SplitLoop)
    → st.skip ≡ false
    → is_fit st ≡ true
    → cuts c s st ≡ false
    → (separates (mode_of st) c s ≡ false)
      × (mode_of (split_step c s st) ≡ next_mode (mode_of st) c)
      × (is_fit (split_step c s st) ≡ true)
unfolding split_step
step_mode c s st k f n = ground arith

pieces_grow : (s : Text) (st : SplitLoop) → length st.pieces ≤ length (split_loop st s).pieces
unfolding split_loop split_step
pieces_grow [] st = omega arith
pieces_grow (c ∷ s) st =
    ground (arith, pieces_grow s (split_step c s st), length-append st.pieces (st.current ∷ []))

found_cut :
    (s : Text) (st : SplitLoop)
    → st.skip ≡ false
    → is_fit st ≡ true
    → has_separator_in (mode_of st) s ≡ true
    → length st.pieces < length (split_loop st s).pieces
unfolding split_loop has_separator_in
found_cut [] st k f h = cc
found_cut (c ∷ s) st k f h = elim (Bool-cases (cuts c s st)) [
  | inl cut ↦
      let (pushed, reset) = step_cut c s st k cut in
      omega (
        arith,
        ap length pushed,
        length-append st.pieces (st.current ∷ []),
        pieces_grow s (split_step c s st),
      )
  | inr whole ↦
      let (same, moved, fit) = step_mode c s st k f whole in
      let (grown, kept, unskipped) = step_current c s st k whole in
      let later =
        found_cut s (split_step c s st) unskipped fit
          (ap (λ m. has_separator_in m s) moved ∙ ground arith) in
      omega (arith, later, ap length kept)
]

-- A text that is split into itself alone has no separator.
one_piece : (piece : Text) → split_pieces piece ≡ piece ∷ [] → has_separator piece ≡ false
unfolding split_pieces
one_piece piece h = elim (Bool-cases (has_separator piece)) [
  | inl found ↦
      let more = found_cut piece split_start refl refl found in
      let st = split_loop split_start piece in
      absurd (omega (arith, more, ap length h, length-append st.pieces (st.current ∷ [])))
  | inr clear ↦ clear
]

no_separators :
    (pieces : List Text)
    → All (λ piece. split_pieces piece ≡ piece ∷ []) pieces
    → All (λ piece. has_separator piece ≡ false) pieces
no_separators [] h = tt
no_separators (p ∷ pieces) (h, hs) = (one_piece p h, no_separators pieces hs)

-- What is left of the text once a separator that was begun is complete.
abbrev remaining : Bool → Text → Text
remaining skip s = if skip then drop 1 s else s

-- From a state on, the rest of the text is cut into more pieces, of which the first continues the
-- current one.
record Continues (st : SplitLoop) (s : Text) (all : List Text) : Type 0 where
  more : List Text
  seps : List Text
  pushed : all ≡ st.pieces ++ more
  between : All (λ sep. is_separator_text sep ≡ true) seps
  counted : length more ≡ suc (length seps)
  glued : glue more seps ≡ st.current ++ remaining st.skip s

abbrev sep_of : Bool → ℕ → Text → Text
sep_of skip c s = if skip then c ∷ take 1 s else c ∷ []

cut_state :
    (c : ℕ) (s : Text) (st : SplitLoop)
    → st.skip ≡ false
    → cuts c s st ≡ true
    → ((split_step c s st).current ≡ [])
      × (is_separator_text (sep_of (split_step c s st).skip c s) ≡ true)
      × (sep_of (split_step c s st).skip c s ++ remaining (split_step c s st).skip s ≡ c ∷ s)
unfolding split_step text_eq
cut_state c [] st k h = ground arith
cut_state c (d ∷ s) st k h = ground arith

abbrev pieces_at : SplitLoop → List Text
pieces_at st = st.pieces ++ st.current ∷ []

ends-Continues : (st : SplitLoop) → Continues st [] (pieces_at st)
ends-Continues st = record {
  more = st.current ∷ [];
  seps = [];
  pushed = refl;
  between = tt;
  counted = omega arith;
  glued = sym (append-nil st.current) ∙ ap (λ r. st.current ++ r) (nothing_left st.skip);
}
  where
    nothing_left : (skip : Bool) → [] ≡ remaining skip []
    nothing_left true = refl
    nothing_left false = refl

whole-Continues :
    (c : ℕ) (s : Text) (st : SplitLoop) (all : List Text)
    → st.skip ≡ false
    → cuts c s st ≡ false
    → Continues (split_step c s st) s all
    → Continues st (c ∷ s) all
whole-Continues c s st all k h r =
    let (grown, kept, unskipped) = step_current c s st k h in
    record {
      more = r.more;
      seps = r.seps;
      pushed = r.pushed ∙ ap (λ l. l ++ r.more) kept;
      between = r.between;
      counted = r.counted;
      glued =
          r.glued
          ∙ ap (λ b. (split_step c s st).current ++ remaining b s) unskipped
          ∙ ap (λ l. l ++ s) grown
          ∙ append_assoc st.current (c ∷ []) s
          ∙ ap (λ b. st.current ++ remaining b (c ∷ s)) (sym k);
    }

cut-Continues :
    (c : ℕ) (s : Text) (st : SplitLoop) (all : List Text)
    → st.skip ≡ false
    → cuts c s st ≡ true
    → Continues (split_step c s st) s all
    → Continues st (c ∷ s) all
cut-Continues c s st all k h r =
    let (empty, known, joined) = cut_state c s st k h in
    let (grown, reset) = step_cut c s st k h in
    let sep = sep_of (split_step c s st).skip c s in
    record {
      more = st.current ∷ r.more;
      seps = sep ∷ r.seps;
      pushed =
          r.pushed ∙ ap (λ l. l ++ r.more) grown ∙ append_assoc st.pieces (st.current ∷ []) r.more;
      between = (known, r.between);
      counted = omega (arith, r.counted);
      glued =
          ap (λ l. st.current ++ (sep ++ l))
            (r.glued ∙ ap (λ l. l ++ remaining (split_step c s st).skip s) empty)
          ∙ ap (λ l. st.current ++ l) joined
          ∙ ap (λ b. st.current ++ remaining b (c ∷ s)) (sym k);
    }

skip-Continues :
    (c : ℕ) (s : Text) (st : SplitLoop) (all : List Text)
    → st.skip ≡ true
    → Continues (split_step c s st) s all
    → Continues st (c ∷ s) all
skip-Continues c s st all k r =
    let next = after_skip c s st k in
    record {
      more = r.more;
      seps = r.seps;
      pushed = r.pushed ∙ ap (λ x. x.pieces ++ r.more) next;
      between = r.between;
      counted = r.counted;
      glued =
          r.glued
          ∙ ap (λ x. x.current ++ remaining x.skip s) next
          ∙ ap (λ b. st.current ++ remaining b (c ∷ s)) (sym k);
    }

loop-Continues : (s : Text) (st : SplitLoop) → Continues st s (pieces_at (split_loop st s))
unfolding split_loop
loop-Continues [] st = ends-Continues st
loop-Continues (c ∷ s) st =
    let all = pieces_at (split_loop (split_step c s st) s) in
    let rest = loop-Continues s (split_step c s st) in
    elim (Bool-cases st.skip) [
      | inl k ↦ skip-Continues c s st all k rest
      | inr k ↦ elim (Bool-cases (cuts c s st)) [
        | inl h ↦ cut-Continues c s st all k h rest
        | inr h ↦ whole-Continues c s st all k h rest
      ]
    ]

-- The pieces of a command line are the line, cut at separators: with a separator after each piece
-- but the last they give the line again, and in no piece there is a separator outside quotes that does
-- not follow a backtick. The separators are two ampersands, one or two bars, a semicolon and the end
-- of a line.
pub split_pieces-joined :
    (line : Text)
    → ((seps : List Text) × (All (λ sep. is_separator_text sep ≡ true) seps)
        × (length (split_pieces line) ≡ suc (length seps))
        × (glue (split_pieces line) seps ≡ line))
      × (All (λ piece. has_separator piece ≡ false) (split_pieces line))
unfolding split_pieces
split_pieces-joined line =
    let r = loop-Continues line split_start in
    (
      (
        r.seps,
        r.between,
        ap length r.pushed ∙ r.counted,
        ap (λ l. glue l r.seps) r.pushed ∙ r.glued,
      ),
      no_separators (split_pieces line) (split_pieces-stable line),
    )
