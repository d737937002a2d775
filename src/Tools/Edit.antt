-- ===== src/Tools/Edit.antt =====
-- src/tools/edit.ts: the read gate, the replacement rules of edit and multi_edit, and the edits of one
-- call in order. Files and their times are given as values; the texts of errors are left out.
use hera_v.Shared.{
  ℕ, zero, suc, ◌+◌, ◌-◌, Bool, true, false, not, ◌&&◌, ◌||◌, Option, none, some, List, [], ◌∷◌,
  ◌++◌, if◌then◌else◌, ◌==◌, ltb, length, drop,
}
use hera_v.Shared.Text.{Text, text_eq, starts_with}
pub mod Replacing

abbrev push_front : ℕ → List Text → List Text
push_front c [] = (c ∷ []) ∷ []
push_front c (piece ∷ pieces) = (c ∷ piece) ∷ pieces

-- `text.split(sep)` for a separator that is not empty; so many characters still belong to the
-- separator that was found.
unfoldable pub split_from : Text → ℕ → Text → List Text
unfolding starts_with
split_from sep skip [] = [] ∷ []
split_from sep (suc skip) (c ∷ s) = split_from sep skip s
split_from sep zero (c ∷ s) =
    let after = split_from sep (length sep - 1) s in
    let further = split_from sep zero s in
    if starts_with (c ∷ s) sep then [] ∷ after else push_front c further

unfoldable pub split : Text → Text → List Text
unfolding split_from
split sep text = split_from sep 0 text

abbrev pub join : Text → List Text → Text
join sep [] = []
join sep (piece ∷ []) = piece
join sep (piece ∷ next ∷ pieces) = piece ++ sep ++ join sep (next ∷ pieces)

-- `text.replace(old, () => new)`: the first occurrence.
unfoldable pub replace_first : Text → Text → Text → Text
unfolding starts_with
replace_first old new [] = []
replace_first old new (c ∷ s) =
    let further = replace_first old new s in
    if starts_with (c ∷ s) old then new ++ drop (length old) (c ∷ s) else c ∷ further

pub data EditError : Type 0 where
  identical empty_old not_found : EditError
  ambiguous : ℕ → EditError
  not_read modified_since : EditError
  failed_edit : ℕ → EditError → EditError

pub data Edited : Type 0 where
  updated : Text → Edited
  rejected : EditError → Edited

abbrev pub replaced : Bool → Text → Text → Text → Text
replaced replace_all old new text =
    if replace_all then join new (split old text) else replace_first old new text

-- `applyReplacement`
unfoldable pub apply_replacement : Text → Text → Text → Bool → Edited
unfolding split replace_first text_eq
apply_replacement text old new replace_all =
    let occurrences = length (split old text) - 1 in
    if text_eq old new
    then rejected identical
    else if text_eq old []
    then rejected empty_old
    else if occurrences == 0
    then rejected not_found
    else if ltb 1 occurrences && not replace_all
    then rejected (ambiguous occurrences)
    else updated (replaced replace_all old new text)

-- What the ledger notes when a file is read, and what `statSync` says of it. The time `mtimeMs` is
-- given in nanoseconds, so that the tolerance of 0.5 ms is 500000.
pub record LedgerEntry : Type 0 where
  pub mtime : ℕ
  pub size : ℕ

pub data Freshness : Type 0 where
  fresh : Freshness
  stale : EditError → Freshness

-- `assertReadFresh`
unfoldable pub assert_read_fresh : Option LedgerEntry → LedgerEntry → Freshness
assert_read_fresh none stat = stale not_read
assert_read_fresh (some entry) stat =
    if ltb (entry.mtime + 500000) stat.mtime || not (stat.size == entry.size)
    then stale modified_since
    else fresh

pub record Replacement : Type 0 where
  pub old_string : Text
  pub new_string : Text
  pub replace_all : Bool

-- The loop of `multiEdit`; the first edit that fails ends it.
unfoldable pub apply_all : ℕ → List Replacement → Text → Edited
unfolding apply_replacement
apply_all index [] text = updated text
apply_all index (e ∷ edits) text =
    elim (apply_replacement text e.old_string e.new_string e.replace_all) [
      | updated text' ↦ apply_all (suc index) edits text'
      | rejected error ↦ rejected (failed_edit index error)
    ]

abbrev pub when_fresh : Freshness → Edited → Edited
when_fresh fresh result = result
when_fresh (stale error) result = rejected error

-- `edit` and `multiEdit`: what is written to the file, or why nothing is.
pub edit : Option LedgerEntry → LedgerEntry → Replacement → Text → Edited
unfolding apply_replacement assert_read_fresh
edit entry stat e text =
    when_fresh (assert_read_fresh entry stat)
      (apply_replacement text e.old_string e.new_string e.replace_all)

pub multi_edit : Option LedgerEntry → LedgerEntry → List Replacement → Text → Edited
unfolding apply_all assert_read_fresh
multi_edit entry stat edits text =
    when_fresh (assert_read_fresh entry stat) (apply_all 1 edits text)
