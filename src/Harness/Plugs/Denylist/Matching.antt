-- ===== src/Harness/Plugs/Denylist/Matching.antt =====
-- src/harness/plugs/localguards.ts: which command lines the denylist stops.
use hera_v.Shared.{◌≡◌, ◌↔◌, false, none, List, [], ◌∷◌, All, arith}
use hera_v.Shared.Text.{Text}
use hera_v.Harness.Plugs.CommandLine.{split_statements}
use hera_v.Harness.Plugs.Denylist.{matches_entry, first_entry, first_match, match_denylist}

-- No entry is matched by the statement.
abbrev pub Clears : List Text → Text → Type 0
Clears entries stmt = All (λ entry. matches_entry stmt entry ≡ false) entries

first_entry-none_iff :
    (stmt : Text) (entries : List Text) → (first_entry stmt entries ≡ none) ↔ Clears entries stmt
unfolding first_entry
first_entry-none_iff stmt [] = ground arith
first_entry-none_iff stmt (e ∷ entries) = ground (arith, first_entry-none_iff stmt entries)

first_match-none_iff :
    (stmts entries : List Text) → (first_match stmts entries ≡ none) ↔ All (Clears entries) stmts
unfolding first_match
first_match-none_iff [] entries = ground arith
first_match-none_iff (s ∷ stmts) entries =
    ground (arith, first_entry-none_iff s entries, first_match-none_iff stmts entries)

-- The denylist finds nothing exactly when no statement of the line matches any of its entries.
pub match_denylist-none_iff :
    (line : Text) (entries : List Text)
    → (match_denylist line entries ≡ none) ↔ All (Clears entries) (split_statements line)
unfolding match_denylist
match_denylist-none_iff line entries = first_match-none_iff (split_statements line) entries
