-- ===== src/Harness/Plugs/Paths/Protected.antt =====
-- When no protected pattern covers a path.
use hera_v.Shared.{◌≡◌, ◌↔◌, false, none, List, [], ◌∷◌, All, arith}
use hera_v.Shared.Text.{Text}
use hera_v.Harness.Plugs.Paths.{Host, is_protected, protects, forward, case_fold}

-- The protected paths find nothing exactly when no pattern, taken one by one, covers the path.
pub is_protected-none_iff :
    (host : Host) (real : Text) (patterns : List Text)
    → (is_protected host real patterns ≡ none)
      ↔ All (λ p. protects host (forward host (case_fold host real)) p ≡ false) patterns
unfolding is_protected
is_protected-none_iff host real [] = ground arith
is_protected-none_iff host real (p ∷ patterns) =
    ground (arith, is_protected-none_iff host real patterns)
