-- ===== src/Tools/Examples.antt =====
-- A small edit.
use hera_v.Shared.{◌≡◌, refl, false}
use hera_v.Shared.Text.{codes}
use hera_v.Tools.Edit.{apply_replacement, updated, split}
use hera_v.Tools.Edit.Replacing.{Replaces, apply_replacement-Replaces}

accepted :
    apply_replacement (codes "let a = 1") (codes "a") (codes "b") false
    ≡ updated (codes "let b = 1")
unfolding apply_replacement split
accepted = refl

apply_replacement-Replaces_example :
    Replaces (codes "let a = 1") (codes "a") (codes "b") (codes "let b = 1") false
apply_replacement-Replaces_example =
    apply_replacement-Replaces (codes "let a = 1") (codes "a") (codes "b") (codes "let b = 1") false
      accepted
