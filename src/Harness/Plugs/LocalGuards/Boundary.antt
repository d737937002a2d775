-- ===== src/Harness/Plugs/LocalGuards/Boundary.antt =====
-- Which file tools the local guards let through: the workspace boundary and the protected paths.
use hera_v.Shared.{◌≡◌, ◌↔◌, ◌⊎◌, true, false, ◌||◌, Option, none, some, [], All, arith, or_else}
use hera_v.Shared.Text.{Text}
use hera_v.Harness.Gate.{allow}
use hera_v.Harness.Plugs.Paths.{
  Host, resolve_real_path, inside_workspace, expand_tilde, is_protected, protects, forward,
  case_fold,
}
use hera_v.Harness.Plugs.LocalGuards.{
  LocalGuardsConfig, Request, is_write_tool, is_read_tool, hits_allowlist, answer_unprotected,
  answer_hit, answer_path, by_boundary, by_protected,
}
use hera_v.Harness.Plugs.Paths.Protected.{is_protected-none_iff}

module _ (host : Host) (config : LocalGuardsConfig) where
  abbrev pub real_target : Text → Text
  real_target target = resolve_real_path host (expand_tilde host target) config.workspace

  abbrev pub InWorkspace : Text → Type 0
  InWorkspace real =
      inside_workspace host real (resolve_real_path host config.workspace config.workspace) ≡ true

  -- What a tool may touch: a writing tool what lies in the workspace, a reading tool also what the
  -- operator listed, and a tool of neither kind everything.
  abbrev pub MayTouch : Request → Text → Type 0
  MayTouch r real =
      (is_write_tool r.target || is_read_tool r.target ≡ true)
      → InWorkspace real
        ⊎ ((is_read_tool r.target ≡ true) × (hits_allowlist host config real ≡ true))

  answer_unprotected_iff :
      (r : Request) (target real : Text)
      → (answer_unprotected host config r target real ≡ allow) ↔ MayTouch r real
  unfolding answer_unprotected by_boundary
  answer_unprotected_iff r target real = ground arith

  answer_hit_iff :
      (hit : Option Text) (r : Request) (target real : Text)
      → (answer_hit host config hit r target real ≡ allow) ↔ ((hit ≡ none) × MayTouch r real)
  unfolding answer_hit by_protected
  answer_hit_iff (some hit) r target real = ground arith
  answer_hit_iff none r target real = ground (arith, answer_unprotected_iff r target real)

-- A tool call that names a path is let through exactly when no protected pattern covers the real
-- path, and, if the tool reads or writes files, that path lies in the workspace or (for a reading
-- tool only) on the read allowlist.
pub answer_path-allow_iff :
    (host : Host) (config : LocalGuardsConfig) (r : Request) (target : Text)
    → (answer_path host config r target ≡ allow) ↔ (
        All
          (λ p.
            protects host (forward host (case_fold host (real_target host config target))) p
            ≡ false)
          (or_else config.protected_paths [])
        × MayTouch host config r (real_target host config target))
unfolding answer_path
answer_path-allow_iff host config r target =
    let real = real_target host config target in
    let patterns = or_else config.protected_paths [] in
    ground (
      arith,
      answer_hit_iff host config (is_protected host real patterns) r target real,
      is_protected-none_iff host real patterns,
    )
