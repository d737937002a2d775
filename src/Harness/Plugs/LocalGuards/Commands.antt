-- ===== src/Harness/Plugs/LocalGuards/Commands.antt =====
-- Which command lines the local guards let through without asking.
use hera_v.Shared.{
  ◌≡◌, ◌≢◌, ◌↔◌, true, false, Option, none, some, [], All, all_iff, not_any_iff, any, arith,
  or_else,
}
use hera_v.Shared.Text.{Text}
use hera_v.Harness.Gate.{allow}
use hera_v.Harness.Plugs.KeyShapes.{scan_key_shapes}
use hera_v.Harness.Plugs.CommandLine.{split_statements}
use hera_v.Harness.Plugs.Paths.{Host, resolve_real_path, inside_workspace}
use hera_v.Harness.Plugs.Denylist.{matches_entry, match_denylist, wraps, is_shell_wrapper}
use hera_v.Harness.Plugs.Denylist.Matching.{Clears, match_denylist-none_iff}
use hera_v.Harness.Plugs.LocalGuards.{
  LocalGuardsConfig, ApprovalMode, unsafe, ask_all, off, approved_statements, uses_network, approve,
  approve_unsafe, answer_listed, answer_command, by_denylist, by_wrapper, by_key_shape,
}

module _ (host : Host) (config : LocalGuardsConfig) where
  abbrev pub InsideCwd : Option Text → Type 0
  InsideCwd none = Unit
  InsideCwd (some cwd) =
      inside_workspace host (resolve_real_path host cwd config.workspace)
        (resolve_real_path host config.workspace config.workspace)
      ≡ true

  -- The operator approved every statement by a prefix, none goes to the network, and the working
  -- directory lies in the workspace.
  pub record IsApproved (line : Text) (cwd : Option Text) : Type 0 where
    pub some_statement : split_statements line ≢ []
    pub prefixed :
        All
          (λ s. any (matches_entry s) (or_else config.auto_approve_prefixes []) ≡ true)
          (split_statements line)
    pub offline : uses_network host config (split_statements line) ≡ false
    pub cwd_inside : InsideCwd cwd

  pub record PassesRules (line : Text) : Type 0 where
    pub clear : All (Clears config.denylist) (split_statements line)
    pub unwrapped : All (λ s. wraps s ≡ false) (split_statements line)
    pub keyless : scan_key_shapes line ≡ false

  approve_unsafe_iff :
      (line : Text) (cwd : Option Text)
      → (approve_unsafe host config line cwd ≡ allow) ↔ IsApproved line cwd
  unfolding approve_unsafe approved_statements
  approve_unsafe_iff line none = ground (
    arith,
    all_iff (λ s. any (matches_entry s) (or_else config.auto_approve_prefixes []))
        (split_statements line),
  )
  approve_unsafe_iff line (some cwd) = ground (
    arith,
    all_iff (λ s. any (matches_entry s) (or_else config.auto_approve_prefixes []))
        (split_statements line),
  )

  abbrev pub Approval : ApprovalMode → Text → Option Text → Type 0
  Approval off line cwd = Unit
  Approval ask_all line cwd = ⊥
  Approval unsafe line cwd = IsApproved line cwd

  approve_iff :
      (mode : ApprovalMode) (line : Text) (cwd : Option Text)
      → (approve host config mode line cwd ≡ allow) ↔ Approval mode line cwd
  unfolding approve
  approve_iff off line cwd = ground arith
  approve_iff ask_all line cwd = ground arith
  approve_iff unsafe line cwd = approve_unsafe_iff line cwd

  answer_listed_iff :
      (o : Option Text) (line : Text) (cwd : Option Text)
      → (answer_listed host config o line cwd ≡ allow) ↔ (
          (o ≡ none)
          × (is_shell_wrapper line ≡ false)
          × (scan_key_shapes line ≡ false)
          × Approval (or_else config.approval ask_all) line cwd)
  unfolding answer_listed by_denylist by_wrapper by_key_shape
  answer_listed_iff (some e) line cwd = ground arith
  answer_listed_iff none line cwd =
      ground (arith, approve_iff (or_else config.approval ask_all) line cwd)

-- A command line is let through without asking exactly when no statement matches the denylist, no
-- statement is an opaque shell call, it holds no key-shaped token, and either approval is off, or
-- it is `unsafe` and the operator's prefixes cover every statement, none of which goes to the
-- network, with a working directory inside the workspace.
pub answer_command-allow_iff :
    (host : Host) (config : LocalGuardsConfig) (line : Text) (cwd : Option Text)
    → (answer_command host config line cwd ≡ allow) ↔ (
        PassesRules host config line
        × Approval host config (or_else config.approval ask_all) line cwd)
unfolding answer_command is_shell_wrapper
answer_command-allow_iff host config line cwd = ground (
  arith,
  answer_listed_iff host config (match_denylist line config.denylist) line cwd,
  match_denylist-none_iff line config.denylist,
  not_any_iff wraps (split_statements line),
)
