-- ===== src/Harness/Plugs/LocalGuards.antt =====
-- src/harness/plugs/localguards.ts: the plug that applies the rules.
use Prim.Native.String
use hera_v.Shared.{
  String, ◌≡◌, refl, Bool, true, false, not, ◌&&◌, ◌||◌, Option, none, some, List, [], ◌∷◌, ◌++◌,
  map, ◌==◌, any, all, if◌then◌else◌, or_else, is_some, arith,
}
use hera_v.Shared.Dict.{lookup, insert, erase, str_eq}
use hera_v.Shared.Text.{Text, codes, text_eq, starts_with, includes, trim, to_lower}
use hera_v.Harness.Descriptor.{Descriptor}
use hera_v.Harness.Gate.{
  GateAnswer, allow, block, pending, AdmitResult, admitted, GateProvider, Decision,
}
use hera_v.Harness.Plugs.KeyShapes.{scan_key_shapes}
use hera_v.Harness.Plugs.CommandLine.{normalize_first_token, split_statements}
use hera_v.Harness.Plugs.Denylist.{
  contains_text, default_network_commands, matches_entry, match_denylist, wraps, is_shell_wrapper,
}
use hera_v.Harness.Plugs.Paths.{
  Host, resolve_real_path, inside_workspace, expand_tilde, is_protected, match_allowlist,
}
pub mod Commands
pub mod Boundary
pub mod Decisions
pub mod Factory

pub data ApprovalMode : Type 0 where
  unsafe ask_all off : ApprovalMode

pub record LocalGuardsConfig : Type 0 where
  pub denylist : List Text
  pub workspace : Text
  pub read_allowlist : Option (List Text)
  pub protected_paths : Option (List Text)
  pub network_commands : Option (List Text)
  pub auto_approve_prefixes : Option (List Text)
  pub approval : Option ApprovalMode

-- What `request` reads of a descriptor: its target, and the parameters that are strings.
pub record Request : Type 0 where
  pub effect_id : String
  pub target : String
  pub parameters : List (String × Text)

unfoldable pub path_parameter : String → Option String
path_parameter target =
    if str_eq target "read_file"
    then some "file_path"
    else if str_eq target "list_dir"
    then some "DirectoryPath"
    else if str_eq target "search"
    then some "SearchPath"
    else if str_eq target "edit" || str_eq target "multi_edit"
    then some "file_path"
    else if str_eq target "write_to_file"
    then some "TargetFile"
    else none

unfoldable pub is_write_tool : String → Bool
is_write_tool target =
    str_eq target "edit" || str_eq target "multi_edit" || str_eq target "write_to_file"

unfoldable pub is_read_tool : String → Bool
is_read_tool target =
    str_eq target "read_file" || str_eq target "list_dir" || str_eq target "search"

abbrev text_parameter : String → Request → Text
text_parameter name r = or_else (lookup name r.parameters) []

abbrev param_of : Option String → Request → Option Text
param_of none r = none
param_of (some name) r = lookup name r.parameters

-- `toolPath`
pub tool_path : Request → Option Text
unfolding path_parameter
tool_path r = param_of (path_parameter r.target) r

abbrev quoted : Text → Text
quoted t = codes "'" ++ t ++ codes "'"

by_denylist : Text → Text → GateAnswer
by_denylist line entry = block (
    codes "blocked by denylist: entry "
    ++ quoted entry
    ++ codes " matched "
    ++ quoted (normalize_first_token line))

by_wrapper : Text → GateAnswer
by_wrapper line = block (
    codes "blocked by shell wrapper: "
    ++ quoted (normalize_first_token line)
    ++ codes " with an inline command is opaque to the guards")

by_key_shape : String → GateAnswer
by_key_shape what =
    block (codes "blocked by key shape: " ++ codes what ++ codes " contains a key-shaped token")

by_protected : Text → Text → GateAnswer
by_protected target hit =
    block (codes "blocked by protected paths: " ++ quoted target ++ codes " matches " ++ quoted hit)

by_boundary : Text → Text → GateAnswer
by_boundary target workspace_real = block (
    codes "blocked by workspace boundary: "
    ++ quoted target
    ++ codes " resolves outside the workspace "
    ++ quoted workspace_real)

module _ (host : Host) (config : LocalGuardsConfig) where
  abbrev outside : Text → Bool
  outside path = not (
      inside_workspace host (resolve_real_path host path config.workspace)
        (resolve_real_path host config.workspace config.workspace))

  abbrev cwd_outside : Option Text → Bool
  cwd_outside none = false
  cwd_outside (some cwd) = outside cwd

  pub approved_statements : List Text → Bool
  approved_statements stmts =
      not (elim stmts [ [] ↦ true | s ∷ r ↦ false ])
      && all (λ stmt. any (matches_entry stmt) (or_else config.auto_approve_prefixes [])) stmts

  pub uses_network : List Text → Bool
  unfolding contains_text
  uses_network stmts =
      let commands = map to_lower (or_else config.network_commands default_network_commands) in
      any (λ stmt. contains_text (normalize_first_token stmt) commands) stmts

  approve_unsafe : Text → Option Text → GateAnswer
  approve_unsafe line cwd =
      let stmts = split_statements line in
      if not (approved_statements stmts)
      then pending
      else if uses_network stmts
      then pending
      else if cwd_outside cwd
      then pending
      else allow

  approve : ApprovalMode → Text → Option Text → GateAnswer
  unfolding approve_unsafe
  approve off line cwd = allow
  approve ask_all line cwd = pending
  approve unsafe line cwd = approve_unsafe line cwd

  answer_listed : Option Text → Text → Option Text → GateAnswer
  unfolding approve by_denylist by_wrapper by_key_shape
  answer_listed (some entry) line cwd = by_denylist line entry
  answer_listed none line cwd =
      if is_shell_wrapper line
      then by_wrapper line
      else if scan_key_shapes line
      then by_key_shape "command line"
      else approve (or_else config.approval ask_all) line cwd

  pub answer_command : Text → Option Text → GateAnswer
  unfolding answer_listed
  answer_command line cwd = answer_listed (match_denylist line config.denylist) line cwd

  -- A tool that names no path.
  pub answer_pathless : Request → GateAnswer
  answer_pathless r =
      if str_eq r.target "read_url_content"
      then if scan_key_shapes (text_parameter "Url" r) then by_key_shape "URL" else allow
      else if str_eq r.target "search_web"
      then if scan_key_shapes (text_parameter "query" r) then by_key_shape "query" else allow
      else allow

  abbrev hits_allowlist : Text → Bool
  hits_allowlist real =
      match_allowlist host real (or_else config.read_allowlist []) config.workspace

  answer_unprotected : Request → Text → Text → GateAnswer
  unfolding by_boundary
  answer_unprotected r target real =
      let workspace_real = resolve_real_path host config.workspace config.workspace in
      if is_write_tool r.target || is_read_tool r.target
      then if inside_workspace host real workspace_real
        then allow
        else if is_read_tool r.target && hits_allowlist real
        then allow
        else by_boundary target workspace_real
      else allow

  answer_hit : Option Text → Request → Text → Text → GateAnswer
  unfolding by_protected answer_unprotected
  answer_hit (some hit) r target real = by_protected target hit
  answer_hit none r target real = answer_unprotected r target real

  -- Protected paths come first, for reading and for writing.
  pub answer_path : Request → Text → GateAnswer
  unfolding answer_hit
  answer_path r target =
      let real = resolve_real_path host (expand_tilde host target) config.workspace in
      answer_hit (is_protected host real (or_else config.protected_paths [])) r target real

  answer_tool : Request → Option Text → GateAnswer
  unfolding answer_pathless answer_path
  answer_tool r none = answer_pathless r
  answer_tool r (some target) = answer_path r target

  -- `request` when no decision of the user is stored.
  pub answer_fresh : Request → GateAnswer
  unfolding answer_command answer_tool tool_path
  answer_fresh r =
      if str_eq r.target "run_command"
      then answer_command (text_parameter "CommandLine" r) (lookup "Cwd" r.parameters)
      else answer_tool r (tool_path r)

  abbrev pub decided : Decision → GateAnswer
  decided Decision.allow = allow
  decided Decision.deny = block (codes "denied by user")

  abbrev after_decision :
      Request → Option Decision → List (String × Decision) → GateAnswer × List (String × Decision)
  after_decision r (some d) stored = (decided d, erase r.effect_id stored)
  after_decision r none stored = (answer_fresh r, stored)

  pub request : Request → List (String × Decision) → GateAnswer × List (String × Decision)
  unfolding answer_fresh
  request r stored = after_decision r (lookup r.effect_id stored) stored

  pub resolve : String → Option Decision → List (String × Decision) → List (String × Decision)
  resolve effect_id none stored = stored
  resolve effect_id (some d) stored = insert effect_id d stored
