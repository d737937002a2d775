-- ===== src/Harness/Examples.antt =====
-- The rules of the local guards on a small file system, with `/w` as the workspace.
use hera_v.Shared.{
  ℕ, suc, ◌<◌, ◌≡◌, ◌≢◌, ◌↔◌, refl, true, false, Option, none, some, List, [], ◌∷◌, ◌++◌, ◌==◌,
  if◌then◌else◌, or_else, length, drop, arith, All,
}
use hera_v.Shared.Text.{Text, codes, text_eq, starts_with}
use hera_v.Harness.Descriptor.{Descriptor}
use hera_v.Harness.Gate.{allow}
use hera_v.Harness.Plugs.CommandLine.{split_pieces, split_statements, normalize_first_token}
use hera_v.Harness.Plugs.CommandLine.Joined.{
  is_separator_text, glue, has_separator, split_pieces-joined,
}
use hera_v.Harness.Plugs.Paths.{Host, resolve_real_path, protects, forward, case_fold}
use hera_v.Harness.Plugs.Paths.Resolving.{ShortensPaths, Anchor, rejoined, resolve_real_path_total}
use hera_v.Harness.Plugs.LocalGuards.{
  LocalGuardsConfig, unsafe, Request, answer_command, answer_path,
}
use hera_v.Harness.Plugs.LocalGuards.Commands.{PassesRules, Approval, answer_command-allow_iff}
use hera_v.Harness.Plugs.LocalGuards.Boundary.{real_target, MayTouch, answer_path-allow_iff}
use hera_v.Harness.Plugs.LocalGuards.Factory.{
  CreatePlugOptions, local, scripted, pass_through, local_guards, create_plug, local_config,
}

-- What stands before the last slash.
before_slash : Text → Option Text
before_slash [] = none
before_slash (c ∷ s) = elim (before_slash s) [
  | some r ↦ some (c ∷ r)
  | none ↦ if c == 47 then some [] else none
]

parent_at : ℕ → Option Text → Text
parent_at c (some r) = c ∷ r
parent_at c none = if c == 47 then codes "/" else codes "."

parent_of : Text → Text
unfolding parent_at before_slash
parent_of [] = codes "."
parent_of (c ∷ s) = parent_at c (before_slash s)

resolve_from : Text → Text → Text
unfolding starts_with
resolve_from base p =
    if starts_with p (codes "/")
    then p
    else if starts_with base (codes "/")
    then base ++ codes "/" ++ p
    else codes "/w/" ++ p

shorter_before : (c : ℕ) (s : Text) → length (or_else (before_slash (c ∷ s)) []) < suc (length s)
unfolding before_slash
shorter_before c [] = ground arith
shorter_before c (d ∷ s) = ground (arith, shorter_before d s)

abbrev host : Host
host = record {
  win32 = false;
  home = some (codes "/home");
  sep = codes "/";
  is_absolute = λ p. starts_with p (codes "/");
  resolve = resolve_from;
  join = λ p rest. elim rest [ [] ↦ p | r ∷ rs ↦ p ++ codes "/" ++ r ];
  dirname = parent_of;
  relative = λ base p. if starts_with p base then drop (suc (length base)) p else codes "../x";
  exists = λ p. text_eq p (codes "/w");
  realpath = some;
  glob_match = text_eq;
}

resolve_absolute : (base p : Text) → starts_with (resolve_from base p) (codes "/") ≡ true
unfolding resolve_from
resolve_absolute [] [] = refl
resolve_absolute [] (d ∷ p) = ground arith
resolve_absolute (c ∷ base) [] = ground arith
resolve_absolute (c ∷ base) (d ∷ p) = ground arith

parent_absolute :
    (p : Text) → starts_with p (codes "/") ≡ true → starts_with (parent_of p) (codes "/") ≡ true
unfolding parent_of starts_with
parent_absolute [] h = cc
parent_absolute (c ∷ s) h = ground arith

parent_shorter :
    (p : Text)
    → starts_with p (codes "/") ≡ true
    → parent_of p ≢ p
    → length (parent_of p) < length p
unfolding parent_of starts_with before_slash
parent_shorter [] h n = cc
parent_shorter (c ∷ []) h n = let e : c ≡ 47 = ground arith in absurd (n (rw e refl))
parent_shorter (c ∷ d ∷ s) h n = ground (arith, shorter_before d s)

host-ShortensPaths : ShortensPaths host
host-ShortensPaths = record {
  absolute = resolve_absolute;
  parent = parent_absolute;
  shorter = parent_shorter;
}

abbrev descriptor : Descriptor
descriptor = record {
  effect_id = "fx_1";
  kind = "tool.call";
  target = "run_command";
  content = codes "{a}";
  hash = none;
  frozen = false;
}

abbrev a_line : Text
a_line = codes "ls; rm x && echo \"a;b\""

split_pieces-joined_example :
    ((seps : List Text) × (All (λ sep. is_separator_text sep ≡ true) seps)
      × (length (split_pieces a_line) ≡ suc (length seps))
      × (glue (split_pieces a_line) seps ≡ a_line))
    × (All (λ piece. has_separator piece ≡ false) (split_pieces a_line))
split_pieces-joined_example = split_pieces-joined a_line

resolve_real_path_total_example :
    let from = if host.is_absolute (codes "a/b") then [] else codes "/w" in
    (a : Anchor host (host.resolve from (codes "a/b"))) × (resolve_real_path host
        (codes "a/b")
        (codes "/w")
      ≡ rejoined host a.found a.parts)
resolve_real_path_total_example =
    resolve_real_path_total host (codes "a/b") (codes "/w") host-ShortensPaths

abbrev secrets : List Text
secrets = codes "/w/.env" ∷ codes "~/.ssh/" ∷ []

abbrev denied : List Text
denied = codes "rm" ∷ codes "git push" ∷ []

abbrev config : LocalGuardsConfig
config = record {
  denylist = denied;
  workspace = codes "/w";
  read_allowlist = none;
  protected_paths = some secrets;
  network_commands = none;
  auto_approve_prefixes = some (codes "git status" ∷ codes "ls" ∷ []);
  approval = some unsafe;
}

answer_command-allow_iff_example :
    (answer_command host config (codes "ls; git status") none ≡ allow) ↔ (
      PassesRules host config (codes "ls; git status")
      × Approval host config unsafe (codes "ls; git status") none)
answer_command-allow_iff_example =
    answer_command-allow_iff host config (codes "ls; git status") none

abbrev edits : Request
edits = record {
  effect_id = "fx_1";
  target = "edit";
  parameters = ("file_path", codes "/w/a") ∷ [];
}

answer_path-allow_iff_example : (answer_path host config edits (codes "/w/a") ≡ allow) ↔ (
    All
      (λ p.
        protects host (forward host (case_fold host (real_target host config (codes "/w/a")))) p
        ≡ false)
      secrets
    × MayTouch host config edits (real_target host config (codes "/w/a")))
answer_path-allow_iff_example = answer_path-allow_iff host config edits (codes "/w/a")

abbrev scripted_run : CreatePlugOptions
scripted_run = record {
  profile = scripted;
  denylist = [];
  workspace = codes "/w";
  read_allowlist = none;
  protected_paths = none;
  network_commands = none;
  approval = none;
  scripted_adapter = some (codes "adapter.ts");
}

scripted_plug : create_plug scripted_run ≡ pass_through
unfolding create_plug
scripted_plug = refl

abbrev unsafe_run : CreatePlugOptions
unsafe_run = record scripted_run { profile = local; approval = some unsafe }

unsafe_plug : create_plug unsafe_run ≡ local_guards (local_config unsafe_run)
unfolding create_plug
unsafe_plug = refl

split_test :
    split_statements (codes "ls; (rm -rf x) && echo 'a;b' | & cat")
    ≡ codes "ls" ∷ codes "rm -rf x" ∷ codes "echo 'a;b'" ∷ codes "cat" ∷ []
unfolding split_statements
split_test = refl

first_token_test : normalize_first_token (codes "  \"C:\\bin\\Git.EXE\" push ") ≡ codes "git"
unfolding normalize_first_token
first_token_test = refl
