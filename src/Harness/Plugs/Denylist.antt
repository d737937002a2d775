-- ===== src/Harness/Plugs/Denylist.antt =====
-- src/harness/plugs/localguards.ts: the denylist, and the shell calls that the guards cannot read.
use hera_v.Shared.{
  String, ◌≡◌, refl, Bool, true, false, not, ◌&&◌, ◌||◌, Option, none, some, List, [], ◌∷◌, ◌++◌,
  map, ◌==◌, any, all, if◌then◌else◌, or_else, is_some, arith,
}
use hera_v.Shared.Dict.{lookup, insert, erase, str_eq}
use hera_v.Shared.Text.{Text, codes, text_eq, starts_with, includes, trim, to_lower}
use hera_v.Harness.Plugs.CommandLine.{normalize_first_token, split_statements}
pub mod Matching

unfoldable pub contains_text : Text → List Text → Bool
unfolding text_eq
contains_text t = any (λ s. text_eq s t)

unfoldable pub shell_wrappers : List Text
shell_wrappers =
    codes "pwsh"
    ∷ codes "powershell"
    ∷ codes "cmd"
    ∷ codes "bash"
    ∷ codes "iex"
    ∷ codes "invoke-expression"
    ∷ codes "invoke-command"
    ∷ codes "start-process"
    ∷ []

pub wrapper_execution_flags : List Text
wrapper_execution_flags =
    codes "-command"
    ∷ codes "-c"
    ∷ codes "/c"
    ∷ codes "-encodedcommand"
    ∷ codes "-enc"
    ∷ codes "-e"
    ∷ []

pub always_opaque : List Text
always_opaque =
    codes "iex" ∷ codes "invoke-expression" ∷ codes "invoke-command" ∷ codes "start-process" ∷ []

unfoldable pub default_network_commands : List Text
default_network_commands =
    codes "curl"
    ∷ codes "wget"
    ∷ codes "nc"
    ∷ codes "ncat"
    ∷ codes "netcat"
    ∷ codes "ssh"
    ∷ codes "scp"
    ∷ codes "sftp"
    ∷ codes "ftp"
    ∷ codes "telnet"
    ∷ codes "bitsadmin"
    ∷ codes "certutil"
    ∷ codes "Invoke-WebRequest"
    ∷ codes "iwr"
    ∷ codes "Invoke-RestMethod"
    ∷ codes "irm"
    ∷ codes "Start-BitsTransfer"
    ∷ []

abbrev is_blank : Text → Bool
is_blank [] = true
is_blank (c ∷ s) = false

-- One entry of a denylist, or one prefix that is approved, against one statement.
pub matches_entry : Text → Text → Bool
unfolding trim to_lower includes starts_with text_eq normalize_first_token
matches_entry stmt entry =
    let folded = to_lower (trim entry) in
    if is_blank folded
    then false
    else if includes folded (32 ∷ [])
    then starts_with (to_lower (trim stmt)) folded
    else text_eq (normalize_first_token stmt) folded

-- The inner loop of `matchDenylist`.
first_entry : Text → List Text → Option Text
unfolding matches_entry
first_entry stmt [] = none
first_entry stmt (entry ∷ entries) =
    if matches_entry stmt entry then some entry else first_entry stmt entries

abbrev or_next : Option Text → Option Text → Option Text
or_next none r = r
or_next (some e) r = some e

first_match : List Text → List Text → Option Text
unfolding first_entry
first_match [] entries = none
first_match (stmt ∷ stmts) entries = or_next (first_entry stmt entries) (first_match stmts entries)

pub match_denylist : Text → List Text → Option Text
unfolding first_match split_statements
match_denylist line entries = first_match (split_statements line) entries

ends_with_flag : Text → Text → Bool
unfolding includes
ends_with_flag lowered flag = includes lowered (32 ∷ [] ++ flag ++ 32 ∷ [])

-- `lowered.endsWith(x)` implies `lowered.includes(x)`, so the flag test is the latter.
pub wraps : Text → Bool
unfolding normalize_first_token contains_text shell_wrappers wrapper_execution_flags always_opaque
    ends_with_flag to_lower trim
wraps stmt =
    let token = normalize_first_token stmt in
    let lowered = 32 ∷ [] ++ trim (to_lower stmt) ++ 32 ∷ [] in
    contains_text token shell_wrappers
    && (any (ends_with_flag lowered) wrapper_execution_flags || contains_text token always_opaque)

unfoldable pub is_shell_wrapper : Text → Bool
unfolding wraps split_statements
is_shell_wrapper line = any wraps (split_statements line)
