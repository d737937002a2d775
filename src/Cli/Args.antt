-- ===== src/Cli/Args.antt =====
-- src/args.ts: parseArgs over the arguments of the process. An error is given by its kind and the
-- text that it quotes. `number` is the whole number, not negative, that `Number` makes of a text, where
-- it makes one.
pub mod Items
use hera_v.Shared.{
  ℕ, ◌+◌, Bool, true, false, not, ◌&&◌, Option, none, some, List, [], ◌∷◌, ◌++◌, length,
  if◌then◌else◌, ltb, ◌==◌, is_some,
}
use hera_v.Shared.Text.{Text, codes, text_eq, starts_with}
use hera_v.Process.Lifecycle.{ChildRole, executor, supervisor}

pub data OutputFormat : Type 0 where
  text jsonl : OutputFormat

-- `string | true`
pub data Resume : Type 0 where
  of_file : Text → Resume
  without_file : Resume

pub record ParsedArgs : Type 0 where
  pub version : Bool
  pub help : Bool
  pub role : Option ChildRole
  pub epoch : Option ℕ
  pub debug_viewer : Bool
  pub acp : Bool
  pub prompt : Option Text
  pub prompt_file : Option Text
  pub output_format : OutputFormat
  pub resume : Option Resume
  pub config : Option Text
  pub app_dir : Option Text
  pub show_thinking : Bool
  pub debug : Bool
  pub debug_console : Bool
  pub log_dir : Option Text
  pub connect : Option Text
  pub approve_all : Bool
  pub positionals : List Text

unfoldable pub no_args : ParsedArgs
no_args = record {
  version = false;
  help = false;
  role = none;
  epoch = none;
  debug_viewer = false;
  acp = false;
  prompt = none;
  prompt_file = none;
  output_format = text;
  resume = none;
  config = none;
  app_dir = none;
  show_thinking = false;
  debug = false;
  debug_console = false;
  log_dir = none;
  connect = none;
  approve_all = false;
  positionals = [];
}

pub data ValueFlag : Type 0 where
  flag_role flag_epoch flag_prompt flag_prompt_file flag_output_format flag_config flag_app_dir
        flag_log_dir flag_connect :
      ValueFlag

pub data BoolFlag : Type 0 where
  flag_version flag_help flag_debug_viewer flag_acp flag_show_thinking flag_debug flag_debug_console
        flag_approve_all :
      BoolFlag

pub data ConfigError : Type 0 where
  requires_value unknown_role bad_epoch bad_format unknown_option : Text → ConfigError
  not_combined : ConfigError

pub data Outcome : Type 0 where
  parsed : ParsedArgs → Outcome
  fails : ConfigError → Outcome

-- A set of flags with the case that each is in the switch.
abbrev pub value_flags : List (Text × ValueFlag)
value_flags =
    (codes "--role", flag_role)
    ∷ (codes "--epoch", flag_epoch)
    ∷ (codes "-p", flag_prompt)
    ∷ (codes "--prompt-file", flag_prompt_file)
    ∷ (codes "--output-format", flag_output_format)
    ∷ (codes "--config", flag_config)
    ∷ (codes "--app-dir", flag_app_dir)
    ∷ (codes "--log-dir", flag_log_dir)
    ∷ (codes "--connect", flag_connect)
    ∷ []

abbrev pub bool_flags : List (Text × BoolFlag)
bool_flags =
    (codes "--version", flag_version)
    ∷ (codes "--help", flag_help)
    ∷ (codes "-h", flag_help)
    ∷ (codes "--debug-viewer", flag_debug_viewer)
    ∷ (codes "--acp", flag_acp)
    ∷ (codes "--show-thinking", flag_show_thinking)
    ∷ (codes "--debug", flag_debug)
    ∷ (codes "--debug-console", flag_debug_console)
    ∷ (codes "--approve-all", flag_approve_all)
    ∷ []

unfoldable pub find_flag : {A : Type 0} → Text → List (Text × A) → Option A
unfolding text_eq
find_flag arg [] = none
find_flag arg ((name, flag) ∷ flags) = if text_eq arg name then some flag else find_flag arg flags

-- What one round of the loop does; `i` goes on by one, or by two where it skips.
pub data Step : Type 0 where
  goes_on skips stops : ParsedArgs → Step
  throws : ConfigError → Step

unfoldable pub set_bool : BoolFlag → ParsedArgs → ParsedArgs
set_bool flag_version out = record out { version = true }
set_bool flag_help out = record out { help = true }
set_bool flag_debug_viewer out = record out { debug_viewer = true }
set_bool flag_acp out = record out { acp = true }
set_bool flag_show_thinking out = record out { show_thinking = true }
set_bool flag_debug out = record out { debug = true }
set_bool flag_debug_console out = record out { debug_console = true }
set_bool flag_approve_all out = record out { approve_all = true }

unfoldable pub read_role : Text → ParsedArgs → Step
unfolding text_eq
read_role value out =
    if text_eq value (codes "executor")
    then skips (record out { role = some executor })
    else if text_eq value (codes "supervisor")
    then skips (record out { role = some supervisor })
    else throws (unknown_role value)

abbrev pub read_epoch : Option ℕ → Text → ParsedArgs → Step
read_epoch none value out = throws (bad_epoch value)
read_epoch (some n) value out = skips (record out { epoch = some n })

unfoldable pub read_format : Text → ParsedArgs → Step
unfolding text_eq
read_format value out =
    if text_eq value (codes "text")
    then skips (record out { output_format = text })
    else if text_eq value (codes "jsonl")
    then skips (record out { output_format = jsonl })
    else throws (bad_format value)

abbrev pub is_prompt : ValueFlag → Bool
is_prompt flag_prompt = true
is_prompt _ = false

unfoldable pub read_resume : List Text → ParsedArgs → Step
unfolding starts_with
read_resume [] out = goes_on (record out { resume = some without_file })
read_resume (next ∷ rest) out =
    if starts_with next (codes "-")
    then goes_on (record out { resume = some without_file })
    else skips (record out { resume = some (of_file next) })

module _ (number : Text → Option ℕ) where
  unfoldable pub set_value : ValueFlag → Text → ParsedArgs → Step
  unfolding read_role read_format
  set_value flag_role value out = read_role value out
  set_value flag_epoch value out = read_epoch (number value) value out
  set_value flag_prompt value out = skips (record out { prompt = some value })
  set_value flag_prompt_file value out = skips (record out { prompt_file = some value })
  set_value flag_output_format value out = read_format value out
  set_value flag_config value out = skips (record out { config = some value })
  set_value flag_app_dir value out = skips (record out { app_dir = some value })
  set_value flag_log_dir value out = skips (record out { log_dir = some value })
  set_value flag_connect value out = skips (record out { connect = some value })

  unfoldable pub read_value : ValueFlag → Text → List Text → ParsedArgs → Step
  unfolding set_value starts_with
  read_value flag arg [] out = throws (requires_value arg)
  read_value flag arg (value ∷ rest) out =
      if starts_with value (codes "--") && not (is_prompt flag)
      then throws (requires_value arg)
      else set_value flag value out

  abbrev pub read_other : Option BoolFlag → Text → ParsedArgs → Step
  read_other (some flag) arg out = goes_on (set_bool flag out)
  read_other none arg out =
      if starts_with arg (codes "-")
      then throws (unknown_option arg)
      else goes_on (record out { positionals = out.positionals ++ arg ∷ [] })

  abbrev pub read_flag : Option ValueFlag → Text → List Text → ParsedArgs → Step
  read_flag (some flag) arg rest out = read_value flag arg rest out
  read_flag none arg rest out = read_other (find_flag arg bool_flags) arg out

  -- The body of the loop at `arg`, before `rest`.
  unfoldable pub read_arg : Text → List Text → ParsedArgs → Step
  unfolding find_flag read_resume read_value set_bool
  read_arg arg rest out =
      if text_eq arg (codes "selftest") && (length out.positionals == 0)
      then stops (record out { positionals = out.positionals ++ arg ∷ rest })
      else if text_eq arg (codes "--resume")
      then read_resume rest out
      else read_flag (find_flag arg value_flags) arg rest out

  abbrev pub follow : (Bool → ParsedArgs → Outcome) → Step → Outcome
  follow rest (goes_on out) = rest false out
  follow rest (skips out) = rest true out
  follow rest (stops out) = parsed out
  follow rest (throws error) = fails error

  -- The loop; `skip` says that the argument was taken by the one before.
  unfoldable pub read_args : List Text → Bool → ParsedArgs → Outcome
  unfolding read_arg
  read_args [] skip out = parsed out
  read_args (arg ∷ rest) true out = read_args rest false out
  read_args (arg ∷ rest) false out = follow (read_args rest) (read_arg arg rest out)

abbrev pub count_of : Bool → ℕ
count_of b = if b then 1 else 0

-- How many of the four ways to start are asked for.
unfoldable pub exclusive : ParsedArgs → ℕ
exclusive out =
    count_of (is_some out.prompt)
    + count_of (is_some out.prompt_file)
    + count_of out.acp
    + count_of (is_some out.resume)

abbrev pub check_exclusive : Outcome → Outcome
check_exclusive (fails error) = fails error
check_exclusive (parsed out) =
    if is_some out.prompt_file && ltb 1 (exclusive out) then fails not_combined else parsed out

unfoldable pub parse_args : (Text → Option ℕ) → List Text → Outcome
unfolding read_args no_args exclusive
parse_args number argv = check_exclusive (read_args number argv false no_args)
