-- ===== src/Cli/Args/Items.antt =====
-- What a command line says, as a list of items, and that parseArgs reads each of them.
use hera_v.Shared.{
  ℕ, ◌≡◌, refl, ap, ◌∙◌, Bool, true, false, not, ◌&&◌, ◌||◌, Option, none, some, List, [], ◌∷◌,
  ◌++◌, all, arith, if◌then◌else◌, is_some, Bool-cases, inl, inr,
}
use hera_v.Shared.Text.{Text, codes, text_eq, starts_with, text_eq→eq}
use hera_v.Process.Lifecycle.{ChildRole, executor, supervisor}
use hera_v.Cli.Args.{
  OutputFormat, text, jsonl, of_file, without_file, ParsedArgs, no_args, BoolFlag, flag_version,
  flag_help, flag_debug_viewer, flag_acp, flag_show_thinking, flag_debug, flag_debug_console,
  flag_approve_all, find_flag, value_flags, bool_flags, read_args, read_arg, read_resume, follow,
  Outcome, fails, not_combined, parsed, goes_on, skips, parse_args, check_exclusive, exclusive,
}

pub data Item : Type 0 where
  is_on : BoolFlag → Item
  has_role : ChildRole → Item
  has_format : OutputFormat → Item
  has_epoch has_prompt has_prompt_file has_config has_app_dir has_log_dir has_connect stands :
      Text → Item
  resumes : Option Text → Item

abbrev flag_word : BoolFlag → Text
flag_word flag_version = codes "--version"
flag_word flag_help = codes "--help"
flag_word flag_debug_viewer = codes "--debug-viewer"
flag_word flag_acp = codes "--acp"
flag_word flag_show_thinking = codes "--show-thinking"
flag_word flag_debug = codes "--debug"
flag_word flag_debug_console = codes "--debug-console"
flag_word flag_approve_all = codes "--approve-all"

abbrev role_word : ChildRole → Text
role_word executor = codes "executor"
role_word supervisor = codes "supervisor"

abbrev format_word : OutputFormat → Text
format_word text = codes "text"
format_word jsonl = codes "jsonl"

abbrev pub words : Item → List Text
words (is_on flag) = flag_word flag ∷ []
words (has_role role) = codes "--role" ∷ role_word role ∷ []
words (has_format format) = codes "--output-format" ∷ format_word format ∷ []
words (has_epoch value) = codes "--epoch" ∷ value ∷ []
words (has_prompt value) = codes "-p" ∷ value ∷ []
words (has_prompt_file value) = codes "--prompt-file" ∷ value ∷ []
words (has_config value) = codes "--config" ∷ value ∷ []
words (has_app_dir value) = codes "--app-dir" ∷ value ∷ []
words (has_log_dir value) = codes "--log-dir" ∷ value ∷ []
words (has_connect value) = codes "--connect" ∷ value ∷ []
words (stands value) = value ∷ []
words (resumes none) = codes "--resume" ∷ []
words (resumes (some file)) = codes "--resume" ∷ file ∷ []

abbrev pub all_words : List Item → List Text
all_words [] = []
all_words (item ∷ items) = words item ++ all_words items

unfoldable pub is_option : Text → Bool
unfolding starts_with
is_option value = starts_with value (codes "-")

unfoldable pub is_long_option : Text → Bool
unfolding starts_with
is_long_option value = starts_with value (codes "--")

abbrev ends_or_option : List Text → Bool
ends_or_option [] = true
ends_or_option (next ∷ rest) = is_option next

-- `selftest` begins the arguments of another command.
unfoldable pub is_positional : Text → Bool
unfolding is_option text_eq
is_positional value = not (is_option value) && not (text_eq value (codes "selftest"))

-- Each flag stands for a field of its own.
abbrev switched_on : BoolFlag → ParsedArgs → ParsedArgs
switched_on flag_version out = record out { version = true }
switched_on flag_help out = record out { help = true }
switched_on flag_debug_viewer out = record out { debug_viewer = true }
switched_on flag_acp out = record out { acp = true }
switched_on flag_show_thinking out = record out { show_thinking = true }
switched_on flag_debug out = record out { debug = true }
switched_on flag_debug_console out = record out { debug_console = true }
switched_on flag_approve_all out = record out { approve_all = true }

module _ (number : Text → Option ℕ) where
  abbrev pub apply_item : Item → ParsedArgs → ParsedArgs
  apply_item (is_on flag) out = switched_on flag out
  apply_item (has_role role) out = record out { role = some role }
  apply_item (has_format format) out = record out { output_format = format }
  apply_item (has_epoch value) out = record out { epoch = number value }
  apply_item (has_prompt value) out = record out { prompt = some value }
  apply_item (has_prompt_file value) out = record out { prompt_file = some value }
  apply_item (has_config value) out = record out { config = some value }
  apply_item (has_app_dir value) out = record out { app_dir = some value }
  apply_item (has_log_dir value) out = record out { log_dir = some value }
  apply_item (has_connect value) out = record out { connect = some value }
  apply_item (stands value) out = record out { positionals = out.positionals ++ value ∷ [] }
  apply_item (resumes none) out = record out { resume = some without_file }
  apply_item (resumes (some file)) out = record out { resume = some (of_file file) }

  abbrev pub apply_items : List Item → ParsedArgs → ParsedArgs
  apply_items [] out = out
  apply_items (item ∷ items) out = apply_items items (apply_item item out)

  -- Whether an item can be told from what follows it.
  abbrev pub is_readable : Item → List Text → Bool
  is_readable (is_on flag) rest = true
  is_readable (has_role role) rest = true
  is_readable (has_format format) rest = true
  is_readable (has_epoch value) rest = not (is_long_option value) && is_some (number value)
  is_readable (has_prompt value) rest = true
  is_readable (has_prompt_file value) rest = not (is_long_option value)
  is_readable (has_config value) rest = not (is_long_option value)
  is_readable (has_app_dir value) rest = not (is_long_option value)
  is_readable (has_log_dir value) rest = not (is_long_option value)
  is_readable (has_connect value) rest = not (is_long_option value)
  is_readable (stands value) rest = is_positional value
  is_readable (resumes none) rest = ends_or_option rest
  is_readable (resumes (some file)) rest = not (is_option file)

  abbrev pub all_readable : List Item → Bool
  all_readable [] = true
  all_readable (item ∷ items) = is_readable item (all_words items) && all_readable items

text_eq-option :
    (value name : Text)
    → is_option value ≡ false
    → is_option name ≡ true
    → text_eq value name ≡ false
text_eq-option value name h k = elim (Bool-cases (text_eq value name)) [
  | inl e ↦ let same = text_eq→eq value name e in ground arith
  | inr e ↦ e
]

find_flag-none :
    {A : Type 0}
    → (value : Text) (flags : List (Text × A)) → is_option value ≡ false
    → all (λ f. is_option f.0) flags ≡ true
    → find_flag value flags ≡ none
unfolding find_flag
find_flag-none value [] h k = refl
find_flag-none value ((name, flag) ∷ flags) h k =
    ground (arith, find_flag-none value flags, text_eq-option value name)

read_resume-alone :
    (rest : List Text) (out : ParsedArgs)
    → ends_or_option rest ≡ true
    → read_resume rest out ≡ goes_on (record out { resume = some without_file })
unfolding read_resume is_option
read_resume-alone [] out h = refl
read_resume-alone (next ∷ rest) out h = rw h refl

read_resume-file :
    (file : Text) (rest : List Text) (out : ParsedArgs)
    → not (is_option file) ≡ true
    → read_resume (file ∷ rest) out ≡ skips (record out { resume = some (of_file file) })
unfolding read_resume is_option
read_resume-file file rest out h = ground arith

-- A prompt file stands beside another way to start.
abbrev pub clashes : ParsedArgs → Bool
clashes out = is_some out.prompt_file && (is_some out.prompt || out.acp || is_some out.resume)

abbrev pub checked : ParsedArgs → Outcome
checked out = if clashes out then fails not_combined else parsed out

check_exclusive-checked : (out : ParsedArgs) → check_exclusive (parsed out) ≡ checked out
unfolding exclusive
check_exclusive-checked out = ground arith

module _ (number : Text → Option ℕ) where
  read_arg-positional :
      (value : Text) (rest : List Text) (out : ParsedArgs)
      → is_positional value ≡ true
      → read_arg number value rest out
        ≡ goes_on (record out { positionals = out.positionals ++ value ∷ [] })
  unfolding read_arg is_positional
  read_arg-positional value rest out h =
      let plain : is_option value ≡ false = ground arith in
      let other : text_eq value (codes "selftest") ≡ false = ground arith in
      rw
        (
          other,
          text_eq-option value (codes "--resume") plain refl,
          find_flag-none value value_flags plain refl,
          find_flag-none value bool_flags plain refl,
        )
        (ground arith)

  read_args-item :
      (item : Item) (rest : List Text) (out : ParsedArgs)
      → is_readable number item rest ≡ true
      → read_args number (words item ++ rest) false out
        ≡ read_args number rest false (apply_item number item out)
  unfolding read_args is_long_option
  read_args-item (is_on flag_version) rest out h = refl
  read_args-item (is_on flag_help) rest out h = refl
  read_args-item (is_on flag_debug_viewer) rest out h = refl
  read_args-item (is_on flag_acp) rest out h = refl
  read_args-item (is_on flag_show_thinking) rest out h = refl
  read_args-item (is_on flag_debug) rest out h = refl
  read_args-item (is_on flag_debug_console) rest out h = refl
  read_args-item (is_on flag_approve_all) rest out h = refl
  read_args-item (has_role executor) rest out h = refl
  read_args-item (has_role supervisor) rest out h = refl
  read_args-item (has_format text) rest out h = refl
  read_args-item (has_format jsonl) rest out h = refl
  read_args-item (has_epoch value) rest out h = ground arith
  read_args-item (has_prompt value) rest out h = ground arith
  read_args-item (has_prompt_file value) rest out h = ground arith
  read_args-item (has_config value) rest out h = ground arith
  read_args-item (has_app_dir value) rest out h = ground arith
  read_args-item (has_log_dir value) rest out h = ground arith
  read_args-item (has_connect value) rest out h = ground arith
  read_args-item (stands value) rest out h =
      ap (follow number (read_args number rest)) (read_arg-positional value rest out h)
  read_args-item (resumes none) rest out h =
      ap (follow number (read_args number rest)) (read_resume-alone rest out h)
  read_args-item (resumes (some file)) rest out h =
      ap (follow number (read_args number (file ∷ rest))) (read_resume-file file rest out h)

  read_args-items :
      (items : List Item) (out : ParsedArgs)
      → all_readable number items ≡ true
      → read_args number (all_words items) false out ≡ parsed (apply_items number items out)
  unfolding read_args
  read_args-items [] out h = refl
  read_args-items (item ∷ items) out h =
      let here : is_readable number item (all_words items) ≡ true = ground arith in
      let later : all_readable number items ≡ true = ground arith in
      read_args-item item (all_words items) out here
      ∙ read_args-items items (apply_item number item out) later

  -- A command line that is written from a list of items, in any order and with repetitions, is read
  -- back as exactly these items, the last of two values for one option winning; it is refused only
  -- where a prompt file stands beside a prompt, acp or resume. The items must be readable: a value other
  -- than a prompt does not begin with two dashes, a positional or a file to resume does not begin with
  -- one, `selftest` is no positional, an epoch is a number, and a resume without a file is followed by an
  -- option or nothing.
  pub parse_args-items :
      (items : List Item)
      → all_readable number items ≡ true
      → parse_args number (all_words items) ≡ checked (apply_items number items no_args)
  unfolding parse_args
  parse_args-items items h =
      ap check_exclusive (read_args-items items no_args h)
      ∙ check_exclusive-checked (apply_items number items no_args)
