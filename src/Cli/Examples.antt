-- ===== src/Cli/Examples.antt =====
-- A file with two prompts, and a command line.
use hera_v.Shared.{
  ◌≡◌, refl, ℕ, true, Option, none, some, List, [], ◌∷◌, ◌++◌, if◌then◌else◌, arith, All,
}
use hera_v.Shared.Text.{Text, codes, text_eq, is_space}
use hera_v.Process.Lifecycle.{supervisor}
use hera_v.Cli.Args.{flag_debug, no_args, parse_args}
use hera_v.Cli.Args.Items.{
  Item, is_on, has_role, has_epoch, has_prompt, stands, resumes, all_words, is_long_option,
  is_positional, checked, apply_items, parse_args-items,
}
use hera_v.Cli.PromptQueue.{
  prompts_of, parse_lines, is_fence, fence_ticks, closes, is_blank, is_separator,
}
use hera_v.Cli.PromptQueue.Layout.{Block, IsBlock, layout, texts_of, parse_lines-layout}

abbrev first_block : Block
first_block = record {
  opening = codes "```text";
  body = codes "say hi" ∷ codes "``" ∷ [];
  prompt = codes "say hi\n``";
  trailing = [];
  closing = codes "```";
  gap = [] ∷ [];
  separator = codes "---";
  notes = codes "a note" ∷ [];
}

abbrev last_block : Block
last_block = record first_block {
  opening = codes "````";
  body = codes "```" ∷ codes " " ∷ [];
  prompt = codes "```";
  trailing = codes "\n ";
  closing = codes "````";
}

first_block-IsBlock : IsBlock first_block
unfolding is_space is_fence fence_ticks closes is_blank is_separator text_eq
first_block-IsBlock = record {
  opens = refl;
  short = omega arith;
  inside = (refl, (refl, tt));
  said = refl;
  visible = refl;
  invisible = refl;
  shut = refl;
  empty = (refl, tt);
  separates = refl;
  comments = ((refl, refl), tt);
}

last_block-IsBlock : IsBlock last_block
unfolding is_space is_fence fence_ticks closes is_blank is_separator text_eq
last_block-IsBlock = record {
  opens = refl;
  short = omega arith;
  inside = (refl, (refl, tt));
  said = refl;
  visible = refl;
  invisible = refl;
  shut = refl;
  empty = (refl, tt);
  separates = refl;
  comments = ((refl, refl), tt);
}

blank_first : All (λ line. is_blank line ≡ true) ([] ∷ [])
unfolding is_blank text_eq
blank_first = (refl, tt)

parse_lines-layout_example :
    parse_lines (([] ∷ []) ++ layout first_block (last_block ∷ []))
    ≡ prompts_of (texts_of (first_block ∷ last_block ∷ []))
parse_lines-layout_example =
    parse_lines-layout ([] ∷ []) first_block (last_block ∷ []) blank_first first_block-IsBlock
      (last_block-IsBlock, tt)

abbrev as_seven : Text → Option ℕ
as_seven value = if text_eq value (codes "7") then some 7 else none

abbrev items : List Item
items =
    has_role supervisor
    ∷ has_epoch (codes "7")
    ∷ stands (codes "a")
    ∷ resumes none
    ∷ has_prompt (codes "--go")
    ∷ is_on flag_debug
    ∷ resumes (some (codes "s.jsonl"))
    ∷ []

parse_args-items_example :
    parse_args as_seven (all_words items) ≡ checked (apply_items as_seven items no_args)
unfolding is_long_option is_positional
parse_args-items_example = parse_args-items as_seven items refl
