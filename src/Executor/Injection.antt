-- ===== src/Executor/Injection.antt =====
-- src/executor/injection.ts: the wrapper round the output of tools.
use Prim.Native.String
use hera_v.Shared.{
  ℕ, zero, suc, ◌≡◌, refl, String, Bool, true, false, not, ◌&&◌, ◌||◌, Option, none, some, List, [],
  ◌∷◌, ◌++◌, map, if◌then◌else◌, ltb, ◌==◌, length, or_else, is_some, drop, any,
}
use hera_v.Shared.Dict.{str_eq}
use hera_v.Shared.Text.{Text, codes, starts_with, to_lower}
pub mod Untrusted

unfoldable pub wrapped_tools : List String
wrapped_tools =
    "read_file" ∷ "list_dir" ∷ "search" ∷ "run_command" ∷ "command_status" ∷ "search_web"
    ∷ "read_url_content" ∷ "view_content_chunk" ∷ "trajectory_search" ∷ []

-- The text of `UNTRUSTED_CONTENT_OPEN` and `UNTRUSTED_CONTENT_CLOSE`.
abbrev pub untrusted_open : Text
untrusted_open = codes "<untrusted_content origin=\""

abbrev pub untrusted_close : Text
untrusted_close = codes "</untrusted_content>"

-- What `neutralizeDelimiter` looks for, in any case, and what it puts in its place.
abbrev pub delimiter : Text
delimiter = codes "</untrusted_content"

abbrev pub neutral : Text
neutral = codes "&lt;/untrusted_content"

-- `skip` characters of a match are still to be passed over.
unfoldable pub neutralize_from : ℕ → Text → Text
unfolding starts_with to_lower
neutralize_from skip [] = []
neutralize_from zero (c ∷ s) =
    let replaced = neutral ++ neutralize_from 18 s in
    let copied = c ∷ neutralize_from 0 s in
    if starts_with (to_lower (c ∷ s)) delimiter then replaced else copied
neutralize_from (suc skip) (c ∷ s) = neutralize_from skip s

unfoldable pub neutralize_delimiter : Text → Text
unfolding neutralize_from
neutralize_delimiter text = neutralize_from 0 text

-- `renderToolResult`
unfoldable pub render_tool_result : Text → String → String → Text
unfolding neutralize_delimiter wrapped_tools
render_tool_result text tool_name call_id =
    if any (str_eq tool_name) wrapped_tools
    then untrusted_open
      ++ codes "tool\" ref=\""
      ++ codes call_id
      ++ codes "\">\n"
      ++ neutralize_delimiter text
      ++ codes "\n"
      ++ untrusted_close
    else text

neutralize_test :
    neutralize_delimiter (codes "a</UNTRUSTED_content></x") ≡ codes "a&lt;/untrusted_content></x"
unfolding neutralize_delimiter
neutralize_test = refl
