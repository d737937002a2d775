-- ===== src/Harness/Plugs/Paths.antt =====
-- src/harness/plugs/localguards.ts: paths, and the lists of paths that a rule names.
-- The file system, `node:path` and `Bun.Glob` are parameters.
use hera_v.Shared.{
  ℕ, zero, suc, ◌≡◌, ◌≢◌, ◌<◌, Bool, true, false, not, ◌&&◌, ◌||◌, Option, none, some, List, [],
  ◌∷◌, ◌++◌, ◌==◌, any, drop, length, if◌then◌else◌, or_else,
}
use hera_v.Shared.Text.{Text, codes, text_eq, starts_with, to_lower}
pub mod Resolving
pub mod Protected

pub record Host : Type 0 where
  pub win32 : Bool  -- process.platform === "win32"
  pub home : Option Text  -- HOME ?? USERPROFILE
  pub sep : Text
  pub is_absolute : Text → Bool
  pub resolve : Text → Text → Text
  pub join : Text → List Text → Text
  pub dirname : Text → Text
  pub relative : Text → Text → Text
  pub exists : Text → Bool
  pub realpath : Text → Option Text  -- none: it throws
  pub glob_match : Text → Text → Bool

module _ (host : Host) where
  open host use {is_absolute, dirname, exists, realpath, join, relative, sep, glob_match}

  abbrev pub drop_slash : Text → Text
  drop_slash [] = []
  drop_slash (c ∷ s) = if (c == 47) || (c == 92) then s else c ∷ s

  -- The `while` loop of `resolveRealPath`; none means that the fuel ran out.
  pub deepest : ℕ → Text → List Text → Option (Text × List Text)
  deepest zero existing remainder = none
  deepest (suc fuel) existing remainder =
      let parent = dirname existing in
      let up = deepest fuel parent (drop_slash (drop (length parent) existing) ∷ remainder) in
      if exists existing || text_eq parent existing then some (existing, remainder) else up

  abbrev pub absolute_of : Text → Text → Text
  absolute_of target workspace =
      if is_absolute target then host.resolve [] target else host.resolve workspace target

  abbrev pub or_self : Text → Option Text → Text
  or_self p r = or_else r p

  abbrev pub with_remainder : Option (Text × List Text) → Text → Text
  with_remainder none absolute = absolute
  with_remainder (some (existing, [])) absolute = or_self existing (realpath existing)
  with_remainder (some (existing, r ∷ rs)) absolute =
      join (or_self existing (realpath existing)) (r ∷ rs)

  pub resolve_real_path : Text → Text → Text
  unfolding deepest
  resolve_real_path target workspace =
      let absolute = absolute_of target workspace in
      with_remainder (deepest (suc (length absolute)) absolute []) absolute

  abbrev pub case_fold : Text → Text
  case_fold p = if host.win32 then to_lower p else p

  abbrev is_nil : Text → Bool
  is_nil [] = true
  is_nil (c ∷ s) = false

  pub inside_workspace : Text → Text → Bool
  inside_workspace real_path workspace_real =
      let rel = relative (case_fold workspace_real) (case_fold real_path) in
      is_nil rel
      || (not (starts_with rel (codes ".." ++ sep))
          && not (text_eq rel (codes ".."))
          && not (is_absolute rel))

  abbrev joined_home : Option Text → Text → Text
  joined_home none p = p
  joined_home (some home) p = join home (drop 2 p ∷ [])

  pub expand_tilde : Text → Text
  expand_tilde p =
      if text_eq p (codes "~")
      then or_else host.home p
      else if starts_with p (codes "~/") || starts_with p (126 ∷ 92 ∷ [])
      then joined_home host.home p
      else p

  abbrev pub forward : Text → Text
  forward [] = []
  forward (c ∷ s) = (if c == 92 then 47 else c) ∷ forward s

  -- One pattern of `isProtected` against the folded path.
  pub protects : Text → Text → Bool
  protects folded pattern =
      let p = forward (case_fold (expand_tilde pattern)) in
      if any (λ c. (c == 42) || (c == 63)) p
      then glob_match p folded
      else if any (λ c. (c == 92) || (c == 47)) p
      then glob_match p folded || glob_match (p ++ codes "/**") folded
      else glob_match (codes "**/" ++ p) folded

  pub is_protected : Text → List Text → Option Text
  unfolding protects
  is_protected real_path [] = none
  is_protected real_path (pattern ∷ patterns) =
      if protects (forward (case_fold real_path)) pattern
      then some pattern
      else is_protected real_path patterns

  abbrev allows : Text → Text → Text → Bool
  allows folded workspace entry =
      let expanded = expand_tilde entry in
      let resolved =
        if is_absolute expanded then expanded else host.resolve (case_fold workspace) expanded in
      let folded_entry = case_fold (resolve_real_path resolved workspace) in
      text_eq folded folded_entry || glob_match folded_entry folded

  pub match_allowlist : Text → List Text → Text → Bool
  match_allowlist real_path [] workspace = false
  match_allowlist real_path (entry ∷ allowlist) workspace =
      allows (case_fold real_path) workspace entry || match_allowlist real_path allowlist workspace
