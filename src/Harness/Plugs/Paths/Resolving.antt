-- ===== src/Harness/Plugs/Paths/Resolving.antt =====
-- The walk of `resolveRealPath` up to an existing directory ends.
use hera_v.Shared.{
  ℕ, zero, suc, ◌≡◌, ◌≢◌, ◌<◌, true, false, none, some, Option, ◌==◌, ◌||◌, if◌then◌else◌, refl, ap,
  ◌∙◌, List, [], ◌∷◌, ◌⊎◌, inl, inr, length, arith, Bool-cases, drop,
}
use hera_v.Shared.Text.{Text, text_eq, text_eq→eq, text_eq-false}
use hera_v.Harness.Plugs.Paths.{Host, deepest, drop_slash, with_remainder, resolve_real_path}

-- What `node:path` does with absolute paths: `resolve` gives one, and the parent of one is one, and
-- shorter unless it is the path itself, which is a root then.
pub record ShortensPaths (host : Host) : Type 0 where
  pub absolute : (from to : Text) → host.is_absolute (host.resolve from to) ≡ true
  pub parent : (p : Text) → host.is_absolute p ≡ true → host.is_absolute (host.dirname p) ≡ true
  pub shorter :
      (p : Text)
      → host.is_absolute p ≡ true
      → host.dirname p ≢ p
      → length (host.dirname p) < length p

module _ (host : Host) where
  abbrev without_slash : Text → Text
  without_slash [] = []
  without_slash (c ∷ s) = if (c == 47) || (c == 92) then s else c ∷ s

  -- The last part of a path: what its parent leaves of it.
  abbrev pub last_part : Text → Text
  last_part p = without_slash (drop (length (host.dirname p)) p)

  -- The way up from a path, over paths that do not exist and are no roots, with the parts below.
  pub data Climbs : Text → Text → List Text → Type 0 where
    start : {p : Text} → Climbs p p []
    up :
        {top p : Text} {parts : List Text}
        → Climbs top p parts
        → host.exists p ≡ false
        → host.dirname p ≢ p
        → Climbs top (host.dirname p) (last_part p ∷ parts)

  abbrev real_or_self : Text → Option Text → Text
  real_or_self p none = p
  real_or_self p (some real) = real

  -- The real path, with the parts below it joined to it.
  abbrev pub rejoined : Text → List Text → Text
  rejoined p [] = real_or_self p (host.realpath p)
  rejoined p (part ∷ parts) = host.join (real_or_self p (host.realpath p)) (part ∷ parts)

  -- Where the climb from a path ends: at a path that exists or at a root.
  pub record Anchor (top : Text) : Type 0 where
    pub found : Text
    pub parts : List Text
    pub climbed : Climbs top found parts
    pub ends : (host.exists found ≡ true) ⊎ (host.dirname found ≡ found)

  drop_slash-without : (s : Text) → drop_slash host s ≡ without_slash s
  drop_slash-without [] = refl
  drop_slash-without (c ∷ s) = refl

  with_remainder-rejoined :
      (p top : Text) (parts : List Text)
      → with_remainder host (some (p, parts)) top ≡ rejoined p parts
  with_remainder-rejoined p top [] = ground arith
  with_remainder-rejoined p top (part ∷ parts) = ground arith

  module _ (paths : ShortensPaths host) where
    -- With fuel above the length of the path the walk ends.
    deepest_total :
        (fuel : ℕ) (top p : Text) (parts : List Text)
        → length p < fuel
        → host.is_absolute p ≡ true
        → Climbs top p parts
        → (a : Anchor top) × (deepest host fuel p parts ≡ some (a.found, a.parts))
    unfolding deepest
    deepest_total zero top p parts h abs c = absurd (omega arith)
    deepest_total (suc fuel) top p parts h abs c = elim (Bool-cases (host.exists p)) [
      | inl here ↦ (record { found = p; parts = parts; climbed = c; ends = inl here }, rw here refl)
      | inr missing ↦ elim (Bool-cases (text_eq (host.dirname p) p)) [
        | inl root ↦ (
          record { found = p; parts = parts; climbed = c; ends = inr (text_eq→eq _ _ root) },
          rw (missing, root) refl,
        )
        | inr inner ↦
            let moves = text_eq-false (host.dirname p) p inner in
            let below = paths.shorter p abs moves in
            rw (missing, inner)
              (deepest_total fuel top (host.dirname p) (last_part p ∷ parts) (omega arith)
                (paths.parent p abs) (up c missing moves))
      ]
    ]

  resolved :
      (top : Text)
      → ShortensPaths host
      → host.is_absolute top ≡ true
      → (a : Anchor top) × (with_remainder host (deepest host (suc (length top)) top []) top
          ≡ rejoined a.found a.parts)
  resolved top paths abs =
      let (a, walked) = deepest_total paths (suc (length top)) top top [] (omega arith) abs start in
      (a, ap (λ o. with_remainder host o top) walked ∙ with_remainder-rejoined a.found top a.parts)

-- `resolveRealPath` ends for every target: from the absolute path of the target it climbs over paths
-- that do not exist to one that exists or to a root, and answers the real path of that with the parts
-- below it joined to it. What it asks of `node:path` holds of absolute paths.
pub resolve_real_path_total :
    (host : Host) (target workspace : Text)
    → ShortensPaths host
    → let from = if host.is_absolute target then [] else workspace in
      (a : Anchor host (host.resolve from target)) × (resolve_real_path host target workspace
        ≡ rejoined host a.found a.parts)
unfolding resolve_real_path
resolve_real_path_total host target workspace paths = elim (Bool-cases (host.is_absolute target)) [
  | inl given ↦ rw given (resolved host (host.resolve [] target) paths (paths.absolute [] target))
  | inr relative ↦
      rw relative
        (resolved host (host.resolve workspace target) paths (paths.absolute workspace target))
]
