-- ===== src/Shared/Dict.antt =====
-- A JavaScript `Map` with text keys: an association list in order of insertion.
use text.Mathlib.Text.{◌==◌}
use Prim.Native.String.{String}
use mathlib.Core.Path.{◌≡◌, refl}
use mathlib.Core.Bool.{Bool, true, false}
use mathlib.Core.Option.{Option, none, some}
use mathlib.Core.List.{List, [], ◌∷◌}
use native.Mathlib.Omega.{arith}
use text.Mathlib.TextEquality.{eq_iff}
use hera_v.Shared.Tests.{if◌then◌else◌, is_some}

abbrev pub str_eq : String → String → Bool
str_eq s t = s == t

module _ {ℓ} {V : Type ℓ} where
  -- `map.get(k)`
  unfoldable pub lookup : String → List (String × V) → Option V
  lookup k [] = none
  lookup k ((j, v) ∷ m) = if j == k then some v else lookup k m

  -- `map.set(k, v)`: an existing key keeps its place.
  unfoldable pub insert : String → V → List (String × V) → List (String × V)
  insert k v [] = (k, v) ∷ []
  insert k v ((j, w) ∷ m) = if j == k then (k, v) ∷ m else (j, w) ∷ insert k v m

  -- `map.delete(k)`
  unfoldable pub erase : String → List (String × V) → List (String × V)
  erase k [] = []
  erase k ((j, w) ∷ m) = if j == k then erase k m else (j, w) ∷ erase k m

  -- `map.has(k)`
  unfoldable pub has : String → List (String × V) → Bool
  unfolding lookup
  has k m = is_some (lookup k m)

  -- Setting a key changes what is found under that key only.
  pub lookup-insert :
      (key asked : String) (value : V) (dict : List (String × V))
      → lookup asked (insert key value dict)
        ≡ (if key == asked then some value else lookup asked dict)
  unfolding insert lookup
  lookup-insert key asked value [] = ground arith
  lookup-insert key asked value ((own, old) ∷ dict) =
      let rest = lookup-insert key asked value dict in
      ground (arith, rest, eq_iff own asked, eq_iff own key, eq_iff key asked)

  pub lookup-erase :
      (k j : String) (m : List (String × V))
      → lookup j (erase k m) ≡ (if k == j then none else lookup j m)
  unfolding lookup erase
  lookup-erase k j [] = ground arith
  lookup-erase k j ((i, w) ∷ m) =
      ground (arith, eq_iff k j, eq_iff i k, eq_iff i j, lookup-erase k j m)

  pub has-insert :
      (k j : String) (v : V) (m : List (String × V))
      → has j (insert k v m) ≡ (if k == j then true else has j m)
  unfolding has
  has-insert k j v m = ground (arith, lookup-insert k j v m)

  pub has-erase :
      (k j : String) (m : List (String × V))
      → has j (erase k m) ≡ (if k == j then false else has j m)
  unfolding has
  has-erase k j m = ground (arith, lookup-erase k j m)

pub has-nil {ℓ} : (V : Type ℓ) (k : String) → has {V = V} k [] ≡ false
unfolding has
has-nil V k = refl
