-- ===== src/Shared/Text.antt =====
-- Text that the program walks: the list of its code units.
use Prim.Native.Char.{code}
use Prim.Native.String.{String}
use Prim.Native.Nat.{ℕ, ◌+◌}
use mathlib.Core.Path.{◌≡◌, refl, ap, subst}
use mathlib.Core.Logic.{◌≢◌}
use mathlib.Core.Bool.{Bool, true, false, ◌&&◌, ◌||◌}
use mathlib.Core.List.{List, [], ◌∷◌, ◌++◌, map, reverse}
use native.Mathlib.Omega.{arith}
use hera_v.Shared.Tests.{leb, ◌==◌, if◌then◌else◌, ==_iff}

abbrev pub Text : Type 0
Text = List ℕ

abbrev pub codes : String → Text
codes String.[] = []
codes (String.◌∷◌ c s) = code c ∷ codes s

-- `s === t`
unfoldable pub text_eq : Text → Text → Bool
text_eq [] [] = true
text_eq [] (d ∷ t) = false
text_eq (c ∷ s) [] = false
text_eq (c ∷ s) (d ∷ t) = (c == d) && text_eq s t

pub text_eq→eq : (s t : Text) → text_eq s t ≡ true → s ≡ t
unfolding text_eq
text_eq→eq [] [] h = refl
text_eq→eq [] (d ∷ t) h = cc
text_eq→eq (c ∷ s) [] h = cc
text_eq→eq (c ∷ s) (d ∷ t) h = ground (arith, ==_iff c d, text_eq→eq s t)

pub text_eq_refl : (s : Text) → text_eq s s ≡ true
unfolding text_eq
text_eq_refl [] = refl
text_eq_refl (c ∷ s) = ground (arith, text_eq_refl s)

pub text_eq-false : (s t : Text) → text_eq s t ≡ false → s ≢ t
text_eq-false s t h e =
    let same : text_eq s t ≡ true = subst (λ x. text_eq s x ≡ true) e (text_eq_refl s) in cc

-- `s.startsWith(p)`
unfoldable pub starts_with : Text → Text → Bool
starts_with s [] = true
starts_with [] (d ∷ p) = false
starts_with (c ∷ s) (d ∷ p) = (c == d) && starts_with s p

-- `s.includes(p)`
unfoldable pub includes : Text → Text → Bool
unfolding starts_with
includes [] p = starts_with [] p
includes (c ∷ s) p = starts_with (c ∷ s) p || includes s p

-- `s.endsWith(p)`
unfoldable pub ends_with : Text → Text → Bool
unfolding starts_with
ends_with s p = starts_with (reverse s) (reverse p)

-- The white space of `trim` and `\s`, in the range of ASCII and with U+00A0.
unfoldable pub is_space : ℕ → Bool
is_space c = (leb 9 c && leb c 13) || (c == 32) || (c == 160)

unfoldable pub trim_start : Text → Text
unfolding is_space
trim_start [] = []
trim_start (c ∷ s) = if is_space c then trim_start s else c ∷ s

unfoldable pub trim_end : Text → Text
unfolding trim_start
trim_end s = reverse (trim_start (reverse s))

unfoldable pub trim : Text → Text
unfolding trim_start trim_end
trim s = trim_end (trim_start s)

abbrev pub lower_char : ℕ → ℕ
lower_char c = if leb 65 c && leb c 90 then c + 32 else c

-- `toLowerCase` on ASCII letters.
unfoldable pub to_lower : Text → Text
to_lower = map lower_char

pub to_lower-cons : (c : ℕ) (s : Text) → to_lower (c ∷ s) ≡ lower_char c ∷ to_lower s
unfolding to_lower
to_lower-cons c s = refl

pub starts_with-cons :
    (c d : ℕ) (s p : Text) → starts_with (c ∷ s) (d ∷ p) ≡ ((c == d) && starts_with s p)
unfolding starts_with
starts_with-cons c d s p = refl

pub starts_with-nil : (s : Text) → starts_with s [] ≡ true
unfolding starts_with
starts_with-nil [] = refl
starts_with-nil (c ∷ s) = refl

pub starts_with-empty : (d : ℕ) (p : Text) → starts_with [] (d ∷ p) ≡ false
unfolding starts_with
starts_with-empty d p = refl

pub includes-cons :
    (c : ℕ) (s p : Text) → includes (c ∷ s) p ≡ (starts_with (c ∷ s) p || includes s p)
unfolding includes
includes-cons c s p = refl

pub includes-empty : (d : ℕ) (p : Text) → includes [] (d ∷ p) ≡ false
unfolding includes
includes-empty d p = refl

pub to_lower-append : (s t : Text) → to_lower (s ++ t) ≡ to_lower s ++ to_lower t
unfolding to_lower
to_lower-append [] t = refl
to_lower-append (c ∷ s) t = ap (λ l. lower_char c ∷ l) (to_lower-append s t)
