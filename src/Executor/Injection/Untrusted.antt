-- ===== src/Executor/Injection/Untrusted.antt =====
-- Tool output cannot close the wrapper that is put round it.
use mathlib.Core.Path.{subst}
use hera_v.Shared.{
  ℕ, zero, suc, ◌≡◌, ◌↔◌, refl, sym, ap, ◌∙◌, Bool, true, false, ◌&&◌, ◌||◌, [], ◌∷◌, ◌++◌, All,
  arith, ◌==◌, Bool-cases, inl, inr,
}
use hera_v.Shared.Text.{
  Text, codes, starts_with, includes, to_lower, lower_char, to_lower-cons, starts_with-cons,
  starts_with-nil, includes-cons, to_lower-append,
}
use hera_v.Executor.Injection.{delimiter, neutral, neutralize_from, neutralize_delimiter}

both : (a b : Bool) → ((a && b) ≡ true) ↔ ((a ≡ true) × (b ≡ true))
both a b = ground arith

-- The texts that begin no replacement.
abbrev NoAmp : Text → Type 0
NoAmp = All (λ c. (38 == c) ≡ false)

abbrev at_delimiter : ℕ → Text → Bool
at_delimiter c s = starts_with (to_lower (c ∷ s)) delimiter

neutralize-copied :
    (c : ℕ) (s : Text)
    → at_delimiter c s ≡ false
    → neutralize_from 0 (c ∷ s) ≡ c ∷ neutralize_from 0 s
unfolding neutralize_from
neutralize-copied c s h = rw h

neutralize-replaced :
    (c : ℕ) (s : Text)
    → at_delimiter c s ≡ true
    → neutralize_from 0 (c ∷ s) ≡ neutral ++ neutralize_from 18 s
unfolding neutralize_from
neutralize-replaced c s h = rw h

neutralize-nil : (k : ℕ) → neutralize_from k [] ≡ []
unfolding neutralize_from
neutralize-nil k = refl

neutralize-skipped : (k c : ℕ) (s : Text) → neutralize_from (suc k) (c ∷ s) ≡ neutralize_from k s
unfolding neutralize_from
neutralize-skipped k c s = refl

either : (a b : Bool) → a ≡ false → b ≡ false → (a || b) ≡ false
either a b h k = ground arith

abbrev Begins : Text → Text → Type 0
Begins s p = starts_with (to_lower s) p ≡ true

Begins-cons_iff :
    (c d : ℕ) (s p : Text) → Begins (c ∷ s) (d ∷ p) ↔ (((lower_char c == d) ≡ true) × Begins s p)
Begins-cons_iff c d s p =
    rw (to_lower-cons c s, starts_with-cons (lower_char c) d (to_lower s) p)
      (both (lower_char c == d) (starts_with (to_lower s) p))

-- What the output begins with, if that holds no ampersand, the input begins with too.
Begins-neutralize : (s p : Text) → NoAmp p → Begins (neutralize_from 0 s) p → Begins s p
Begins-neutralize [] p h k = subst (λ l. Begins l p) (neutralize-nil 0) k
Begins-neutralize (c ∷ s) [] h k = starts_with-nil _
Begins-neutralize (c ∷ s) (d ∷ p) (n, h) k = elim (Bool-cases (at_delimiter c s)) [
  | inl replaced ↦
      let first =
        (Begins-cons_iff 38 d _ p).0
          (subst (λ l. Begins l (d ∷ p)) (neutralize-replaced c s replaced) k) in
      absurd (cc (first.0, n))
  | inr copied ↦
      let (same, rest) =
        (Begins-cons_iff c d _ p).0
          (subst (λ l. Begins l (d ∷ p)) (neutralize-copied c s copied) k) in
      (Begins-cons_iff c d s p).1 (same, Begins-neutralize s p h rest)
]

NoAmp-delimiter : NoAmp delimiter
NoAmp-delimiter = ground arith

-- No character of the text is "<".
abbrev NoLt : Text → Type 0
NoLt = All (λ c. (c == 60) ≡ false)

NoLt-neutral : NoLt (to_lower neutral)
unfolding to_lower
NoLt-neutral = ground arith

includes-skip : (r t p : Text) → NoLt r → includes (r ++ t) (60 ∷ p) ≡ includes t (60 ∷ p)
includes-skip [] t p h = refl
includes-skip (c ∷ r) t p (n, h) =
    includes-cons c (r ++ t) (60 ∷ p)
    ∙ ground (arith, starts_with-cons c 60 (r ++ t) p, includes-skip r t p h)

abbrev holds_delimiter : Text → Bool
holds_delimiter s = includes (to_lower s) delimiter

holds-replaced : (t : Text) → holds_delimiter (neutral ++ t) ≡ holds_delimiter t
holds-replaced t =
    ap (λ l. includes l delimiter) (to_lower-append neutral t)
    ∙ includes-skip (to_lower neutral) (to_lower t) (codes "/untrusted_content") NoLt-neutral

holds-cons :
    (c : ℕ) (t : Text)
    → at_delimiter c t ≡ false
    → holds_delimiter t ≡ false
    → holds_delimiter (c ∷ t) ≡ false
holds-cons c t no_start h =
    ap (λ l. includes l delimiter) (to_lower-cons c t)
    ∙ includes-cons (lower_char c) (to_lower t) delimiter
    ∙ either (starts_with (lower_char c ∷ to_lower t) delimiter) (includes (to_lower t) delimiter)
        (subst (λ l. starts_with l delimiter ≡ false) (to_lower-cons c t) no_start) h

-- The copied character and what follows it in the output are no delimiter.
copied-no_start :
    (c : ℕ) (s : Text) → at_delimiter c s ≡ false → at_delimiter c (neutralize_from 0 s) ≡ false
copied-no_start c s h = elim (Bool-cases (at_delimiter c (neutralize_from 0 s))) [
  | inl begun ↦
      let start =
        Begins-neutralize (c ∷ s) delimiter NoAmp-delimiter
          (subst (λ l. Begins l delimiter) (sym (neutralize-copied c s h)) begun) in
      absurd (cc (start, h))
  | inr clear ↦ clear
]

holds-nil : holds_delimiter [] ≡ false
unfolding includes to_lower
holds-nil = refl

neutralize_from-clear : (k : ℕ) (s : Text) → holds_delimiter (neutralize_from k s) ≡ false
neutralize_from-clear k [] = ap holds_delimiter (neutralize-nil k) ∙ holds-nil
neutralize_from-clear (suc k) (c ∷ s) =
    ap holds_delimiter (neutralize-skipped k c s) ∙ neutralize_from-clear k s
neutralize_from-clear zero (c ∷ s) = elim (Bool-cases (at_delimiter c s)) [
  | inl replaced ↦
      ap holds_delimiter (neutralize-replaced c s replaced)
      ∙ holds-replaced (neutralize_from 18 s)
      ∙ neutralize_from-clear 18 s
  | inr copied ↦
      ap holds_delimiter (neutralize-copied c s copied)
      ∙ holds-cons c (neutralize_from 0 s) (copied-no_start c s copied) (neutralize_from-clear 0 s)
]

-- Whatever a tool returns, its text holds no closing delimiter, in upper or lower case, once it
-- has been neutralised: nothing in it ends the wrapper early.
pub neutralize_delimiter-clear :
    (text : Text) → includes (to_lower (neutralize_delimiter text)) delimiter ≡ false
unfolding neutralize_delimiter
neutralize_delimiter-clear text = neutralize_from-clear 0 text
