-- ===== src/Tools/Edit/Replacing.antt =====
-- What an edit changes of a text.
use hera_v.Shared.{
  ◌⊎◌, ==_iff, if-holds, ℕ, zero, suc, ◌-◌, ◌≤◌, ◌≡◌, ◌≢◌, refl, sym, ap, ◌∙◌, Bool, true, false,
  List, [], ◌∷◌, ◌++◌, arith, length, drop, Bool-cases, inl, inr,
}
use hera_v.Shared.Text.{Text, text_eq, text_eq-false, starts_with}
use hera_v.Tools.Edit.{
  split_from, split, join, replace_first, push_front, updated, replaced, apply_replacement,
}

abbrev AreSome : List Text → Type 0
AreSome [] = ⊥
AreSome (piece ∷ pieces) = Unit

push_front-AreSome : (c : ℕ) (pieces : List Text) → AreSome (push_front c pieces)
push_front-AreSome c [] = tt
push_front-AreSome c (piece ∷ pieces) = tt

split_from-AreSome : (sep : Text) (skip : ℕ) (s : Text) → AreSome (split_from sep skip s)
unfolding split_from
split_from-AreSome sep skip [] = tt
split_from-AreSome sep (suc skip) (c ∷ s) = split_from-AreSome sep skip s
split_from-AreSome sep zero (c ∷ s) =
    if-holds AreSome (starts_with (c ∷ s) sep) tt (push_front-AreSome c (split_from sep zero s))

join-push_front :
    (sep : Text) (c : ℕ) (pieces : List Text)
    → AreSome pieces
    → join sep (push_front c pieces) ≡ c ∷ join sep pieces
join-push_front sep c [] h = absurd h
join-push_front sep c (piece ∷ []) h = refl
join-push_front sep c (piece ∷ next ∷ pieces) h = refl

join-cons :
    (sep piece : Text) (pieces : List Text)
    → AreSome pieces
    → join sep (piece ∷ pieces) ≡ piece ++ sep ++ join sep pieces
join-cons sep piece [] h = absurd h
join-cons sep piece (next ∷ pieces) h = refl

begins : (p t : Text) → starts_with t p ≡ true → p ++ drop (length p) t ≡ t
unfolding starts_with
begins [] t h = refl
begins (d ∷ p) [] h = cc
begins (d ∷ p) (c ∷ t) h =
    let same : d ≡ c = ground (arith, h, ==_iff c d) in
    let more : starts_with t p ≡ true = ground (arith, h) in
    ap (λ l. d ∷ l) (begins p t more) ∙ ap (λ x. x ∷ t) same

drop_rest :
    (sep : Text) (c : ℕ) (s : Text) → sep ≢ [] → drop (length sep) (c ∷ s) ≡ drop (length sep - 1) s
drop_rest [] c s h = absurd (h refl)
drop_rest (d ∷ sep) c s h = ap (λ n. drop n s) (omega arith)

join-split_from :
    (sep : Text) (skip : ℕ) (s : Text) → sep ≢ [] → join sep (split_from sep skip s) ≡ drop skip s
unfolding split_from
join-split_from sep zero [] h = refl
join-split_from sep (suc skip) [] h = refl
join-split_from sep (suc skip) (c ∷ s) h = join-split_from sep skip s h
join-split_from sep zero (c ∷ s) h = elim (Bool-cases (starts_with (c ∷ s) sep)) [
  | inl here ↦ rw here (
      join-cons sep [] (split_from sep (length sep - 1) s)
        (split_from-AreSome sep (length sep - 1) s)
      ∙ ap (λ l. sep ++ l) (join-split_from sep (length sep - 1) s h ∙ sym (drop_rest sep c s h))
      ∙ begins sep (c ∷ s) here)
  | inr other ↦ rw other (
      join-push_front sep c (split_from sep zero s) (split_from-AreSome sep zero s)
      ∙ ap (λ l. c ∷ l) (join-split_from sep zero s h))
]

-- The text with the first separator exchanged, from its pieces.
abbrev once : Text → Text → List Text → Text
once old new [] = []
once old new (piece ∷ []) = piece
once old new (piece ∷ next ∷ pieces) = piece ++ new ++ join old (next ∷ pieces)

once-cons :
    (old new piece : Text) (pieces : List Text)
    → AreSome pieces
    → once old new (piece ∷ pieces) ≡ piece ++ new ++ join old pieces
once-cons old new piece [] h = absurd h
once-cons old new piece (next ∷ pieces) h = refl

once-push_front :
    (old new : Text) (c : ℕ) (pieces : List Text)
    → AreSome pieces
    → once old new (push_front c pieces) ≡ c ∷ once old new pieces
once-push_front old new c [] h = absurd h
once-push_front old new c (piece ∷ []) h = refl
once-push_front old new c (piece ∷ next ∷ pieces) h = refl

replace_first-once :
    (old new s : Text) → old ≢ [] → replace_first old new s ≡ once old new (split_from old 0 s)
unfolding replace_first split_from
replace_first-once old new [] h = refl
replace_first-once old new (c ∷ s) h = elim (Bool-cases (starts_with (c ∷ s) old)) [
  | inl here ↦ rw here (
      ap (λ l. new ++ l) (drop_rest old c s h ∙ sym (join-split_from old (length old - 1) s h))
      ∙ sym (
          once-cons old new [] (split_from old (length old - 1) s)
            (split_from-AreSome old (length old - 1) s)))
  | inr other ↦ rw other (
      ap (λ l. c ∷ l) (replace_first-once old new s h)
      ∙ sym (once-push_front old new c (split_from old zero s) (split_from-AreSome old zero s)))
]

once-two :
    (old new : Text) (pieces : List Text)
    → length pieces ≡ 2
    → once old new pieces ≡ join new pieces
once-two old new [] h = absurd (omega (arith, h))
once-two old new (piece ∷ []) h = absurd (omega (arith, h))
once-two old new (piece ∷ next ∷ []) h = refl
once-two old new (piece ∷ next ∷ more ∷ pieces) h = absurd (omega (arith, h))

-- What an edit that is accepted has changed, from the pieces of the text between the occurrences of
-- the old string.
pub record Replaces (text old new out : Text) (replace_all : Bool) : Type 0 where
  pub before : join old (split old text) ≡ text
  pub after : join new (split old text) ≡ out
  pub found : 2 ≤ length (split old text)
  pub unique : replace_all ≡ false → length (split old text) ≡ 2
  pub differs : old ≢ new

accepted_facts :
    (text old new out : Text) (replace_all : Bool)
    → apply_replacement text old new replace_all ≡ updated out
    → (text_eq old new ≡ false)
      × (text_eq old [] ≡ false)
      × (2 ≤ length (split old text))
      × ((replace_all ≡ true) ⊎ (length (split old text) ≡ 2))
      × (replaced replace_all old new text ≡ out)
unfolding apply_replacement
accepted_facts text old new out replace_all h = ground (arith, h)

replaced-join :
    (text old new : Text) (replace_all : Bool)
    → old ≢ []
    → (replace_all ≡ true) ⊎ (length (split old text) ≡ 2)
    → replaced replace_all old new text ≡ join new (split old text)
unfolding split
replaced-join text old new true h k = refl
replaced-join text old new false h (inl all) = cc
replaced-join text old new false h (inr two) =
    replace_first-once old new text h ∙ once-two old new (split_from old 0 text) two

-- An edit that is accepted exchanges every occurrence of the old string for the new one, and nothing
-- else: the pieces of the text between the occurrences, joined by the old string, are the text, and
-- joined by the new one, the result. There is at least one occurrence, and without replace_all
-- exactly one.
pub apply_replacement-Replaces :
    (text old new out : Text) (replace_all : Bool)
    → apply_replacement text old new replace_all ≡ updated out
    → Replaces text old new out replace_all
unfolding split
apply_replacement-Replaces text old new out replace_all h =
    let (changes, some_old, found, one, made) = accepted_facts text old new out replace_all h in
    let nonempty = text_eq-false old [] some_old in
    record {
      before = join-split_from old 0 text nonempty;
      after = sym (replaced-join text old new replace_all nonempty one) ∙ made;
      found = found;
      unique = λ single. ground (arith, single, one);
      differs = text_eq-false old new changes;
    }
