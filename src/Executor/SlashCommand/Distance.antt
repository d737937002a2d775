-- ===== src/Executor/SlashCommand/Distance.antt =====
-- The table of `levenshtein` against the recursion that it tabulates.
use hera_v.Shared.{
  ℕ, suc, ◌+◌, ◌≡◌, refl, ap, sym, ◌∙◌, min, List, [], ◌∷◌, if◌then◌else◌, ◌==◌, length, arith,
}
use hera_v.Shared.Text.{Text}
use hera_v.Executor.SlashCommand.{next_row, rows, count_from, last_or, levenshtein}

-- The least number of insertions, deletions and exchanges, from the last characters on: the texts
-- stand in reverse.
pub distance : Text → Text → ℕ
distance [] b = length b
distance (c ∷ a) [] = length (c ∷ a)
distance (c ∷ a) (d ∷ b) =
    min (min (distance a (d ∷ b) + 1) (distance (c ∷ a) b + 1))
      (distance a b + (if c == d then 0 else 1))

abbrev pub backwards : Text → Text → Text
backwards [] done = done
backwards (c ∷ s) done = backwards s (c ∷ done)

-- The row of the table for `a`, from the place where `done` of the other text is behind.
abbrev row_of : Text → Text → Text → List ℕ
row_of a done [] = []
row_of a done (d ∷ b) = distance a (d ∷ done) ∷ row_of a (d ∷ done) b

distance-nil : (a : Text) → distance a [] ≡ length a
unfolding distance
distance-nil [] = refl
distance-nil (c ∷ a) = refl

next_row-row_of :
    (c : ℕ) (a done b : Text)
    → next_row c (distance (c ∷ a) done) (distance a done) b (row_of a done b)
      ≡ row_of (c ∷ a) done b
unfolding next_row distance
next_row-row_of c a done [] = refl
next_row-row_of c a done (d ∷ b) =
    ap (λ (l : List ℕ). distance (c ∷ a) (d ∷ done) ∷ l) (next_row-row_of c a (d ∷ done) b)

rows-row_of :
    (a done b : Text) → rows (length done) a b (row_of done [] b) ≡ row_of (backwards a done) [] b
unfolding rows
rows-row_of [] done b = refl
rows-row_of (c ∷ a) done b =
    ap (rows (suc (length done)) a b) (
      ap (λ (n : ℕ). next_row c (suc (length done)) n b (row_of done [] b))
        (sym (distance-nil done))
      ∙ ap (λ (n : ℕ). next_row c n (distance done []) b (row_of done [] b))
          (sym (distance-nil (c ∷ done)))
      ∙ next_row-row_of c done [] b)
    ∙ rows-row_of a (c ∷ done) b

count_from-row_of : (done b : Text) → count_from (suc (length done)) b ≡ row_of [] done b
unfolding distance
count_from-row_of done [] = refl
count_from-row_of done (d ∷ b) =
    ap (λ (l : List ℕ). suc (length done) ∷ l) (count_from-row_of (d ∷ done) b)

last_or-row_of :
    (a done b : Text) → last_or (distance a done) (row_of a done b) ≡ distance a (backwards b done)
last_or-row_of a done [] = refl
last_or-row_of a done (d ∷ b) = last_or-row_of a (d ∷ done) b

length-backwards : (a done : Text) → length (backwards a done) ≡ length a + length done
length-backwards [] done = omega arith
length-backwards (c ∷ a) done = omega (arith, length-backwards a (c ∷ done))

-- For any two texts the table of `levenshtein` comes to the edit distance that the recursion defines.
pub levenshtein-distance :
    (a b : Text) → levenshtein a b ≡ distance (backwards a []) (backwards b [])
unfolding levenshtein
levenshtein-distance a b =
    ap (λ (l : List ℕ). last_or (length a) (rows 0 a b l)) (count_from-row_of [] b)
    ∙ ap (last_or (length a)) (rows-row_of a [] b)
    ∙ ap (λ (n : ℕ). last_or n (row_of (backwards a []) [] b))
        (omega (arith, length-backwards a [], distance-nil (backwards a [])))
    ∙ last_or-row_of (backwards a []) [] b
