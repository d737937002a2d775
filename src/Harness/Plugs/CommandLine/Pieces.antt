-- ===== src/Harness/Plugs/CommandLine/Pieces.antt =====
-- The pieces of a command line, cut again, are one piece each.
use mathlib.Core.Path.{subst}
use mathlib.Core.List.{append_assoc, append-nil}
use hera_v.Shared.{
  ℕ, ◌≡◌, ◌≢◌, refl, sym, ap, ◌∙◌, Bool, true, false, not, ◌&&◌, ◌||◌, [], ◌∷◌, ◌++◌, ◌==◌, All,
  All-append, arith, Bool-cases, inl, inr,
}
use hera_v.Shared.Text.{Text}
use hera_v.Harness.Plugs.CommandLine.{
  SplitLoop, next_is, split_step, split_loop, split_start, split_pieces,
}

abbrev IsPre : Text → Text → Type 0
IsPre [] s = Unit
IsPre (c ∷ t) [] = ⊥
IsPre (c ∷ t) (d ∷ s) = (c ≡ d) × IsPre t s

abbrev pub is_separator : ℕ → Text → Bool
is_separator ch rest = ((ch == 38) && next_is 38 rest) || (ch == 124) || (ch == 59) || (ch == 10)

abbrev is_neutral : SplitLoop → Bool
is_neutral st = not st.escaped && not st.in_single && not st.in_double

abbrev pub cuts : ℕ → Text → SplitLoop → Bool
cuts ch rest st = is_neutral st && is_separator ch rest

abbrev pub bare : SplitLoop → SplitLoop
bare st = record st { pieces = [] }

-- A step that does not cut sees no more of the rest than whether it begins with a separator.
step_append :
    (ch : ℕ) (s t : Text) (st : SplitLoop)
    → st.skip ≡ false
    → cuts ch s st ≡ false
    → IsPre t s
    → split_step ch t (bare st) ≡ bare (split_step ch s st)
unfolding split_step
step_append ch s [] st k c p = ground arith
step_append ch [] (d ∷ t) st k c p = elim p [ ]
step_append ch (e ∷ s) (d ∷ t) st k c (p, q) = rw p (ground arith)

pub step_current :
    (ch : ℕ) (s : Text) (st : SplitLoop)
    → st.skip ≡ false
    → cuts ch s st ≡ false
    → ((split_step ch s st).current ≡ st.current ++ ch ∷ [])
      × ((split_step ch s st).pieces ≡ st.pieces)
      × ((split_step ch s st).skip ≡ false)
unfolding split_step
step_current ch s st k c = ground arith

pub step_cut :
    (ch : ℕ) (s : Text) (st : SplitLoop)
    → st.skip ≡ false
    → cuts ch s st ≡ true
    → ((split_step ch s st).pieces ≡ st.pieces ++ st.current ∷ [])
      × (bare (record (split_step ch s st) { skip = false }) ≡ split_start)
unfolding split_step
step_cut ch s st k c = ground arith

-- Scanning the current piece afresh leads to the same state, as far as the rest is the same.
step_ends : (ch : ℕ) (s : Text) (st : SplitLoop) → (split_step ch s st).skip ≡ true → s ≢ []
unfolding split_step
step_ends ch [] st k = ground arith
step_ends ch (d ∷ s) st k = cc

record Restarts (st : SplitLoop) (s : Text) : Type 0 where
  plain :
      st.skip ≡ false
      → (t : Text) → IsPre t s
      → split_loop split_start (st.current ++ t) ≡ split_loop (bare st) t
  fresh : st.skip ≡ true → bare (record st { skip = false }) ≡ split_start

abbrev IsStable : Text → Type 0
IsStable piece = split_pieces piece ≡ piece ∷ []

current-IsStable :
    (st : SplitLoop) (s : Text) → st.skip ≡ false → Restarts st s → IsStable st.current
unfolding split_pieces split_loop
current-IsStable st s k r =
    ap (λ x. x.pieces ++ x.current ∷ [])
      (subst (λ c. split_loop split_start c ≡ bare st) (append-nil st.current) (r.plain k [] tt))

pub after_skip :
    (ch : ℕ) (s : Text) (st : SplitLoop)
    → st.skip ≡ true
    → split_step ch s st ≡ record st { skip = false }
unfolding split_step
after_skip ch s st k = ground arith

unskip : (st : SplitLoop) → st.skip ≡ false → bare (record st { skip = false }) ≡ bare st
unskip st k = ground arith

start-Restarts :
    (st : SplitLoop) (s : Text) → bare (record st { skip = false }) ≡ split_start → Restarts st s
start-Restarts st s e = record {
  plain = λ k t p.
      let same : bare st ≡ split_start = sym (unskip st k) ∙ e in
      let empty : st.current ≡ [] = ap (λ x. x.current) same in
      ap (λ c. split_loop split_start (c ++ t)) empty ∙ ap (λ x. split_loop x t) (sym same);
  fresh = λ k. e;
}

append-Restarts :
    (ch : ℕ) (s : Text) (st : SplitLoop)
    → Restarts st (ch ∷ s)
    → st.skip ≡ false
    → cuts ch s st ≡ false
    → Restarts (split_step ch s st) s
unfolding split_loop
append-Restarts ch s st r k c =
    let (grown, same, unskipped) = step_current ch s st k c in
    record {
      plain = λ k' t p.
          ap (λ x. split_loop split_start (x ++ t)) grown
          ∙ ap (split_loop split_start) (append_assoc st.current (ch ∷ []) t)
          ∙ r.plain k (ch ∷ t) (refl, p)
          ∙ ap (λ x. split_loop x t) (step_append ch s t st k c p);
      fresh = λ k'. absurd (cc (unskipped, k'));
    }

step-Restarts :
    (ch : ℕ) (s : Text) (st : SplitLoop)
    → Restarts st (ch ∷ s)
    → All IsStable st.pieces
    → Restarts (split_step ch s st) s × All IsStable (split_step ch s st).pieces
step-Restarts ch s st r h = elim (Bool-cases st.skip) [
  | inl k ↦ rw (after_skip ch s st k) (start-Restarts (record st { skip = false }) s (r.fresh k), h)
  | inr k ↦ elim (Bool-cases (cuts ch s st)) [
    | inl c ↦
        let (pushed, reset) = step_cut ch s st k c in
        (
          start-Restarts (split_step ch s st) s reset,
          subst (All IsStable) (sym pushed) (
              All-append IsStable st.pieces (st.current ∷ []) h
                (current-IsStable st (ch ∷ s) k r, tt)),
        )
    | inr c ↦
        (append-Restarts ch s st r k c, subst (All IsStable) (sym (step_current ch s st k c).1) h)
  ]
]

-- At the end of the line nothing is left to skip.
loop-IsStable :
    (s : Text) (st : SplitLoop)
    → (st.skip ≡ true → s ≢ [])
    → Restarts st s
    → All IsStable st.pieces
    → All IsStable ((split_loop st s).pieces ++ (split_loop st s).current ∷ [])
unfolding split_loop
loop-IsStable [] st ends r h =
    All-append IsStable st.pieces (st.current ∷ []) h (current-IsStable st [] (ground arith) r, tt)
loop-IsStable (ch ∷ s) st ends r h =
    let (r', h') = step-Restarts ch s st r h in
    loop-IsStable s (split_step ch s st) (step_ends ch s st) r' h'

-- A piece, split again, is that piece alone.
pub split_pieces-stable :
    (line : Text) → All (λ piece. split_pieces piece ≡ piece ∷ []) (split_pieces line)
unfolding split_pieces
split_pieces-stable line =
    loop-IsStable line split_start (λ k. cc) (start-Restarts split_start line refl) tt
