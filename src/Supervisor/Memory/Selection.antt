-- ===== src/Supervisor/Memory/Selection.antt =====
-- What the retrieval hands on, and what it looks at.
use hera_v.Shared.{
  ℕ, ◌+◌, ◌≤◌, ◌<◌, ◌≡◌, refl, Bool, true, false, not, ◌&&◌, ◌||◌, Option, none, some, List, [],
  ◌∷◌, ◌++◌, arith, leb, max, ap, ◌∙◌, length, length-append, inl, inr, Bool-cases,
}
use hera_v.Shared.Text.{Text, text_eq, text_eq→eq, text_eq_refl}
use hera_v.Supervisor.Memory.{Memory, find_memory, has_id, pick, select}

-- No id stands twice.
abbrev pub is_distinct : List Memory → Bool
is_distinct [] = true
is_distinct (m ∷ ms) = not (has_id m.id ms) && is_distinct ms

abbrev pub is_found : List Memory → List Memory → Bool
is_found memories [] = true
is_found memories (m ∷ ms) = has_id m.id memories && is_found memories ms

has_id-append :
    (id : Text) (xs ys : List Memory) → has_id id (xs ++ ys) ≡ (has_id id xs || has_id id ys)
has_id-append id [] ys = refl
has_id-append id (x ∷ xs) ys = ground (arith, has_id-append id xs ys)

is_distinct-snoc :
    (xs : List Memory) (m : Memory)
    → is_distinct xs ≡ true
    → has_id m.id xs ≡ false
    → is_distinct (xs ++ m ∷ []) ≡ true
is_distinct-snoc [] m d h = ground arith
is_distinct-snoc (x ∷ xs) m d h = ground (
  arith,
  is_distinct-snoc xs m,
  has_id-append x.id xs (m ∷ []),
  text_eq→eq m.id x.id,
  text_eq_refl x.id,
)

is_found-snoc :
    (memories xs : List Memory) (m : Memory)
    → is_found memories xs ≡ true
    → has_id m.id memories ≡ true
    → is_found memories (xs ++ m ∷ []) ≡ true
is_found-snoc memories [] m d h = ground arith
is_found-snoc memories (x ∷ xs) m d h = ground (arith, is_found-snoc memories xs m)

find_memory-id :
    (id : Text) (memories : List Memory) (m : Memory)
    → find_memory id memories ≡ some m
    → (m.id ≡ id) × (has_id m.id memories ≡ true)
unfolding find_memory
find_memory-id id [] m h = cc
find_memory-id id (x ∷ memories) m h = elim (Bool-cases (text_eq x.id id)) [
  | inl e ↦ ground (arith, text_eq→eq x.id id, text_eq_refl x.id)
  | inr e ↦ ground (arith, find_memory-id id memories m)
]

-- What is selected so far.
pub record IsSelection (top_k : ℕ) (memories selected : List Memory) : Type 0 where
  pub bounded : length selected ≤ max top_k 1
  pub distinct : is_distinct selected ≡ true
  pub found : is_found memories selected ≡ true

added-IsSelection :
    (top_k : ℕ) (memories selected : List Memory) (m : Memory)
    → length selected < max top_k 1
    → has_id m.id selected ≡ false
    → has_id m.id memories ≡ true
    → IsSelection top_k memories selected
    → IsSelection top_k memories (selected ++ m ∷ [])
added-IsSelection top_k memories selected m l n f r = record {
  bounded = omega (arith, length-append selected (m ∷ []));
  distinct = is_distinct-snoc selected m r.distinct n;
  found = is_found-snoc memories selected m r.found f;
}

pick-IsSelection :
    (top_k : ℕ) (id : Text) (rest : List Memory → List Memory) (o : Option Memory)
    (memories selected : List Memory)
    → ((xs : List Memory)
        → length xs < max top_k 1
        → IsSelection top_k memories xs
        → IsSelection top_k memories (rest xs))
    → ((m : Memory) → o ≡ some m → (m.id ≡ id) × (has_id m.id memories ≡ true))
    → length selected < max top_k 1
    → IsSelection top_k memories selected
    → IsSelection top_k memories (pick top_k id rest o selected)
pick-IsSelection top_k id rest none memories selected k f l r = k selected l r
pick-IsSelection top_k id rest (some m) memories selected k f l r =
    elim (Bool-cases (has_id id selected)) [
      | inl e ↦ rw e (k selected l r)
      | inr e ↦ rw e (elim (Bool-cases (leb top_k (length selected + 1))) [
        | inl full ↦ rw full (added e)
        | inr more ↦
            rw more
              (k (selected ++ m ∷ []) (ground (arith, length-append selected (m ∷ []))) (added e))
      ])
    ]
  where
    added : has_id id selected ≡ false → IsSelection top_k memories (selected ++ m ∷ [])
    added e =
        let (same, known) = f m refl in
        added-IsSelection top_k memories selected m l
          (ap (λ (i : Text). has_id i selected) same ∙ e) known r

-- The memories that are retrieved are known and distinct, and they are at most `top_k`, or one where
-- `top_k` is zero, whatever ids the model answers.
pub select-IsSelection :
    (top_k : ℕ) (ids : List Text) (memories selected : List Memory)
    → length selected < max top_k 1
    → IsSelection top_k memories selected
    → IsSelection top_k memories (select top_k ids memories selected)
unfolding select
select-IsSelection top_k [] memories selected l r = r
select-IsSelection top_k (id ∷ ids) memories selected l r =
    pick-IsSelection top_k id (select top_k ids memories) (find_memory id memories) memories
      selected (select-IsSelection top_k ids memories) (find_memory-id id memories) l r

-- Where the configured count is zero, one memory is retrieved all the same.
pub select_one :
    (id : Text) (ids : List Text) (memories : List Memory) (m : Memory)
    → find_memory id memories ≡ some m
    → select 0 (id ∷ ids) memories [] ≡ m ∷ []
unfolding select
select_one id ids memories m h = ground arith
