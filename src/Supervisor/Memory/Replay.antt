-- ===== src/Supervisor/Memory/Replay.antt =====
-- That a store opens again with the memories that it was left with.
use hera_v.Shared.{
  ◌≡◌, refl, sym, ap, ◌∙◌, Bool, true, false, ◌||◌, none, some, List, [], ◌∷◌, ◌++◌, arith,
  if◌then◌else◌, inl, inr, Bool-cases,
}
use hera_v.Shared.Text.{Text, text_eq, text_eq→eq, text_eq_refl}
use hera_v.Supervisor.Memory.{
  Memory, MemoryLine, entry, tombstone, id_of, FileLine, blank, corrupt, written, set_memory,
  delete_memory, find_memory, apply_line, MemoryStore, is_authentic, fold_line, fold, open_store,
  goes_global, tagged, append,
}

find_memory-set :
    (m : Memory) (ms : List Memory) (j : Text)
    → find_memory j (set_memory m ms) ≡ (if text_eq m.id j then some m else find_memory j ms)
unfolding find_memory set_memory
find_memory-set m [] j = refl
find_memory-set m (n ∷ ms) j = ground (
  arith,
  find_memory-set m ms j,
  text_eq→eq n.id m.id,
  text_eq→eq n.id j,
  text_eq→eq m.id j,
  text_eq_refl n.id,
)

find_memory-delete :
    (id : Text) (ms : List Memory) (j : Text)
    → find_memory j (delete_memory id ms) ≡ (if text_eq id j then none else find_memory j ms)
unfolding find_memory delete_memory
find_memory-delete id [] j = ground arith
find_memory-delete id (n ∷ ms) j = ground (
  arith,
  find_memory-delete id ms j,
  text_eq→eq n.id id,
  text_eq→eq n.id j,
  text_eq→eq id j,
  text_eq_refl n.id,
)

-- Two maps that agree on every id.
abbrev pub Agree : List Memory → List Memory → Type 0
Agree ms ns = (j : Text) → find_memory j ms ≡ find_memory j ns

apply_line-Agree :
    (l : MemoryLine) (ms ns : List Memory) → Agree ms ns → Agree (apply_line l ms) (apply_line l ns)
apply_line-Agree (entry m) ms ns h j =
    ground (arith, find_memory-set m ms j, find_memory-set m ns j, h j)
apply_line-Agree (tombstone id) ms ns h j =
    ground (arith, find_memory-delete id ms j, find_memory-delete id ns j, h j)

-- Lines of two ids commute.
apply_line-swap :
    (k l : MemoryLine) (ms : List Memory)
    → text_eq (id_of k) (id_of l) ≡ false
    → Agree (apply_line k (apply_line l ms)) (apply_line l (apply_line k ms))
apply_line-swap (entry m) (entry n) ms h j = ground (
  arith,
  find_memory-set m (set_memory n ms) j,
  find_memory-set n (set_memory m ms) j,
  find_memory-set m ms j,
  find_memory-set n ms j,
  text_eq→eq m.id j,
  text_eq→eq n.id j,
  text_eq_refl j,
)
apply_line-swap (entry m) (tombstone i) ms h j = ground (
  arith,
  find_memory-set m (delete_memory i ms) j,
  find_memory-delete i (set_memory m ms) j,
  find_memory-set m ms j,
  find_memory-delete i ms j,
  text_eq→eq m.id j,
  text_eq→eq i j,
  text_eq_refl j,
)
apply_line-swap (tombstone i) (entry m) ms h j = ground (
  arith,
  find_memory-set m (delete_memory i ms) j,
  find_memory-delete i (set_memory m ms) j,
  find_memory-set m ms j,
  find_memory-delete i ms j,
  text_eq→eq m.id j,
  text_eq→eq i j,
  text_eq_refl j,
)
apply_line-swap (tombstone i) (tombstone k) ms h j = ground (
  arith,
  find_memory-delete i (delete_memory k ms) j,
  find_memory-delete k (delete_memory i ms) j,
  find_memory-delete i ms j,
  find_memory-delete k ms j,
)

abbrev line_mentions : Text → FileLine → Bool
line_mentions id blank = false
line_mentions id corrupt = false
line_mentions id (written l found) = text_eq (id_of l) id

abbrev pub mentions : Text → List FileLine → Bool
mentions id [] = false
mentions id (l ∷ ls) = line_mentions id l || mentions id ls

module _ (mac : MemoryLine → Text) (secret : Bool) where
  abbrev replay_line : FileLine → List Memory → List Memory
  replay_line blank ms = ms
  replay_line corrupt ms = ms
  replay_line (written l found) ms = if is_authentic mac secret l found then apply_line l ms else ms

  replay : List FileLine → List Memory → List Memory
  replay [] ms = ms
  replay (l ∷ ls) ms = replay ls (replay_line l ms)

  replay_line-Agree :
      (l : FileLine) (ms ns : List Memory)
      → Agree ms ns
      → Agree (replay_line l ms) (replay_line l ns)
  replay_line-Agree blank ms ns h j = h j
  replay_line-Agree corrupt ms ns h j = h j
  replay_line-Agree (written l found) ms ns h j = ground (arith, h j, apply_line-Agree l ms ns h j)

  replay-Agree :
      (ls : List FileLine) (ms ns : List Memory) → Agree ms ns → Agree (replay ls ms) (replay ls ns)
  unfolding replay
  replay-Agree [] ms ns h = h
  replay-Agree (l ∷ ls) ms ns h =
      replay-Agree ls (replay_line l ms) (replay_line l ns) (replay_line-Agree l ms ns h)

  replay_line-swap :
      (l : MemoryLine) (k : FileLine) (ms : List Memory)
      → line_mentions (id_of l) k ≡ false
      → Agree (replay_line k (apply_line l ms)) (apply_line l (replay_line k ms))
  replay_line-swap l blank ms h j = refl
  replay_line-swap l corrupt ms h j = refl
  replay_line-swap l (written k found) ms h j = ground (arith, apply_line-swap k l ms h j)

  replay-swap :
      (l : MemoryLine) (ls : List FileLine) (ms : List Memory)
      → mentions (id_of l) ls ≡ false
      → Agree (replay ls (apply_line l ms)) (apply_line l (replay ls ms))
  unfolding replay
  replay-swap l [] ms h j = refl
  replay-swap l (k ∷ ls) ms h j =
      replay-Agree ls (replay_line k (apply_line l ms)) (apply_line l (replay_line k ms))
        (replay_line-swap l k ms (ground arith)) j
      ∙ replay-swap l ls (replay_line k ms) (ground arith) j

  replay-append :
      (xs ys : List FileLine) (ms : List Memory) → replay (xs ++ ys) ms ≡ replay ys (replay xs ms)
  unfolding replay
  replay-append [] ys ms = refl
  replay-append (x ∷ xs) ys ms = replay-append xs ys (replay_line x ms)

  fold_line-replay :
      (l : FileLine) (s : MemoryStore)
      → s.has_secret ≡ secret
      → ((fold_line mac l s).memories ≡ replay_line l s.memories)
        × ((fold_line mac l s).has_secret ≡ secret)
  unfolding fold_line
  fold_line-replay blank s h = (refl, h)
  fold_line-replay corrupt s h = (refl, h)
  fold_line-replay (written l found) s h = ground arith

  fold-replay :
      (ls : List FileLine) (s : MemoryStore)
      → s.has_secret ≡ secret
      → ((fold mac ls s).memories ≡ replay ls s.memories) × ((fold mac ls s).has_secret ≡ secret)
  unfolding fold replay
  fold-replay [] s h = (refl, h)
  fold-replay (l ∷ ls) s h =
      let (m, k) = fold_line-replay l s h in
      let (n, e) = fold-replay ls (fold_line mac l s) k in (n ∙ ap (replay ls) m, e)

  open_store-replay :
      (g w : List FileLine) → (open_store mac secret g w).memories ≡ replay w (replay g [])
  unfolding open_store
  open_store-replay g w =
      let (m, k) = fold-replay g _ refl in let (n, e) = fold-replay w _ k in n ∙ ap (replay w) m

  tagged-is_authentic :
      (b : Bool) (l : MemoryLine) → is_authentic mac b l (if b then some (mac l) else none) ≡ true
  tagged-is_authentic true l = text_eq_refl (mac l)
  tagged-is_authentic false l = refl

  -- The line that `append` writes counts when the file is read.
  replay_line-tagged :
      (l : MemoryLine) (ms : List Memory) → replay_line (tagged mac secret l) ms ≡ apply_line l ms
  replay_line-tagged l ms = ground (arith, tagged-is_authentic secret l)

-- The store holds what its files give when they are read.
pub record IsReplayed (mac : MemoryLine → Text) (s : MemoryStore) : Type 0 where
  pub agrees :
      Agree s.memories (open_store mac s.has_secret s.global_file s.workspace_file).memories

module _ (mac : MemoryLine → Text) where
  replays :
      (s : MemoryStore) (g w : List FileLine)
      → (open_store mac s.has_secret g w).memories
        ≡ replay mac s.has_secret w (replay mac s.has_secret g [])
  replays s g w = open_store-replay mac s.has_secret g w

  to_workspace :
      (l : MemoryLine) (s : MemoryStore)
      → IsReplayed mac s
      → Agree
          (apply_line l s.memories)
          (open_store mac s.has_secret s.global_file
            (s.workspace_file ++ tagged mac s.has_secret l ∷ [])).memories
  unfolding replay
  to_workspace l s r j =
      apply_line-Agree l _ _ r.agrees j
      ∙ ap (λ (ms : List Memory). find_memory j (apply_line l ms))
          (replays s s.global_file s.workspace_file)
      ∙ ap (find_memory j) (
          sym (replay_line-tagged mac s.has_secret l _)
          ∙ sym (replay-append mac s.has_secret s.workspace_file (tagged mac s.has_secret l ∷ []) _)
          ∙ sym (replays s s.global_file (s.workspace_file ++ tagged mac s.has_secret l ∷ [])))

  to_global :
      (l : MemoryLine) (s : MemoryStore)
      → IsReplayed mac s
      → mentions (id_of l) s.workspace_file ≡ false
      → Agree
          (apply_line l s.memories)
          (open_store mac s.has_secret
            (s.global_file ++ tagged mac s.has_secret l ∷ [])
            s.workspace_file).memories
  unfolding replay
  to_global l s r h j =
      apply_line-Agree l _ _ r.agrees j
      ∙ ap (λ (ms : List Memory). find_memory j (apply_line l ms))
          (replays s s.global_file s.workspace_file)
      ∙ sym (
          replay-swap mac s.has_secret l s.workspace_file (replay mac s.has_secret s.global_file [])
            h j)
      ∙ ap (λ (ms : List Memory). find_memory j (replay mac s.has_secret s.workspace_file ms))
          (sym (replay_line-tagged mac s.has_secret l _)
            ∙ sym
                (replay-append mac s.has_secret s.global_file (tagged mac s.has_secret l ∷ []) []))
      ∙ ap (find_memory j)
          (sym (replays s (s.global_file ++ tagged mac s.has_secret l ∷ []) s.workspace_file))

  -- A store that agrees with its files still does after a line has been appended, for the line of a
  -- memory or a tombstone, with a secret or without: opened again, it finds the same memory under
  -- each id. A line for the global file must have an id that the workspace's file does not mention.
  pub append-IsReplayed :
      (l : MemoryLine) (s : MemoryStore)
      → (goes_global l s.memories ≡ true → mentions (id_of l) s.workspace_file ≡ false)
      → IsReplayed mac s
      → IsReplayed mac (append mac l s)
  unfolding append
  append-IsReplayed l s h r = elim (Bool-cases (goes_global l s.memories)) [
    | inl g ↦ rw g (record { agrees = to_global l s r (h g) })
    | inr w ↦ rw w (record { agrees = to_workspace l s r })
  ]
