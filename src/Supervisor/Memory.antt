-- ===== src/Supervisor/Memory.antt =====
-- src/supervisor/memory.ts: the memory store over its two files, the search for duplicates and the
-- choice of what is retrieved. A file is the list of its lines; `mac` is computeMac
-- with the store's secret. The last line of a file ends in a newline. The model's answer comes as parsed values.
mod Examples
pub mod Replay
pub mod Selection
use hera_v.Shared.{
  ℕ, ◌+◌, ◌*◌, ◌-◌, max, Bool, false, not, ◌&&◌, ◌||◌, Option, none, some, List, [], ◌∷◌, ◌++◌,
  if◌then◌else◌, leb, length, take, any, keep_if,
}
use hera_v.Shared.Text.{Text, codes, text_eq, includes, starts_with, trim, to_lower, is_space}

pub record Memory : Type 0 where
  pub id : Text
  pub text : Text
  pub is_global : Bool
  pub tags : List Text
  pub created : Text
  pub last_used : Text
  pub uses : ℕ
  pub source_session : Text

pub data MemoryLine : Type 0 where
  entry : Memory → MemoryLine
  tombstone : Text → MemoryLine

abbrev pub id_of : MemoryLine → Text
id_of (entry m) = m.id
id_of (tombstone id) = id

-- A line of a file; what is no JSON object with an id is corrupt.
pub data FileLine : Type 0 where
  blank corrupt : FileLine
  written : MemoryLine → Option Text → FileLine

-- A `Map` keeps the place of a key that is set again.
unfoldable pub set_memory : Memory → List Memory → List Memory
unfolding text_eq
set_memory m [] = m ∷ []
set_memory m (n ∷ ms) = if text_eq n.id m.id then m ∷ ms else n ∷ set_memory m ms

unfoldable pub delete_memory : Text → List Memory → List Memory
unfolding text_eq
delete_memory id [] = []
delete_memory id (n ∷ ms) =
    let rest = delete_memory id ms in if text_eq n.id id then rest else n ∷ rest

unfoldable pub find_memory : Text → List Memory → Option Memory
unfolding text_eq
find_memory id [] = none
find_memory id (n ∷ ms) = if text_eq n.id id then some n else find_memory id ms

abbrev pub apply_line : MemoryLine → List Memory → List Memory
apply_line (entry m) ms = set_memory m ms
apply_line (tombstone id) ms = delete_memory id ms

abbrev pub is_digit : ℕ → Bool
is_digit c = leb 48 c && leb c 57

abbrev pub digits_from : ℕ → Text → ℕ
digits_from n [] = n
digits_from n (c ∷ s) = if is_digit c then digits_from (n * 10 + (c - 48)) s else n

abbrev pub after_prefix : Text → Text
after_prefix (a ∷ b ∷ c ∷ d ∷ s) = s
after_prefix _ = []

-- `Number(/^mem_(\d+)/.exec(id)?.[1] ?? 0)`
unfoldable pub number_of : Text → ℕ
unfolding starts_with
number_of id = if starts_with id (codes "mem_") then digits_from 0 (after_prefix id) else 0

pub record MemoryStore : Type 0 where
  pub memories : List Memory
  pub counter : ℕ
  pub has_secret : Bool
  pub global_file : List FileLine
  pub workspace_file : List FileLine
  pub skipped : ℕ
  pub mac_failures : ℕ

unfoldable pub normalize_spaces : Text → Text
unfolding is_space
normalize_spaces [] = []
normalize_spaces (c ∷ []) = (if is_space c then 32 else c) ∷ []
normalize_spaces (c ∷ d ∷ s) =
    let rest = normalize_spaces (d ∷ s) in
    if is_space c then (if is_space d then rest else 32 ∷ rest) else c ∷ rest

unfoldable pub normalize_text : Text → Text
unfolding normalize_spaces trim to_lower
normalize_text text = trim (normalize_spaces (to_lower text))

abbrev pub scope_in : Option Memory → Bool
scope_in none = false
scope_in (some m) = m.is_global

-- A tombstone goes to the file of the memory that it removes.
abbrev pub goes_global : MemoryLine → List Memory → Bool
goes_global (entry m) ms = m.is_global
goes_global (tombstone id) ms = scope_in (find_memory id ms)

abbrev pub touched_line : Text → Memory → MemoryLine
touched_line now m = entry (record m { last_used = now; uses = m.uses + 1 })

module _ (mac : MemoryLine → Text) where
  abbrev pub same_mac : Text → Option Text → Bool
  same_mac expected none = false
  same_mac expected (some found) = text_eq expected found

  -- Without a secret every line counts.
  abbrev pub is_authentic : Bool → MemoryLine → Option Text → Bool
  is_authentic secret line found = not secret || same_mac (mac line) found

  -- `fold` on one line.
  unfoldable pub fold_line : FileLine → MemoryStore → MemoryStore
  unfolding number_of set_memory delete_memory text_eq
  fold_line blank s = s
  fold_line corrupt s = record s { skipped = s.skipped + 1 }
  fold_line (written line found) s =
      if is_authentic s.has_secret line found
      then record s {
        memories = apply_line line s.memories;
        counter = max s.counter (number_of (id_of line));
      }
      else record s { mac_failures = s.mac_failures + 1 }

  unfoldable pub fold : List FileLine → MemoryStore → MemoryStore
  unfolding fold_line
  fold [] s = s
  fold (l ∷ ls) s = fold ls (fold_line l s)

  -- `open` without the retention; the files are those of the store.
  unfoldable pub open_store : Bool → List FileLine → List FileLine → MemoryStore
  unfolding fold
  open_store secret global workspace = fold workspace (
      fold global (record {
        memories = [];
        counter = 0;
        has_secret = secret;
        global_file = global;
        workspace_file = workspace;
        skipped = 0;
        mac_failures = 0;
      }))

  abbrev pub tagged : Bool → MemoryLine → FileLine
  tagged secret line = written line (if secret then some (mac line) else none)

  unfoldable pub append : MemoryLine → MemoryStore → MemoryStore
  unfolding set_memory delete_memory find_memory
  append line s =
      let done : MemoryStore = record s { memories = apply_line line s.memories } in
      if goes_global line s.memories
      then record done { global_file = s.global_file ++ tagged s.has_secret line ∷ [] }
      else record done { workspace_file = s.workspace_file ++ tagged s.has_secret line ∷ [] }

  -- What the gate blocks is neither written nor remembered.
  unfoldable pub append_gated : Bool → MemoryLine → MemoryStore → MemoryStore
  unfolding append
  append_gated blocked line s = if blocked then s else append line s

  abbrev pub touch_found : Option Memory → Text → Bool → MemoryStore → MemoryStore
  touch_found none now blocked s = s
  touch_found (some m) now blocked s = append_gated blocked (touched_line now m) s

  unfoldable pub touch_gated : Bool → Text → Text → MemoryStore → MemoryStore
  unfolding append_gated find_memory
  touch_gated blocked id now s = touch_found (find_memory id s.memories) now blocked s

abbrev pub is_duplicate : Text → Text → Bool
is_duplicate n e = text_eq e n || includes e n || includes n e

unfoldable pub find_duplicate : Text → List Memory → Option Memory
unfolding normalize_text includes text_eq
find_duplicate text [] = none
find_duplicate text (m ∷ ms) =
    if is_duplicate (normalize_text text) (normalize_text m.text)
    then some m
    else find_duplicate text ms

abbrev pub max_candidates : ℕ
max_candidates = 60

module _ (later : Text → Text → Bool) where
  -- `sort((a, b) => b.last_used.localeCompare(a.last_used))`, where `later` is its order.
  abbrev pub insert_by : Memory → List Memory → List Memory
  insert_by m [] = m ∷ []
  insert_by m (n ∷ ms) = if later m.last_used n.last_used then m ∷ n ∷ ms else n ∷ insert_by m ms

  abbrev pub sort_by : List Memory → List Memory → List Memory
  sort_by sorted [] = sorted
  sort_by sorted (m ∷ ms) = sort_by (insert_by m sorted) ms

  unfoldable pub candidates : ℕ → List Memory → List Memory
  candidates top_k memories = take max_candidates (
      take (top_k * 4) (sort_by [] (keep_if (λ m. not m.is_global) memories))
      ++ keep_if (λ m. m.is_global) memories)

abbrev pub has_id : Text → List Memory → Bool
has_id id selected = any (λ m. text_eq m.id id) selected

-- One round: `rest` is what follows.
abbrev pub pick : ℕ → Text → (List Memory → List Memory) → Option Memory → List Memory → List Memory
pick top_k id rest none selected = rest selected
pick top_k id rest (some m) selected =
    if has_id id selected
    then rest selected
    else if leb top_k (length selected + 1)
    then selected ++ m ∷ []
    else rest (selected ++ m ∷ [])

-- The loop over the ids of the model's answer; it looks at `top_k` after each memory it takes.
unfoldable pub select : ℕ → List Text → List Memory → List Memory → List Memory
unfolding find_memory text_eq
select top_k [] memories selected = selected
select top_k (id ∷ ids) memories selected =
    pick top_k id (select top_k ids memories) (find_memory id memories) selected
