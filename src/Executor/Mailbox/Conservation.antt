-- ===== src/Executor/Mailbox/Conservation.antt =====
-- What goes into the mailbox of src/executor/injection.ts comes out of it, once.
use hera_v.Shared.{
  ℕ, ◌+◌, ◌==◌, ◌||◌, ◌&&◌, not, ◌≡◌, refl, sym, ap, ◌∙◌, Bool, true, false, List, [], ◌∷◌, ◌++◌,
  if◌then◌else◌, length,
}
use mathlib.Core.List.{append_assoc, append-nil}
use hera_v.Shared.Text.{Text, codes, starts_with}
use hera_v.Executor.Injection.{untrusted_open}
use hera_v.Executor.Mailbox.{
  Inject, InjectKind, memory, governance, MemoryItem, InjectMailbox, set_prompt_context, is_late,
  memories_of, push, push_kind, ids_of, drain, is_nil, memory_lines, memory_blocks, items_of,
  first_id, decimal_from,
}

pub data Op : Type 0 where
  running : Text → Op
  pushing : Inject → Op
  draining : Op

-- One operation, with the ids that it hands to a message.
pub step : Op → InjectMailbox → InjectMailbox × List Text
step (running prompt_id) box = (set_prompt_context prompt_id box, [])
step (pushing inject) box = (push inject box, [])
step draining box = let (drained, box') = drain box in (box', drained.memory_ids)

pub run : List Op → InjectMailbox → InjectMailbox × List Text
unfolding step
run [] box = (box, [])
run (op ∷ ops) box =
    let (box', ids) = step op box in let (box'', more) = run ops box' in (box'', ids ++ more)

abbrev first_named : List Text → ℕ → Text
first_named [] pending = codes "mem_" ++ decimal_from (pending + 1) (pending + 1)
first_named (id ∷ ids) pending = id

-- The ids of an inject all count where its text is a block of untrusted content, or has as many lines
-- that are not blank as there are ids. Else it is one memory, under its first id or the next number.
abbrev counts_ids : Inject → Bool
counts_ids inject =
    starts_with inject.text untrusted_open
    || (length inject.memory_ids == length (memory_lines inject.text))

-- The ids of the memories that an inject brings, unless it is late.
abbrev brought : InjectKind → Inject → InjectMailbox → List Text
brought memory inject box =
    if not (is_nil inject.memory_ids) && counts_ids inject
    then inject.memory_ids
    else first_named inject.memory_ids (length box.pending_memory) ∷ []
brought governance inject box = []

pub taken : Op → InjectMailbox → List Text
taken (pushing inject) box = if is_late inject box then [] else brought inject.kind inject box
taken _ box = []

pub all_taken : List Op → InjectMailbox → List Text
unfolding taken step
all_taken [] box = []
all_taken (op ∷ ops) box = taken op box ++ all_taken ops (step op box).0

ids_of-append : (xs ys : List MemoryItem) → ids_of (xs ++ ys) ≡ ids_of xs ++ ids_of ys
ids_of-append [] ys = refl
ids_of-append (m ∷ xs) ys = ap (λ l. m.id ∷ l) (ids_of-append xs ys)

ids_of-items_of : (ids blocks : List Text) (whole : Text) → ids_of (items_of ids blocks whole) ≡ ids
unfolding items_of
ids_of-items_of [] blocks whole = refl
ids_of-items_of (id ∷ ids) [] whole = ap (λ l. id ∷ l) (ids_of-items_of ids [] whole)
ids_of-items_of (id ∷ ids) (block ∷ blocks) whole =
    ap (λ l. id ∷ l) (ids_of-items_of ids blocks whole)

first_id-named : (ids : List Text) (pending : ℕ) → first_id ids pending ≡ first_named ids pending
unfolding first_id
first_id-named [] pending = refl
first_id-named (id ∷ ids) pending = refl

by_kind :
    (xs ys zs : List MemoryItem) (ids named : List Text) (some_ids starts same : Bool)
    → ids_of xs ≡ ids
    → ids_of ys ≡ ids
    → ids_of zs ≡ named
    → ids_of (if some_ids && starts then xs else if same && some_ids then ys else zs)
      ≡ (if some_ids && (starts || same) then ids else named)
by_kind xs ys zs ids named true true same h k l = h
by_kind xs ys zs ids named true false true h k l = k
by_kind xs ys zs ids named true false false h k l = l
by_kind xs ys zs ids named false starts true h k l = l
by_kind xs ys zs ids named false starts false h k l = l

ids_of-memories_of :
    (inject : Inject) (box : InjectMailbox)
    → ids_of (memories_of inject (length box.pending_memory)) ≡ brought memory inject box
unfolding memories_of
ids_of-memories_of inject box =
    let ids = inject.memory_ids in
    by_kind _ _ _ ids _ (not (is_nil ids)) (starts_with inject.text untrusted_open)
      (length ids == length (memory_lines inject.text))
      (ids_of-items_of ids (memory_blocks inject.text) inject.text)
      (ids_of-items_of ids (memory_lines inject.text) inject.text)
      (ap (λ id. id ∷ []) (first_id-named ids (length box.pending_memory)))

ids_of-push_kind :
    (kind : InjectKind) (inject : Inject) (box : InjectMailbox)
    → ids_of (push_kind kind inject box).pending_memory
      ≡ ids_of box.pending_memory ++ brought kind inject box
ids_of-push_kind memory inject box =
    ids_of-append box.pending_memory (memories_of inject (length box.pending_memory))
    ∙ ap (λ l. ids_of box.pending_memory ++ l) (ids_of-memories_of inject box)
ids_of-push_kind governance inject box = sym (append-nil (ids_of box.pending_memory))

ids_of-push_unless :
    (late : Bool) (inject : Inject) (box : InjectMailbox)
    → ids_of (if late then box else push_kind inject.kind inject box).pending_memory
      ≡ ids_of box.pending_memory ++ (if late then [] else brought inject.kind inject box)
ids_of-push_unless true inject box = sym (append-nil (ids_of box.pending_memory))
ids_of-push_unless false inject box = ids_of-push_kind inject.kind inject box

ids_of-step :
    (op : Op) (box : InjectMailbox)
    → (step op box).1 ++ ids_of (step op box).0.pending_memory
      ≡ ids_of box.pending_memory ++ taken op box
unfolding step taken push set_prompt_context drain
ids_of-step (running prompt_id) box = sym (append-nil (ids_of box.pending_memory))
ids_of-step (pushing inject) box = ids_of-push_unless (is_late inject box) inject box
ids_of-step draining box = refl

-- No memory is lost in the mailbox and none is handed on twice: over any prompts, injects and
-- drains, the ids that the drains report and then those that still wait are the ids that waited at
-- first and then those of the injects that were not late, in the order in which they came: all ids of
-- an inject whose text is untrusted content or has a line for each, and else the first, or the next
-- number where it has none.
pub ids_of-run :
    (ops : List Op) (box : InjectMailbox)
    → (run ops box).1 ++ ids_of (run ops box).0.pending_memory
      ≡ ids_of box.pending_memory ++ all_taken ops box
unfolding run all_taken
ids_of-run [] box = sym (append-nil (ids_of box.pending_memory))
ids_of-run (op ∷ ops) box =
    let box' = (step op box).0 in
    let out = (step op box).1 in
    append_assoc out (run ops box').1 (ids_of (run ops box').0.pending_memory)
    ∙ ap (λ l. out ++ l) (ids_of-run ops box')
    ∙ sym (append_assoc out (ids_of box'.pending_memory) (all_taken ops box'))
    ∙ ap (λ l. l ++ all_taken ops box') (ids_of-step op box)
    ∙ append_assoc (ids_of box.pending_memory) (taken op box) (all_taken ops box')
