-- ===== src/Supervisor/Memory/Examples.antt =====
-- A store with one memory of the workspace and one global memory.
use hera_v.Shared.{refl, Bool, true, false, some, [], ◌∷◌, arith}
use hera_v.Shared.Text.{Text, codes}
use hera_v.Supervisor.Memory.{
  Memory, MemoryLine, entry, tombstone, id_of, blank, corrupt, written, MemoryStore, open_store,
  append, select,
}
use hera_v.Supervisor.Memory.Replay.{IsReplayed, append-IsReplayed}
use hera_v.Supervisor.Memory.Selection.{IsSelection, select-IsSelection}

abbrev a_memory : Text → Bool → Memory
a_memory id is_global = record {
  id = id;
  text = codes "tabs";
  is_global = is_global;
  tags = [];
  created = codes "2026-01-01";
  last_used = codes "2026-01-01";
  uses = 0;
  source_session = codes "s1";
}

abbrev near : Memory
near = a_memory (codes "mem_00001") false

abbrev far : Memory
far = a_memory (codes "mem_00002") true

abbrev a_mac : MemoryLine → Text
a_mac l = id_of l

abbrev some_files : MemoryStore
some_files =
    open_store a_mac true (written (entry far) (some (codes "mem_00002")) ∷ corrupt ∷ [])
      (written (entry near) (some (codes "mem_00001")) ∷ blank ∷ [])

some_files-IsReplayed : IsReplayed a_mac some_files
unfolding open_store
some_files-IsReplayed = record { agrees = λ j. refl }

append-IsReplayed_example :
    IsReplayed a_mac (append a_mac (tombstone (codes "mem_00002")) some_files)
unfolding open_store
append-IsReplayed_example =
    append-IsReplayed a_mac (tombstone (codes "mem_00002")) some_files (λ g. refl)
      some_files-IsReplayed

select-IsSelection_example :
    IsSelection 1
      (far ∷ near ∷ [])
      (select 1 (codes "mem_9" ∷ codes "mem_00001" ∷ codes "mem_00002" ∷ []) (far ∷ near ∷ []) [])
select-IsSelection_example =
    select-IsSelection 1 (codes "mem_9" ∷ codes "mem_00001" ∷ codes "mem_00002" ∷ [])
      (far ∷ near ∷ []) [] (omega arith)
      (record { bounded = omega arith; distinct = refl; found = refl })
