-- ===== src/Examples/Stores.antt =====
-- The store in memory: internal/persistence/store.go.
use llm_cache.Common.{
  ℕ, ◌≡◌, refl, List, [], ◌∷◌, Option, none, some, Str, str_key, Str-discrete, All,
}
use llm_cache.Examples.Setup.{a, base, entry, full}
use llm_cache.Orchestrator.Memory.{held, memory-Stores, over_memory}
use llm_cache.Orchestrator.Update.Bound
use llm_cache.Persistence.{Entry, MemoryStore, save, load, size, new_memory_store}
use llm_cache.Plugins.Migration.{migrate_entries, copy_entries, verify_entries, same_entry}
use llm_cache.Plugins.Migration.Verified
use llm_cache.Plugins.Replay.{sorted_entries}
use llm_cache.Common.Sorting.{sort}
use llm_cache.Common.Dict.{lookup, insert}
use llm_cache.Common.Result.{Result, ok, err}

abbrev one : MemoryStore
one = full.store.0

memory-Stores_example : Bound.Stores (over_memory base) held
memory-Stores_example = memory-Stores base (λ id v. refl)

-- The store in memory as the candidate of a migration.
abbrev found_in : MemoryStore → Str → Result Str Entry
found_in m id = elim (load id m) [ none ↦ err [] | some x ↦ ok x ]

abbrev save_to : Entry → MemoryStore → Option Str × MemoryStore
save_to x m = (none, save x m)

abbrev load_from : Str → MemoryStore → Result Str Entry × MemoryStore
load_from id m = (found_in m id, m)

abbrev list : List Entry → Result Str (List Entry) × List Entry
list es = (ok es, es)

abbrev count : MemoryStore → Result Str ℕ × MemoryStore
count m = (ok (size m), m)

migrated :
    migrate_entries save_to load_from list count (entry ∷ [], new_memory_store)
    ≡ (none, a ∷ [], (entry ∷ [], save entry new_memory_store))
unfolding migrate_entries copy_entries verify_entries same_entry save load size new_memory_store
    sorted_entries sort lookup insert Str-discrete
migrated = refl

migrate_entries-Kept_example :
    All
      (Verified.Kept save_to load_from found_in (λ id m. refl) (save entry new_memory_store))
      (entry ∷ [])
migrate_entries-Kept_example =
    Verified.migrate_entries-Kept save_to load_from found_in (λ id m. refl) list count (entry ∷ [])
      (entry ∷ []) (entry ∷ []) new_memory_store (save entry new_memory_store) (entry ∷ []) (a ∷ [])
      refl migrated
