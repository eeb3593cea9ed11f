-- ===== src/Persistence.antt =====
-- internal/persistence/store.go: cache entries, and the store in memory. The locks serialise the
-- methods, so each is a function of the entries. cloneEntry and cloneVector copy the vector on the way in
-- and out, so that no caller shares it with the store: an entry is a value here, which nothing shares.
pub mod Laws
use llm_cache.Common.{ℕ, List, [], ◌∷◌, Option, none, some, Str, str_key, length, map}
use llm_cache.Common.Dict.{Dict, lookup, insert, erase, values}
use llm_cache.Common.Float.{Float64}
use llm_cache.Common.Result.{Result, ok, err}

pub record Entry : Type 0 where
  pub id : Str
  pub prompt : Str
  pub reply : Str
  pub vector : List Float64
  pub created_at : ℕ

pub record MemoryStore : Type 0 where
  pub entries : Dict Str Entry

pub data LoadError : Type 0 where
  not_found invalid_data backend : LoadError

unfoldable pub new_memory_store : MemoryStore
new_memory_store = record { entries = [] }

unfoldable pub save : Entry → MemoryStore → MemoryStore
save entry m = record m { entries = insert entry.id entry m.entries }

unfoldable pub load : Str → MemoryStore → Option Entry
load id m = lookup id m.entries

unfoldable pub load_detailed : Str → MemoryStore → Result LoadError Entry
load_detailed id m = elim (load id m) [ none ↦ err not_found | some entry ↦ ok entry ]

-- In the order in which the map hands its entries out.
unfoldable pub list : MemoryStore → List Entry
list m = values m.entries

unfoldable pub size : MemoryStore → ℕ
size m = length m.entries

unfoldable pub delete : Str → MemoryStore → MemoryStore
delete id m = record m { entries = erase id m.entries }

unfoldable pub flush : MemoryStore → MemoryStore
flush m = record m { entries = [] }
