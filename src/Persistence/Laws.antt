-- ===== src/Persistence/Laws.antt =====
-- internal/persistence/store.go: the store in memory is a map from ids to entries.
use llm_cache.Common.{◌≡◌, refl, some, Str, str_key, Str-discrete, arith, ite}
use llm_cache.Common.Dict.{
  lookup, Distinct, lookup-insert, lookup-erase, insert-Distinct, erase-Distinct,
}
use llm_cache.Persistence.{Entry, MemoryStore, save, load, delete, flush, new_memory_store}

pub load-lookup : (id : Str) (m : MemoryStore) → load id m ≡ lookup id m.entries
unfolding load
load-lookup id m = refl

-- A load answers with the entry last saved under the id, and saves of other ids do not matter.
pub load-save :
    (entry : Entry) (q : Str) (m : MemoryStore)
    → load q (save entry m) ≡ ite (Str-discrete entry.id q) (some entry) (load q m)
unfolding save
load-save entry q m =
    ground (
      arith,
      load-lookup q m,
      load-lookup q (save entry m),
      lookup-insert entry.id q entry m.entries,
    )

-- No id is stored twice, and every entry is stored under its own id.
pub record IsSound (m : MemoryStore) : Type 0 where
  pub distinct : Distinct m.entries
  pub own : (q : Str) (x : Entry) → lookup q m.entries ≡ some x → x.id ≡ q

pub save-IsSound : (entry : Entry) (m : MemoryStore) → IsSound m → IsSound (save entry m)
unfolding save
save-IsSound entry m s = record {
  distinct = insert-Distinct entry.id entry m.entries s.distinct;
  own = λ q x e. ground (arith, s.own q x, lookup-insert entry.id q entry m.entries);
}

pub delete-IsSound : (id : Str) (m : MemoryStore) → IsSound m → IsSound (delete id m)
unfolding delete
delete-IsSound id m s = record {
  distinct = erase-Distinct id m.entries s.distinct;
  own = λ q x e. ground (arith, s.own q x, lookup-erase id q m.entries);
}

pub new_memory_store-IsSound : IsSound new_memory_store
unfolding new_memory_store lookup
new_memory_store-IsSound = record { distinct = tt; own = λ q x e. cc }

pub flush-IsSound : (m : MemoryStore) → IsSound (flush m)
unfolding flush lookup
flush-IsSound m = record { distinct = tt; own = λ q x e. cc }
