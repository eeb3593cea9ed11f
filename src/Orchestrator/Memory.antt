-- ===== src/Orchestrator/Memory.antt =====
-- internal/persistence/store.go: the store in memory as the store of the service. Its methods
-- return no errors, and its states are the sound ones.
use llm_cache.Common.{◌≡◌, refl, sym, ap, List, none, Str, str_key, arith}
use llm_cache.Common.Dict.{keys, contains-keys, keys-Once, length-keys, lookup-insert, lookup-erase}
use llm_cache.Common.Result.{ok}
use llm_cache.Orchestrator.{Ports}
use llm_cache.Orchestrator.Update.Bound.{Stores}
use llm_cache.Persistence
use llm_cache.Persistence.{Entry, MemoryStore, new_memory_store}
use llm_cache.Persistence.Laws.{
  IsSound, new_memory_store-IsSound, save-IsSound, delete-IsSound, flush-IsSound,
}

abbrev pub SoundStore : Type 0
SoundStore = (m : MemoryStore) × IsSound m

abbrev pub empty_store : SoundStore
empty_store = (new_memory_store, new_memory_store-IsSound)

-- The ids with an entry.
abbrev pub held : SoundStore → List Str
held (m, s) = keys m.entries

module _ {E V L S Q P : Type 0} where
  -- The ports with the store in memory in place of theirs.
  abbrev pub over_memory : Ports E V L S Q P → Ports E V L SoundStore Q P
  over_memory ports = record {
    embed = ports.embed;
    embed_health = ports.embed_health;
    search = ports.search;
    upsert = ports.upsert;
    vector_delete = ports.vector_delete;
    vector_flush = ports.vector_flush;
    rebuild = ports.rebuild;
    vector_health = ports.vector_health;
    complete = ports.complete;
    save = λ x (m, s). (none, (Persistence.save x m, save-IsSound x m s));
    load = λ id (m, s). (Persistence.load id m, (m, s));
    list = λ (m, s). (ok (Persistence.list m), (m, s));
    size = λ (m, s). (ok (Persistence.size m), (m, s));
    delete = λ id (m, s). (none, (Persistence.delete id m, delete-IsSound id m s));
    flush = λ (m, s). (none, (Persistence.flush m, flush-IsSound m));
    store_health = λ _. none;
    enqueue = ports.enqueue;
    policy = ports.policy;
    add = ports.add;
  }

  -- The store in memory does what the service relies on: it holds each id once, its size counts
  -- them, a save adds its id and a delete takes its id away, and neither fails; the vector store is
  -- one whose deletes succeed.
  pub memory-Stores :
      (ports : Ports E V L S Q P)
      → ((id : Str) (v : V) → (ports.vector_delete id v).0 ≡ none)
      → Stores (over_memory ports) held
  unfolding Persistence.save Persistence.size Persistence.delete
  memory-Stores ports deletes = record {
    once = λ (m, s). keys-Once m.entries s.distinct;
    size = λ (m, s). ap (λ n. (ok n, (m, s))) (sym (length-keys m.entries));
    delete = λ id s. refl;
    held_delete = λ id q (m, s). ground (
      arith,
      contains-keys q m.entries,
      contains-keys q (Persistence.delete id m).entries,
      lookup-erase id q m.entries,
    );
    save = λ x s. refl;
    held_save = λ x q (m, s). ground (
      arith,
      contains-keys q m.entries,
      contains-keys q (Persistence.save x m).entries,
      lookup-insert x.id q x m.entries,
    );
    vector_delete = deletes;
  }
