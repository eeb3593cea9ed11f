-- ===== src/Examples/Replays.antt =====
-- The replay of entries to a policy: internal/plugins/manager/activate.go.
use llm_cache.Policy.Lru.{LruPolicy, lru}
use llm_cache.Policy.Lru.Promise.{lru-Contract}
use llm_cache.Common.{ℕ, ◌≡◌, refl, List, [], ◌∷◌, none, Str, str_key, length}
use llm_cache.Common.Dict.{contains}
use llm_cache.Common.Result.{Result, ok}
use llm_cache.Examples.Setup.{entry, no_ids}
use llm_cache.Orchestrator.{RebuildEntry}
use llm_cache.Persistence.{Entry}
use llm_cache.Plugins.Replay.{ids_of, migrate_policy}
use llm_cache.Plugins.Replay.Replayed
use llm_cache.Policy.Lru.Refines as LruRefines
use llm_cache.Policy.Manager.{Manager, manager, new_manager_with}
use llm_cache.Policy.Manager.Promise.{manager-Contract, IsValid, tracked}

-- A store whose state is the list of its entries, and a vector store that counts what it was given.
abbrev list : List Entry → Result Str (List Entry) × List Entry
list es = (ok es, es)

abbrev rebuild : List RebuildEntry → ℕ → Result Str ℕ × ℕ
rebuild es n = (ok (length es), length es)

abbrev entries : List Entry
entries = entry ∷ []

no_ids-IsValid : (IsValid lru-Contract) no_ids
unfolding new_manager_with
no_ids-IsValid = LruRefines.new_lru_policy-IsValid

migrate_policy-tracked_example :
    (p : (Manager LruPolicy)) × (migrate_policy (manager lru) list (entries, no_ids)
      ≡ (none, (entries, p)))
    × (IsValid lru-Contract) p
    × ((q : Str) → contains q ((tracked lru-Contract) p) ≡ contains q (ids_of entries))
migrate_policy-tracked_example =
    Replayed.migrate_policy-tracked (manager lru) (manager-Contract lru-Contract) list entries
      entries no_ids entries no_ids-IsValid refl
