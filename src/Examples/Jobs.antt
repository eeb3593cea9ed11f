-- ===== src/Examples/Jobs.antt =====
-- Jobs for the cache: internal/orchestrator/service.go, `updateCache`.
use llm_cache.Policy.Lru.{LruPolicy, lru}
use llm_cache.Policy.Lru.Promise.{lru-Contract}
use llm_cache.Policy.Interface.{Contract}
use llm_cache.Common.{
  ◌≤◌, ◌≡◌, ◌⊎◌, refl, List, [], Option, none, some, Str, str_key, codes, arith, length, true,
}
use llm_cache.Common.Dict.{contains, insert, lookup}
use llm_cache.Orchestrator.{Ports, Service, Job, Match, Failure, no_stats}
use llm_cache.Orchestrator.Memory.{empty_store, held}
use llm_cache.Orchestrator.Update.{update_cache}
use llm_cache.Orchestrator.Update.Bound
use llm_cache.Orchestrator.Update.Outcome
use llm_cache.Persistence
use llm_cache.Persistence.{Entry, new_memory_store}
use llm_cache.Policy.GoList.{new_list, push_front}
use llm_cache.Policy.Lru
use llm_cache.Policy.Lru.Refines as LruRefines
use llm_cache.Policy.Manager.{Manager, manager, new_manager_with, manager_on_insert, act_insert}
use llm_cache.Policy.Manager.Promise.{manager-Contract, IsValid, tracked}
use llm_cache.Examples.Setup.{a, b, base, ports, stores, entry, no_ids, config, full, Demo}

no_ids-IsValid : (IsValid lru-Contract) no_ids
unfolding new_manager_with
no_ids-IsValid = LruRefines.new_lru_policy-IsValid

nothing : (q : Str) → contains q ((tracked lru-Contract) no_ids) ≡ contains q (held empty_store)
unfolding new_manager_with Lru.new_lru_policy new_list new_memory_store
nothing q = refl

full-IsConsistent : Bound.IsConsistent ports (manager-Contract lru-Contract) stores full
full-IsConsistent = record {
  valid = Contract.insert_valid (manager-Contract lru-Contract) a no_ids no_ids-IsValid;
  same = λ q. ground (
    arith,
    Contract.tracked_insert (manager-Contract lru-Contract) a q no_ids no_ids-IsValid,
    stores.held_save entry q empty_store,
    nothing q,
  );
}

one_held : length (held full.store) ≡ 1
unfolding Persistence.save new_memory_store insert
one_held = refl

update_cache-Bounded_example :
    (s' : Demo) × (update_cache ports 3 7 (codes "p") [] (codes "r") full ≡ some (none, s'))
    × Bound.IsConsistent ports (manager-Contract lru-Contract) stores s'
    × (length (held s'.store) ≤ 1)
    × ((q : Str)
        → contains q (held s'.store) ≡ true
        → (q ≡ b) ⊎ (contains q (held full.store) ≡ true))
update_cache-Bounded_example =
    Outcome.update_cache-Bounded ports (manager-Contract lru-Contract) stores 3 7 0 (codes "p") []
      (codes "r") full b full.vstore full-IsConsistent refl (omega (arith, one_held)) refl

one_tracked : length ((tracked lru-Contract) full.policy) ≡ 1
unfolding manager manager_on_insert act_insert Lru.on_insert new_manager_with Lru.new_lru_policy
    new_list push_front lookup
one_tracked = refl

update_cache-returns_example :
    (r : Option Failure × Demo) × (update_cache ports 3 7 (codes "p") [] (codes "r") full ≡ some r)
update_cache-returns_example =
    Outcome.update_cache-returns ports (manager-Contract lru-Contract) 3 7 (codes "p") []
      (codes "r") full full-IsConsistent.valid (omega (arith, one_tracked))

-- A store that refuses to save.
abbrev refusing : Ports Unit (List Match) Unit Unit (List Job) (Manager LruPolicy)
refusing = record base { save = λ x s. (some (codes "refused"), s) }

abbrev bare : Service Unit (List Match) Unit Unit (List Job) (Manager LruPolicy)
bare = record {
  cfg = config;
  embedder = tt;
  vstore = [];
  llm = tt;
  store = tt;
  queue = [];
  policy = no_ids;
  live_threshold = none;
  stats = no_stats;
}
