-- ===== src/Examples/Setup.antt =====
-- A service of internal/orchestrator over the store in memory and the manager of the policies.
use llm_cache.Policy.Lru.{LruPolicy, lru}
use llm_cache.Policy.Interface.{EvictionPolicy}
use llm_cache.Common.{refl, List, [], ◌∷◌, none, Str, str_key, codes}
use llm_cache.Common.Float.{float_zero}
use llm_cache.Common.Int.{pos}
use llm_cache.Common.Result.{ok}
use llm_cache.Orchestrator.{Ports, Service, Config, Job, Match, no_stats}
use llm_cache.Orchestrator.Memory.{SoundStore, empty_store, held, over_memory, memory-Stores}
use llm_cache.Orchestrator.Update.Bound
use llm_cache.Persistence.{Entry}
use llm_cache.Policy.Lru
use llm_cache.Policy.Manager.{Manager, manager, new_manager_with, is_lru}

abbrev pub a : Str
a = codes "a"

abbrev pub b : Str
b = codes "b"

-- The manager with room for a policy from outside of the package, which is another LRU here.
abbrev pub manager_lru : EvictionPolicy (Manager LruPolicy)
manager_lru = manager lru

-- A vector store that answers with the matches that are its state, and gives out the id `b`.
abbrev pub base : Ports Unit (List Match) Unit Unit (List Job) (Manager LruPolicy)
base = record {
  embed = λ prompt e. (ok (float_zero ∷ []), e);
  embed_health = λ e. none;
  search = λ vec k threshold v. (ok v, v);
  upsert = λ vec v. (ok b, v);
  vector_delete = λ id v. (none, v);
  vector_flush = λ v. (none, []);
  rebuild = λ entries v. (none, []);
  vector_health = λ v. none;
  complete = λ prompt l. (ok (codes "reply"), l);
  save = λ entry s. (none, s);
  load = λ id s. (none, s);
  list = λ s. (ok [], s);
  size = λ s. (ok 0, s);
  delete = λ id s. (none, s);
  flush = λ s. (none, s);
  store_health = λ s. none;
  enqueue = λ job q. (none, job ∷ q);
  policy = manager_lru;
  add = λ x y. x;
}

abbrev pub ports : Ports Unit (List Match) Unit SoundStore (List Job) (Manager LruPolicy)
ports = over_memory base

pub stores : Bound.Stores ports held
stores = memory-Stores base (λ id v. refl)

abbrev pub entry : Entry
entry = record { id = a; prompt = codes "p"; reply = codes "r"; vector = []; created_at = 1 }

abbrev pub no_ids : Manager LruPolicy
no_ids = new_manager_with (is_lru Lru.new_lru_policy)

abbrev pub config : Config
config = record { capacity = pos 1; top_k = pos 3; threshold = float_zero }

abbrev pub Demo : Type 0
Demo = Service Unit (List Match) Unit SoundStore (List Job) (Manager LruPolicy)

-- A service with room for one entry, which holds and tracks `a`.
abbrev pub full : Demo
full = record {
  cfg = config;
  embedder = tt;
  vstore =
      record { id = codes "stale"; distance = float_zero }
      ∷ record { id = a; distance = float_zero }
      ∷ [];
  llm = tt;
  store = (ports.save entry empty_store).1;
  queue = [];
  policy = manager_lru.on_insert a no_ids;
  live_threshold = none;
  stats = no_stats;
}
