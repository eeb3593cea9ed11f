-- ===== src/Examples/Requests.antt =====
-- Requests: internal/orchestrator/service.go, `handleQuery`, `FlushCache` and the start.
use llm_cache.Policy.Lru.{LruPolicy}
use llm_cache.Policy.Lru.Promise.{lru-Contract}
use llm_cache.Common.{
  ◌≡◌, ◌≢◌, refl, List, [], ◌∷◌, Option, none, some, Str, str_key, Str-discrete, codes, true, false,
}
use llm_cache.Common.Dict.{insert, lookup}
use llm_cache.Common.Float.{float_zero, float_minus_one, float_lt}
use llm_cache.Common.Result.{ok}
use llm_cache.Common.Word.{inc64, add64}
use llm_cache.Examples.Setup.{manager_lru, a, ports, no_ids, config, full, Demo}
use llm_cache.Orchestrator.{Ports, Job, Match}
use llm_cache.Orchestrator.Admin.Flushed
use llm_cache.Orchestrator.Distance.{normalize_distance}
use llm_cache.Orchestrator.Memory.{SoundStore, empty_store}
use llm_cache.Orchestrator.Query.{
  milliseconds, too_large, decoded, QueryResult, prompt_too_large, handle_query,
}
use llm_cache.Orchestrator.Query.Answers
use llm_cache.Orchestrator.Rebuild.{new_with_dependencies}
use llm_cache.Orchestrator.Rebuild.Restored
use llm_cache.Persistence
use llm_cache.Persistence.{Entry, new_memory_store}
use llm_cache.Policy.Lru.Refines as LruRefines
use llm_cache.Policy.Manager.{Manager, new_manager_with}
use llm_cache.Policy.Manager.Promise.{manager-Contract, IsValid}

abbrev stored : SoundStore → Str → Option Entry
stored (m, s) id = Persistence.load id m

abbrev answered : QueryResult
answered = record { id = a; reply = codes "r"; distance = float_zero }

-- The match `stale` has no entry behind it.
found-full : Answers.found (stored full.store) full.vstore ≡ answered ∷ []
unfolding Persistence.load Persistence.save new_memory_store insert lookup Str-discrete
    normalize_distance float_lt
found-full = refl

asked : codes "p" ≢ []
asked e = cc

handle_query-hit_example : handle_query ports (decoded (codes "p")) 5_000_000 full ≡ (
  ok (record {
    reply = codes "r";
    cache_hit = true;
    distance = float_zero;
    results = answered ∷ [];
    latency_ms = milliseconds 5_000_000;
    source = codes "cache";
  }),
  record full {
    embedder = tt;
    vstore = full.vstore;
    policy = Answers.told ports (answered ∷ []) full.policy;
    stats = record full.stats {
      hits = inc64 0;
      hit_latency_sum = add64 0 5_000_000;
      hit_distance_sum = ports.add float_zero float_zero;
    };
  },
)
handle_query-hit_example =
    Answers.handle_query-hit ports stored (λ id s. refl) (codes "p") (float_zero ∷ []) full.vstore
      tt full.vstore 5_000_000 full asked refl refl answered [] found-full

-- A service that holds nothing.
abbrev empty : Demo
empty = record full { store = empty_store; policy = no_ids }

found-empty : Answers.found (stored empty.store) empty.vstore ≡ []
unfolding Persistence.load new_memory_store lookup
found-empty = refl

abbrev job : Job
job = record { prompt = codes "p"; reply = codes "reply"; vector = float_zero ∷ [] }

handle_query-miss_example : handle_query ports (decoded (codes "p")) 5_000_000 empty ≡ (
  ok (record {
    reply = codes "reply";
    cache_hit = false;
    distance = float_minus_one;
    results = [];
    latency_ms = milliseconds 5_000_000;
    source = codes "llm";
  }),
  record empty {
    embedder = tt;
    vstore = empty.vstore;
    llm = tt;
    queue = job ∷ [];
    stats = record empty.stats { misses = inc64 0; miss_latency_sum = add64 0 5_000_000 };
  },
)
handle_query-miss_example =
    Answers.handle_query-miss ports stored (λ id s. refl) (codes "p") (float_zero ∷ []) empty.vstore
      tt empty.vstore 5_000_000 empty asked refl refl (codes "reply") tt none (job ∷ []) found-empty
      refl refl

handle_query-rejected_example : Answers.Untouched ports full full
handle_query-rejected_example =
    Answers.handle_query-rejected ports too_large 5 full full prompt_too_large
      (unfold handle_query in refl)

no_ids-IsValid : (IsValid lru-Contract) no_ids
unfolding new_manager_with
no_ids-IsValid = LruRefines.new_lru_policy-IsValid

-- A store whose flush fails, and which goes on holding two entries.
abbrev stuck : Ports Unit (List Match) Unit SoundStore (List Job) (Manager LruPolicy)
stuck = record ports { flush = λ s. (some (codes "refused"), s); size = λ s. (ok 2, s) }

abbrev flushed : Demo
flushed = record full { vstore = []; policy = manager_lru.flush full.policy }

new_with_dependencies-tracked_example :
    Restored.Starts ports
      (manager-Contract lru-Contract)
      0
      []
      no_ids
      (Persistence.list full.store.0)
      (new_with_dependencies ports 0 config tt [] tt full.store [] no_ids)
new_with_dependencies-tracked_example =
    Restored.new_with_dependencies-tracked ports (manager-Contract lru-Contract) 0 config tt [] tt
      full.store full.store [] no_ids (Persistence.list full.store.0) no_ids-IsValid refl refl
