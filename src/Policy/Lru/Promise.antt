-- ===== src/Policy/Lru/Promise.antt =====
-- internal/policy/lru.go keeps the contract of internal/policy/policy.go.
use llm_cache.Common.{arith, get_last?-none, str_key}
use llm_cache.Common.Dict.{contains, contains-remove, keys-Once, get_last?-contains}
use llm_cache.Policy.GoList
use llm_cache.Policy.GoList.{view}
use llm_cache.Policy.Interface.{Contract}
use llm_cache.Policy.Lru
use llm_cache.Policy.Lru.{LruPolicy, lru}
use llm_cache.Policy.Lru.Refines
use llm_cache.Policy.Lru.Refines.{IsValid, tracked}

-- LRU tracks each id once; a hit changes no membership, an insert adds its id, a delete takes its
-- id away, a flush forgets all; the victim is tracked, and is missing only when nothing is.
pub lru-Contract : Contract lru IsValid tracked
unfolding lru Lru.victim GoList.back contains
lru-Contract = record {
  once = λ s v. keys-Once (view s.order) v.tidy.values;
  hit_valid = Refines.on_hit-IsValid;
  insert_valid = Refines.on_insert-IsValid;
  delete_valid = Refines.on_delete-IsValid;
  flush_valid = λ s v. Refines.flush-IsValid s;
  tracked_hit =
      λ id q s v. ground (arith, Refines.tracked-on_hit id s v, contains-remove id q (tracked s));
  tracked_insert = λ id q s v.
      ground (arith, Refines.tracked-on_insert id s v, contains-remove id q (tracked s));
  tracked_delete = λ id q s v.
      ground (arith, Refines.tracked-on_delete id s v, contains-remove id q (tracked s));
  tracked_flush = λ s v. Refines.tracked-flush s;
  victim_tracked = λ s q v e. get_last?-contains q (tracked s) e;
  victim_none = λ s v e. get_last?-none (tracked s) e;
}
