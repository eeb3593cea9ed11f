-- ===== src/Policy/Manager/Promise.antt =====
-- internal/policy/policy.go: the manager keeps the contract, whichever policy it holds.
use llm_cache.Common.{◌≡◌, List, [], none, some, true, false, Str, str_key, Str-discrete, ite}
use llm_cache.Common.Dict.{contains, Once}
use llm_cache.Policy.Interface.{Contract, EvictionPolicy}
use llm_cache.Policy.Fifo.{fifo}
use llm_cache.Policy.Fifo.Promise.{fifo-Contract}
use llm_cache.Policy.Fifo.Refines as FifoRefines
use llm_cache.Policy.Lfu.{lfu}
use llm_cache.Policy.Lfu.Promise as LfuPromise
use llm_cache.Policy.Lfu.Promise.{lfu-Contract}
use llm_cache.Policy.Lru.{lru}
use llm_cache.Policy.Lru.Promise.{lru-Contract}
use llm_cache.Policy.Lru.Refines as LruRefines
use llm_cache.Policy.Manager.{
  Active, is_lru, is_lfu, is_fifo, is_other, Manager, manager, act_hit, act_insert, act_delete,
  act_victim, act_flush, manager_on_hit, manager_on_insert, manager_on_delete, manager_victim,
  manager_flush,
}

module _ {X : Type 0} {other : EvictionPolicy X} {IsFit : X → Type 0} {listed : X → List Str}
    (promise : Contract other IsFit listed) where
  abbrev pub IsSound : Active X → Type 0
  IsSound (is_lru p) = LruRefines.IsValid p
  IsSound (is_lfu p) = LfuPromise.IsValid p
  IsSound (is_fifo p) = FifoRefines.IsValid p
  IsSound (is_other x) = IsFit x

  abbrev pub ids : Active X → List Str
  ids (is_lru p) = LruRefines.tracked p
  ids (is_lfu p) = LfuPromise.tracked p
  ids (is_fifo p) = FifoRefines.tracked p
  ids (is_other x) = listed x

  abbrev pub IsValid : Manager X → Type 0
  IsValid m = IsSound m.policy

  abbrev pub tracked : Manager X → List Str
  tracked m = ids m.policy

  once : (a : Active X) → IsSound a → Once (ids a)
  once (is_lru p) = Contract.once lru-Contract p
  once (is_lfu p) = Contract.once lfu-Contract p
  once (is_fifo p) = Contract.once fifo-Contract p
  once (is_other x) = Contract.once promise x

  hit_valid : (id : Str) (a : Active X) → IsSound a → IsSound (act_hit other id a)
  unfolding act_hit lru lfu fifo
  hit_valid id (is_lru p) = Contract.hit_valid lru-Contract id p
  hit_valid id (is_lfu p) = Contract.hit_valid lfu-Contract id p
  hit_valid id (is_fifo p) = Contract.hit_valid fifo-Contract id p
  hit_valid id (is_other x) = Contract.hit_valid promise id x

  insert_valid : (id : Str) (a : Active X) → IsSound a → IsSound (act_insert other id a)
  unfolding act_insert lru lfu fifo
  insert_valid id (is_lru p) = Contract.insert_valid lru-Contract id p
  insert_valid id (is_lfu p) = Contract.insert_valid lfu-Contract id p
  insert_valid id (is_fifo p) = Contract.insert_valid fifo-Contract id p
  insert_valid id (is_other x) = Contract.insert_valid promise id x

  delete_valid : (id : Str) (a : Active X) → IsSound a → IsSound (act_delete other id a)
  unfolding act_delete lru lfu fifo
  delete_valid id (is_lru p) = Contract.delete_valid lru-Contract id p
  delete_valid id (is_lfu p) = Contract.delete_valid lfu-Contract id p
  delete_valid id (is_fifo p) = Contract.delete_valid fifo-Contract id p
  delete_valid id (is_other x) = Contract.delete_valid promise id x

  flush_valid : (a : Active X) → IsSound a → IsSound (act_flush other a)
  unfolding act_flush lru lfu fifo
  flush_valid (is_lru p) = Contract.flush_valid lru-Contract p
  flush_valid (is_lfu p) = Contract.flush_valid lfu-Contract p
  flush_valid (is_fifo p) = Contract.flush_valid fifo-Contract p
  flush_valid (is_other x) = Contract.flush_valid promise x

  tracked_hit :
      (id q : Str) (a : Active X)
      → IsSound a
      → contains q (ids (act_hit other id a)) ≡ contains q (ids a)
  unfolding act_hit lru lfu fifo
  tracked_hit id q (is_lru p) = Contract.tracked_hit lru-Contract id q p
  tracked_hit id q (is_lfu p) = Contract.tracked_hit lfu-Contract id q p
  tracked_hit id q (is_fifo p) = Contract.tracked_hit fifo-Contract id q p
  tracked_hit id q (is_other x) = Contract.tracked_hit promise id q x

  tracked_insert :
      (id q : Str) (a : Active X)
      → IsSound a
      → contains q (ids (act_insert other id a)) ≡ ite (Str-discrete id q) true (contains q (ids a))
  unfolding act_insert lru lfu fifo
  tracked_insert id q (is_lru p) = Contract.tracked_insert lru-Contract id q p
  tracked_insert id q (is_lfu p) = Contract.tracked_insert lfu-Contract id q p
  tracked_insert id q (is_fifo p) = Contract.tracked_insert fifo-Contract id q p
  tracked_insert id q (is_other x) = Contract.tracked_insert promise id q x

  tracked_delete :
      (id q : Str) (a : Active X)
      → IsSound a
      → contains q (ids (act_delete other id a))
        ≡ ite (Str-discrete id q) false (contains q (ids a))
  unfolding act_delete lru lfu fifo
  tracked_delete id q (is_lru p) = Contract.tracked_delete lru-Contract id q p
  tracked_delete id q (is_lfu p) = Contract.tracked_delete lfu-Contract id q p
  tracked_delete id q (is_fifo p) = Contract.tracked_delete fifo-Contract id q p
  tracked_delete id q (is_other x) = Contract.tracked_delete promise id q x

  tracked_flush : (a : Active X) → IsSound a → ids (act_flush other a) ≡ []
  unfolding act_flush lru lfu fifo
  tracked_flush (is_lru p) = Contract.tracked_flush lru-Contract p
  tracked_flush (is_lfu p) = Contract.tracked_flush lfu-Contract p
  tracked_flush (is_fifo p) = Contract.tracked_flush fifo-Contract p
  tracked_flush (is_other x) = Contract.tracked_flush promise x

  victim_none : (a : Active X) → IsSound a → act_victim other a ≡ none → ids a ≡ []
  unfolding act_victim lru lfu fifo
  victim_none (is_lru p) = Contract.victim_none lru-Contract p
  victim_none (is_lfu p) = Contract.victim_none lfu-Contract p
  victim_none (is_fifo p) = Contract.victim_none fifo-Contract p
  victim_none (is_other x) = Contract.victim_none promise x

  victim_tracked :
      (a : Active X) (v : Str) → IsSound a → act_victim other a ≡ some v → contains v (ids a) ≡ true
  unfolding act_victim lru lfu fifo
  victim_tracked (is_lru p) v = Contract.victim_tracked lru-Contract p v
  victim_tracked (is_lfu p) v = Contract.victim_tracked lfu-Contract p v
  victim_tracked (is_fifo p) v = Contract.victim_tracked fifo-Contract p v
  victim_tracked (is_other x) v = Contract.victim_tracked promise x v

  -- Whichever policy the manager holds, one of the package or any other that itself keeps the promise, its
  -- calls keep the promise of an eviction policy: each id is
  -- tracked once; a hit changes no membership, an insert adds its id, a delete takes its id away, a
  -- flush forgets all; the victim is tracked, and is missing only when nothing is.
  pub manager-Contract : Contract (manager other) IsValid tracked
  unfolding manager manager_on_hit manager_on_insert manager_on_delete manager_victim manager_flush
  manager-Contract = record {
    once = λ m. once m.policy;
    hit_valid = λ id m. hit_valid id m.policy;
    insert_valid = λ id m. insert_valid id m.policy;
    delete_valid = λ id m. delete_valid id m.policy;
    flush_valid = λ m. flush_valid m.policy;
    tracked_hit = λ id q m. tracked_hit id q m.policy;
    tracked_insert = λ id q m. tracked_insert id q m.policy;
    tracked_delete = λ id q m. tracked_delete id q m.policy;
    tracked_flush = λ m. tracked_flush m.policy;
    victim_tracked = λ m v. victim_tracked m.policy v;
    victim_none = λ m. victim_none m.policy;
  }
