-- ===== src/Policy/Fifo/Promise.antt =====
-- internal/policy/fifo.go keeps the contract of internal/policy/policy.go.
use llm_cache.Common.{arith, head?-none, str_key}
use llm_cache.Common.Dict.{contains-remove, contains-append_last, keys-Once, head?-contains}
use llm_cache.Policy.GoList.{view}
use llm_cache.Policy.Interface.{Contract}
use llm_cache.Policy.Fifo
use llm_cache.Policy.Fifo.{fifo}
use llm_cache.Policy.Fifo.Refines
use llm_cache.Policy.Fifo.Refines.{IsValid, tracked}

-- FIFO tracks each id once; a hit changes nothing, an insert adds its id, a delete takes its id
-- away, a flush forgets all; the victim is tracked, and is missing only when nothing is.
pub fifo-Contract : Contract fifo IsValid tracked
unfolding fifo Fifo.victim Fifo.on_hit
fifo-Contract = record {
  once = λ s v. keys-Once (view s.order) v.tidy.values;
  hit_valid = λ id s v. v;
  insert_valid = Refines.on_insert-IsValid;
  delete_valid = Refines.on_delete-IsValid;
  flush_valid = λ s v. Refines.flush-IsValid s;
  tracked_hit = λ id q s v. ground arith;
  tracked_insert = λ id q s v.
      ground (arith, Refines.tracked-on_insert id s v, contains-append_last id q (tracked s));
  tracked_delete = λ id q s v.
      ground (arith, Refines.tracked-on_delete id s v, contains-remove id q (tracked s));
  tracked_flush = λ s v. Refines.tracked-flush s;
  victim_tracked = λ s q v e. head?-contains q (tracked s) e;
  victim_none = λ s v e. head?-none (tracked s) e;
}
