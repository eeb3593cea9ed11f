-- ===== src/Policy/Fifo.antt =====
-- internal/policy/fifo.go
pub mod Refines
pub mod Arrival
pub mod Promise
use llm_cache.Common.{ℕ, [], Option, none, some, Str, str_key, codes}
use llm_cache.Common.Dict.{Dict, lookup, insert, erase}
use llm_cache.Policy.GoList.{GoList, new_list, push_back, remove_element, init_list, front}
use llm_cache.Policy.Interface.{EvictionPolicy}

pub record FifoPolicy : Type 0 where
  pub order : GoList
  pub items : Dict Str ℕ

-- What the registered factory builds.
unfoldable pub new_fifo_policy : FifoPolicy
unfolding new_list
new_fifo_policy = record { order = new_list; items = [] }

-- An access does not change the order.
unfoldable pub on_hit : Str → FifoPolicy → FifoPolicy
on_hit id p = p

unfoldable pub on_insert : Str → FifoPolicy → FifoPolicy
on_insert id p = elim (lookup id p.items) [
  | some _ ↦ p
  | none ↦
      let (order, item) = push_back id p.order in
      record p { order = order; items = insert id item p.items }
]

unfoldable pub on_delete : Str → FifoPolicy → FifoPolicy
on_delete id p = elim (lookup id p.items) [
  | none ↦ p
  | some item ↦ record p { order = remove_element item p.order; items = erase id p.items }
]

-- It selects, and does not remove.
unfoldable pub victim : FifoPolicy → Option Str
unfolding front
victim p = front p.order

unfoldable pub flush : FifoPolicy → FifoPolicy
unfolding init_list
flush p = record p { order = init_list p.order; items = [] }

unfoldable pub fifo : EvictionPolicy FifoPolicy
unfolding on_hit on_insert on_delete victim flush
fifo = record {
  name = λ _. codes "fifo";
  on_hit = on_hit;
  on_insert = on_insert;
  on_delete = on_delete;
  victim = victim;
  flush = flush;
}
