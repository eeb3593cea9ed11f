-- ===== src/Policy/Lru.antt =====
-- internal/policy/lru.go. The mutex serialises the methods, so each is a function of the state.
pub mod Refines
pub mod Recency
pub mod Promise
use llm_cache.Common.{ℕ, [], Option, none, some, Str, str_key, codes}
use llm_cache.Common.Dict.{Dict, lookup, insert, erase}
use llm_cache.Policy.GoList.{
  GoList, new_list, push_front, move_to_front, remove_element, init_list, back,
}
use llm_cache.Policy.Interface.{EvictionPolicy}

pub record LruPolicy : Type 0 where
  pub order : GoList
  pub items : Dict Str ℕ

unfoldable pub new_lru_policy : LruPolicy
unfolding new_list
new_lru_policy = record { order = new_list; items = [] }

unfoldable pub on_hit : Str → LruPolicy → LruPolicy
on_hit id p = elim (lookup id p.items) [
  | none ↦ p
  | some element ↦ record p { order = move_to_front element p.order }
]

unfoldable pub on_insert : Str → LruPolicy → LruPolicy
on_insert id p = elim (lookup id p.items) [
  | some element ↦ record p { order = move_to_front element p.order }
  | none ↦
      let (order, element) = push_front id p.order in
      record p { order = order; items = insert id element p.items }
]

unfoldable pub on_delete : Str → LruPolicy → LruPolicy
on_delete id p = elim (lookup id p.items) [
  | none ↦ p
  | some element ↦ record p { order = remove_element element p.order; items = erase id p.items }
]

-- The value of the last element; an element always holds a string.
unfoldable pub victim : LruPolicy → Option Str
unfolding back
victim p = back p.order

unfoldable pub flush : LruPolicy → LruPolicy
unfolding init_list
flush p = record p { order = init_list p.order; items = [] }

unfoldable pub lru : EvictionPolicy LruPolicy
unfolding on_hit on_insert on_delete victim flush
lru = record {
  name = λ _. codes "lru";
  on_hit = on_hit;
  on_insert = on_insert;
  on_delete = on_delete;
  victim = victim;
  flush = flush;
}
