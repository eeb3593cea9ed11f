-- ===== src/Policy/Fifo/Refines.antt =====
-- internal/policy/fifo.go: the linked list and the map agree, and the methods act on the list of
-- ids, the first admitted first.
use llm_cache.Common.{
  ◌≡◌, refl, List, [], ◌∷◌, ◌++◌, none, some, true, false, Str, str_key, arith, Option-cases, inl,
  inr, if◌then◌else◌,
}
use llm_cache.Common.Dict.{
  lookup, contains, remove, contains-keys, keys-erase, lookup-insert, lookup-erase, remove_absent,
  lookup-append_last, keys-append_last,
}
use llm_cache.Policy.GoList
use llm_cache.Policy.GoList.{IsTidy, view, values}
use llm_cache.Policy.Fifo.{FifoPolicy, new_fifo_policy, on_insert, on_delete, flush}

pub record IsValid (p : FifoPolicy) : Type 0 where
  pub tidy : IsTidy p.order
  pub linked : (id : Str) → lookup id p.items ≡ lookup id (view p.order)

-- The ids from the first to the last admitted.
abbrev pub tracked : FifoPolicy → List Str
tracked p = values p.order

pub new_fifo_policy-IsValid : IsValid new_fifo_policy
unfolding new_fifo_policy lookup
new_fifo_policy-IsValid = record { tidy = GoList.new_list-IsTidy; linked = λ id. refl }

pub tracked-new_fifo_policy : tracked new_fifo_policy ≡ []
unfolding new_fifo_policy
tracked-new_fifo_policy = refl

-- Whether an id is tracked is what the map says.
contains-tracked :
    (id : Str) (p : FifoPolicy)
    → IsValid p
    → contains id (tracked p) ≡ (elim (lookup id p.items) [ none ↦ false | some _ ↦ true ])
contains-tracked id p v = ground (arith, contains-keys id (view p.order), v.linked id)

module _ (id : Str) (p : FifoPolicy) (v : IsValid p) where
  pub tracked-on_insert :
      tracked (on_insert id p)
      ≡ (if contains id (tracked p) then tracked p else tracked p ++ id ∷ [])
  unfolding on_insert GoList.push_back
  tracked-on_insert = elim (Option-cases (lookup id p.items)) [
    | inl e ↦ ground (
      arith,
      contains-tracked id p v,
      GoList.view-push_back id p.order,
      keys-append_last id p.order.fresh (view p.order),
    )
    | inr (el, e) ↦ ground (arith, contains-tracked id p v)
  ]

  pub tracked-on_delete : tracked (on_delete id p) ≡ remove id (tracked p)
  unfolding on_delete
  tracked-on_delete = elim (Option-cases (lookup id p.items)) [
    | inl e ↦ ground (arith, contains-tracked id p v, remove_absent id (tracked p))
    | inr (el, e) ↦ ground (
      arith,
      v.linked id,
      GoList.view-remove_element id el p.order v.tidy,
      keys-erase id (view p.order),
    )
  ]

  pub on_insert-IsValid : IsValid (on_insert id p)
  unfolding on_insert GoList.push_back
  on_insert-IsValid = elim (Option-cases (lookup id p.items)) [
    | inl e ↦
        let new : lookup id (view p.order) ≡ none = rw (← v.linked id) e in
        rw (e, on_insert)
          (record {
            tidy = GoList.push_back-IsTidy id p.order v.tidy new;
            linked = λ q. ground (
              arith,
              v.linked q,
              GoList.view-push_back id p.order,
              lookup-insert id q p.order.fresh p.items,
              lookup-append_last id q p.order.fresh (view p.order) new,
            );
          })
    | inr (el, e) ↦ rw (e, on_insert) v
  ]

  pub on_delete-IsValid : IsValid (on_delete id p)
  unfolding on_delete
  on_delete-IsValid = elim (Option-cases (lookup id p.items)) [
    | inl e ↦ rw (e, on_delete) v
    | inr (el, e) ↦
        let held : lookup id (view p.order) ≡ some el = rw (← v.linked id) e in
        rw (e, on_delete)
          (record {
            tidy = GoList.remove_element-IsTidy id el p.order v.tidy held;
            linked = λ q. rw (GoList.view-remove_element id el p.order v.tidy held) (
                ground
                  (arith, v.linked q, lookup-erase id q p.items, lookup-erase id q (view p.order)));
          })
  ]

pub flush-IsValid : (p : FifoPolicy) → IsValid (flush p)
unfolding flush GoList.init_list
flush-IsValid p = record { tidy = GoList.init_list-IsTidy p.order; linked = λ q. refl }

pub tracked-flush : (p : FifoPolicy) → tracked (flush p) ≡ []
unfolding flush GoList.init_list
tracked-flush p = refl
