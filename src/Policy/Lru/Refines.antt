-- ===== src/Policy/Lru/Refines.antt =====
-- internal/policy/lru.go: the linked list and the map agree, and the methods act on the list of
-- ids, the most recently used first.
use llm_cache.Common.{
  ℕ, ◌≡◌, refl, sym, ◌∙◌, List, [], ◌∷◌, none, some, true, false, Str, str_key, arith, Option-cases,
  inl, inr, if◌then◌else◌,
}
use llm_cache.Common.Dict.{
  lookup, contains, remove, contains-keys, keys-erase, lookup-insert, lookup-erase, lookup-moved,
  lookup-cons, remove_absent,
}
use llm_cache.Policy.GoList
use llm_cache.Policy.GoList.{IsTidy, view, values}
use llm_cache.Policy.Lru.{LruPolicy, new_lru_policy, on_hit, on_insert, on_delete, flush}

pub record IsValid (p : LruPolicy) : Type 0 where
  pub tidy : IsTidy p.order
  pub linked : (id : Str) → lookup id p.items ≡ lookup id (view p.order)

-- The ids from the most to the least recently used.
abbrev pub tracked : LruPolicy → List Str
tracked p = values p.order

abbrev pub touch : Str → List Str → List Str
touch id ids = id ∷ remove id ids

pub new_lru_policy-IsValid : IsValid new_lru_policy
unfolding new_lru_policy lookup
new_lru_policy-IsValid = record { tidy = GoList.new_list-IsTidy; linked = λ id. refl }

pub tracked-new_lru_policy : tracked new_lru_policy ≡ []
unfolding new_lru_policy
tracked-new_lru_policy = refl

-- Whether an id is tracked is what the map says.
pub contains-tracked :
    (id : Str) (p : LruPolicy)
    → IsValid p
    → contains id (tracked p) ≡ (elim (lookup id p.items) [ none ↦ false | some _ ↦ true ])
contains-tracked id p v = ground (arith, contains-keys id (view p.order), v.linked id)

module _ (id : Str) (p : LruPolicy) (v : IsValid p) where
  pub tracked-on_hit :
      tracked (on_hit id p) ≡ (if contains id (tracked p) then touch id (tracked p) else tracked p)
  unfolding on_hit
  tracked-on_hit = elim (Option-cases (lookup id p.items)) [
    | inl e ↦ ground (arith, contains-tracked id p v)
    | inr (el, e) ↦ ground (
      arith,
      contains-tracked id p v,
      v.linked id,
      GoList.view-move_to_front id el p.order v.tidy,
      keys-erase id (view p.order),
    )
  ]

  pub tracked-on_insert : tracked (on_insert id p) ≡ touch id (tracked p)
  unfolding on_insert GoList.push_front
  tracked-on_insert = elim (Option-cases (lookup id p.items)) [
    | inl e ↦ ground (arith, contains-tracked id p v, remove_absent id (tracked p))
    | inr (el, e) ↦ ground (
      arith,
      v.linked id,
      GoList.view-move_to_front id el p.order v.tidy,
      keys-erase id (view p.order),
    )
  ]

  pub tracked-on_delete : tracked (on_delete id p) ≡ remove id (tracked p)
  unfolding on_delete
  tracked-on_delete = elim (Option-cases (lookup id p.items)) [
    | inl e ↦ ground (arith, contains-tracked id p v, remove_absent id (tracked p))
    | inr (el, e) ↦ ground (
      arith,
      v.linked id,
      GoList.view-remove_element id el p.order v.tidy,
      keys-erase id (view p.order),
    )
  ]

  moved-IsValid :
      (el : ℕ)
      → lookup id p.items ≡ some el
      → IsValid (record p { order = GoList.move_to_front el p.order })
  moved-IsValid el e =
      let held : lookup id (view p.order) ≡ some el = rw (← v.linked id) e in
      record {
        tidy = GoList.move_to_front-IsTidy id el p.order v.tidy held;
        linked = λ q.
            rw (GoList.view-move_to_front id el p.order v.tidy held)
              (v.linked q ∙ sym (lookup-moved id q el (view p.order) held));
      }

  pub on_hit-IsValid : IsValid (on_hit id p)
  unfolding on_hit
  on_hit-IsValid = elim (Option-cases (lookup id p.items)) [
    | inl e ↦ rw (e, on_hit) v
    | inr (el, e) ↦ rw (e, on_hit) (moved-IsValid el e)
  ]

  pub on_insert-IsValid : IsValid (on_insert id p)
  unfolding on_insert GoList.push_front
  on_insert-IsValid = elim (Option-cases (lookup id p.items)) [
    | inl e ↦
        rw (e, on_insert)
          (record {
            tidy = GoList.push_front-IsTidy id p.order v.tidy (rw (← v.linked id) e);
            linked = λ q. ground (
              arith,
              v.linked q,
              lookup-insert id q p.order.fresh p.items,
              lookup-cons id q p.order.fresh (view p.order),
            );
          })
    | inr (el, e) ↦ rw (e, on_insert) (moved-IsValid el e)
  ]

  pub on_delete-IsValid : IsValid (on_delete id p)
  unfolding on_delete
  on_delete-IsValid = elim (Option-cases (lookup id p.items)) [
    | inl e ↦ rw (e, on_delete) v
    | inr (el, e) ↦
        let held : lookup id (view p.order) ≡ some el = rw (← v.linked id) e in
        rw (e, on_delete)
          (record {
            tidy = GoList.remove_element-IsTidy id el p.order v.tidy held;
            linked = λ q. rw (GoList.view-remove_element id el p.order v.tidy held) (
                ground
                  (arith, v.linked q, lookup-erase id q p.items, lookup-erase id q (view p.order)));
          })
  ]

pub flush-IsValid : (p : LruPolicy) → IsValid (flush p)
unfolding flush GoList.init_list
flush-IsValid p = record { tidy = GoList.init_list-IsTidy p.order; linked = λ q. refl }

pub tracked-flush : (p : LruPolicy) → tracked (flush p) ≡ []
unfolding flush GoList.init_list
tracked-flush p = refl
