-- ===== src/Policy/GoList.antt =====
-- Go's container/list as policy/lru.go and policy/fifo.go use it: elements carry an identity, here
-- a number, that survives moves, and the operations on an element that is not in the list do
-- nothing.
use llm_cache.Common.{
  ℕ, ◌+◌, ◌<◌, ◌≡◌, refl, ap, List, [], ◌∷◌, ◌++◌, Option, head?, get_last?, none, some, Str,
  str_key, arith, All,
}
use llm_cache.Common.Dict.{
  Key, Dict, lookup, erase, keys, Distinct, erase_absent, erase-Distinct, lookup-erase_self,
  append_last-Distinct,
}
use native.Mathlib.Decide.{ℕ_discrete}

instance abbrev pub nat_key : Key ℕ
nat_key = record { dec = ℕ_discrete }

pub record GoList : Type 0 where
  pub elems : Dict ℕ Str
  pub fresh : ℕ

unfoldable pub new_list : GoList
new_list = record { elems = []; fresh = 0 }

-- `l.PushFront(v)` and `l.PushBack(v)`, with the new element.
unfoldable pub push_front : Str → GoList → GoList × ℕ
push_front v l = (record l { elems = (l.fresh, v) ∷ l.elems; fresh = l.fresh + 1 }, l.fresh)

unfoldable pub push_back : Str → GoList → GoList × ℕ
push_back v l = (record l { elems = l.elems ++ (l.fresh, v) ∷ []; fresh = l.fresh + 1 }, l.fresh)

unfoldable pub move_to_front : ℕ → GoList → GoList
move_to_front el l = elim (lookup el l.elems) [
  | none ↦ l
  | some v ↦ record l { elems = (el, v) ∷ erase el l.elems }
]

unfoldable pub remove_element : ℕ → GoList → GoList
remove_element el l = record l { elems = erase el l.elems }

-- `l.Init()`: the elements that were in the list stay foreign to it.
unfoldable pub init_list : GoList → GoList
init_list l = record l { elems = [] }

-- The list seen from the values: which element holds a value.
abbrev pub flip : Dict ℕ Str → Dict Str ℕ
flip [] = []
flip ((el, v) ∷ m) = (v, el) ∷ flip m

-- Elements and values stand once, and new elements are new.
pub record IsTidy (l : GoList) : Type 0 where
  pub below : All (λ p. p.0 < l.fresh) l.elems
  pub elements : Distinct l.elems
  pub values : Distinct (flip l.elems)

pub lookup-flip :
    (v : Str) (el : ℕ) (m : Dict ℕ Str)
    → Distinct m
    → lookup v (flip m) ≡ some el
    → lookup el m ≡ some v
unfolding lookup
lookup-flip v el [] d h = cc
lookup-flip v el ((i, w) ∷ m) d h = ground (arith, lookup-flip v el m d.1)

pub flip-erase :
    (v : Str) (el : ℕ) (m : Dict ℕ Str)
    → Distinct m
    → Distinct (flip m)
    → lookup v (flip m) ≡ some el
    → flip (erase el m) ≡ erase v (flip m)
unfolding lookup erase
flip-erase v el [] d f h = cc
flip-erase v el ((i, w) ∷ m) d f h = ground (
  arith,
  flip-erase v el m d.1 f.1,
  erase_absent el m,
  erase_absent v (flip m),
  lookup-flip v el m d.1,
)

below-lookup : (n : ℕ) (m : Dict ℕ Str) → All (λ p. p.0 < n) m → lookup n m ≡ none
unfolding lookup
below-lookup n [] h = refl
below-lookup n ((i, w) ∷ m) h = ground (arith, below-lookup n m h.1)

below-weaken : (n : ℕ) (m : Dict ℕ Str) → All (λ p. p.0 < n) m → All (λ p. p.0 < n + 1) m
below-weaken n [] h = h
below-weaken n ((i, w) ∷ m) h = (omega arith, below-weaken n m h.1)

below-erase : (n el : ℕ) (m : Dict ℕ Str) → All (λ p. p.0 < n) m → All (λ p. p.0 < n) (erase el m)
unfolding erase
below-erase n el [] h = h
below-erase n el ((i, w) ∷ m) h = ground (arith, below-erase n el m h.1)

below_of_lookup :
    (n el : ℕ) (v : Str) (m : Dict ℕ Str) → All (λ p. p.0 < n) m → lookup el m ≡ some v → el < n
unfolding lookup
below_of_lookup n el v [] h e = cc
below_of_lookup n el v ((i, w) ∷ m) h e = ground (arith, below_of_lookup n el v m h.1)

flip-append : (m n : Dict ℕ Str) → flip (m ++ n) ≡ flip m ++ flip n
flip-append [] n = refl
flip-append ((i, w) ∷ m) n = ap (◌∷◌ (w, i)) (flip-append m n)

below-append_last :
    (n : ℕ) (v : Str) (m : Dict ℕ Str)
    → All (λ p. p.0 < n) m
    → All (λ p. p.0 < n + 1) (m ++ (n, v) ∷ [])
below-append_last n v [] h = (omega arith, tt)
below-append_last n v ((i, w) ∷ m) h = (omega arith, below-append_last n v m h.1)

pub view-push_back :
    (v : Str) (l : GoList) → flip (push_back v l).0.elems ≡ flip l.elems ++ (v, l.fresh) ∷ []
unfolding push_back
view-push_back v l = flip-append l.elems ((l.fresh, v) ∷ [])

-- What each operation does to the values, and that it keeps the list tidy.
abbrev pub view : GoList → Dict Str ℕ
view l = flip l.elems

-- The values from the front to the back.
abbrev pub values : GoList → List Str
values l = keys (view l)

-- The values of `l.Front()` and `l.Back()`, which are nil for an empty list.
unfoldable pub front : GoList → Option Str
front l = head? (values l)

unfoldable pub back : GoList → Option Str
back l = get_last? (values l)

pub new_list-IsTidy : IsTidy new_list
unfolding new_list
new_list-IsTidy = record { below = tt; elements = tt; values = tt }

pub init_list-IsTidy : (l : GoList) → IsTidy (init_list l)
unfolding init_list
init_list-IsTidy l = record { below = tt; elements = tt; values = tt }

module _ (v : Str) (l : GoList) (t : IsTidy l) (new : lookup v (view l) ≡ none) where
  pub push_front-IsTidy : IsTidy (push_front v l).0
  unfolding push_front
  push_front-IsTidy = record {
    below = (omega arith, below-weaken l.fresh l.elems t.below);
    elements = (below-lookup l.fresh l.elems t.below, t.elements);
    values = (new, t.values);
  }

  pub push_back-IsTidy : IsTidy (push_back v l).0
  unfolding push_back
  push_back-IsTidy = record {
    below = below-append_last l.fresh v l.elems t.below;
    elements =
        append_last-Distinct l.fresh v l.elems (below-lookup l.fresh l.elems t.below) t.elements;
    values =
        rw (flip-append l.elems ((l.fresh, v) ∷ []))
          (append_last-Distinct v l.fresh (flip l.elems) new t.values);
  }

module _ (v : Str) (el : ℕ) (l : GoList) (t : IsTidy l) (held : lookup v (view l) ≡ some el) where
  pub view-remove_element : view (remove_element el l) ≡ erase v (view l)
  unfolding remove_element
  view-remove_element = flip-erase v el l.elems t.elements t.values held

  pub remove_element-IsTidy : IsTidy (remove_element el l)
  unfolding remove_element
  remove_element-IsTidy = record {
    below = below-erase l.fresh el l.elems t.below;
    elements = erase-Distinct el l.elems t.elements;
    values = rw view-remove_element (erase-Distinct v (view l) t.values);
  }

  pub view-move_to_front : view (move_to_front el l) ≡ (v, el) ∷ erase v (view l)
  unfolding move_to_front
  view-move_to_front =
      rw (lookup-flip v el l.elems t.elements held, move_to_front)
        (ap (◌∷◌ (v, el)) (flip-erase v el l.elems t.elements t.values held))

  pub move_to_front-IsTidy : IsTidy (move_to_front el l)
  unfolding move_to_front
  move_to_front-IsTidy =
      rw (lookup-flip v el l.elems t.elements held, move_to_front)
        (record {
          below = (
            below_of_lookup l.fresh el v l.elems t.below (lookup-flip v el l.elems t.elements held),
            below-erase l.fresh el l.elems t.below,
          );
          elements = (lookup-erase_self el l.elems, erase-Distinct el l.elems t.elements);
          values =
              rw (flip-erase v el l.elems t.elements t.values held)
                (lookup-erase_self v (view l), erase-Distinct v (view l) t.values);
        })
