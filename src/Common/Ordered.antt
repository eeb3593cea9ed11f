-- ===== src/Common/Ordered.antt =====
-- A map whose keys are put into order, as Go code does before it walks over them.
use mathlib.Core.Path.{◌≡◌, refl, ◌∙◌}
use mathlib.Core.Bool.{Bool}
use mathlib.Core.Logic.{inl, inr}
use mathlib.Core.Option.{none}
use mathlib.Core.List.{[], ◌∷◌}
use native.Mathlib.Omega.{arith}
use llm_cache.Common.Dict.{Dict, lookup, Distinct}
use llm_cache.Common.Sorting.{sort, insert_sorted}
use llm_cache.Common.Tests.{Bool-cases}
use llm_cache.Common.Text.{Str, str_key, Str-discrete}

module _ {V : Type 0} (less : Str × V → Str × V → Bool) where
  lookup-insert_sorted :
      (k n : Str) (v : V) (m : Dict Str V)
      → lookup k m ≡ none
      → lookup n (insert_sorted less (k, v) m) ≡ lookup n ((k, v) ∷ m)
  unfolding insert_sorted lookup
  lookup-insert_sorted k n v [] fresh = refl
  lookup-insert_sorted k n v ((j, w) ∷ m) fresh = elim (Bool-cases (less (k, v) (j, w))) [
    | inl first ↦ rw first refl
    | inr later ↦ elim (Str-discrete j k) [
      | yes same ↦ absurd (ground arith)
      | no other ↦
          let rest : lookup k m ≡ none = ground arith in
          let ih = lookup-insert_sorted k n v m rest in rw (later, ih) (ground arith)
    ]
  ]

  -- A map whose keys are put into order is the same map.
  pub lookup-sort : (m : Dict Str V) (n : Str) → Distinct m → lookup n (sort less m) ≡ lookup n m
  unfolding sort lookup
  lookup-sort [] n d = refl
  lookup-sort ((k, v) ∷ m) n (fresh, d) =
      let still : lookup k (sort less m) ≡ none = lookup-sort m k d ∙ fresh in
      lookup-insert_sorted k n v (sort less m) still ∙ rw (lookup-sort m n d) refl

  fresh_below :
      (k j : Str) (w : V) (m : Dict Str V)
      → lookup k ((j, w) ∷ m) ≡ none
      → (lookup k m ≡ none) × ((v : V) → lookup j m ≡ none → lookup j ((k, v) ∷ m) ≡ none)
  unfolding lookup
  fresh_below k j w m fresh = elim (Str-discrete j k) [
    | yes same ↦ absurd (ground arith)
    | no other ↦ (ground arith, λ v h. ground arith)
  ]

  insert_sorted-Distinct :
      (k : Str) (v : V) (m : Dict Str V)
      → lookup k m ≡ none
      → Distinct m
      → Distinct (insert_sorted less (k, v) m)
  unfolding insert_sorted
  insert_sorted-Distinct k v [] fresh d = (fresh, d)
  insert_sorted-Distinct k v ((j, w) ∷ m) fresh d = elim (Bool-cases (less (k, v) (j, w))) [
    | inl first ↦ rw first (fresh, d)
    | inr later ↦
        let (rest, apart) = fresh_below k j w m fresh in
        rw later
          (lookup-insert_sorted k j v m rest ∙ apart v d.0, insert_sorted-Distinct k v m rest d.1)
  ]

  pub sort-Distinct : (m : Dict Str V) → Distinct m → Distinct (sort less m)
  unfolding sort
  sort-Distinct [] d = d
  sort-Distinct ((k, v) ∷ m) (fresh, d) =
      insert_sorted-Distinct k v (sort less m) (lookup-sort m k d ∙ fresh) (sort-Distinct m d)
