-- ===== src/Common/Sorting.antt =====
-- Go's `sort.Slice` and `sort.Strings`: a list sorted by a test `less`. The order of elements that
-- the test does not tell apart is Go's choice; here they keep the order that they came in.
use mathlib.Core.Path.{◌≡◌, refl}
use mathlib.Core.Bool.{Bool, true, false}
use mathlib.Core.List.{List, [], ◌∷◌, Perm, map}
use llm_cache.Common.Dict.{Key, contains}
use mathlib.Core.List.Perm
use native.Mathlib.Omega.{arith}
use llm_cache.Common.Tests.{if◌then◌else◌, Bool-cases, ltb, ◌==◌}
use mathlib.Core.Logic.{inl, inr}
use llm_cache.Common.Lists.{All}
use llm_cache.Common.Text.{Str}

module _ {A : Type 0} (less : A → A → Bool) where
  unfoldable pub insert_sorted : A → List A → List A
  insert_sorted x [] = x ∷ []
  insert_sorted x (y ∷ ys) = if less x y then x ∷ y ∷ ys else y ∷ insert_sorted x ys

  unfoldable pub sort : List A → List A
  unfolding insert_sorted
  sort [] = []
  sort (x ∷ xs) = insert_sorted x (sort xs)

  insert_sorted-perm : (x : A) (xs : List A) → Perm (insert_sorted x xs) (x ∷ xs)
  unfolding insert_sorted
  insert_sorted-perm x [] = Perm.refl (x ∷ [])
  insert_sorted-perm x (y ∷ ys) = elim (Bool-cases (less x y)) [
    | inl first ↦ rw first (Perm.refl (x ∷ y ∷ ys))
    | inr later ↦ rw later (Perm.trans (Perm.cons y (insert_sorted-perm x ys)) (Perm.swap x y ys))
  ]

  pub sort-perm : (xs : List A) → Perm (sort xs) xs
  unfolding sort
  sort-perm [] = Perm.refl []
  sort-perm (x ∷ xs) = Perm.trans (insert_sorted-perm x (sort xs)) (Perm.cons x (sort-perm xs))

  All-insert_sorted :
      (P : A → Type 0) (x : A) (xs : List A) → P x → All P xs → All P (insert_sorted x xs)
  unfolding insert_sorted
  All-insert_sorted P x [] p h = (p, tt)
  All-insert_sorted P x (y ∷ ys) p h = elim (Bool-cases (less x y)) [
    | inl first ↦ rw first (p, h)
    | inr later ↦ rw later (h.0, All-insert_sorted P x ys p h.1)
  ]

  pub All-sort : (P : A → Type 0) (xs : List A) → All P xs → All P (sort xs)
  unfolding sort
  All-sort P [] h = h
  All-sort P (x ∷ xs) h = All-insert_sorted P x (sort xs) h.0 (All-sort P xs h.1)

  All-insert_sorted_inv :
      (P : A → Type 0) (x : A) (xs : List A) → All P (insert_sorted x xs) → P x × All P xs
  unfolding insert_sorted
  All-insert_sorted_inv P x [] h = h
  All-insert_sorted_inv P x (y ∷ ys) h = elim (Bool-cases (less x y)) [
    | inl first ↦ let (p, q) : P x × All P (y ∷ ys) = rw first at h in (p, q)
    | inr later ↦
        let (p, q) : P y × All P (insert_sorted x ys) = rw later at h in
        let (r, t) = All-insert_sorted_inv P x ys q in (r, (p, t))
  ]

  -- What holds of the elements of the sorted list holds of those of the list.
  pub All-sort_inv : (P : A → Type 0) (xs : List A) → All P (sort xs) → All P xs
  unfolding sort
  All-sort_inv P [] h = h
  All-sort_inv P (x ∷ xs) h =
      let (p, q) = All-insert_sorted_inv P x (sort xs) h in (p, All-sort_inv P xs q)

-- `a < b` on strings: the order of their bytes.
unfoldable pub str_less : Str → Str → Bool
str_less xs [] = false
str_less [] (y ∷ ys) = true
str_less (x ∷ xs) (y ∷ ys) =
    let rest = str_less xs ys in if ltb x y then true else if x == y then rest else false

module _ {A K : Type 0} ⦃e : Key K⦄ (less : A → A → Bool) (f : A → K) where
  contains-insert_sorted :
      (k : K) (x : A) (xs : List A)
      → contains k (map f (insert_sorted less x xs)) ≡ contains k (f x ∷ map f xs)
  unfolding insert_sorted contains
  contains-insert_sorted k x [] = refl
  contains-insert_sorted k x (y ∷ ys) = ground (arith, contains-insert_sorted k x ys)

  -- Sorting changes no membership.
  pub contains-map-sort :
      (k : K) (xs : List A) → contains k (map f (sort less xs)) ≡ contains k (map f xs)
  unfolding sort contains
  contains-map-sort k [] = refl
  contains-map-sort k (x ∷ xs) =
      ground (arith, contains-insert_sorted k x (sort less xs), contains-map-sort k xs)
