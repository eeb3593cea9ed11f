-- ===== src/Common/Dict/Members.antt =====
-- Lists without repetitions, and the keys of a map as one.
use Prim.Native.Nat.{◌+◌, ◌≤◌, ◌<◌}
use mathlib.Core.Path.{◌≡◌, refl, sym, ◌∙◌, ap}
use mathlib.Core.Logic.{◌↔◌, ite}
use mathlib.Core.Bool.{Bool, true, false}
use mathlib.Core.Option.{none, some}
use mathlib.Core.List.{List, [], ◌∷◌, ◌++◌}
use native.Mathlib.Omega.{arith}
use llm_cache.Common.Lists.{length, head?, get_last?}
use llm_cache.Common.Dict.Maps.{Key, Dict, keys, lookup, erase, Distinct, has}

module _ {K : Type 0} ⦃e : Key K⦄ where
  abbrev pub key_eq : K → K → Bool
  key_eq j k = ite (e.dec j k) true false

  unfoldable pub contains : K → List K → Bool
  contains k [] = false
  contains k (j ∷ ks) = ite (e.dec j k) true (contains k ks)

  unfoldable pub remove : K → List K → List K
  remove k [] = []
  remove k (j ∷ ks) = ite (e.dec j k) (remove k ks) (j ∷ remove k ks)

  -- No element stands twice.
  abbrev pub Once : List K → Type 0
  Once [] = Unit
  Once (k ∷ ks) = (contains k ks ≡ false) × Once ks

  pub contains-remove :
      (k j : K) (ks : List K) → contains j (remove k ks) ≡ ite (e.dec k j) false (contains j ks)
  unfolding contains remove
  contains-remove k j [] = ground arith
  contains-remove k j (i ∷ ks) = ground (arith, contains-remove k j ks)

  pub remove_absent : (k : K) (ks : List K) → contains k ks ≡ false → remove k ks ≡ ks
  unfolding contains remove
  remove_absent k [] h = refl
  remove_absent k (j ∷ ks) h = ground (arith, remove_absent k ks)

  pub remove-Once : (k : K) (ks : List K) → Once ks → Once (remove k ks)
  unfolding contains remove
  remove-Once k [] h = h
  remove-Once k (j ∷ ks) h = ground (arith, contains-remove k j ks, remove-Once k ks h.1)

  pub length-remove :
      (k : K) (ks : List K) → Once ks → contains k ks ≡ true → length (remove k ks) + 1 ≡ length ks
  unfolding contains remove
  length-remove k [] o h = cc
  length-remove k (j ∷ ks) o h = ground (arith, length-remove k ks o.1, remove_absent k ks)

module _ {K V : Type 0} ⦃e : Key K⦄ where
  pub contains-keys : (k : K) (m : Dict K V) → contains k (keys m) ≡ has k m
  unfolding contains lookup
  contains-keys k [] = refl
  contains-keys k ((i, w) ∷ m) = ground (arith, contains-keys k m)

  pub keys-erase : (k : K) (m : Dict K V) → keys (erase k m) ≡ remove k (keys m)
  unfolding remove erase
  keys-erase k [] = refl
  keys-erase k ((i, w) ∷ m) = ground (arith, keys-erase k m)

  pub keys-Once : (m : Dict K V) → Distinct m → Once (keys m)
  keys-Once [] d = d
  keys-Once ((i, w) ∷ m) d = (ground (arith, contains-keys i m), keys-Once m d.1)

  -- A map without keys answers no lookup, and only such a map.
  pub keys-empty_iff : (m : Dict K V) → (keys m ≡ []) ↔ ((k : K) → lookup k m ≡ none)
  unfolding lookup
  keys-empty_iff [] = (λ h k. refl, λ h. refl)
  keys-empty_iff ((k, v) ∷ m) = (λ h. absurd (cc), λ h. absurd (ground (arith, h k)))

module _ {K : Type 0} ⦃e : Key K⦄ where
  pub get_last?-contains : (k : K) (ks : List K) → get_last? ks ≡ some k → contains k ks ≡ true
  unfolding contains
  get_last?-contains k [] h = cc
  get_last?-contains k (j ∷ []) h = ground arith
  get_last?-contains k (j ∷ i ∷ ks) h = ground (arith, get_last?-contains k (i ∷ ks) h)

  pub head?-contains : (k : K) (ks : List K) → head? ks ≡ some k → contains k ks ≡ true
  unfolding contains
  head?-contains k [] h = cc
  head?-contains k (j ∷ ks) h = ground arith

  pub contains-append_last :
      (k q : K) (ks : List K) → contains q (ks ++ k ∷ []) ≡ ite (e.dec k q) true (contains q ks)
  unfolding contains
  contains-append_last k q [] = refl
  contains-append_last k q (j ∷ ks) = ground (arith, contains-append_last k q ks)

module _ {K V : Type 0} ⦃e : Key K⦄ where
  pub lookup-append_last :
      (k j : K) (v : V) (m : Dict K V)
      → lookup k m ≡ none
      → lookup j (m ++ (k, v) ∷ []) ≡ ite (e.dec k j) (some v) (lookup j m)
  unfolding lookup
  lookup-append_last k j v [] h = refl
  lookup-append_last k j v ((i, w) ∷ m) h = ground (arith, lookup-append_last k j v m)

  pub append_last-Distinct :
      (k : K) (v : V) (m : Dict K V) → lookup k m ≡ none → Distinct m → Distinct (m ++ (k, v) ∷ [])
  unfolding lookup
  append_last-Distinct k v [] h d = (refl, tt)
  append_last-Distinct k v ((i, w) ∷ m) h d =
      ground (arith, lookup-append_last k i v m, append_last-Distinct k v m)

  pub keys-append_last : (k : K) (v : V) (m : Dict K V) → keys (m ++ (k, v) ∷ []) ≡ keys m ++ k ∷ []
  keys-append_last k v [] = refl
  keys-append_last k v ((i, w) ∷ m) = ap (◌∷◌ i) (keys-append_last k v m)

module _ {K : Type 0} ⦃e : Key K⦄ where
  length-remove-le : (k : K) (ks : List K) → length (remove k ks) ≤ length ks
  unfolding remove
  length-remove-le k [] = omega arith
  length-remove-le k (j ∷ ks) = ground (arith, length-remove-le k ks)

  length-remove-lt : (k : K) (ks : List K) → contains k ks ≡ true → length (remove k ks) < length ks
  unfolding contains remove
  length-remove-lt k [] h = cc
  length-remove-lt k (j ∷ ks) h = ground (arith, length-remove-lt k ks, length-remove-le k ks)

  -- A list that repeats nothing and stays within another is no longer than it.
  pub length-le_of_contains :
      (ks js : List K)
      → Once ks
      → ((q : K) → contains q ks ≡ true → contains q js ≡ true)
      → length ks ≤ length js
  unfolding contains
  length-le_of_contains [] js o h = omega arith
  length-le_of_contains (k ∷ ks) js o h =
      let here : contains k js ≡ true = h k (ground arith) in
      let rest =
        length-le_of_contains ks (remove k js) o.1
          (λ q m. ground (arith, h q, contains-remove k q js)) in
      omega (arith, length-remove-lt k js here, rest)

  -- Two lists that repeat nothing and hold the same have one length.
  pub length-eq_of_contains :
      (ks js : List K)
      → Once ks
      → Once js
      → ((q : K) → contains q ks ≡ contains q js)
      → length ks ≡ length js
  length-eq_of_contains ks js o p h = omega (
    arith,
    length-le_of_contains ks js o (λ q m. sym (h q) ∙ m),
    length-le_of_contains js ks p (λ q m. h q ∙ m),
  )

  -- One key more makes a list longer by one at most.
  pub length-le_of_insert :
      (k : K) (ks js : List K)
      → Once ks
      → ((q : K) → contains q ks ≡ ite (e.dec k q) true (contains q js))
      → length ks ≤ length js + 1
  unfolding contains
  length-le_of_insert k ks js o h =
      omega (arith, length-le_of_contains ks (k ∷ js) o (λ q m. sym (h q) ∙ m))
