-- ===== src/Common/Ends.antt =====
-- The ends of lists: Go's `l[len(l)-n:]`.
use Prim.Native.Nat.{ℕ, zero, suc, ◌-◌, ◌≤◌}
use mathlib.Core.Path.{◌≡◌, refl, sym, ◌∙◌, ap}
use mathlib.Core.List.{List, [], ◌∷◌, ◌++◌, reverse, reverse-cons, reverse-append}
use native.Mathlib.Omega.{arith}
use llm_cache.Common.Lists.{length, take, drop, length-append, length-drop}
use llm_cache.Common.Tests.{ltb, if◌then◌else◌, Bool-cases}
use mathlib.Core.Logic.{inl, inr}

module _ {A : Type 0} where
  -- The last `n` elements, or all of a list that is no longer than that.
  unfoldable pub last_of : ℕ → List A → List A
  last_of n l = if ltb n (length l) then drop (length l - n) l else l

  take_all : (n : ℕ) (l : List A) → length l ≤ n → take n l ≡ l
  take_all zero [] h = refl
  take_all zero (x ∷ xs) h = absurd (omega arith)
  take_all (suc n) [] h = refl
  take_all (suc n) (x ∷ xs) h = ap (◌∷◌ x) (take_all n xs (omega arith))

  take-drop : (n : ℕ) (l : List A) → take n l ++ drop n l ≡ l
  take-drop zero l = refl
  take-drop (suc n) [] = refl
  take-drop (suc n) (x ∷ xs) = ap (◌∷◌ x) (take-drop n xs)

  drop-append : (xs ys : List A) → drop (length xs) (xs ++ ys) ≡ ys
  drop-append [] ys = refl
  drop-append (x ∷ xs) ys = drop-append xs ys

  pub length-reverse : (l : List A) → length (reverse l) ≡ length l
  length-reverse [] = refl
  length-reverse (x ∷ xs) =
      ap length (reverse-cons x xs)
      ∙ omega (arith, length-append (reverse xs) (x ∷ []), length-reverse xs)

  pub take-take : (m n : ℕ) (l : List A) → m ≤ n → take m (take n l) ≡ take m l
  take-take zero n l h = refl
  take-take (suc m) zero l h = absurd (omega arith)
  take-take (suc m) (suc n) [] h = refl
  take-take (suc m) (suc n) (x ∷ xs) h = ap (◌∷◌ x) (take-take m n xs (omega arith))

  drop-reverse : (n : ℕ) (l : List A) → drop (length l - n) (reverse l) ≡ reverse (take n l)
  drop-reverse n l =
      let a = reverse (drop n l) in
      let b = reverse (take n l) in
      let split : reverse l ≡ a ++ b =
        ap reverse (sym (take-drop n l)) ∙ reverse-append (take n l) (drop n l) in
      let count : length l - n ≡ length a =
        omega (arith, length-reverse (drop n l), length-drop n l) in
      ap (λ k. drop k (reverse l)) count ∙ ap (drop (length a)) split ∙ drop-append a b

  -- The last elements of a reversed list are the first of the list.
  pub last_of-reverse : (n : ℕ) (l : List A) → last_of n (reverse l) ≡ reverse (take n l)
  unfolding last_of
  last_of-reverse n l = elim (Bool-cases (ltb n (length (reverse l)))) [
    | inr short ↦
        rw (short, last_of) (ap reverse (sym (take_all n l (ground (arith, length-reverse l)))))
    | inl long ↦
        rw (long, last_of)
          (ap (λ k. drop (k - n) (reverse l)) (length-reverse l) ∙ drop-reverse n l)
  ]
