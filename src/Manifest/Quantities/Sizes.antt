-- ===== src/Manifest/Quantities/Sizes.antt =====
-- internal/plugins/manifest/manifest.go: what `ParseBytes` makes of a number with a unit.
use llm_cache.Common.{
  ℕ, zero, suc, ◌+◌, ◌*◌, ◌%◌, ◌/◌, ◌^◌, ◌≤◌, ◌<◌, ◌≡◌, ◌≢◌, refl, sym, ap, ◌∙◌, inl, inr, List, [],
  ◌∷◌, ◌++◌, none, some, Bool, true, false, ◌&&◌, Str, codes, ltb, arith, reverse, All, Bool-cases,
  Option-cases, List-cases,
}
use mathlib.Core.List.{reverse-append, reverse-reverse, reverse-cons, append-nil}
use llm_cache.Common.Int.{pos}
use llm_cache.Common.Result.{ok}
use llm_cache.Common.Word.{word64}
use llm_cache.Orchestrator.Guard.{cut_prefix, trim_left, trim_space, is_space}
use llm_cache.Manifest.Document.{digits, decimal}
use llm_cache.Manifest.Patterns.{is_digit, all_in}
use llm_cache.Manifest.Quantities.{
  cut_suffix, value_of, unsigned, parse_int, units, find_unit, max_count, parse_bytes,
}

value_of-digits :
    (fuel n : ℕ) (s : Str) → n < 10 ^ fuel → value_of 0 (digits fuel n s) ≡ value_of n s
unfolding value_of digits
value_of-digits zero n s h = ground arith
value_of-digits (suc fuel) n s h = elim (Bool-cases (ltb n 10)) [
  | inl small ↦ ground arith
  | inr large ↦ ground (arith, value_of-digits fuel (n / 10) ((n % 10 + 48) ∷ s))
]

all_in-digits :
    (fuel n : ℕ) (s : Str) → all_in is_digit s ≡ true → all_in is_digit (digits fuel n s) ≡ true
unfolding all_in digits
all_in-digits zero n s h = h
all_in-digits (suc fuel) n s h = elim (Bool-cases (ltb n 10)) [
  | inl small ↦ ground arith
  | inr large ↦ rw large (all_in-digits fuel (n / 10) ((n % 10 + 48) ∷ s) (ground arith))
]

digits-full : (fuel n d : ℕ) (s : Str) → digits fuel n (d ∷ s) ≢ []
unfolding digits
digits-full zero n d s e = cc
digits-full (suc fuel) n d s e = elim (Bool-cases (ltb n 10)) [
  | inl small ↦ ground arith
  | inr large ↦ digits-full fuel (n / 10) (n % 10 + 48) (d ∷ s) (ground arith)
]

decimal-full : (n : ℕ) → decimal n ≢ []
unfolding decimal digits
decimal-full n e = elim (Bool-cases (ltb n 10)) [
  | inl small ↦ ground arith
  | inr large ↦ digits-full 19 (n / 10) (n % 10 + 48) [] (ground arith)
]

-- The loop over the units, reading the string from its end.
unfoldable find_back : Str → Str → List (Str × ℕ) → Str × ℕ
find_back x s [] = (s, 1)
find_back x s ((suffix, mult) ∷ us) =
    let rest = find_back x s us in
    elim (cut_prefix (reverse suffix) x) [ none ↦ rest | some r ↦ (reverse r, mult) ]

find_unit-back :
    (s x : Str) (us : List (Str × ℕ)) → reverse s ≡ x → find_unit s us ≡ find_back x s us
unfolding find_unit find_back cut_suffix
find_unit-back s x [] e = refl
find_unit-back s x ((suffix, mult) ∷ us) e = elim (Option-cases (cut_prefix (reverse suffix) x)) [
  | inl other ↦ ground (arith, find_unit-back s x us e)
  | inr (r, found) ↦ ground arith
]

found_unit : (ds : Str) → All (λ u. find_unit (ds ++ u.0) units ≡ (ds, u.1)) units
unfolding find_back cut_prefix
found_unit ds =
    let at : (suffix : Str)
        → find_unit (ds ++ suffix) units
          ≡ find_back (reverse suffix ++ reverse ds) (ds ++ suffix) units =
      λ suffix.
        find_unit-back (ds ++ suffix) (reverse suffix ++ reverse ds) units
          (reverse-append ds suffix) in
    let pair : (n : ℕ) → ◌≡◌ {A = Str × ℕ} (reverse (reverse ds), n) (ds, n) =
      λ n. ap (λ l. (l, n)) (reverse-reverse ds) in
    (
      at (codes "Ki") ∙ pair 1024,
      (
        at (codes "Mi") ∙ pair 1048576,
        (
          at (codes "Gi") ∙ pair 1073741824,
          (
            at (codes "K") ∙ pair 1000,
            (at (codes "M") ∙ pair 1000000, (at (codes "G") ∙ pair 1000000000, tt)),
          ),
        ),
      ),
    )

-- A string that ends in a digit has no unit.
found_none :
    (ds r : Str) (c : ℕ) → reverse ds ≡ c ∷ r → is_digit c ≡ true → find_unit ds units ≡ (ds, 1)
unfolding find_back cut_prefix
found_none ds r c e h = rw (find_unit-back ds (c ∷ r) units e) (ground arith)

all_in-append : (p : ℕ → Bool) (s t : Str) → all_in p (s ++ t) ≡ (all_in p s && all_in p t)
unfolding all_in
all_in-append p [] t = refl
all_in-append p (c ∷ s) t = ground (arith, all_in-append p s t)

all_in-reverse : (p : ℕ → Bool) (s : Str) → all_in p (reverse s) ≡ all_in p s
unfolding all_in
all_in-reverse p [] = refl
all_in-reverse p (c ∷ s) =
    ground (arith, reverse-cons c s, all_in-append p (reverse s) (c ∷ []), all_in-reverse p s)

-- A string without blanks at its ends.
trim_space-solid :
    (s t r : Str) (c d : ℕ)
    → s ≡ c ∷ t
    → is_space c ≡ false
    → reverse s ≡ d ∷ r
    → is_space d ≡ false
    → trim_space s ≡ s
unfolding trim_space trim_left
trim_space-solid s t r c d e h f g =
    let start : trim_left s ≡ s = rw (e, h) refl in
    let stop : trim_left (reverse s) ≡ reverse s = rw (f, g) refl in
    rw (start, stop) (reverse-reverse s)

-- What a string of digits with a unit is.
module _ (ds : Str) (digit : all_in is_digit ds ≡ true) (full : ds ≢ []) where
  ends :
      (c : ℕ) × (t : Str) × (d : ℕ) × (r : Str) × (ds ≡ c ∷ t)
      × (reverse ds ≡ d ∷ r)
      × (is_digit c ≡ true)
      × (is_digit d ≡ true)
  unfolding all_in
  ends = elim (List-cases ds) [
    | inl empty ↦ absurd (full empty)
    | inr (c, t, e) ↦ elim (List-cases (reverse ds)) [
      | inl empty ↦ absurd (full (sym (reverse-reverse ds) ∙ ap reverse empty))
      | inr (d, r, f) ↦ (c, t, d, r, e, f, ground arith, ground (arith, all_in-reverse is_digit ds))
    ]
  ]

  solid :
      (u x : Str) (k : ℕ) → reverse u ≡ k ∷ x → is_space k ≡ false → trim_space (ds ++ u) ≡ ds ++ u
  solid u x k e h =
      let (c, t, d, r, first, last, dc, dd) = ends in
      trim_space-solid (ds ++ u) (t ++ u) (x ++ reverse ds) c k (rw first refl) (ground arith)
        (rw (reverse-append ds u, e) refl) h

  bare : trim_space ds ≡ ds
  bare =
      let (c, t, d, r, first, last, dc, dd) = ends in
      trim_space-solid ds t r c d first (ground arith) last (ground arith)

  module _ (n : ℕ) (value : value_of 0 ds ≡ some n) (low : 1 ≤ n) (high : n ≤ max_count) where
    read : parse_int ds ≡ some (pos n)
    unfolding parse_int unsigned
    read =
        let (c, t, d, r, first, last, dc, dd) = ends in
        let value' : value_of 0 (c ∷ t) ≡ some n = rw first at value in rw first (ground arith)

    sized :
        (u : Str) (mult : ℕ)
        → trim_space (ds ++ u) ≡ ds ++ u
        → find_unit (ds ++ u) units ≡ (ds, mult)
        → parse_bytes (ds ++ u) ≡ ok ((n * mult) % word64)
    unfolding parse_bytes
    sized u mult trimmed found = ground (arith, trimmed, found, read)

    sizes : All (λ u. parse_bytes (ds ++ u.0) ≡ ok ((n * u.1) % word64)) (([], 1) ∷ units)
    sizes =
        let (c, t, d, r, first, last, dc, dd) = ends in
        let (ki, (mi, (gi, (k, (m, (g, _)))))) = found_unit ds in
        let none : find_unit (ds ++ []) units ≡ (ds, 1) =
          rw (append-nil ds) (found_none ds r d last dd) in
        (
          sized [] 1 (rw (append-nil ds) bare) none,
          (
            sized (codes "Ki") 1024 (solid (codes "Ki") (75 ∷ []) 105 refl refl) ki,
            (
              sized (codes "Mi") 1048576 (solid (codes "Mi") (77 ∷ []) 105 refl refl) mi,
              (
                sized (codes "Gi") 1073741824 (solid (codes "Gi") (71 ∷ []) 105 refl refl) gi,
                (
                  sized (codes "K") 1000 (solid (codes "K") [] 75 refl refl) k,
                  (
                    sized (codes "M") 1000000 (solid (codes "M") [] 77 refl refl) m,
                    (sized (codes "G") 1000000000 (solid (codes "G") [] 71 refl refl) g, tt),
                  ),
                ),
              ),
            ),
          ),
        )

-- A number from 1 to 2 ^ 40 in decimal digits, alone or with one of the six units behind it, parses
-- as its product with the unit, cut off to the 64 bits of an int64: it is the product itself as long
-- as that stays below 2 ^ 63, but no error is returned where it does not.
pub parse_bytes-decimal :
    (n : ℕ)
    → 1 ≤ n
    → n ≤ max_count
    → All (λ u. parse_bytes (decimal n ++ u.0) ≡ ok ((n * u.1) % word64)) (([], 1) ∷ units)
unfolding decimal
parse_bytes-decimal n low high =
    sizes (decimal n) (all_in-digits 20 n [] (unfold all_in in refl)) (decimal-full n) n
      (value_of-digits 20 n [] (omega arith) ∙ unfold value_of in refl) low high
