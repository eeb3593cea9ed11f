-- ===== src/Manifest/Paths/Inside.antt =====
-- internal/plugins/manifest/manifest.go: where a path that `checkRelPath` lets through can lead.
use llm_cache.Common.{
  ℕ, ◌≡◌, ◌≢◌, refl, sym, inl, inr, List, [], ◌∷◌, ◌++◌, none, some, false, Str, Str-discrete,
  codes, ite, ◌==◌, arith, reverse, All, Bool-cases, Option-cases,
}
use mathlib.Core.List.{reverse-cons, append_assoc, append-nil}
use llm_cache.Orchestrator.Guard.{cut_prefix, before}
use llm_cache.Orchestrator.Startup.{contains_str}
use llm_cache.Manifest.Patterns.{split}
use llm_cache.Manifest.Paths.{
  has_prefix, clean_elements, join, clean, rel_path_problem, check_rel_path,
}

abbrev up : Str
up = codes ".."

-- The elements without the empty ones and without ".".
unfoldable pub plain : List Str → List Str
plain [] = []
plain (e ∷ es) =
    ite (Str-discrete e []) (plain es) (ite (Str-discrete e (codes ".")) (plain es) (e ∷ plain es))

cut_prefix-before :
    (c : ℕ) (q s r : Str)
    → cut_prefix q (before c s) ≡ some r
    → (t : Str) × (cut_prefix q s ≡ some t)
unfolding cut_prefix before
cut_prefix-before c [] s r e = (s, refl)
cut_prefix-before c (a ∷ q) [] r e = absurd (cc e)
cut_prefix-before c (a ∷ q) (d ∷ s) r e = elim (Bool-cases (d == c)) [
  | inl stop ↦ absurd (ground arith)
  | inr on ↦ elim (Bool-cases (a == d)) [
    | inl same ↦ let (t, found) = cut_prefix-before c q s r (ground arith) in (t, ground arith)
    | inr other ↦ absurd (ground arith)
  ]
]

split-before : (c : ℕ) (s : Str) → (ss : List Str) × (split c s ≡ before c s ∷ ss)
unfolding split before
split-before c [] = ([], refl)
split-before c (d ∷ s) = elim (Bool-cases (d == c)) [
  | inl stop ↦ (split c s, ground arith)
  | inr on ↦ let (ss, e) = split-before c s in (ss, ground arith)
]

contains_str-tail :
    (q : Str) (d : ℕ) (s : Str)
    → contains_str q (d ∷ s) ≡ false
    → (cut_prefix q (d ∷ s) ≡ none) × (contains_str q s ≡ false)
unfolding contains_str
contains_str-tail q d s h = elim (Option-cases (cut_prefix q (d ∷ s))) [
  | inl absent ↦ (absent, ground arith)
  | inr (t, found) ↦ absurd (ground arith)
]

first-not_up :
    (c d : ℕ) (s : Str) → cut_prefix up (d ∷ s) ≡ none → (d == c) ≡ false → d ∷ before c s ≢ up
first-not_up c d s absent on same =
    let whole : before c (d ∷ s) ≡ up = unfold before in ground arith in
    let (t, found) = cut_prefix-before c up (d ∷ s) [] (rw whole (unfold cut_prefix in refl)) in
    ground arith

not_up : (c : ℕ) (s : Str) → contains_str up s ≡ false → All (λ e. e ≢ up) (split c s)
unfolding split
not_up c [] h = (λ e. cc, tt)
not_up c (d ∷ s) h =
    let (absent, later) = contains_str-tail up d s h in
    let ih = not_up c s later in
    let (ss, e) = split-before c s in
    elim (Bool-cases (d == c)) [
      | inl stop ↦ rw stop (λ x. cc, ih)
      | inr on ↦
          let (first, rest) : (before c s ≢ up) × All (λ e. e ≢ up) ss = rw e at ih in
          rw (on, e) (first-not_up c d s absent on, rest)
    ]

reverse-clean_elements :
    (kept es : List Str)
    → All (λ e. e ≢ up) es
    → reverse (clean_elements false kept es) ≡ reverse kept ++ plain es
unfolding clean_elements plain
reverse-clean_elements kept [] h = sym (append-nil (reverse kept))
reverse-clean_elements kept (e ∷ es) (here, later) = elim (Str-discrete e []) [
  | yes blank ↦ ground (arith, reverse-clean_elements kept es later)
  | no full ↦ elim (Str-discrete e (codes ".")) [
    | yes dot ↦ ground (arith, reverse-clean_elements kept es later)
    | no named ↦ elim (Str-discrete e up) [
      | yes climbs ↦ absurd (here climbs)
      | no stays ↦
          let walked : clean_elements false kept (e ∷ es) ≡ clean_elements false (e ∷ kept) es =
            ground arith in
          let listed : plain (e ∷ es) ≡ e ∷ plain es = ground arith in
          rw (walked, listed, reverse-clean_elements (e ∷ kept) es later, reverse-cons e kept)
            (append_assoc (reverse kept) (e ∷ []) (plain es))
    ]
  ]
]

problem-passed :
    (p : Str)
    → rel_path_problem p ≡ none
    → (p ≢ []) × (has_prefix (codes "/") p ≡ false) × (contains_str up p ≡ false)
unfolding rel_path_problem
problem-passed p h = elim (Str-discrete p []) [
  | yes blank ↦ absurd (ground arith)
  | no some_path ↦ (some_path, ground arith, ground arith)
]

-- A path that `check_rel_path` has no objection to is not empty and does not start at the root, none
-- of its elements is "..", and cleaning it only drops its empty elements and its ".": it stays below
-- the directory that it starts from.
pub check_rel_path-clean :
    (at p : Str)
    → check_rel_path at p ≡ []
    → (p ≢ [])
      × (has_prefix (codes "/") p ≡ false)
      × All (λ e. e ≢ codes "..") (split 47 p)
      × (clean p
          ≡ ite
              (Str-discrete (join (plain (split 47 p))) [])
              (codes ".")
              (join (plain (split 47 p))))
unfolding check_rel_path clean
check_rel_path-clean at p h = elim (Option-cases (rel_path_problem p)) [
  | inr (why, bad) ↦ absurd (ground arith)
  | inl fine ↦
      let (some_path, relative, dots) = problem-passed p fine in
      let below = not_up 47 p dots in
      (some_path, relative, below, rw (relative, reverse-clean_elements [] (split 47 p) below) refl)
]
