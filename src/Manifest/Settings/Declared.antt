-- ===== src/Manifest/Settings/Declared.antt =====
-- internal/plugins/manifest/manifest.go: what `CheckSecrets` lets through.
use llm_cache.Common.{
  ◌≡◌, ◌↔◌, ◌≢◌, refl, ap, ◌∙◌, inl, inr, List, [], ◌∷◌, ◌++◌, none, true, Str, str_key, arith,
  Bool-cases, All, append-empty, map,
}
use llm_cache.Common.Dict.{contains}
use llm_cache.Common.Sorting.{sort, insert_sorted, str_less}
use llm_cache.Manifest.Schema.{SecretRef}
use llm_cache.Manifest.Settings.{undeclared, missing, nil_if_empty, check_secrets}

abbrev name_of : SecretRef → Str
name_of s = s.name

undeclared-empty :
    (secrets : List SecretRef) (names : List Str)
    → (undeclared secrets names ≡ []) ↔ All (λ n. contains n (map name_of secrets) ≡ true) names
unfolding undeclared
undeclared-empty secrets [] = (λ e. tt, λ h. refl)
undeclared-empty secrets (n ∷ ns) = elim (Bool-cases (contains n (map name_of secrets))) [
  | inl known ↦ (
    λ e. (known, (undeclared-empty secrets ns).0 (ground arith)),
    λ h. ground (arith, (undeclared-empty secrets ns).1 h.1),
  )
  | inr unknown ↦ (λ e. absurd (ground arith), λ h. absurd (ground arith))
]

-- A required secret has a value.
abbrev pub IsSupplied : List Str → SecretRef → Type 0
IsSupplied names s = s.required ≡ true → contains s.name names ≡ true

missing-empty :
    (secrets : List SecretRef) (names : List Str)
    → (missing secrets names ≡ []) ↔ All (IsSupplied names) secrets
unfolding missing
missing-empty [] names = (λ e. tt, λ h. refl)
missing-empty (s ∷ ss) names =
    let ih = missing-empty ss names in
    elim (Bool-cases s.required) [
      | inr optional ↦
          (λ e. (λ r. absurd (ground arith), ih.0 (ground arith)), λ h. ground (arith, ih.1 h.1))
      | inl required ↦ elim (Bool-cases (contains s.name names)) [
        | inl given ↦ (λ e. (λ r. given, ih.0 (ground arith)), λ h. ground (arith, ih.1 h.1))
        | inr absent ↦ (λ e. absurd (ground arith), λ h. absurd (ground (arith, h.0 required)))
      ]
    ]

insert_sorted-full : (x : Str) (xs : List Str) → insert_sorted str_less x xs ≢ []
unfolding insert_sorted
insert_sorted-full x [] e = cc
insert_sorted-full x (y ∷ ys) e = elim (Bool-cases (str_less x y)) [
  | inl first ↦ ground arith
  | inr later ↦ ground arith
]

sort-empty : (xs : List Str) → sort str_less xs ≡ [] → xs ≡ []
unfolding sort
sort-empty [] e = refl
sort-empty (x ∷ xs) e = absurd (insert_sorted-full x (sort str_less xs) e)

nil_if_empty-none : (l : List Str) → (nil_if_empty l ≡ none) ↔ (l ≡ [])
unfolding nil_if_empty
nil_if_empty-none [] = (λ e. refl, λ h. refl)
nil_if_empty-none (p ∷ ps) = (λ e. cc, λ h. cc)

check_secrets-empty :
    (secrets : List SecretRef) (names : List Str)
    → (check_secrets secrets names ≡ none)
      ↔ (undeclared secrets names ++ missing secrets names ≡ [])
unfolding check_secrets
check_secrets-empty secrets names =
    let problems : List Str = undeclared secrets names ++ missing secrets names in
    let report = nil_if_empty-none (sort str_less problems) in
    (
      λ e. sort-empty problems (report.0 e),
      λ h. report.1 (ap (sort str_less) h ∙ unfold sort in refl),
    )

-- The secrets that are supplied pass exactly when every name is that of a secret that the manifest
-- declares, and every secret that it requires is among the names.
pub check_secrets-IsSupplied :
    (secrets : List SecretRef) (names : List Str)
    → (check_secrets secrets names ≡ none) ↔ (
        All (λ n. contains n (map (λ s. s.name) secrets) ≡ true) names
        × All (IsSupplied names) secrets)
check_secrets-IsSupplied secrets names =
    let whole = check_secrets-empty secrets names in
    let parts = append-empty (undeclared secrets names) (missing secrets names) in
    let declared = undeclared-empty secrets names in
    let supplied = missing-empty secrets names in
    (
      λ e. let (a, b) = parts.0 (whole.0 e) in (declared.0 a, supplied.0 b),
      λ h. whole.1 (parts.1 (declared.1 h.0, supplied.1 h.1)),
    )
