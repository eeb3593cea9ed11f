-- ===== src/Manifest/Declarations/Named.antt =====
-- internal/plugins/manifest/manifest.go: the names of the secrets that pass the checks.
use llm_cache.Common.{
  ℕ, ◌+◌, ◌≡◌, refl, inl, inr, List, [], ◌∷◌, ◌++◌, true, false, Str, str_key, Str-discrete, codes,
  arith, map, All, append-empty, Bool-cases,
}
use llm_cache.Common.Dict.{contains, Once}
use llm_cache.Manifest.Document.{string}
use llm_cache.Manifest.Patterns.{env_re}
use llm_cache.Manifest.Schema.{SecretRef}
use llm_cache.Manifest.Fields.{issue_if, issue_with}
use llm_cache.Manifest.Declarations.{
  check_secret_names, check_secret_name, reserved_env, secret_path,
}
use llm_cache.Manifest.Fields.Silent.{issue_with-none}

-- A name for the environment, which is not the platform's own, nor one seen before.
abbrev pub IsFree : List Str → SecretRef → Type 0
IsFree seen s =
    (env_re s.name ≡ true) × (contains s.name reserved_env ≡ false) × (contains s.name seen ≡ false)

duplicate :
    (i : ℕ) (name : Str) (seen : List Str)
    → issue_with
        (contains name seen)
        (secret_path i ++ codes ".name")
        (codes "duplicate secret %s")
        (string name ∷ [])
      ≡ []
    → contains name seen ≡ false
duplicate i name seen e = issue_with-none (contains name seen) _ _ _ e

check_secret_name-IsFree :
    (i : ℕ) (s : SecretRef) (seen : List Str) → check_secret_name i s.name seen ≡ [] → IsFree seen s
unfolding check_secret_name
check_secret_name-IsFree i s seen e = elim (Bool-cases (env_re s.name)) [
  | inr other ↦ absurd (unfold issue_if in ground arith)
  | inl fits ↦ elim (Bool-cases (contains s.name reserved_env)) [
    | inl taken ↦ absurd (unfold issue_with in ground arith)
    | inr free ↦ (fits, free, duplicate i s.name seen (ground arith))
  ]
]

IsFree-cons :
    (n : Str) (seen : List Str) (ss : List SecretRef)
    → All (IsFree (n ∷ seen)) ss
    → All (IsFree seen) ss × (contains n (map (λ s. s.name) ss) ≡ false)
unfolding contains
IsFree-cons n seen [] h = (tt, refl)
IsFree-cons n seen (s ∷ ss) ((fits, free, new), rest) =
    let (all, fresh) = IsFree-cons n seen ss rest in
    elim (Str-discrete n s.name) [
      | yes same ↦ absurd (ground arith)
      | no other ↦ (((fits, free, ground arith), all), ground arith)
    ]

pub secrets-IsFree :
    (i : ℕ) (secrets : List SecretRef) (seen : List Str)
    → check_secret_names i secrets seen ≡ []
    → All (IsFree seen) secrets × Once (map (λ s. s.name) secrets)
unfolding check_secret_names
secrets-IsFree i [] seen e = (tt, tt)
secrets-IsFree i (s ∷ ss) seen e =
    let (here, later) =
      (append-empty (check_secret_name i s.name seen)
          (check_secret_names (i + 1) ss (s.name ∷ seen))).0
        e in
    let (rest, once) = secrets-IsFree (i + 1) ss (s.name ∷ seen) later in
    let (all, fresh) = IsFree-cons s.name seen ss rest in
    ((check_secret_name-IsFree i s seen here, all), (fresh, once))
