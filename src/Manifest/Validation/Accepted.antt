-- ===== src/Manifest/Validation/Accepted.antt =====
-- internal/plugins/manifest/manifest.go: what a manifest without issues is like.
use llm_cache.Common.{
  ◌≡◌, ◌⊎◌, inl, inr, List, [], ◌∷◌, true, false, not, ◌&&◌, Str, str_key, Str-discrete, codes,
  arith, map, All, append-empty, concat-empty, Bool-cases,
}
use llm_cache.Common.Dict.{contains, Once}
use llm_cache.Common.Int.{pos}
use llm_cache.Orchestrator.Guard.{eq_str}
use llm_cache.Plugins.{parse_type}
use llm_cache.Manifest.Patterns.{name_re, semver_re, env_re, secret_patterns, any_found}
use llm_cache.Manifest.Paths.{check_rel_path}
use llm_cache.Manifest.Quantities.{Numbers}
use llm_cache.Manifest.Schema.{
  Manifest, Metadata, Runtime, SecretRef, runtime_container, runtime_python, runtime_endpoint,
}
use llm_cache.Manifest.Fields.{
  issue_if, issue_with, between, check_metadata, check_header, check_mode, check_port,
  check_container, check_registry, known_python, known_other, builds,
}
use llm_cache.Manifest.Fields.Silent.{issue_if-none, issue_with-none}
use llm_cache.Manifest.Declarations.Named.{IsFree, secrets-IsFree}
use llm_cache.Manifest.Declarations.{check_secret_refs, check_secret_names, reserved_env}
use llm_cache.Manifest.Validation.{strings, check_credentials, parts, validate}

credentials-absent :
    (l : List (Str × Str))
    → check_credentials l ≡ []
    → All (λ e. any_found secret_patterns e.1 ≡ false) l
unfolding check_credentials
credentials-absent [] e = tt
credentials-absent ((path, value) ∷ ss) e =
    let (here, later) = (append-empty _ (check_credentials ss)).0 e in
    (issue_if-none (any_found secret_patterns value) _ _ here, credentials-absent ss later)

-- The runtime of a plugin: a container that is built inside the repository, a Python registry, or an
-- endpoint, which has nothing to build.
pub data Runs (type : Str) (rt : Runtime) : Type 0 where
  in_container :
      rt.mode ≡ runtime_container
      → known_python (parse_type type) ≡ false
      → check_rel_path (codes "spec.runtime.dockerfile") rt.dockerfile ≡ []
      → check_rel_path (codes "spec.runtime.context") rt.context ≡ []
      → Runs type rt
  in_python :
      rt.mode ≡ runtime_python
      → known_other (parse_type type) ≡ false
      → builds rt ≡ false
      → Runs type rt
  at_endpoint : rt.mode ≡ runtime_endpoint → builds rt ≡ false → Runs type rt

container_parts :
    (type : Str) (rt : Runtime)
    → check_container type rt ≡ []
    → (known_python (parse_type type) ≡ false)
      × (check_rel_path (codes "spec.runtime.dockerfile") rt.dockerfile ≡ [])
      × (check_rel_path (codes "spec.runtime.context") rt.context ≡ [])
unfolding check_container
container_parts type rt e =
    let (a, (b, (c, _))) = concat-empty (_ ∷ _ ∷ _ ∷ []) e in
    (issue_with-none (known_python (parse_type type)) _ _ _ a, b, c)

registry_parts :
    (type : Str) (rt : Runtime)
    → check_registry type rt ≡ []
    → (known_other (parse_type type) ≡ false) × (builds rt ≡ false)
unfolding check_registry
registry_parts type rt e =
    let (a, (b, _)) = concat-empty (_ ∷ _ ∷ []) e in
    (issue_with-none (known_other (parse_type type)) _ _ _ a, issue_if-none (builds rt) _ _ b)

check_mode-Runs : (type : Str) (rt : Runtime) → check_mode type rt ≡ [] → Runs type rt
unfolding check_mode
check_mode-Runs type rt e = elim (Str-discrete rt.mode runtime_container) [
  | yes mode ↦ container-runs mode (ground arith)
  | no other ↦ elim (Str-discrete rt.mode runtime_python) [
    | yes mode ↦ registry-runs mode (ground arith)
    | no another ↦ elim (Str-discrete rt.mode runtime_endpoint) [
      | yes mode ↦ at_endpoint mode (nothing_built (ground arith))
      | no unknown ↦ absurd (unfold issue_with in ground arith)
    ]
  ]
]
  where
    container-runs : rt.mode ≡ runtime_container → check_container type rt ≡ [] → Runs type rt
    container-runs mode h = let (a, b, c) = container_parts type rt h in in_container mode a b c

    registry-runs : rt.mode ≡ runtime_python → check_registry type rt ≡ [] → Runs type rt
    registry-runs mode h = let (a, b) = registry_parts type rt h in in_python mode a b

    nothing_built :
        issue_if (builds rt) (codes "spec.runtime") (codes "endpoint plugins have nothing to build")
          ≡ []
        → builds rt ≡ false
    nothing_built h = issue_if-none (builds rt) _ _ h

-- What `validate` promises about a manifest.
pub record Accepted (m : Manifest) : Type 0 where
  pub name : name_re m.metadata.name ≡ true
  pub version : semver_re m.metadata.version ≡ true
  pub runtime : Runs m.spec.type m.spec.runtime
  pub port :
      (m.spec.runtime.mode ≡ runtime_endpoint)
      ⊎ (between (pos 1024) (pos 65535) m.spec.runtime.port ≡ true)
  pub secrets :
      All (λ s. (env_re s.name ≡ true) × (contains s.name reserved_env ≡ false)) m.spec.secrets
  pub names_apart : Once (map (λ s. s.name) m.spec.secrets)
  pub no_credentials : All (λ e. any_found secret_patterns e.1 ≡ false) (strings m)

metadata_parts :
    (d : Metadata) → check_metadata d ≡ [] → (name_re d.name ≡ true) × (semver_re d.version ≡ true)
unfolding check_metadata
metadata_parts d e =
    let (n, (v, _)) = concat-empty (_ ∷ _ ∷ _ ∷ []) e in
    let name = issue_if-none (not (name_re d.name)) _ _ n in
    let version = issue_if-none (not (semver_re d.version)) _ _ v in (ground arith, ground arith)

named :
    (m : Manifest)
    → check_header m ≡ []
    → (name_re m.metadata.name ≡ true) × (semver_re m.metadata.version ≡ true)
unfolding check_header
named m e =
    let (_, (_, (d, _))) = concat-empty (_ ∷ _ ∷ check_metadata m.metadata ∷ _ ∷ _ ∷ []) e in
    metadata_parts m.metadata d

ported :
    (rt : Runtime)
    → check_port rt ≡ []
    → (rt.mode ≡ runtime_endpoint) ⊎ (between (pos 1024) (pos 65535) rt.port ≡ true)
unfolding check_port
ported rt e =
    let fine =
      issue_if-none
        (not (eq_str rt.mode runtime_endpoint) && not (between (pos 1024) (pos 65535) rt.port)) _ _
        e in
    elim (Str-discrete rt.mode runtime_endpoint) [
      | yes endpoint ↦ inl endpoint
      | no other ↦ elim (Bool-cases (between (pos 1024) (pos 65535) rt.port)) [
        | inl inside ↦ inr inside
        | inr outside ↦ absurd (ground arith)
      ]
    ]

secrets-checked :
    (secrets : List SecretRef)
    → check_secret_refs secrets ≡ []
    → All (IsFree []) secrets × Once (map (λ s. s.name) secrets)
unfolding check_secret_refs
secrets-checked secrets e =
    let (_, (h, _)) = concat-empty (_ ∷ check_secret_names 0 secrets [] ∷ []) e in
    secrets-IsFree 0 secrets [] h

All-IsFree :
    (ss : List SecretRef)
    → All (IsFree []) ss
    → All (λ s. (env_re s.name ≡ true) × (contains s.name reserved_env ≡ false)) ss
All-IsFree [] h = tt
All-IsFree (s ∷ ss) ((fits, free, new), rest) = ((fits, free), All-IsFree ss rest)

-- A manifest without issues has a name and a version of the right form; its runtime is a container of
-- a type that is no Python registry, whose Dockerfile and context pass `check_rel_path`, a Python
-- registry of such a type without build inputs, or an endpoint without any; its port is from 1024 to
-- 65535 unless it is an endpoint; its secrets have names for the environment, none of them one that
-- the platform reserves, and no two the same; and no free text in it looks like a credential.
pub validate-Accepted : (nums : Numbers) (m : Manifest) → validate nums m ≡ [] → Accepted m
unfolding validate parts
validate-Accepted nums m e =
    let (header, (mode, (port, (_, (_, (_, (secrets, (_, (_, (credentials, _)))))))))) =
      concat-empty (parts nums m) e in
    let (n, v) = named m header in
    let (free, once) = secrets-checked m.spec.secrets secrets in
    record {
      name = n;
      version = v;
      runtime = check_mode-Runs m.spec.type m.spec.runtime mode;
      port = ported m.spec.runtime port;
      secrets = All-IsFree m.spec.secrets free;
      names_apart = once;
      no_credentials = credentials-absent (strings m) credentials;
    }
