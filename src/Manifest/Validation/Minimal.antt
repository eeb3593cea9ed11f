-- ===== src/Manifest/Validation/Minimal.antt =====
-- internal/plugins/manifest/manifest.go: the manifest of a hosted endpoint.
use llm_cache.Common.{
  ◌≡◌, refl, List, [], ◌∷◌, none, some, true, Str, Str-discrete, codes, concat, All, if◌then◌else◌,
}
use llm_cache.Common.Dict.{contains}
use llm_cache.Orchestrator.Guard.{cut_prefix}
use llm_cache.Common.Int.{pos}
use llm_cache.Plugins
use llm_cache.Plugins.{PluginType, parse_type, text, find_type, all_types}
use llm_cache.Plugins.Types.{parse_type_self}
use llm_cache.Manifest.Patterns
use llm_cache.Manifest.Patterns.{name_re, semver_re}
use llm_cache.Manifest.Quantities.{Numbers}
use llm_cache.Manifest.Schema.{minimal, apply_defaults, is_llm, llm_properties}
use llm_cache.Manifest.Settings.{coerce_value}
use llm_cache.Manifest.Fields.{
  issue_if, issue_with, check_metadata, check_header, check_mode, check_port, check_python,
  health_path_ok, check_health,
}
use llm_cache.Manifest.Declarations.{
  check_default, check_property, check_properties, check_config, check_secret_refs,
}
use llm_cache.Manifest.Validation.{
  check_resources, check_network, strings, check_credentials, parts, validate,
}

empty-concat : {A : Type 0} (ls : List (List A)) → All (λ l. l ≡ []) ls → concat ls ≡ []
empty-concat [] h = refl
empty-concat (l ∷ ls) (here, later) = rw (here, empty-concat ls later) refl

header-minimal :
    (name version : Str) (t : PluginType)
    → name_re name ≡ true
    → semver_re version ≡ true
    → check_header (minimal name version t) ≡ []
unfolding check_header check_metadata minimal issue_if issue_with apply_defaults Str-discrete
header-minimal name version t n v = rw (n, v, parse_type_self t) refl

module _ (nums : Numbers) (five : nums.parse_duration (codes "5s") ≡ some (pos 5_000_000_000))
    (sixty : nums.parse_duration (codes "60s") ≡ some (pos 60_000_000_000)) where
  health-minimal :
      (name version : Str) (t : PluginType)
      → check_health nums (minimal name version t).spec.health ≡ []
  unfolding check_health minimal issue_if apply_defaults health_path_ok Str-discrete cut_prefix
  health-minimal name version t = rw five refl

  config-minimal :
      (t : PluginType) → check_config nums (if is_llm t then llm_properties else []) ≡ []
  unfolding check_config issue_if issue_with check_property Str-discrete check_properties
      check_default coerce_value Patterns.identifier Patterns.secret_name_hint cut_prefix contains
  config-minimal Plugins.llm = rw sixty refl
  config-minimal t = refl

  rest-minimal :
      (name version : Str) (t : PluginType)
      → All
          (λ l. l ≡ [])
          (check_mode (text t) (minimal name version t).spec.runtime
            ∷ check_port (minimal name version t).spec.runtime
            ∷ check_python (minimal name version t).spec.runtime.mode none
            ∷ check_secret_refs []
            ∷ check_resources nums (minimal name version t).spec.resources
            ∷ check_network (minimal name version t).spec
            ∷ [])
  unfolding check_mode check_port check_python check_secret_refs check_resources check_network
      minimal issue_if issue_with Str-discrete
  rest-minimal name version t = (refl, (refl, (refl, (refl, (refl, (refl, tt))))))

  credentials-minimal :
      (name version : Str) (t : PluginType)
      → check_credentials (strings (minimal name version t)) ≡ []
  unfolding check_credentials strings minimal issue_if Patterns.any_found Patterns.secret_patterns
      cut_prefix
  credentials-minimal name version Plugins.llm = refl
  credentials-minimal name version t = refl

  parts-minimal :
      (name version : Str) (t : PluginType)
      → name_re name ≡ true
      → semver_re version ≡ true
      → All (λ l. l ≡ []) (parts nums (minimal name version t))
  unfolding parts minimal
  parts-minimal name version t n v =
      let (mode, (port, (python, (secrets, (resources, (network, _)))))) =
        rest-minimal name version t in
      (
        header-minimal name version t n v,
        (
          mode,
          (
            port,
            (
              python,
              (
                health-minimal name version t,
                (
                  config-minimal t,
                  (secrets, (resources, (network, (credentials-minimal name version t, tt)))),
                ),
              ),
            ),
          ),
        ),
      )

  -- The manifest that is made for a hosted endpoint without a plugin.yaml passes the validation,
  -- whatever its type, if its name and its version have the right form; "5s" and "60s" are durations
  -- of 5 and 60 seconds.
  pub validate-minimal :
      (name version : Str) (t : PluginType)
      → name_re name ≡ true
      → semver_re version ≡ true
      → validate nums (minimal name version t) ≡ []
  unfolding validate
  validate-minimal name version t n v =
      empty-concat (parts nums (minimal name version t)) (parts-minimal name version t n v)
