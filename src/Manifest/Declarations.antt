-- ===== src/Manifest/Declarations.antt =====
-- internal/plugins/manifest/manifest.go: the parts of `validate` on the properties and the secrets,
-- and `checkProperty`.
pub mod Named
use llm_cache.Common.{
  ℕ, ◌+◌, List, [], ◌∷◌, ◌++◌, concat, Option, none, some, Bool, true, false, not, ◌&&◌, ◌||◌, Str,
  str_key, Str-discrete, codes, ite, if◌then◌else◌, ltb, length, map,
}
use llm_cache.Common.Dict.{Dict, contains}
use llm_cache.Common.Float.{Float64, float_lt, float_zero}
use llm_cache.Common.Int.{ℤ, pos, negsuc, leb_ℤ}
use llm_cache.Common.Result.{Result, ok, err}
use llm_cache.Common.Word.{slt64}
use llm_cache.Orchestrator.Guard.{eq_str}
use llm_cache.Orchestrator.Startup.{contains_str}
use llm_cache.Plugins.{PluginType, parse_type}
use llm_cache.Plugins
use llm_cache.Manifest.Document.{
  Value, Text, Issue, plain, issue, decimal, null, string, number, integer,
}
use llm_cache.Manifest.Patterns.{
  name_re, semver_re, env_re, prop_re, py_mod_re, backend_re, secret_patterns, any_found,
  secret_name_hint,
}
use llm_cache.Manifest.Paths.{check_rel_path, has_prefix, any_in}
use llm_cache.Manifest.Quantities.{Numbers, parse_cpu, parse_bytes, float_four}
use llm_cache.Manifest.Schema.{
  Manifest, Metadata, Spec, Runtime, Python, Health, Property, SecretRef, Resources, api_version,
  plugin_kind, contract_version, runtime_container, runtime_python, runtime_endpoint, egress_none,
  egress_internet,
}
use llm_cache.Manifest.Fields.{issue_if, issue_with}
use llm_cache.Manifest.Settings.{coerce_value, is_null}

abbrev pub property_types : List Str
property_types =
    codes "string" ∷ codes "integer" ∷ codes "number" ∷ codes "boolean" ∷ codes "duration" ∷ []

abbrev pub is_empty : List Str → Bool
is_empty [] = true
is_empty (e ∷ es) = false

-- `checkProperty` behind the switch over the type.
unfoldable pub check_default : Numbers → Str → Property → List Issue
unfolding issue_if issue_with
check_default nums p prop =
    issue_if (not (eq_str prop.type (codes "enum")) && not (is_empty prop.enum)) p
      (codes "enum values are only valid for type enum")
    ++ (if is_null prop.default
        then []
        else issue_if prop.required p (codes "a required property cannot have a default")
          ++ elim (coerce_value nums prop prop.default) [
            | ok _ ↦ []
            | err e ↦ issue_with true p (codes "default: %v") (string e.format ∷ e.arguments)
          ])

unfoldable pub check_property : Numbers → Str → Property → List Issue
unfolding issue_if issue_with check_default
check_property nums p prop =
    if contains prop.type property_types
    then check_default nums p prop
    else if eq_str prop.type (codes "enum")
    then issue_if (is_empty prop.enum) p (codes "enum properties need a non-empty enum list")
      ++ check_default nums p prop
    else issue_with true p
        (codes "unsupported type %q (supported: string, integer, number, boolean, duration, enum)")
        (string prop.type ∷ [])

abbrev pub property_path : Str → Str
property_path name = codes "spec.config.properties." ++ name

-- The loop over the properties.
unfoldable pub check_properties : Numbers → Dict Str Property → List Issue
unfolding issue_if issue_with check_property
check_properties nums [] = []
check_properties nums ((name, prop) ∷ props) =
    issue_with (not (prop_re name)) (property_path name) (codes "property names must match %s")
      (string (codes "^[a-z][a-zA-Z0-9_]{0,63}$") ∷ [])
    ++ issue_if (secret_name_hint name) (property_path name)
        (codes "looks like a secret; declare it under spec.secrets so it is stored encrypted")
    ++ check_property nums (property_path name) prop
    ++ check_properties nums props

unfoldable pub check_config : Numbers → Dict Str Property → List Issue
unfolding issue_if check_properties
check_config nums props = concat (
    issue_if (ltb 64 (length props)) (codes "spec.config.properties")
      (codes "at most 64 properties")
    ∷ check_properties nums props
    ∷ [])

abbrev pub reserved_env : List Str
reserved_env =
    codes "PATH"
    ∷ codes "HOME"
    ∷ codes "USER"
    ∷ codes "PORT"
    ∷ codes "HOSTNAME"
    ∷ codes "LD_PRELOAD"
    ∷ codes "LD_LIBRARY_PATH"
    ∷ codes "PYTHONPATH"
    ∷ codes "PYTHONHOME"
    ∷ codes "EMBEDDING_MODEL_BACKEND"
    ∷ codes "VECTOR_INDEX_BACKEND"
    ∷ codes "SIMILARITY_METRIC"
    ∷ codes "VECTOR_DIM"
    ∷ []

-- The path of the i-th secret.
abbrev pub secret_path : ℕ → Str
secret_path i = codes "spec.secrets[" ++ decimal i ++ codes "]"

-- The switch over the name of a secret, with the names seen before it.
unfoldable pub check_secret_name : ℕ → Str → List Str → List Issue
unfolding issue_if issue_with
check_secret_name i name seen =
    let at = secret_path i ++ codes ".name" in
    if not (env_re name)
    then issue_if true at (codes "must be an environment-variable style name such as API_TOKEN")
    else if contains name reserved_env
    then issue_with true at (codes "%s is reserved by the platform") (string name ∷ [])
    else issue_with (contains name seen) at (codes "duplicate secret %s") (string name ∷ [])

unfoldable pub check_secret_names : ℕ → List SecretRef → List Str → List Issue
unfolding check_secret_name
check_secret_names i [] seen = []
check_secret_names i (s ∷ ss) seen =
    check_secret_name i s.name seen ++ check_secret_names (i + 1) ss (s.name ∷ seen)

unfoldable pub check_secret_refs : List SecretRef → List Issue
unfolding issue_if check_secret_names
check_secret_refs secrets = concat (
    issue_if (ltb 32 (length secrets)) (codes "spec.secrets") (codes "at most 32 secrets")
    ∷ check_secret_names 0 secrets []
    ∷ [])
