-- ===== src/Manifest/Fields.antt =====
-- internal/plugins/manifest/manifest.go: the first parts of `validate`, up to the health check.
pub mod Silent
use llm_cache.Common.{
  ℕ, ◌+◌, List, [], ◌∷◌, ◌++◌, concat, Option, none, some, Bool, true, false, not, ◌&&◌, ◌||◌, Str,
  str_key, Str-discrete, codes, ite, if◌then◌else◌, ltb, length, map,
}
use llm_cache.Common.Dict.{Dict, contains}
use llm_cache.Common.Float.{Float64, float_lt, float_zero}
use llm_cache.Common.Int.{ℤ, pos, negsuc, leb_ℤ}
use llm_cache.Common.Result.{Result, ok, err}
use llm_cache.Common.Word.{slt64}
use llm_cache.Orchestrator.Guard.{eq_str}
use llm_cache.Orchestrator.Startup.{contains_str}
use llm_cache.Plugins.{PluginType, parse_type}
use llm_cache.Plugins
use llm_cache.Manifest.Document.{
  Value, Text, Issue, plain, issue, decimal, null, string, number, integer,
}
use llm_cache.Manifest.Patterns.{
  name_re, semver_re, env_re, prop_re, py_mod_re, backend_re, secret_patterns, any_found,
  secret_name_hint,
}
use llm_cache.Manifest.Paths.{check_rel_path, has_prefix, any_in}
use llm_cache.Manifest.Quantities.{Numbers, parse_cpu, parse_bytes, float_four}
use llm_cache.Manifest.Schema.{
  Manifest, Metadata, Spec, Runtime, Python, Health, Property, SecretRef, Resources, api_version,
  plugin_kind, contract_version, runtime_container, runtime_python, runtime_endpoint, egress_none,
  egress_internet,
}
use llm_cache.Manifest.Settings.{coerce_value, is_null}

-- `if bad { add(path, message) }`
unfoldable pub issue_if : Bool → Str → Str → List Issue
issue_if bad path message = if bad then issue path message ∷ [] else []

-- The same with arguments of the format.
unfoldable pub issue_with : Bool → Str → Str → List Value → List Issue
issue_with bad path format arguments =
    if bad
    then record { path = path; message = record { format = format; arguments = arguments } } ∷ []
    else []

-- `a <= n && n <= b`
abbrev pub between : ℤ → ℤ → ℤ → Bool
between a b n = leb_ℤ a n && leb_ℤ n b

unfoldable pub check_metadata : Metadata → List Issue
unfolding issue_if
check_metadata d = concat (
    issue_if (not (name_re d.name)) (codes "metadata.name") (
      codes
        "must be 1-63 lowercase letters, digits or '-', starting and ending with an alphanumeric")
    ∷ issue_if (not (semver_re d.version)) (codes "metadata.version")
        (codes "must be a semantic version such as 1.2.3")
    ∷ issue_if (ltb 500 (length d.description)) (codes "metadata.description")
        (codes "must be at most 500 characters")
    ∷ [])

-- The fields up to the contract.
unfoldable pub check_header : Manifest → List Issue
unfolding issue_with check_metadata
check_header m = concat (
    issue_with (not (eq_str m.api_version api_version)) (codes "apiVersion")
      (codes "unsupported apiVersion %q (supported: %s)")
      (string m.api_version ∷ string api_version ∷ [])
    ∷ issue_with (not (eq_str m.kind plugin_kind)) (codes "kind") (codes "kind must be %q, got %q")
        (string plugin_kind ∷ string m.kind ∷ [])
    ∷ check_metadata m.metadata
    ∷ elim (parse_type m.spec.type) [
      | some _ ↦ []
      | none ↦
          issue_with true (codes "spec.type") (codes "unknown plugin type %q (supported: %v)")
            (string m.spec.type ∷ map (λ t. string (Plugins.text t)) Plugins.all_types)
    ]
    ∷ issue_with (not (eq_str m.spec.contract contract_version)) (codes "spec.contract.version")
        (codes "unsupported contract version %q (supported: %s)")
        (string m.spec.contract ∷ string contract_version ∷ [])
    ∷ [])

-- Whether the type is known and, or is known and not, one of the Python registries.
abbrev pub known_python : Option PluginType → Bool
known_python none = false
known_python (some t) = Plugins.is_python t

abbrev pub known_other : Option PluginType → Bool
known_other none = false
known_other (some t) = not (Plugins.is_python t)

abbrev pub builds : Runtime → Bool
builds rt = not (eq_str rt.dockerfile []) || not (eq_str rt.context [])

-- The cases of the switch over the mode.
unfoldable pub check_container : Str → Runtime → List Issue
unfolding issue_with
check_container type rt = concat (
    issue_with (known_python (parse_type type)) (codes "spec.runtime.mode")
      (codes "type %s is a Python registry plugin; use mode %q")
      (string type ∷ string runtime_python ∷ [])
    ∷ check_rel_path (codes "spec.runtime.dockerfile") rt.dockerfile
    ∷ check_rel_path (codes "spec.runtime.context") rt.context
    ∷ [])

unfoldable pub check_registry : Str → Runtime → List Issue
unfolding issue_if issue_with
check_registry type rt = concat (
    issue_with (known_other (parse_type type)) (codes "spec.runtime.mode")
      (codes "mode %q is only valid for embedding-model, vector-index and similarity-metric")
      (string runtime_python ∷ [])
    ∷ issue_if (builds rt) (codes "spec.runtime") (
        codes
          "python plugins are built from a platform template; dockerfile/context are not allowed")
    ∷ [])

unfoldable pub check_mode : Str → Runtime → List Issue
unfolding check_container check_registry
check_mode type rt =
    if eq_str rt.mode runtime_container
    then check_container type rt
    else if eq_str rt.mode runtime_python
    then check_registry type rt
    else if eq_str rt.mode runtime_endpoint
    then issue_if (builds rt) (codes "spec.runtime")
        (codes "endpoint plugins have nothing to build")
    else issue_with true (codes "spec.runtime.mode")
        (codes "unsupported mode %q (supported: container, python, endpoint)") (string rt.mode ∷ [])

unfoldable pub check_port : Runtime → List Issue
unfolding issue_if
check_port rt =
    issue_if (not (eq_str rt.mode runtime_endpoint) && not (between (pos 1024) (pos 65535) rt.port))
      (codes "spec.runtime.port")
      (codes "must be between 1024 and 65535 (plugins run unprivileged)")

unfoldable pub check_python : Str → Option Python → List Issue
unfolding issue_if
check_python mode none =
    issue_if (eq_str mode runtime_python) (codes "spec.python")
      (codes "required for python plugins")
check_python mode (some p) =
    if eq_str mode runtime_python
    then issue_if (not (py_mod_re p.module_name)) (codes "spec.python.module")
        (codes "must be a valid Python identifier")
      ++ issue_if (not (backend_re p.backend)) (codes "spec.python.backend")
          (codes "must be the lowercase name passed to @register (letters, digits, '.', '_', '-')")
      ++ check_rel_path (codes "spec.python.path") p.path
      ++ (if eq_str p.requirements []
          then []
          else check_rel_path (codes "spec.python.requirements") p.requirements)
    else issue_if true (codes "spec.python") (codes "only valid when runtime.mode is python")

-- The bytes are '?', '#', '\\' and ' '.
unfoldable pub health_path_ok : Str → Bool
unfolding has_prefix any_in contains_str
health_path_ok hp =
    has_prefix (codes "/") hp
    && not (contains_str (codes "..") hp)
    && not (
        any_in
          (λ c.
            eq_str (c ∷ []) (codes "?")
            || eq_str (c ∷ []) (codes "#")
            || eq_str (c ∷ []) (92 ∷ [])
            || eq_str (c ∷ []) (codes " "))
          hp)
    && not (contains_str (codes "//") hp)
    && not (ltb 200 (length hp))

-- From 100ms to time.Minute.
abbrev pub timeout_ok : Option ℤ → Bool
timeout_ok none = false
timeout_ok (some d) = between (pos 100_000_000) (pos 60_000_000_000) d

unfoldable pub check_health : Numbers → Health → List Issue
unfolding issue_if
check_health nums h = concat (
    issue_if (not (health_path_ok h.path)) (codes "spec.health.path")
      (codes "must be an absolute path such as /health without query, fragment or '..'")
    ∷ issue_if (not (timeout_ok (nums.parse_duration h.timeout))) (codes "spec.health.timeout")
        (codes "must be a duration between 100ms and 60s")
    ∷ [])
