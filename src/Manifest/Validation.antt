-- ===== src/Manifest/Validation.antt =====
-- internal/plugins/manifest/manifest.go: `validate`, from its parts in their order, `Effective`, and
-- `Parse`. The map of properties is walked over in the order of Go's range, twice in the same one.
pub mod Accepted
pub mod Minimal
pub mod Ceilings
use llm_cache.Common.{
  ℕ, ◌+◌, List, [], ◌∷◌, ◌++◌, concat, Option, none, some, Bool, true, false, not, ◌&&◌, ◌||◌, Str,
  str_key, Str-discrete, codes, ite, if◌then◌else◌, ltb, length, map,
}
use llm_cache.Common.Dict.{Dict, contains}
use llm_cache.Common.Float.{Float64, float_lt, float_zero}
use llm_cache.Common.Int.{ℤ, pos, negsuc, leb_ℤ}
use llm_cache.Common.Result.{Result, ok, err}
use llm_cache.Common.Word.{slt64}
use llm_cache.Orchestrator.Guard.{eq_str}
use llm_cache.Orchestrator.Startup.{contains_str}
use llm_cache.Plugins.{PluginType, parse_type}
use llm_cache.Plugins
use llm_cache.Manifest.Document.{
  Value, Text, Issue, plain, issue, decimal, null, string, number, integer,
}
use llm_cache.Manifest.Patterns.{
  name_re, semver_re, env_re, prop_re, py_mod_re, backend_re, secret_patterns, any_found,
  secret_name_hint,
}
use llm_cache.Manifest.Paths.{check_rel_path, has_prefix, any_in}
use llm_cache.Manifest.Quantities.{Numbers, parse_cpu, parse_bytes, float_four}
use llm_cache.Manifest.Schema.{
  Manifest, Metadata, Spec, Runtime, Python, Health, Property, SecretRef, Resources, api_version,
  plugin_kind, contract_version, runtime_container, runtime_python, runtime_endpoint, egress_none,
  egress_internet,
}
use llm_cache.Manifest.Fields.{
  issue_if, issue_with, between, check_header, check_mode, check_port, check_python, check_health,
}
use llm_cache.Manifest.Declarations.{property_path, secret_path, check_config, check_secret_refs}
use llm_cache.Manifest.Settings.{coerce_value, is_null}

-- Resources.
unfoldable pub check_cpu : Numbers → Str → List Issue
unfolding issue_with
check_cpu nums cpu = if eq_str cpu [] then [] else elim (parse_cpu nums cpu) [
  | err e ↦ issue_with true (codes "spec.resources.cpu") e.format e.arguments
  | ok c ↦
      issue_with (float_lt float_four c) (codes "spec.resources.cpu")
        (codes "requests %.2f CPUs; the maximum is %.0f") (number c ∷ number float_four ∷ [])
]

-- A size, if there is one, and the bounds of it, as int64.
unfoldable pub check_size : Str → Str → ℕ → ℕ → Str → List Issue
unfolding issue_if issue_with
check_size at size lo hi why = if eq_str size [] then [] else elim (parse_bytes size) [
  | err e ↦ issue_with true at e.format e.arguments
  | ok b ↦ issue_if (slt64 hi b || slt64 b lo) at why
]

-- 16Mi, 4Gi, 1Mi and 1Gi; 1024 processes.
abbrev pub min_memory : ℕ
min_memory = 16777216

abbrev pub max_memory : ℕ
max_memory = 4294967296

abbrev pub min_tmpfs : ℕ
min_tmpfs = 1048576

abbrev pub max_tmpfs : ℕ
max_tmpfs = 1073741824

abbrev pub max_pids : ℤ
max_pids = pos 1024

unfoldable pub check_resources : Numbers → Resources → List Issue
unfolding issue_with check_cpu check_size
check_resources nums res = concat (
    check_cpu nums res.cpu
    ∷ check_size (codes "spec.resources.memory") res.memory min_memory max_memory
        (codes "must be between 16Mi and 4Gi")
    ∷ check_size (codes "spec.resources.tmpfs") res.tmpfs min_tmpfs max_tmpfs
        (codes "must be between 1Mi and 1Gi")
    ∷ issue_with (not (between (pos 0) max_pids res.pids)) (codes "spec.resources.pids")
        (codes "must be between 0 and %d") (integer 1024 ∷ [])
    ∷ [])

unfoldable pub check_network : Spec → List Issue
unfolding issue_if issue_with
check_network s = concat (
    issue_with (not (eq_str s.egress egress_none) && not (eq_str s.egress egress_internet))
      (codes "spec.network.egress") (codes "must be %q (default) or %q")
      (string egress_none ∷ string egress_internet ∷ [])
    ∷ issue_if (not (between (pos 0) (pos 8192) s.vector_dim)) (codes "spec.verify.vectorDim")
        (codes "must be between 0 and 8192")
    ∷ [])

-- `strings`: the free text of a manifest, each with its path.
abbrev pub enum_strings : Str → ℕ → List Str → List (Str × Str)
enum_strings base i [] = []
enum_strings base i (e ∷ es) =
    (base ++ codes ".enum[" ++ decimal i ++ codes "]", e) ∷ enum_strings base (i + 1) es

abbrev pub default_string : Str → Value → List (Str × Str)
default_string base (string s) = (base ++ codes ".default", s) ∷ []
default_string base v = []

abbrev pub property_strings : Dict Str Property → List (Str × Str)
property_strings [] = []
property_strings ((name, p) ∷ props) =
    (property_path name ++ codes ".description", p.description)
      ∷ default_string (property_path name) p.default
    ++ enum_strings (property_path name) 0 p.enum
    ++ property_strings props

abbrev pub secret_strings : ℕ → List SecretRef → List (Str × Str)
secret_strings i [] = []
secret_strings i (s ∷ ss) =
    (secret_path i ++ codes ".description", s.description) ∷ secret_strings (i + 1) ss

unfoldable pub strings : Manifest → List (Str × Str)
strings m =
    (codes "metadata.description", m.metadata.description) ∷ property_strings m.spec.properties
    ++ secret_strings 0 m.spec.secrets

unfoldable pub check_credentials : List (Str × Str) → List Issue
unfolding issue_if
check_credentials [] = []
check_credentials ((path, value) ∷ ss) =
    issue_if (any_found secret_patterns value) path (
      codes
        "contains what looks like a credential; never put secret values in plugin.yaml (declare a secret name instead)")
    ++ check_credentials ss

-- What each part adds to the issues.
unfoldable pub parts : Numbers → Manifest → List (List Issue)
unfolding check_credentials strings
parts nums m =
    check_header m
    ∷ check_mode m.spec.type m.spec.runtime
    ∷ check_port m.spec.runtime
    ∷ check_python m.spec.runtime.mode m.spec.python
    ∷ check_health nums m.spec.health
    ∷ check_config nums m.spec.properties
    ∷ check_secret_refs m.spec.secrets
    ∷ check_resources nums m.spec.resources
    ∷ check_network m.spec
    ∷ check_credentials (strings m)
    ∷ []

unfoldable pub validate : Numbers → Manifest → List Issue
unfolding parts
validate nums m = concat (parts nums m)

-- What a plugin gets: the share of a processor, memory, processes and the size of /tmp.
pub record Limits : Type 0 where
  pub cpu : Float64
  pub mem : ℕ
  pub pids : ℤ
  pub tmpfs : ℕ

-- The first result, 0 beside an error.
abbrev pub or_zero : Result Text ℕ → ℕ
or_zero (ok n) = n
or_zero (err e) = 0

-- The results of `Effective`, before the ceilings of the operator. 64 << 20 is 67108864.
unfoldable pub wanted_limits : Numbers → Float64 → ℕ → Resources → Limits
wanted_limits nums def_cpu def_mem res = record {
  cpu = if eq_str res.cpu [] then def_cpu else or_zero (parse_cpu nums res.cpu);
  mem = if eq_str res.memory [] then def_mem else or_zero (parse_bytes res.memory);
  pids = if leb_ℤ res.pids (pos 0) then pos 128 else res.pids;
  tmpfs = if eq_str res.tmpfs [] then 67108864 else or_zero (parse_bytes res.tmpfs);
}

-- The checks against the ceilings of the operator, where they are set.
unfoldable pub within_ceilings : Limits → Float64 → ℕ → Result Text Limits
within_ceilings l max_cpu max_mem =
    if float_lt float_zero max_cpu && float_lt max_cpu l.cpu
    then err (record {
      format =
          codes
            "plugin requests %.2f CPUs but this installation allows at most %.2f (PLUGIN_CPU_LIMIT)";
      arguments = number l.cpu ∷ number max_cpu ∷ [];
    })
    else if slt64 0 max_mem && slt64 max_mem l.mem
    then err (record {
      format =
          codes
            "plugin requests %d bytes of memory but this installation allows at most %d (PLUGIN_MEMORY_LIMIT)";
      arguments = integer l.mem ∷ integer max_mem ∷ [];
    })
    else ok l

-- The sizes are int64.
unfoldable pub effective : Numbers → Manifest → Float64 → ℕ → Float64 → ℕ → Result Text Limits
unfolding wanted_limits within_ceilings
effective nums m def_cpu def_mem max_cpu max_mem =
    within_ceilings (wanted_limits nums def_cpu def_mem m.spec.resources) max_cpu max_mem
