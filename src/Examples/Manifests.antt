-- ===== src/Examples/Manifests.antt =====
-- Manifests: internal/plugins/manifest/manifest.go.
use llm_cache.Common.{
  ◌≡◌, ◌≢◌, ◌↔◌, ◌%◌, ◌*◌, refl, [], ◌∷◌, ◌++◌, none, some, true, false, Str, str_key, Str-discrete,
  codes, ite, All, map, arith,
}
use llm_cache.Common.Dict.{Dict, lookup, has, insert, keys, contains}
use llm_cache.Common.Float.{float_lt}
use llm_cache.Common.Int.{ℤ, pos}
use llm_cache.Common.Result.{ok}
use llm_cache.Common.Word.{word64, rank}
use llm_cache.Common.Sorting.{sort}
use llm_cache.Orchestrator.Guard.{cut_prefix, before}
use llm_cache.Orchestrator.Startup.{contains_str}
use llm_cache.Plugins
use llm_cache.Plugins.{PluginType}
use llm_cache.Manifest.Document.{
  Value, null, boolean, number, mapping, field, end, scan_dangerous, decimal,
}
use llm_cache.Manifest.Document.Scanned
use llm_cache.Manifest.Patterns
use llm_cache.Manifest.Patterns.{split}
use llm_cache.Manifest.Paths
use llm_cache.Manifest.Paths.Inside
use llm_cache.Manifest.Quantities.{Numbers, units, parse_bytes}
use llm_cache.Manifest.Quantities.Sizes
use llm_cache.Manifest.Schema.{Manifest, Property, SecretRef, minimal, Resources}
use llm_cache.Manifest.Schema
use llm_cache.Manifest.Settings.{coerce_value, resolve_config, check_secrets}
use llm_cache.Manifest.Settings.Coerced
use llm_cache.Manifest.Settings.Declared
use llm_cache.Manifest.Settings.Resolved
use llm_cache.Manifest.Validation.{validate, effective, Limits}
use llm_cache.Manifest.Validation.Ceilings
use llm_cache.Manifest.Validation.Minimal
use llm_cache.Manifest.Parsing.{Yaml, at_end, parse}
use llm_cache.Manifest.Parsing

abbrev p : Str
p = codes "acme"

-- Durations of whole seconds that the examples use; no float is computed with.
abbrev durations : Dict Str ℤ
durations = (codes "5s", pos 5_000_000_000) ∷ (codes "60s", pos 60_000_000_000) ∷ []

abbrev pub nums : Numbers
nums = record {
  parse_float = λ s. none;
  divide = λ x y. x;
  of_int = λ n. n;
  to_int = λ x. x;
  parse_duration = λ s. lookup s durations;
}

abbrev document : Value
document =
    mapping (field (codes "spec") (mapping (field (codes "Host_Network") (boolean true) end)) end)

abbrev path : Str
path = codes "./build//app"

check_rel_path-clean_example :
    (path ≢ [])
    × (Paths.has_prefix (codes "/") path ≡ false)
    × All (λ e. e ≢ codes "..") (split 47 path)
    × (Paths.clean path
        ≡ ite
            (Str-discrete (Paths.join (Inside.plain (split 47 path))) [])
            (codes ".")
            (Paths.join (Inside.plain (split 47 path))))
check_rel_path-clean_example = Inside.check_rel_path-clean (codes "spec.runtime.context") path (
    unfold Paths.check_rel_path Paths.rel_path_problem Str-discrete cut_prefix contains_str in refl)

-- 2 ^ 34 + 1, so that the product with Gi passes for 1Gi.
parse_bytes-decimal_example :
    All
      (λ u. parse_bytes (decimal 17179869185 ++ u.0) ≡ ok ((17179869185 * u.1) % word64))
      (([], 1) ∷ units)
parse_bytes-decimal_example = Sizes.parse_bytes-decimal 17179869185 (ground arith) (ground arith)

-- A bound below, 0, and the value 1.
abbrev weight : Property
weight = record {
  type = codes "number";
  required = true;
  default = null;
  description = [];
  enum = [];
  min = some 0;
  max = none;
}

abbrev one : Value
one = number 0x3FF0_0000_0000_0000

coerce_value-HasType_example : Coerced.HasType nums weight one
coerce_value-HasType_example =
    Coerced.coerce_value-HasType nums weight one one
      (unfold coerce_value Str-discrete float_lt in refl)

abbrev token : SecretRef
token = record { name = codes "API_TOKEN"; required = true; description = [] }

check_secrets-IsSupplied_example : (check_secrets (token ∷ []) (codes "API_TOKEN" ∷ []) ≡ none) ↔ (
    All (λ n. contains n (map (λ s. s.name) (token ∷ [])) ≡ true) (codes "API_TOKEN" ∷ [])
    × All (Declared.IsSupplied (codes "API_TOKEN" ∷ [])) (token ∷ []))
check_secrets-IsSupplied_example =
    Declared.check_secrets-IsSupplied (token ∷ []) (codes "API_TOKEN" ∷ [])

abbrev props : Dict Str Property
props = (codes "weight", weight) ∷ []

abbrev given : Dict Str Value
given = (codes "weight", one) ∷ []

resolve_config-Setting_example :
    All (λ k. has k props ≡ true) (keys given)
    × ((n : Str) → lookup n props ≡ none → lookup n given ≡ none)
    × ((n : Str) (prop : Property)
        → lookup n props ≡ some prop
        → Resolved.Setting nums prop (lookup n given) (lookup n given))
resolve_config-Setting_example =
    Resolved.resolve_config-Setting nums given props given (unfold lookup in (refl, tt))
      (unfold resolve_config sort lookup Str-discrete float_lt insert in refl)

five : nums.parse_duration (codes "5s") ≡ some (pos 5_000_000_000)
unfolding lookup Str-discrete
five = refl

sixty : nums.parse_duration (codes "60s") ≡ some (pos 60_000_000_000)
unfolding lookup Str-discrete
sixty = refl

abbrev pub hosted : Manifest
hosted = minimal p (codes "1.0.0") PluginType.llm

validate-minimal_example : validate nums hosted ≡ []
validate-minimal_example =
    Minimal.validate-minimal nums five sixty p (codes "1.0.0") PluginType.llm
      (unfold Patterns.name_re in refl) (unfold Patterns.semver_re before in refl)

hosted-valid : validate nums hosted ≡ []
hosted-valid =
    Minimal.validate-minimal nums five sixty p (codes "1.0.0") PluginType.llm
      (unfold Patterns.name_re in refl) (unfold Patterns.semver_re before in refl)

-- Of one processor and 4Gi.
abbrev limits : Limits
limits = record { cpu = 0x3FF0_0000_0000_0000; mem = 268435456; pids = pos 128; tmpfs = 67108864 }

effective-Granted_example :
    Ceilings.Granted 0x3FF0_0000_0000_0000 4294967296 hosted.spec.resources limits
effective-Granted_example =
    Ceilings.effective-Granted nums hosted 0x3FF0_0000_0000_0000 268435456 0x3FF0_0000_0000_0000
      4294967296 limits hosted-valid
      (unfold effective minimal Schema.apply_defaults float_lt rank Str-discrete in refl)

abbrev pub yaml : Yaml
yaml = record { unmarshal = λ s. ok (mapping end); decode = λ s. ok hosted; second = λ s. at_end }

pub parsed : parse yaml nums (codes "kind: Plugin") ≡ ok hosted
unfolding parse Schema.apply_defaults minimal scan_dangerous sort validate Plugins.text Str-discrete
parsed = rw hosted-valid refl

parse-Parsed_example : Parsing.Parsed yaml nums (codes "kind: Plugin") hosted
parse-Parsed_example = Parsing.parse-Parsed yaml nums (codes "kind: Plugin") hosted parsed
