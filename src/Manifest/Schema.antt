-- ===== src/Manifest/Schema.antt =====
-- internal/plugins/manifest/manifest.go: the types of a manifest, `applyDefaults`, and `Minimal`. A
-- map of properties is in the order in which Go's range hands its keys out, an absent *Python or
-- *float64 is `none`, and the nil of an `any` is `null`.
pub mod Defaults
use llm_cache.Common.{
  zero, List, [], ◌∷◌, Option, none, some, Bool, true, false, Str, Str-discrete, codes, ite,
  if◌then◌else◌,
}
use llm_cache.Common.Dict.{Dict}
use llm_cache.Common.Float.{Float64}
use llm_cache.Common.Int.{ℤ, pos}
use llm_cache.Plugins.{PluginType, parse_type, is_python, text}
use llm_cache.Plugins
use llm_cache.Manifest.Document.{Value, null, string}

pub record Metadata : Type 0 where
  pub name : Str
  pub version : Str
  pub description : Str

pub record Runtime : Type 0 where
  pub mode : Str
  pub dockerfile : Str
  pub context : Str
  pub port : ℤ

pub record Python : Type 0 where
  pub module_name : Str
  pub path : Str
  pub backend : Str
  pub requirements : Str

pub record Health : Type 0 where
  pub path : Str
  pub timeout : Str

pub record Property : Type 0 where
  pub type : Str
  pub required : Bool
  pub default : Value
  pub description : Str
  pub enum : List Str
  pub min : Option Float64
  pub max : Option Float64

pub record SecretRef : Type 0 where
  pub name : Str
  pub required : Bool
  pub description : Str

pub record Resources : Type 0 where
  pub cpu : Str
  pub memory : Str
  pub pids : ℤ
  pub tmpfs : Str

-- `contract` is the version of the contract, `properties` those of the configuration, `egress` is of
-- the network, and `vector_dim` of the hints for the contract tests.
pub record Spec : Type 0 where
  pub type : Str
  pub contract : Str
  pub runtime : Runtime
  pub python : Option Python
  pub health : Health
  pub properties : Dict Str Property
  pub secrets : List SecretRef
  pub resources : Resources
  pub egress : Str
  pub vector_dim : ℤ

pub record Manifest : Type 0 where
  pub api_version : Str
  pub kind : Str
  pub metadata : Metadata
  pub spec : Spec

abbrev pub api_version : Str
api_version = codes "llmcache.dev/v1alpha1"

abbrev pub plugin_kind : Str
plugin_kind = codes "Plugin"

-- `ContractVersion` of internal/plugins/types.go
abbrev pub contract_version : Str
contract_version = codes "v1"

abbrev pub runtime_container : Str
runtime_container = codes "container"

abbrev pub runtime_python : Str
runtime_python = codes "python"

abbrev pub runtime_endpoint : Str
runtime_endpoint = codes "endpoint"

abbrev pub egress_none : Str
egress_none = codes "none"

abbrev pub egress_internet : Str
egress_internet = codes "internet"

abbrev pub default_health : Str
default_health = codes "/health"

-- 8080
abbrev pub default_port : ℤ
default_port = pos 8080

-- `if s == "" { s = x }`
abbrev pub or_default : Str → Str → Str
or_default x s = ite (Str-discrete s []) x s

unfoldable pub is_python_type : Str → Bool
is_python_type s = elim (parse_type s) [ none ↦ false | some t ↦ is_python t ]

unfoldable pub default_mode : Str → Str → Str
default_mode type mode =
    or_default (if is_python_type type then runtime_python else runtime_container) mode

abbrev pub is_zero : ℤ → Bool
is_zero (pos zero) = true
is_zero n = false

-- The part of `applyDefaults` on the runtime, from its mode on.
unfoldable pub default_runtime : Str → Runtime → Runtime
default_runtime mode r =
    let container = Str-discrete mode runtime_container in
    let endpoint = Str-discrete mode runtime_endpoint in
    record {
      mode = mode;
      dockerfile = ite container (or_default (codes "Dockerfile") r.dockerfile) r.dockerfile;
      context = ite container (or_default (codes ".") r.context) r.context;
      port = if is_zero r.port then ite endpoint r.port default_port else r.port;
    }

unfoldable pub default_python : Option Python → Option Python
default_python none = none
default_python (some p) = some (record p { path = or_default (codes ".") p.path })

unfoldable pub apply_defaults : Manifest → Manifest
unfolding default_mode default_runtime default_python
apply_defaults m = record m {
  spec = record m.spec {
    contract = or_default contract_version m.spec.contract;
    runtime = default_runtime (default_mode m.spec.type m.spec.runtime.mode) m.spec.runtime;
    python = default_python m.spec.python;
    health = record {
      path = or_default default_health m.spec.health.path;
      timeout = or_default (codes "5s") m.spec.health.timeout;
    };
    egress = or_default egress_none m.spec.egress;
  };
}

abbrev pub llm_properties : Dict Str Property
llm_properties =
    (
      codes "model",
      record {
        type = codes "string";
        required = false;
        default = string (codes "default");
        description = codes "model name sent in every request";
        enum = [];
        min = none;
        max = none;
      },
    )
    ∷ (
      codes "request_timeout",
      record {
        type = codes "duration";
        required = false;
        default = string (codes "60s");
        description = codes "per-request timeout";
        enum = [];
        min = none;
        max = none;
      },
    )
    ∷ []

abbrev pub is_llm : PluginType → Bool
is_llm Plugins.llm = true
is_llm t = false

unfoldable pub minimal : Str → Str → PluginType → Manifest
unfolding apply_defaults
minimal name version t = apply_defaults (record {
  api_version = api_version;
  kind = plugin_kind;
  metadata = record { name = name; version = version; description = [] };
  spec = record {
    type = text t;
    contract = [];
    runtime = record { mode = runtime_endpoint; dockerfile = []; context = []; port = pos 0 };
    python = none;
    health = record { path = []; timeout = [] };
    properties = if is_llm t then llm_properties else [];
    secrets = [];
    resources = record { cpu = []; memory = []; pids = pos 0; tmpfs = [] };
    egress = [];
    vector_dim = pos 0;
  };
})
