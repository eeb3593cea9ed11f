-- ===== src/Manifest/Schema/Defaults.antt =====
-- internal/plugins/manifest/manifest.go: what `applyDefaults` leaves alone.
use llm_cache.Common.{
  ◌≡◌, refl, ap, Option, none, some, [], Str, Str-discrete, codes, ite, if◌then◌else◌, arith,
}
use llm_cache.Common.Int.{ℤ}
use llm_cache.Manifest.Schema.{
  Manifest, Runtime, Python, runtime_container, runtime_python, runtime_endpoint, default_port,
  or_default, is_zero, is_python_type, default_mode, default_runtime, default_python,
  apply_defaults, contract_version, default_health, egress_none,
}

or_default-or_default : (x s : Str) → or_default x (or_default x s) ≡ or_default x s
or_default-or_default x s = elim (Str-discrete s []) [
  | yes empty ↦ elim (Str-discrete x []) [ yes blank ↦ ground arith | no filled ↦ ground arith ]
  | no given ↦ ground arith
]

ite-or_default :
    {P : Type 0} (d : Dec P) (x s : Str)
    → ite d (or_default x (ite d (or_default x s) s)) (ite d (or_default x s) s)
      ≡ ite d (or_default x s) s
ite-or_default (yes p) x s = or_default-or_default x s
ite-or_default (no n) x s = refl

port-kept :
    {P : Type 0} (d : Dec P) (n : ℤ)
    → (if is_zero (if is_zero n then ite d n default_port else n)
        then ite d (if is_zero n then ite d n default_port else n) default_port
        else if is_zero n
        then ite d n default_port
        else n)
      ≡ (if is_zero n then ite d n default_port else n)
port-kept (yes p) n = ground arith
port-kept (no p) n = ground arith

default_runtime-default_runtime :
    (mode : Str) (r : Runtime)
    → default_runtime mode (default_runtime mode r) ≡ default_runtime mode r
unfolding default_runtime
default_runtime-default_runtime mode r =
    let d = Str-discrete mode runtime_container in
    λ i. record {
      mode = mode;
      dockerfile = ite-or_default d (codes "Dockerfile") r.dockerfile i;
      context = ite-or_default d (codes ".") r.context i;
      port = port-kept (Str-discrete mode runtime_endpoint) r.port i;
    }

default_python-default_python :
    (p : Option Python) → default_python (default_python p) ≡ default_python p
unfolding default_python
default_python-default_python none = refl
default_python-default_python (some p) =
    ap (λ s. some (record p { path = s })) (or_default-or_default (codes ".") p.path)

-- The defaults are settled after one turn: to apply them to a manifest that has them changes
-- nothing.
pub apply_defaults_settled : (m : Manifest) → apply_defaults (apply_defaults m) ≡ apply_defaults m
unfolding apply_defaults default_mode default_runtime
apply_defaults_settled m =
    let s = m.spec in
    let mode : Str = default_mode s.type s.runtime.mode in
    let same : default_mode s.type mode ≡ mode =
      or_default-or_default (if is_python_type s.type then runtime_python else runtime_container)
        s.runtime.mode in
    let runtime : default_runtime (default_mode s.type mode) (default_runtime mode s.runtime)
        ≡ default_runtime mode s.runtime =
      rw same (default_runtime-default_runtime mode s.runtime) in
    λ i. record m {
      spec = record s {
        contract = or_default-or_default contract_version s.contract i;
        runtime = runtime i;
        python = default_python-default_python s.python i;
        health = record {
          path = or_default-or_default default_health s.health.path i;
          timeout = or_default-or_default (codes "5s") s.health.timeout i;
        };
        egress = or_default-or_default egress_none s.egress i;
      };
    }
