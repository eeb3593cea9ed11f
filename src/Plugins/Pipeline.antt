-- ===== src/Plugins/Pipeline.antt =====
-- internal/plugins/manager/install.go: `pipeline`, over the store of records in memory. The sealed
-- secrets, the controller, the contract tests and the adapters are parameters, as is the text of an
-- error that lists problems; the log, the audit trail and the instance that `fail` stops are left out.
-- A run that ends well answers with the record as it was last written.
pub mod Kept
pub mod Succeeding
pub mod Checking
pub mod Trial
pub mod Verified
use llm_cache.Common.{
  ℕ, ◌≡◌, List, [], ◌∷◌, ◌++◌, Option, none, some, Bool, true, false, not, Str, str_key,
  Str-discrete, codes, ite, if◌then◌else◌,
}
use llm_cache.Common.Dict.{Dict, keys}
use llm_cache.Common.Result.{Result, ok, err}
use llm_cache.Manifest.Document.{Value, Text, Issue}
use llm_cache.Manifest.Parsing.{Yaml, parse}
use llm_cache.Manifest.Quantities.{Numbers}
use llm_cache.Manifest.Schema.{Manifest}
use llm_cache.Manifest.Settings.{resolve_config, check_secrets}
use llm_cache.Plugins.{PluginType, State, text}
use llm_cache.Plugins.Activation.{set_state}
use llm_cache.Plugins.Registry.{Record, Memory, RegistryError, get, update}

-- How a plugin is supplied.
pub data Supply : Type 0 where
  endpoint image repository : Supply

abbrev pub is_endpoint : Supply → Bool
is_endpoint endpoint = true
is_endpoint s = false

abbrev pub is_repository : Supply → Bool
is_repository repository = true
is_repository s = false

pub record Verification : Type 0 where
  pub passed : Bool
  pub summary : Str

-- The fields of a record that the pipeline reads and writes. `build` is the digest, the commit, the
-- scan and the provenance together.
pub record Details (B : Type 0) : Type 0 where
  pub supply : Supply
  pub name : Str
  pub version : Str
  pub manifest : Option Manifest
  pub config : Dict Str Value
  pub build : Option B
  pub verification : Option Verification
  pub health : Str
  pub instance_id : Str

-- What the controller prepared: the text of the manifest, the image, and why its scan failed, if it did.
pub record Prepared (B : Type 0) : Type 0 where
  pub manifest_text : Str
  pub build : B
  pub scan_failed : Option Str

pub record Tools (B I : Type 0) : Type 0 where
  pub yaml : Yaml
  pub nums : Numbers
  pub open_secrets : Record (Details B) → Result Str (Dict Str Str)
  pub prepare : Record (Details B) → Result Str (Prepared B)
  pub ensure_instance : Record (Details B) → Dict Str Str → Option Str
  pub run_contract : Record (Details B) → Dict Str Str → Result Str Verification
  pub build_adapter : Record (Details B) → Dict Str Str → Result Str I
  pub probe_health : I → Option Str
  pub issues_text : List Issue → Str
  pub problems_text : List Text → Str
  pub names_text : List Str → Str
  pub registry_text : RegistryError → Str
  pub illegal : State → State → Str
  pub scrub : Str → Str
  -- The time of the updates.
  pub now : ℕ

-- A step on the store that ends with an error or goes on.
abbrev pub Task : Type 0 → Type 0 → Type 0
Task B A = Memory (Details B) → Result Str A × Memory (Details B)

unfoldable pub bind : {B A A' : Type 0} → Task B A → (A → Task B A') → Task B A'
bind t f m = let (r, m') = t m in elim r [ err e ↦ (err e, m') | ok a ↦ f a m' ]

-- `fmt.Errorf` with a prefix and the error.
abbrev pub prefixed : {A : Type 0} → Str → Result Str A → Result Str A
prefixed why (ok a) = ok a
prefixed why (err e) = err (why ++ e)

abbrev pub prefix_error : Str → Option Str → Option Str
prefix_error why none = none
prefix_error why (some e) = some (why ++ e)

module _ {B I : Type 0} (tools : Tools B I) where
  -- `m.reg.Get`, `m.reg.Update` and `m.setState`, whose errors end the pipeline.
  unfoldable pub read : Str → Task B (Record (Details B))
  read id m = (elim (get id m) [ ok r ↦ ok r | err e ↦ err (tools.registry_text e) ], m)

  unfoldable pub write :
      Str → (Record (Details B) → Result Str (Record (Details B))) → Task B (Record (Details B))
  write id change m =
      let (r, m') = update id change tools.now m in
      (elim r [ ok c ↦ ok c | err e ↦ err (tools.registry_text e) ], m')

  unfoldable pub enter : Str → State → Str → Task B (Record (Details B))
  unfolding write
  enter id to detail = write id (set_state tools.illegal tools.scrub to detail)

  -- The same with the error dropped.
  unfoldable pub attempt : {A : Type 0} → Task B A → Task B Unit
  attempt t m = let (_, m') = t m in (ok tt, m')

  -- `fail`
  unfoldable pub fail : {A : Type 0} → Str → Str → Task B A
  unfolding write
  fail id cause m =
      let (_, m') =
        write id
          (λ r. ok (record r {
            state = State.failed;
            state_detail = tools.scrub cause;
            rest = record r.rest { health = codes "unknown" };
          }))
          m in
      (err cause, m')

  -- A result that ends the pipeline by `fail` where it is an error.
  unfoldable pub or_fail : {A : Type 0} → Str → Result Str A → Task B A
  unfolding fail
  or_fail id (ok a) m = (ok a, m)
  or_fail id (err e) m = fail id e m

  unfoldable pub unless : Str → Option Str → Task B Unit
  unfolding fail
  unless id none m = (ok tt, m)
  unless id (some e) m = fail id e m

  -- The manifest and the configuration of an image that was prepared, for the record of its plugin and
  -- the names of its secrets.
  unfoldable pub check_prepared :
      Record (Details B) → List Str → Prepared B → Result Str (Manifest × Dict Str Value)
  check_prepared rec names pr = elim (parse tools.yaml tools.nums pr.manifest_text) [
    | err issues ↦ err (tools.issues_text issues)
    | ok mf ↦
        ite (Str-discrete mf.spec.type (text rec.kind))
          (elim (resolve_config tools.nums mf.spec.properties rec.rest.config) [
            | err problems ↦ err (tools.problems_text problems)
            | ok cfg ↦ elim (check_secrets mf.spec.secrets names) [
              | some problems ↦ err (tools.names_text problems)
              | none ↦ elim pr.scan_failed [
                | some why ↦ err (codes "image scan failed: " ++ why)
                | none ↦ ok (mf, cfg)
              ]
            ]
          ])
          (err (
            codes "manifest is for type "
            ++ mf.spec.type
            ++ codes " but the plugin was installed as "
            ++ text rec.kind))
  ]

  -- What the record is given of them.
  abbrev pub pinned :
      Manifest → Dict Str Value → B → Record (Details B) → Result Str (Record (Details B))
  pinned mf cfg build r = ok (record r {
    rest = record r.rest {
      manifest = some mf;
      name = mf.metadata.name;
      version = mf.metadata.version;
      config = cfg;
      build = some build;
    };
  })

  -- The state `scanned` matters only after a build.
  unfoldable pub enter_scanned : Str → Record (Details B) → Task B Unit
  enter_scanned id rec =
      if is_repository rec.rest.supply
      then bind (enter id State.scanning (codes "scanned")) (λ r m. (ok tt, m))
      else attempt (enter id State.scanning (codes "scanned"))

  -- Image and repository plugins: build or pull, scan, pin the digest.
  unfoldable pub prepare_image :
      Str → Record (Details B) → Dict Str Str → Task B (Record (Details B))
  prepare_image id rec sec =
      bind
        (enter id (if is_repository rec.rest.supply then State.building else State.scanning)
          (codes "preparing image"))
        (λ r. bind (or_fail id (prefixed (codes "prepare: ") (tools.prepare rec))) (λ pr.
          bind (or_fail id (check_prepared rec (keys sec) pr)) (λ p.
            bind (write id (pinned p.0 p.1 pr.build))
              (λ r. bind (enter_scanned id rec) (λ u. read id)))))

  unfoldable pub start_candidate : Str → Record (Details B) → Dict Str Str → Task B Unit
  start_candidate id rec sec =
      if is_endpoint rec.rest.supply
      then (λ m. (ok tt, m))
      else bind (enter id State.starting (codes "starting isolated candidate"))
          (λ r. unless id (tools.ensure_instance rec sec))

  abbrev pub verified_by : Verification → Record (Details B) → Result Str (Record (Details B))
  verified_by v r = ok (record r { rest = record r.rest { verification = some v } })

  unfoldable pub test_contract : Str → Record (Details B) → Dict Str Str → Task B Unit
  test_contract id rec sec = bind (enter id State.testing (codes "running contract tests")) (λ r.
      bind
        (or_fail id
          (prefixed (codes "contract tests could not run: ") (tools.run_contract rec sec)))
        (λ v.
          bind (attempt (write id (verified_by v)))
            (λ u. unless id (if v.passed then none else some v.summary))))

  abbrev pub healthy : Record (Details B) → Record (Details B) → Result Str (Record (Details B))
  healthy rec r = ok (record r {
    rest = record r.rest {
      health = codes "healthy";
      instance_id = if is_endpoint rec.rest.supply then [] else r.id;
    };
  })

  unfoldable pub check_health :
      Str → Record (Details B) → Dict Str Str → Task B (Record (Details B))
  check_health id rec sec = bind (enter id State.checking (codes "checking health")) (λ r.
      bind (or_fail id (tools.build_adapter rec sec)) (λ adapter.
        bind (unless id (prefix_error (codes "health check failed: ") (tools.probe_health adapter)))
          (λ u. write id (healthy rec))))

  -- From the first state on.
  unfoldable pub pipeline : Str → Task B (Record (Details B))
  pipeline id = bind (read id) (λ rec. bind (or_fail id (tools.open_secrets rec)) (λ sec.
      bind (enter id State.validating (codes "validating manifest")) (λ r.
        bind (if is_endpoint rec.rest.supply then (λ m. (ok rec, m)) else prepare_image id rec sec)
          (λ rec. bind (start_candidate id rec sec) (λ u. bind (test_contract id rec sec) (λ u.
            bind (check_health id rec sec) (λ r.
              enter id State.verified
                (codes "verified: contract tests and health check passed"))))))))
