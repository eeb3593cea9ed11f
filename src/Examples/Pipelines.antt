-- ===== src/Examples/Pipelines.antt =====
-- The pipeline of an installation: internal/plugins/manager/install.go.
use llm_cache.Common.{◌≡◌, refl, [], ◌∷◌, none, some, true, false, Str, Str-discrete, codes}
use llm_cache.Common.Dict.{Dict, lookup, insert}
use llm_cache.Common.Result.{ok}
use llm_cache.Common.Sorting.{sort, str_less}
use llm_cache.Common.Word.{inc64}
use llm_cache.Manifest.Document.{Value, string}
use llm_cache.Manifest.Schema.{minimal}
use llm_cache.Manifest.Settings.{resolve_config, check_secrets}
use llm_cache.Plugins
use llm_cache.Plugins.{State, PluginType}
use llm_cache.Plugins.Activation.{set_state}
use llm_cache.Plugins.Registry.{Record, Memory, get, update}
use llm_cache.Plugins.Pipeline.{
  Details, Supply, Prepared, Tools, Verification, read, write, enter, attempt, fail, unless,
  check_prepared, enter_scanned, prepare_image, start_candidate, test_contract, check_health,
  pipeline,
}
use llm_cache.Plugins.Pipeline.Verified
use llm_cache.Plugins.Pipeline.Succeeding.{Succeeds, Succeeds-bind, Succeeds-or_fail}
use llm_cache.Examples.Manifests.{nums, yaml, hosted, parsed}

abbrev id : Str
id = codes "acme"

abbrev resolved : Dict Str Value
resolved =
    (codes "model", string (codes "default")) ∷ (codes "request_timeout", string (codes "60s")) ∷ []

abbrev passed : Verification
passed = record { passed = true; summary = codes "3 checks passed" }

abbrev prepared : Prepared Unit
prepared = record { manifest_text = codes "kind: Plugin"; build = tt; scan_failed = none }

-- A controller, contract tests and an adapter that find nothing wrong.
abbrev tools : Tools Unit Unit
tools = record {
  yaml = yaml;
  nums = nums;
  open_secrets = λ r. ok [];
  prepare = λ r. ok prepared;
  ensure_instance = λ r sec. none;
  run_contract = λ r sec. ok passed;
  build_adapter = λ r sec. ok tt;
  probe_health = λ a. none;
  issues_text = λ is. [];
  problems_text = λ ps. [];
  names_text = λ ns. [];
  registry_text = λ e. [];
  illegal = λ s t. [];
  scrub = λ s. s;
  now = 7;
}

abbrev draft : Record (Details Unit)
draft = record {
  id = id;
  kind = PluginType.llm;
  state = State.draft;
  state_detail = [];
  active = false;
  previous_active_id = [];
  previous_threshold = none;
  confirmations = record {
    embedder_compat = [];
    threshold = none;
    persistence_compat = [];
    vector_compat = [];
  };
  rev = 0;
  created_at = 1;
  updated_at = 1;
  rest = record {
    supply = Supply.image;
    name = [];
    version = [];
    manifest = none;
    config = [];
    build = none;
    verification = none;
    health = [];
    instance_id = [];
  };
}

abbrev final : Record (Details Unit)
final = record draft {
  state = State.verified;
  state_detail = codes "verified: contract tests and health check passed";
  rev = 10;
  updated_at = 7;
  rest = record {
    supply = Supply.image;
    name = hosted.metadata.name;
    version = hosted.metadata.version;
    manifest = some hosted;
    config = resolved;
    build = some tt;
    verification = some passed;
    health = codes "healthy";
    instance_id = id;
  };
}

abbrev store_of : Record (Details Unit) → Memory (Details Unit)
store_of r = record { recs = (id, r) ∷ []; selected = []; events = []; lines = [] }

checked : check_prepared tools draft [] prepared ≡ ok (hosted, resolved)
unfolding check_prepared Str-discrete Plugins.text resolve_config check_secrets sort minimal
    str_less lookup insert Plugins.is_python
checked = rw (parsed, check_prepared) refl

run : Succeeds (pipeline tools id) (store_of draft) final (store_of final)
unfolding pipeline read write enter attempt fail unless enter_scanned prepare_image start_candidate
    test_contract check_health get update set_state lookup insert Str-discrete inc64
    Plugins.valid_transition Plugins.transitions Plugins.index Plugins.one_of Plugins.in_progress
run =
    Succeeds-bind _ (record { outcome = refl })
      (Succeeds-bind _ (Succeeds-or_fail tools id refl) (
        Succeeds-bind _ (record { outcome = refl })
          (Succeeds-bind _
            (Succeeds-bind _ (record { outcome = refl })
              (Succeeds-bind _ (Succeeds-or_fail tools id refl) (
                Succeeds-bind _ (Succeeds-or_fail tools id checked) (
                  Succeeds-bind _ (record { outcome = refl })
                    (Succeeds-bind _ (record { outcome = refl }) (record { outcome = refl }))))))
            (Succeeds-bind _
              (Succeeds-bind _ (record { outcome = refl }) (record { outcome = refl }))
              (Succeeds-bind _
                (Succeeds-bind _ (record { outcome = refl })
                  (Succeeds-bind _ (Succeeds-or_fail tools id refl)
                    (Succeeds-bind _ (record { outcome = refl }) (record { outcome = refl }))))
                (Succeeds-bind _
                  (Succeeds-bind _ (record { outcome = refl })
                    (Succeeds-bind _ (Succeeds-or_fail tools id refl)
                      (Succeeds-bind _ (record { outcome = refl }) (record { outcome = refl }))))
                  (record { outcome = refl })))))))

pipeline-Verified_example : Verified.Verified tools id (store_of draft) (store_of final) final
pipeline-Verified_example =
    Verified.pipeline-Verified tools id (store_of draft) (store_of final) final run.outcome
