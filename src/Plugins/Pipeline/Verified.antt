-- ===== src/Plugins/Pipeline/Verified.antt =====
-- internal/plugins/manager/install.go: the run of the pipeline that verifies a plugin.
use llm_cache.Common.{◌≡◌, ◌⊎◌, refl, sym, ◌∙◌, inl, inr, some, true, Str, str_key, codes}
use llm_cache.Common.Dict.{Dict, lookup}
use llm_cache.Common.Result.{ok}
use llm_cache.Manifest.Document.{Value}
use llm_cache.Manifest.Schema.{Manifest}
use llm_cache.Plugins.{State}
use llm_cache.Plugins.Registry.{Record, Memory}
use llm_cache.Plugins.Pipeline.{Details, Verification, Prepared, Tools, is_endpoint, pipeline}
use llm_cache.Plugins.Pipeline.Kept.{enter-Keeps}
use llm_cache.Plugins.Pipeline.Succeeding.{
  Succeeds, bind-Succeeds, read-Succeeds, or_fail-Succeeds, Succeeds-Keeps, view-stored,
  enter-Succeeds, if-Succeeds, ok-Succeeds,
}
use llm_cache.Plugins.Pipeline.Checking.{
  pinning, contract_run, Checked, enter-pinning, prepare_image-Checked,
}
use llm_cache.Plugins.Pipeline.Trial.{
  start_candidate-Keeps, test_contract-Keeps, Tested, test_contract-Tested, check_health-Keeps,
  Healthy, check_health-Healthy,
}

module _ {B I : Type 0} (tools : Tools B I) (id : Str) where
  -- The image of a plugin that is no endpoint: what was prepared for it, what the checks of that found,
  -- and that both the candidate and the final record hold the manifest and the resolved configuration.
  pub record Pinned (rec : Record (Details B)) (sec : Dict Str Str)
      (candidate c : Record (Details B)) : Type 0 where
    pub prepared : Prepared B
    pub mf : Manifest
    pub cfg : Dict Str Value
    pub prepares : tools.prepare rec ≡ ok prepared
    pub checked : Checked tools id rec sec prepared mf cfg
    pub tried : pinning candidate ≡ (some mf, cfg)
    pub kept : pinning c ≡ (some mf, cfg)

  -- A run of the pipeline that ends well: the record and the secrets that it starts from, the candidate
  -- that is tested and probed, and the final record.
  pub record Verified (m m' : Memory (Details B)) (c : Record (Details B)) : Type 0 where
    pub initial : Record (Details B)
    pub secrets : Dict Str Str
    pub candidate : Record (Details B)
    pub run : Verification
    pub found : lookup id m.recs ≡ some initial
    pub opened : tools.open_secrets initial ≡ ok secrets
    pub tested : Tested tools id candidate secrets run
    pub probed : Healthy tools id candidate secrets
    pub stored : lookup id m'.recs ≡ some c
    pub state : c.state ≡ State.verified
    pub noted : c.rest.verification ≡ some run
    pub image :
        ((is_endpoint initial.rest.supply ≡ true) × (candidate ≡ initial))
        ⊎ Pinned initial secrets candidate c

  -- Where the pipeline succeeds, the record that it answers with is stored and verified, the contract
  -- tests of the candidate passed and the record keeps what they found, and the adapter of the candidate
  -- answered its probe. Unless the plugin is an endpoint, the image was prepared, its manifest was
  -- accepted and is of the type that the plugin was installed as, its scan was clean, the secrets it asks
  -- for are there, and the record holds the manifest and the configuration as resolved against it.
  pub pipeline-Verified :
      (m m' : Memory (Details B)) (c : Record (Details B))
      → pipeline tools id m ≡ (ok c, m')
      → Verified m m' c
  unfolding pipeline
  pipeline-Verified m m' c e =
      let whole : Succeeds (pipeline tools id) m c m' = record { outcome = e } in
      bind-Succeeds whole (λ rec m1 found s. bind-Succeeds s (λ sec m2 opened s.
        bind-Succeeds s (λ r m3 entered s. bind-Succeeds s (λ cand m4 ready s.
          bind-Succeeds s (λ u m5 started s. bind-Succeeds s (λ u m6 tested s.
            bind-Succeeds s (λ r m7 checked s.
              let detail = codes "verified: contract tests and health check passed" in
              let (state, here) = enter-Succeeds tools id State.verified detail s in
              let (v, trial, noted) = test_contract-Tested tools id cand sec tested in
              record {
                initial = rec;
                secrets = sec;
                candidate = cand;
                run = v;
                found = (read-Succeeds tools id found).0;
                opened = (or_fail-Succeeds tools id (tools.open_secrets rec) opened).0;
                tested = trial;
                probed = check_health-Healthy tools id cand sec checked;
                stored = here;
                state = state;
                noted = view-stored tools id contract_run m' here (
                    Succeeds-Keeps tools id
                      (enter-Keeps tools id contract_run (λ r. refl) (λ r s d. refl) State.verified
                        detail)
                      s
                    ∙ Succeeds-Keeps tools id
                        (check_health-Keeps tools id contract_run (λ r. refl) (λ r s d. refl)
                          (λ r h. refl) (λ r h i. refl) cand sec)
                        checked
                    ∙ noted);
                image = elim (if-Succeeds (is_endpoint rec.rest.supply) ready) [
                  | inl (hosted, same) ↦ inl (hosted, sym (ok-Succeeds same))
                  | inr (built, made) ↦
                      let (pr, mf, cfg, prepares, all, there, tried) =
                        prepare_image-Checked tools id rec sec made in
                      inr (record {
                        prepared = pr;
                        mf = mf;
                        cfg = cfg;
                        prepares = prepares;
                        checked = all;
                        tried = tried;
                        kept = view-stored tools id pinning m' here (
                            Succeeds-Keeps tools id (enter-pinning tools id State.verified detail) s
                            ∙ Succeeds-Keeps tools id
                                (check_health-Keeps tools id pinning (λ r. refl) (λ r s d. refl)
                                  (λ r h. refl) (λ r h i. refl) cand sec)
                                checked
                            ∙ Succeeds-Keeps tools id (test_contract-Keeps tools id cand sec) tested
                            ∙ Succeeds-Keeps tools id (start_candidate-Keeps tools id cand sec)
                                started
                            ∙ there);
                      })
                ];
              })))))))
