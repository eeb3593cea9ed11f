-- ===== src/Plugins/Pipeline/Checking.antt =====
-- internal/plugins/manager/install.go: what the pipeline checks of a prepared image.
use llm_cache.Common.{
  ◌≡◌, refl, sym, ap, ◌∙◌, inl, inr, Option, none, some, Str, str_key, Str-discrete, codes, arith,
  Option-cases,
}
use llm_cache.Common.Dict.{Dict, lookup, keys}
use llm_cache.Common.Result.{ok, Result-cases}
use llm_cache.Common.Word.{inc64}
use llm_cache.Manifest.Document.{Value}
use llm_cache.Manifest.Schema.{Manifest}
use llm_cache.Manifest.Settings.{resolve_config, check_secrets}
use llm_cache.Manifest.Parsing.{parse, parse-Parsed}
use llm_cache.Manifest.Validation.Accepted.{Accepted}
use llm_cache.Plugins.{State, text}
use llm_cache.Plugins.Registry.{Record, Memory}
use llm_cache.Plugins.Pipeline.{
  Details, Verification, Prepared, Tools, is_repository, write, enter, check_prepared, pinned,
  enter_scanned, prepare_image,
}
use llm_cache.Plugins.Pipeline.Kept.{
  view, Keeps, bind-Keeps, attempt-Keeps, ok-Keeps, if-Keeps, enter-Keeps,
}
use llm_cache.Plugins.Pipeline.Succeeding.{
  Succeeds, bind-Succeeds, prefixed-ok, read-Succeeds, or_fail-Succeeds, Succeeds-Keeps,
  stored-view, view-stored, write-Succeeds,
}

-- What the record keeps of its manifest and configuration, and of its contract run.
abbrev pub pinning : {B : Type 0} → Record (Details B) → Option Manifest × Dict Str Value
pinning r = (r.rest.manifest, r.rest.config)

abbrev pub contract_run : {B : Type 0} → Record (Details B) → Option Verification
contract_run r = r.rest.verification

module _ {B I : Type 0} (tools : Tools B I) (id : Str) where
  -- What the checks of an image found, for the record of its plugin and its secrets.
  pub record Checked (rec : Record (Details B)) (sec : Dict Str Str) (pr : Prepared B)
      (mf : Manifest) (cfg : Dict Str Value) : Type 0 where
    pub parsed : parse tools.yaml tools.nums pr.manifest_text ≡ ok mf
    pub accepted : Accepted mf
    pub installed_as : mf.spec.type ≡ text rec.kind
    pub resolved : resolve_config tools.nums mf.spec.properties rec.rest.config ≡ ok cfg
    pub supplied : check_secrets mf.spec.secrets (keys sec) ≡ none
    pub clean : pr.scan_failed ≡ none

  pub check_prepared-Checked :
      (rec : Record (Details B)) (sec : Dict Str Str) (pr : Prepared B)
      (p : Manifest × Dict Str Value)
      → check_prepared tools rec (keys sec) pr ≡ ok p
      → Checked rec sec pr p.0 p.1
  unfolding check_prepared
  check_prepared-Checked rec sec pr p e =
      elim (Result-cases (parse tools.yaml tools.nums pr.manifest_text)) [
        | inr (issues, bad) ↦ absurd (ground arith)
        | inl (mf, parsed) ↦ elim (Str-discrete mf.spec.type (text rec.kind)) [
          | no other ↦ absurd (ground arith)
          | yes same ↦
              elim (Result-cases (resolve_config tools.nums mf.spec.properties rec.rest.config)) [
                | inr (problems, bad) ↦ absurd (ground arith)
                | inl (cfg, resolved) ↦
                    elim (Option-cases (check_secrets mf.spec.secrets (keys sec))) [
                      | inr (problems, bad) ↦ absurd (ground arith)
                      | inl supplied ↦ elim (Option-cases pr.scan_failed) [
                        | inr (why, bad) ↦ absurd (ground arith)
                        | inl clean ↦
                            let it : mf ≡ p.0 = ground arith in
                            let its : cfg ≡ p.1 = ground arith in
                            let all : Checked rec sec pr mf cfg = record {
                              parsed = parsed;
                              accepted =
                                  (parse-Parsed tools.yaml tools.nums pr.manifest_text mf
                                    parsed).accepted;
                              installed_as = same;
                              resolved = resolved;
                              supplied = supplied;
                              clean = clean;
                            } in
                            rw (← it, ← its) all
                      ]
                    ]
              ]
        ]
      ]

  pub enter-pinning :
      (to : State) (detail : Str) → Keeps tools id pinning (enter tools id to detail)
  enter-pinning to detail = enter-Keeps tools id pinning (λ r. refl) (λ r s d. refl) to detail

  pub pinned-view :
      (mf : Manifest) (cfg : Dict Str Value) (build : B) {m m' : Memory (Details B)}
      {c : Record (Details B)}
      → Succeeds (write tools id (pinned tools mf cfg build)) m c m'
      → view tools id pinning m' ≡ some (some mf, cfg)
  pinned-view mf cfg build {m' = m'} {c = c} s =
      let (r, r', done, same, here) = write-Succeeds tools id s in
      let it : record (record r {
        rest = record r.rest {
          manifest = some mf;
          name = mf.metadata.name;
          version = mf.metadata.version;
          config = cfg;
          build = some build;
        };
      }) { rev = inc64 r.rev; updated_at = tools.now }
          ≡ c =
        ground arith in
      stored-view tools id pinning m' here ∙ ap (λ x. some (pinning x)) (sym it)

  pub enter_scanned-Keeps :
      (rec : Record (Details B)) → Keeps tools id pinning (enter_scanned tools id rec)
  unfolding enter_scanned
  enter_scanned-Keeps rec =
      if-Keeps tools id pinning (is_repository rec.rest.supply)
        (bind-Keeps tools id pinning (enter-pinning State.scanning (codes "scanned"))
          (λ r. ok-Keeps tools id pinning))
        (attempt-Keeps tools id pinning (enter-pinning State.scanning (codes "scanned")))

  -- A prepared image leaves its manifest and its resolved configuration in the record.
  pub prepare_image-Checked :
      (rec : Record (Details B)) (sec : Dict Str Str) {m m' : Memory (Details B)}
      {c : Record (Details B)}
      → Succeeds (prepare_image tools id rec sec) m c m'
      → (pr : Prepared B) × (mf : Manifest) × (cfg : Dict Str Value) × (tools.prepare rec ≡ ok pr)
        × Checked rec sec pr mf cfg
        × (view tools id pinning m' ≡ some (some mf, cfg))
        × (pinning c ≡ (some mf, cfg))
  unfolding prepare_image
  prepare_image-Checked rec sec {m' = m'} {c = c} s = bind-Succeeds s (λ r m1 entered s.
      bind-Succeeds s (λ pr m2 prepared s. bind-Succeeds s (λ p m3 checked s.
        bind-Succeeds s (λ d m4 written s. bind-Succeeds s (λ u m5 scanned s.
          let (there, same) = read-Succeeds tools id s in
          let kept : view tools id pinning m' ≡ some (some p.0, p.1) =
            ap (view tools id pinning) (sym same)
            ∙ Succeeds-Keeps tools id (enter_scanned-Keeps rec) scanned
            ∙ pinned-view p.0 p.1 pr.build written in
          (
            pr,
            p.0,
            p.1,
            prefixed-ok (codes "prepare: ") (tools.prepare rec) pr
                (or_fail-Succeeds tools id _ prepared).0,
            check_prepared-Checked rec sec pr p (or_fail-Succeeds tools id _ checked).0,
            kept,
            view-stored tools id pinning m' (ap (λ x. lookup id x.recs) (sym same) ∙ there) kept,
          ))))))
