-- ===== src/Plugins/Pipeline/Trial.antt =====
-- internal/plugins/manager/install.go: the steps of the pipeline from the candidate to its health check.
use llm_cache.Common.{
  ◌≡◌, refl, sym, ap, ◌∙◌, inl, inr, [], none, some, true, Str, str_key, codes, if◌then◌else◌,
  arith, Bool-cases,
}
use llm_cache.Common.Dict.{Dict, lookup, lookup-insert}
use llm_cache.Common.Result.{ok}
use llm_cache.Common.Word.{inc64}
use llm_cache.Plugins.{State}
use llm_cache.Plugins.Registry.{Record, Memory, update}
use llm_cache.Plugins.Pipeline.{
  Details, Verification, Tools, is_endpoint, write, attempt, prefixed, prefix_error,
  start_candidate, verified_by, test_contract, healthy, check_health,
}
use llm_cache.Plugins.Pipeline.Kept.{
  view, Keeps, bind-Keeps, attempt-Keeps, ok-Keeps, if-Keeps, write-Keeps, enter-Keeps,
  or_fail-Keeps, unless-Keeps,
}
use llm_cache.Plugins.Pipeline.Succeeding.{
  Succeeds, bind-Succeeds, prefixed-ok, prefix_error-none, or_fail-Succeeds, unless-Succeeds,
  enter-Succeeds,
}
use llm_cache.Plugins.Pipeline.Checking.{pinning, contract_run, enter-pinning}

module _ {B I : Type 0} (tools : Tools B I) (id : Str) where
  pub start_candidate-Keeps :
      (rec : Record (Details B)) (sec : Dict Str Str)
      → Keeps tools id pinning (start_candidate tools id rec sec)
  unfolding start_candidate
  start_candidate-Keeps rec sec =
      if-Keeps tools id pinning (is_endpoint rec.rest.supply) (ok-Keeps tools id pinning) (
        bind-Keeps tools id pinning
          (enter-pinning tools id State.starting (codes "starting isolated candidate"))
          (λ r.
            unless-Keeps tools id pinning (λ r. refl) (λ r s d. refl) (λ r h. refl)
              (tools.ensure_instance rec sec)))

  pub verified_by-pinning :
      (v : Verification) → Keeps tools id pinning (write tools id (verified_by tools v))
  verified_by-pinning v =
      write-Keeps tools id pinning (λ r. refl) (λ r s d. refl) (verified_by tools v)
        (λ r r' e.
          let same : record r { rest = record r.rest { verification = some v } } ≡ r' =
            ground arith in
          rw (← same) refl)

  -- The contract tests of a record passed, and the record keeps what they found.
  pub record Tested (rec : Record (Details B)) (sec : Dict Str Str) (v : Verification)
      : Type 0 where
    pub ran : tools.run_contract rec sec ≡ ok v
    pub passed : v.passed ≡ true

  pub attempt-stored :
      (v : Verification) {m m' : Memory (Details B)} {r : Record (Details B)} {u : Unit}
      → lookup id m.recs ≡ some r
      → Succeeds (attempt tools (write tools id (verified_by tools v))) m u m'
      → view tools id contract_run m' ≡ some (some v)
  unfolding attempt write update
  attempt-stored v {m = m} {r = r} here s =
      let e = s.outcome in
      let c : Record (Details B) =
        record (record r { rest = record r.rest { verification = some v } }) {
          rev = inc64 r.rev;
          updated_at = tools.now;
        } in
      let found = lookup-insert id id c m.recs in ground arith

  pub test_contract-Keeps :
      (rec : Record (Details B)) (sec : Dict Str Str)
      → Keeps tools id pinning (test_contract tools id rec sec)
  unfolding test_contract
  test_contract-Keeps rec sec =
      bind-Keeps tools id pinning
        (enter-pinning tools id State.testing (codes "running contract tests"))
        (λ r.
          bind-Keeps tools id pinning
            (or_fail-Keeps tools id pinning (λ r. refl) (λ r s d. refl) (λ r h. refl)
              (prefixed (codes "contract tests could not run: ") (tools.run_contract rec sec)))
            (λ v.
              bind-Keeps tools id pinning (attempt-Keeps tools id pinning (verified_by-pinning v))
                (λ u.
                  unless-Keeps tools id pinning (λ r. refl) (λ r s d. refl) (λ r h. refl)
                    (if v.passed then none else some v.summary))))

  pub unless_failed :
      (v : Verification) → (if v.passed then none else some v.summary) ≡ none → v.passed ≡ true
  unless_failed v e = elim (Bool-cases v.passed) [
    | inl passed ↦ passed
    | inr failed ↦ absurd (ground arith)
  ]

  pub test_contract-Tested :
      (rec : Record (Details B)) (sec : Dict Str Str) {m m' : Memory (Details B)} {u : Unit}
      → Succeeds (test_contract tools id rec sec) m u m'
      → (v : Verification) × Tested rec sec v × (view tools id contract_run m' ≡ some (some v))
  unfolding test_contract
  test_contract-Tested rec sec s = bind-Succeeds s (λ r m1 entered s.
      bind-Succeeds s (λ v m2 tried s. bind-Succeeds s (λ u m3 noted s.
        let (ran, same) = or_fail-Succeeds tools id _ tried in
        let (passed, alike) = unless-Succeeds tools id _ s in
        let here =
          (enter-Succeeds tools id State.testing (codes "running contract tests") entered).1 in
        (
          v,
          record {
            ran =
                prefixed-ok (codes "contract tests could not run: ") (tools.run_contract rec sec) v
                  ran;
            passed = unless_failed v passed;
          },
          ap (view tools id contract_run) (sym alike)
              ∙ attempt-stored v (ap (λ x. lookup id x.recs) (sym same) ∙ here) noted,
        ))))

  -- A part of the record that hangs neither on the stamps, the state nor the health of the plugin is
  -- left alone by the health check.
  pub check_health-Keeps :
      {V : Type 0} (g : Record (Details B) → V)
      → ((r : Record (Details B))
          → g (record r { rev = inc64 r.rev; updated_at = tools.now }) ≡ g r)
      → ((r : Record (Details B)) (s : State) (d : Str)
          → g (record r { state = s; state_detail = d }) ≡ g r)
      → ((r : Record (Details B)) (h : Str)
          → g (record r { rest = record r.rest { health = h } }) ≡ g r)
      → ((r : Record (Details B)) (h i : Str)
          → g (record r { rest = record r.rest { health = h; instance_id = i } }) ≡ g r)
      → (rec : Record (Details B)) (sec : Dict Str Str)
      → Keeps tools id g (check_health tools id rec sec)
  unfolding check_health
  check_health-Keeps g unstamped stateless insensitive placeless rec sec =
      bind-Keeps tools id g
        (enter-Keeps tools id g unstamped stateless State.checking (codes "checking health"))
        (λ r.
          bind-Keeps tools id g
            (or_fail-Keeps tools id g unstamped stateless insensitive (tools.build_adapter rec sec))
            (λ adapter.
              bind-Keeps tools id g
                (unless-Keeps tools id g unstamped stateless insensitive
                  (prefix_error (codes "health check failed: ") (tools.probe_health adapter)))
                (λ u. write-Keeps tools id g unstamped stateless (healthy tools rec) (λ r r' e.
                  let place : Str = if is_endpoint rec.rest.supply then [] else r.id in
                  let same : record r {
                    rest = record r.rest { health = codes "healthy"; instance_id = place };
                  }
                      ≡ r' =
                    ground arith in
                  rw (← same) (placeless r (codes "healthy") place)))))

  -- The adapter of a plugin answers its probe.
  pub record Healthy (rec : Record (Details B)) (sec : Dict Str Str) : Type 0 where
    pub adapter : I
    pub built : tools.build_adapter rec sec ≡ ok adapter
    pub probed : tools.probe_health adapter ≡ none

  pub check_health-Healthy :
      (rec : Record (Details B)) (sec : Dict Str Str) {m m' : Memory (Details B)}
      {c : Record (Details B)}
      → Succeeds (check_health tools id rec sec) m c m'
      → Healthy rec sec
  unfolding check_health
  check_health-Healthy rec sec s = bind-Succeeds s (λ r m1 entered s.
      bind-Succeeds s (λ adapter m2 built s. bind-Succeeds s (λ u m3 probed s. record {
        adapter = adapter;
        built = (or_fail-Succeeds tools id (tools.build_adapter rec sec) built).0;
        probed =
            prefix_error-none (codes "health check failed: ") (tools.probe_health adapter)
              (unless-Succeeds tools id _ probed).0;
      })))
