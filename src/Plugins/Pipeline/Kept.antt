-- ===== src/Plugins/Pipeline/Kept.antt =====
-- internal/plugins/manager/install.go: what the steps of the pipeline leave alone in the record.
use llm_cache.Common.{
  ◌≡◌, refl, ◌∙◌, inl, inr, Option, none, some, Bool, true, false, Str, str_key, codes,
  if◌then◌else◌, arith, Bool-cases, Option-cases,
}
use llm_cache.Common.Dict.{lookup, lookup-insert}
use llm_cache.Common.Result.{Result, ok, err, Result-cases}
use llm_cache.Common.Word.{inc64}
use llm_cache.Plugins.{State, valid_transition}
use llm_cache.Plugins.Activation.{set_state}
use llm_cache.Plugins.Registry.{Record, Memory, update}
use llm_cache.Plugins.Pipeline.{
  Details, Tools, Task, bind, write, enter, attempt, fail, or_fail, unless,
}

module _ {B I V : Type 0} (tools : Tools B I) (id : Str) (g : Record (Details B) → V) where
  -- A part of the record of the plugin, if there is one.
  abbrev pub view : Memory (Details B) → Option V
  view m = elim (lookup id m.recs) [ none ↦ none | some r ↦ some (g r) ]

  pub record Keeps {A : Type 0} (t : Task B A) : Type 0 where
    pub kept : (m : Memory (Details B)) → view (t m).1 ≡ view m

  pub bind-Keeps :
      {A A' : Type 0} {t : Task B A} {f : A → Task B A'}
      → Keeps t
      → ((a : A) → Keeps (f a))
      → Keeps (bind t f)
  unfolding bind
  bind-Keeps {t = t} kt kf = record {
    kept = λ m. elim (Result-cases (t m).0) [
      | inl (a, fine) ↦ rw (fine, bind) ((kf a).kept (t m).1 ∙ kt.kept m)
      | inr (e, bad) ↦ rw (bad, bind) (kt.kept m)
    ];
  }

  pub attempt-Keeps : {A : Type 0} {t : Task B A} → Keeps t → Keeps (attempt tools t)
  unfolding attempt
  attempt-Keeps k = record { kept = k.kept }

  pub ok-Keeps : {A : Type 0} {a : A} → Keeps (λ m. (ok a, m))
  ok-Keeps = record { kept = λ m. refl }

  pub if-Keeps :
      {A : Type 0} (b : Bool) {t u : Task B A} → Keeps t → Keeps u → Keeps (if b then t else u)
  if-Keeps true kt ku = kt
  if-Keeps false kt ku = ku

  -- The part hangs neither on the revision and the time of a record nor on its state.
  module _
      (unstamped : (r : Record (Details B))
        → g (record r { rev = inc64 r.rev; updated_at = tools.now }) ≡ g r)
      (stateless : (r : Record (Details B)) (s : State) (d : Str)
        → g (record r { state = s; state_detail = d }) ≡ g r) where
    pub write-Keeps :
        (change : Record (Details B) → Result Str (Record (Details B)))
        → ((r r' : Record (Details B)) → change r ≡ ok r' → g r' ≡ g r)
        → Keeps (write tools id change)
    unfolding write update
    write-Keeps change keeps = record {
      kept = λ m. elim (Option-cases (lookup id m.recs)) [
        | inl gone ↦ ground arith
        | inr (r, here) ↦ elim (Result-cases (change r)) [
          | inr (e, refused) ↦ ground arith
          | inl (r', done) ↦
              let c : Record (Details B) = record r' {
                rev = inc64 r'.rev;
                updated_at = tools.now;
              } in
              ground (arith, lookup-insert id id c m.recs, unstamped r', keeps r r' done)
        ]
      ];
    }

    set_state-kept :
        (to : State) (detail : Str) (r r' : Record (Details B))
        → set_state tools.illegal tools.scrub to detail r ≡ ok r'
        → g r' ≡ g r
    unfolding set_state
    set_state-kept to detail r r' e = elim (Bool-cases (valid_transition r.state to)) [
      | inl valid ↦
          let same : record r { state = to; state_detail = tools.scrub detail } ≡ r' =
            ground arith in
          rw (← same) (stateless r to (tools.scrub detail))
      | inr illegal ↦ absurd (ground arith)
    ]

    pub enter-Keeps : (to : State) (detail : Str) → Keeps (enter tools id to detail)
    unfolding enter
    enter-Keeps to detail =
        write-Keeps (set_state tools.illegal tools.scrub to detail) (set_state-kept to detail)

    -- Nor on the health.
    module _
        (insensitive : (r : Record (Details B)) (h : Str)
          → g (record r { rest = record r.rest { health = h } }) ≡ g r) where
      pub fail-Keeps : (A : Type 0) (cause : Str) → Keeps (fail tools {A = A} id cause)
      unfolding fail
      fail-Keeps A cause = record {
        kept =
            (write-Keeps
              (λ r. ok (record r {
                state = State.failed;
                state_detail = tools.scrub cause;
                rest = record r.rest { health = codes "unknown" };
              }))
              (λ r r' e.
                let same : record r {
                  state = State.failed;
                  state_detail = tools.scrub cause;
                  rest = record r.rest { health = codes "unknown" };
                }
                    ≡ r' =
                  ground arith in
                rw (← same) (
                  insensitive (record r { state = State.failed; state_detail = tools.scrub cause })
                    (codes "unknown")
                  ∙ stateless r State.failed (tools.scrub cause)))).kept;
      }

      pub or_fail-Keeps : {A : Type 0} (r : Result Str A) → Keeps (or_fail tools id r)
      unfolding or_fail
      or_fail-Keeps (ok a) = record { kept = λ m. refl }
      or_fail-Keeps {A = A} (err e) = record { kept = (fail-Keeps A e).kept }

      pub unless-Keeps : (o : Option Str) → Keeps (unless tools id o)
      unfolding unless
      unless-Keeps none = record { kept = λ m. refl }
      unless-Keeps (some e) = record { kept = (fail-Keeps Unit e).kept }
