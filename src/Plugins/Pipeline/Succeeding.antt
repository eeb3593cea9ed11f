-- ===== src/Plugins/Pipeline/Succeeding.antt =====
-- internal/plugins/manager/install.go: what a step of the pipeline that succeeds has done.
use llm_cache.Common.{
  ◌≡◌, ◌⊎◌, refl, sym, ap, ◌∙◌, inl, inr, Option, none, some, Bool, true, false, Str, str_key,
  if◌then◌else◌, arith, Bool-cases, Option-cases,
}
use llm_cache.Common.Dict.{lookup, lookup-insert}
use llm_cache.Common.Result.{Result, ok, err, Result-cases}
use llm_cache.Common.Word.{inc64}
use llm_cache.Plugins.{State, valid_transition}
use llm_cache.Plugins.Activation.{set_state}
use llm_cache.Plugins.Registry.{Record, Memory, get, update}
use llm_cache.Plugins.Pipeline.{
  Details, Tools, Task, bind, read, write, enter, fail, or_fail, unless, prefixed, prefix_error,
}
use llm_cache.Plugins.Pipeline.Kept.{view, Keeps}

-- A step that goes on with a value and a store.
pub record Succeeds {B A : Type 0} (t : Task B A) (m : Memory (Details B)) (a : A)
    (m' : Memory (Details B)) : Type 0 where
  pub outcome : t m ≡ (ok a, m')

pub bind-Succeeds :
    {B A A' C : Type 0} {t : Task B A} {f : A → Task B A'} {m m' : Memory (Details B)} {b : A'}
    → Succeeds (bind t f) m b m'
    → ((a : A) (m1 : Memory (Details B)) → Succeeds t m a m1 → Succeeds (f a) m1 b m' → C)
    → C
unfolding bind
bind-Succeeds {t = t} {m = m} s next =
    let e = s.outcome in
    elim (Result-cases (t m).0) [
      | inr (x, bad) ↦ absurd (ground arith)
      | inl (a, fine) ↦
          next a (t m).1 (record { outcome = λ i. (fine i, (t m).1) })
            (record { outcome = ground arith })
    ]

bind-run :
    {B A A' : Type 0} (t : Task B A) (f : A → Task B A') (m m1 : Memory (Details B)) (a : A)
    → t m ≡ (ok a, m1)
    → bind t f m ≡ f a m1
unfolding bind
bind-run t f m m1 a e = ap (λ p. elim p.0 [ err x ↦ (err x, p.1) | ok b ↦ f b p.1 ]) e

pub Succeeds-bind :
    {B A A' : Type 0} {t : Task B A} (f : A → Task B A') {m m1 m' : Memory (Details B)} {a : A}
    {b : A'}
    → Succeeds t m a m1
    → Succeeds (f a) m1 b m'
    → Succeeds (bind t f) m b m'
Succeeds-bind {t = t} f {m = m} {m1 = m1} {a = a} s s' = record {
  outcome = bind-run t f m m1 a s.outcome ∙ s'.outcome;
}

pub prefixed-ok :
    {A : Type 0} (why : Str) (r : Result Str A) (a : A) → prefixed why r ≡ ok a → r ≡ ok a
prefixed-ok why (ok b) a e = e
prefixed-ok why (err x) a e = cc

pub prefix_error-none : (why : Str) (o : Option Str) → prefix_error why o ≡ none → o ≡ none
prefix_error-none why none e = e
prefix_error-none why (some x) e = cc

pub if-Succeeds :
    {B A : Type 0} (b : Bool) {t u : Task B A} {m m' : Memory (Details B)} {a : A}
    → Succeeds (if b then t else u) m a m'
    → ((b ≡ true) × Succeeds t m a m') ⊎ ((b ≡ false) × Succeeds u m a m')
if-Succeeds true s = inl (refl, s)
if-Succeeds false s = inr (refl, s)

pub ok-Succeeds :
    {B A : Type 0} {b a : A} {m m' : Memory (Details B)}
    → Succeeds {B = B} (λ m. (ok b, m)) m a m'
    → b ≡ a
ok-Succeeds {m' = m'} s = let e = ap (λ p. p.0) s.outcome in cc

module _ {B I : Type 0} (tools : Tools B I) (id : Str) where
  pub read-Succeeds :
      {m m' : Memory (Details B)} {r : Record (Details B)}
      → Succeeds (read tools id) m r m'
      → (lookup id m.recs ≡ some r) × (m ≡ m')
  unfolding read get
  read-Succeeds {m = m} s =
      let e = s.outcome in
      elim (Option-cases (lookup id m.recs)) [
        | inl gone ↦ absurd (ground arith)
        | inr (r, here) ↦ (ground arith, ap (λ p. p.1) e)
      ]

  pub or_fail-Succeeds :
      {A : Type 0} (r : Result Str A) {m m' : Memory (Details B)} {a : A}
      → Succeeds (or_fail tools id r) m a m'
      → (r ≡ ok a) × (m ≡ m')
  unfolding or_fail fail
  or_fail-Succeeds (ok b) s = let e = s.outcome in (ground arith, ap (λ p. p.1) e)
  or_fail-Succeeds (err x) s = let e = s.outcome in absurd (ground arith)

  pub Succeeds-or_fail :
      {A : Type 0} {r : Result Str A} {m : Memory (Details B)} {a : A}
      → r ≡ ok a
      → Succeeds (or_fail tools id r) m a m
  unfolding or_fail
  Succeeds-or_fail e = record { outcome = rw (e, or_fail) refl }

  pub unless-Succeeds :
      (o : Option Str) {m m' : Memory (Details B)} {u : Unit}
      → Succeeds (unless tools id o) m u m'
      → (o ≡ none) × (m ≡ m')
  unfolding unless fail
  unless-Succeeds none s = (refl, ap (λ p. p.1) s.outcome)
  unless-Succeeds (some x) s = let e = s.outcome in absurd (ground arith)

  -- What a step that keeps a part of the record leaves of it.
  pub Succeeds-Keeps :
      {V A : Type 0} {g : Record (Details B) → V} {t : Task B A} {m m' : Memory (Details B)} {a : A}
      → Keeps tools id g t
      → Succeeds t m a m'
      → view tools id g m' ≡ view tools id g m
  Succeeds-Keeps {g = g} {m = m} k s = ap (λ p. view tools id g p.1) (sym s.outcome) ∙ k.kept m

  pub stored-view :
      {V : Type 0} (g : Record (Details B) → V) (m : Memory (Details B)) {r : Record (Details B)}
      → lookup id m.recs ≡ some r
      → view tools id g m ≡ some (g r)
  stored-view g m {r = r} here = ap (λ o. elim o [ none ↦ none | some r ↦ some (g r) ]) here

  pub view-stored :
      {V : Type 0} (g : Record (Details B) → V) (m : Memory (Details B)) {r : Record (Details B)}
      {v : V}
      → lookup id m.recs ≡ some r
      → view tools id g m ≡ some v
      → g r ≡ v
  view-stored g m here seen = let both = sym (stored-view g m here) ∙ seen in cc

  -- A write that succeeds leaves the record that it answers with in the store.
  pub write-Succeeds :
      {change : Record (Details B) → Result Str (Record (Details B))} {m m' : Memory (Details B)}
      {c : Record (Details B)}
      → Succeeds (write tools id change) m c m'
      → (r r' : Record (Details B)) × (change r ≡ ok r')
        × (c ≡ record r' { rev = inc64 r'.rev; updated_at = tools.now })
        × (lookup id m'.recs ≡ some c)
  unfolding write update
  write-Succeeds {change = change} {m = m} s =
      let e = s.outcome in
      elim (Option-cases (lookup id m.recs)) [
        | inl gone ↦ absurd (ground arith)
        | inr (r, here) ↦ elim (Result-cases (change r)) [
          | inr (x, refused) ↦ absurd (ground arith)
          | inl (r', done) ↦
              let stamped : Record (Details B) = record r' {
                rev = inc64 r'.rev;
                updated_at = tools.now;
              } in
              (r, r', done, ground arith, ground (arith, lookup-insert id id stamped m.recs))
        ]
      ]

  pub enter-Succeeds :
      (to : State) (detail : Str) {m m' : Memory (Details B)} {c : Record (Details B)}
      → Succeeds (enter tools id to detail) m c m'
      → (c.state ≡ to) × (lookup id m'.recs ≡ some c)
  unfolding enter set_state
  enter-Succeeds to detail {m = m} {m' = m'} {c = c} s =
      let stored : Succeeds (write tools id (set_state tools.illegal tools.scrub to detail)) m c
          m' =
        record { outcome = s.outcome } in
      let (r, r', done, same, here) = write-Succeeds stored in
      elim (Bool-cases (valid_transition r.state to)) [
        | inl valid ↦ (ground arith, here)
        | inr illegal ↦ absurd (ground arith)
      ]
