-- ===== src/Policy/Lfu/Tally.antt =====
-- internal/policy/lfu.go: what the state says of the calls that led to it.
use llm_cache.Common.{
  ℕ, ◌+◌, ◌≤◌, ◌<◌, ◌≡◌, refl, sym, ap, inl, inr, List, [], ◌∷◌, Option, none, some, Bool, true,
  false, Str, str_key, arith, length, Option-cases,
}
use llm_cache.Common.Dict.{
  Dict, lookup, Distinct, has, lookup-insert, lookup-erase, insert-Distinct, erase-Distinct,
}
use llm_cache.Common.Word.{inc64, inc64_small, half64}
use llm_cache.Policy.History.{uses, inserted_at}
use llm_cache.Policy.Interface.{Call, hit, insert as put, delete, flush, replay}
use llm_cache.Policy.Lfu
use llm_cache.Policy.Lfu.{
  LfuEntry, LfuPolicy, new_lfu_policy, lfu, on_hit, on_insert, on_delete, victim_over, precedes,
}

abbrev pub count_of : Option LfuEntry → Option ℕ
count_of none = none
count_of (some x) = some x.count

abbrev pub is_some : Option ℕ → Bool
is_some none = false
is_some (some t) = true

-- The state of the policy after a history, read through the history.
pub record Tallies (h : List Call) (p : LfuPolicy) : Type 0 where
  pub distinct : Distinct p.entries
  pub counts : (q : Str) → count_of (lookup q p.entries) ≡ uses q h
  pub known : (q : Str) → has q p.entries ≡ is_some (inserted_at q h)
  pub below : (q : Str) (x : LfuEntry) → lookup q p.entries ≡ some x → x.order < p.next
  pub sorted :
      (q r : Str) (x y : LfuEntry) (t u : ℕ)
      → lookup q p.entries ≡ some x
      → lookup r p.entries ≡ some y
      → inserted_at q h ≡ some t
      → inserted_at r h ≡ some u
      → t < u
      → x.order < y.order
  pub next_le : p.next ≤ length h

pub inserted_at-lt : (q : Str) (h : List Call) (t : ℕ) → inserted_at q h ≡ some t → t < length h
unfolding inserted_at
inserted_at-lt q [] t e = cc
inserted_at-lt q (hit id ∷ h) t e = omega (arith, inserted_at-lt q h t e)
inserted_at-lt q (put id ∷ h) t e = ground (arith, inserted_at-lt q h t)
inserted_at-lt q (delete id ∷ h) t e = ground (arith, inserted_at-lt q h t)
inserted_at-lt q (flush ∷ h) t e = cc

pub uses-le : (q : Str) (h : List Call) (n : ℕ) → uses q h ≡ some n → n ≤ length h
unfolding uses
uses-le q [] n e = cc
uses-le q (hit id ∷ h) n e = elim (Option-cases (uses q h)) [
  | inl gone ↦ ground arith
  | inr (k, old) ↦ ground (arith, uses-le q h k old)
]
uses-le q (put id ∷ h) n e = elim (Option-cases (uses q h)) [
  | inl gone ↦ ground arith
  | inr (k, old) ↦ ground (arith, uses-le q h k old)
]
uses-le q (delete id ∷ h) n e = ground (arith, uses-le q h n)
uses-le q (flush ∷ h) n e = cc

module _ (id : Str) (h : List Call) (p : LfuPolicy) (v : Tallies h p)
    (small : length h < half64) where
  hit-Tallies : Tallies (hit id ∷ h) (on_hit id p)
  unfolding on_hit uses inserted_at
  hit-Tallies = elim (Option-cases (lookup id p.entries)) [
    | inl gone ↦
        rw (gone, on_hit)
          (record {
            distinct = v.distinct;
            counts = λ q. ground (arith, v.counts q, v.counts id);
            known = v.known;
            below = v.below;
            sorted = v.sorted;
            next_le = omega (arith, v.next_le);
          })
    | inr (x, here) ↦
        let x' : LfuEntry = record x { count = inc64 x.count } in
        rw (here, on_hit)
          (record {
            distinct = insert-Distinct id x' p.entries v.distinct;
            counts = λ q. ground (
              arith,
              v.counts q,
              v.counts id,
              lookup-insert id q x' p.entries,
              inc64_small x.count,
              uses-le id h x.count,
            );
            known = λ q. ground (arith, v.known q, lookup-insert id q x' p.entries);
            below =
                λ q y e. ground (arith, v.below q y, v.below id x, lookup-insert id q x' p.entries);
            sorted = λ q r y z t u e f i j lt. ground (
              arith,
              lookup-insert id q x' p.entries,
              lookup-insert id r x' p.entries,
              v.sorted q r y z t u,
              v.sorted id r x z t u,
              v.sorted q id y x t u,
            );
            next_le = omega (arith, v.next_le);
          })
  ]

  put-Tallies : Tallies (put id ∷ h) (on_insert id p)
  unfolding on_insert uses inserted_at
  put-Tallies = elim (Option-cases (lookup id p.entries)) [
    | inr (x, here) ↦
        rw (here, on_insert)
          (record {
            distinct = v.distinct;
            counts = λ q. ground (arith, v.counts q, v.counts id);
            known = λ q. ground (arith, v.known q, v.known id);
            below = v.below;
            sorted = λ q r y z t u e f i j lt. ground (arith, v.sorted q r y z t u e f, v.known id);
            next_le = omega (arith, v.next_le);
          })
    | inl gone ↦
        let x : LfuEntry = record { count = 1; order = p.next } in
        let step : inc64 p.next ≡ p.next + 1 = inc64_small p.next (omega (arith, v.next_le)) in
        rw (gone, on_insert)
          (record {
            distinct = insert-Distinct id x p.entries v.distinct;
            counts = λ q. ground (arith, v.counts q, v.counts id, lookup-insert id q x p.entries);
            known = λ q. ground (arith, v.known q, v.known id, lookup-insert id q x p.entries);
            below = λ q y e. ground (arith, v.below q y, lookup-insert id q x p.entries, step);
            sorted = λ q r y z t u e f i j lt. ground (
              arith,
              lookup-insert id q x p.entries,
              lookup-insert id r x p.entries,
              v.known id,
              v.sorted q r y z t u,
              v.below q y,
              inserted_at-lt r h u,
            );
            next_le = omega (arith, v.next_le, step);
          })
  ]

  delete-Tallies : Tallies (delete id ∷ h) (on_delete id p)
  unfolding on_delete uses inserted_at
  delete-Tallies = record {
    distinct = erase-Distinct id p.entries v.distinct;
    counts = λ q. ground (arith, v.counts q, lookup-erase id q p.entries);
    known = λ q. ground (arith, v.known q, lookup-erase id q p.entries);
    below = λ q y e. ground (arith, v.below q y, lookup-erase id q p.entries);
    sorted = λ q r y z t u e f i j lt.
        ground
          (arith, lookup-erase id q p.entries, lookup-erase id r p.entries, v.sorted q r y z t u);
    next_le = omega (arith, v.next_le);
  }

empty-Tallies :
    (h : List Call)
    → ((q : Str) → uses q h ≡ none)
    → ((q : Str) → inserted_at q h ≡ none)
    → Tallies h new_lfu_policy
unfolding new_lfu_policy lookup
empty-Tallies h unused unknown = record {
  distinct = tt;
  counts = λ q. sym (unused q);
  known = λ q. ap is_some (sym (unknown q));
  below = λ q x e. cc;
  sorted = λ q r y z t u e f i j lt. cc;
  next_le = omega arith;
}

-- The policy after a history.
abbrev pub after : List Call → LfuPolicy
after = replay lfu new_lfu_policy

pub after-Tallies : (h : List Call) → length h < half64 → Tallies h (after h)
unfolding replay lfu uses inserted_at
after-Tallies [] small = empty-Tallies [] (λ q. refl) (λ q. refl)
after-Tallies (hit id ∷ h) small =
    hit-Tallies id h (after h) (after-Tallies h (omega arith)) (omega arith)
after-Tallies (put id ∷ h) small =
    put-Tallies id h (after h) (after-Tallies h (omega arith)) (omega arith)
after-Tallies (delete id ∷ h) small =
    delete-Tallies id h (after h) (after-Tallies h (omega arith)) (omega arith)
after-Tallies (flush ∷ h) small =
    unfold Lfu.flush new_lfu_policy in empty-Tallies (flush ∷ h) (λ q. refl) (λ q. refl)

-- Two listings of one map: the same entries, each once, in any order.
abbrev pub SameMap : Dict Str LfuEntry → Dict Str LfuEntry → Type 0
SameMap m n = Distinct m × ((q : Str) → lookup q m ≡ lookup q n)
