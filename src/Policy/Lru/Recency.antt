-- ===== src/Policy/Lru/Recency.antt =====
-- internal/policy/lru.go: what `Victim` returns after any sequence of calls.
use llm_cache.Common.{
  ℕ, ◌≤◌, ◌<◌, ◌≡◌, refl, sym, ◌∙◌, List, [], ◌∷◌, none, some, Str, str_key, Str-discrete, arith,
  length, get_last?, get_last?-none, ite, ◌↔◌, suc,
}
use llm_cache.Common.Dict.{
  Dict, lookup, erase, keys, contains-keys, keys-erase, lookup-erase, lookup-cons, Distinct,
  erase-Distinct, lookup-erase_self, keys-empty_iff,
}
use llm_cache.Policy.GoList
use llm_cache.Policy.History.{last_use}
use llm_cache.Policy.Interface.{Call, hit, insert, delete, flush, replay}
use llm_cache.Policy.Lru
use llm_cache.Policy.Lru.{LruPolicy, new_lru_policy, lru}
use llm_cache.Policy.Lru.Refines
use llm_cache.Policy.Lru.Refines.{IsValid, tracked}

-- The tracked ids with the times of their last uses, the latest first.
table : List Call → Dict Str ℕ
table [] = []
table (hit id ∷ h) =
    let m = table h in elim (lookup id m) [ none ↦ m | some _ ↦ (id, length h) ∷ erase id m ]
table (insert id ∷ h) = (id, length h) ∷ erase id (table h)
table (delete id ∷ h) = erase id (table h)
table (flush ∷ h) = []

lookup-table : (q : Str) (h : List Call) → lookup q (table h) ≡ last_use q h
unfolding table lookup last_use
lookup-table q [] = refl
lookup-table q (hit id ∷ h) = ground (
  arith,
  lookup-table q h,
  lookup-erase id q (table h),
  lookup-cons id q (length h) (erase id (table h)),
)
lookup-table q (insert id ∷ h) = ground (arith, lookup-table q h, lookup-erase id q (table h))
lookup-table q (delete id ∷ h) = ground (arith, lookup-table q h, lookup-erase id q (table h))
lookup-table q (flush ∷ h) = refl

table-Distinct : (h : List Call) → Distinct (table h)
unfolding table
table-Distinct [] = tt
table-Distinct (hit id ∷ h) =
    ground (arith, table-Distinct h, lookup-erase_self id (table h), erase-Distinct id (table h))
table-Distinct (insert id ∷ h) =
    (lookup-erase_self id (table h), erase-Distinct id (table h) (table-Distinct h))
table-Distinct (delete id ∷ h) = erase-Distinct id (table h) (table-Distinct h)
table-Distinct (flush ∷ h) = tt

-- The times fall along the table, from below the bound.
abbrev Falls : ℕ → Dict Str ℕ → Type 0
Falls b [] = Unit
Falls b ((k, t) ∷ m) = (t < b) × Falls t m

Falls-weaken : (b c : ℕ) (m : Dict Str ℕ) → b ≤ c → Falls b m → Falls c m
Falls-weaken b c [] le f = f
Falls-weaken b c ((k, t) ∷ m) le f = (omega arith, f.1)

Falls-erase : (b : ℕ) (k : Str) (m : Dict Str ℕ) → Falls b m → Falls b (erase k m)
unfolding erase
Falls-erase b k [] f = f
Falls-erase b k ((j, t) ∷ m) f =
    elim (Str-discrete j k) as (λ d. Falls b (ite d (erase k m) ((j, t) ∷ erase k m))) [
      | yes e ↦ Falls-weaken t b (erase k m) (omega arith) (Falls-erase t k m f.1)
      | no ne ↦ (f.0, Falls-erase t k m f.1)
    ]

Falls-lookup : (b t : ℕ) (q : Str) (m : Dict Str ℕ) → Falls b m → lookup q m ≡ some t → t < b
unfolding lookup
Falls-lookup b t q [] f e = cc
Falls-lookup b t q ((j, u) ∷ m) f e = ground (arith, Falls-lookup u t q m f.1)

table-Falls : (h : List Call) → Falls (length h) (table h)
unfolding table
table-Falls [] = tt
table-Falls (hit id ∷ h) = ground (
  arith,
  Falls-weaken (length h) (suc (length h)) (table h),
  Falls-erase (length h) id (table h),
  table-Falls h,
)
table-Falls (insert id ∷ h) = (omega arith, Falls-erase (length h) id (table h) (table-Falls h))
table-Falls (delete id ∷ h) =
    Falls-weaken (length h) (suc (length h)) (erase id (table h)) (omega arith)
      (Falls-erase (length h) id (table h) (table-Falls h))
table-Falls (flush ∷ h) = tt

-- The last key of a falling table has the least time.
last-least :
    (b : ℕ) (v : Str) (m : Dict Str ℕ)
    → Falls b m
    → Distinct m
    → get_last? (keys m) ≡ some v
    → (n : ℕ) × (lookup v m ≡ some n) × ((q : Str) (t : ℕ) → lookup q m ≡ some t → n ≤ t)
unfolding lookup
last-least b v [] f d e = absurd (cc)
last-least b v ((k, t) ∷ []) f d e = (t, ground arith, λ q u h. ground arith)
last-least b v ((k, t) ∷ (j, u) ∷ m) f d e =
    let (n, here, least) = last-least t v ((j, u) ∷ m) f.1 d.1 e in
    (n, ground arith, λ q w h. ground (arith, Falls-lookup t n v ((j, u) ∷ m) f.1, least q w))

-- The policy after a history.
abbrev pub after : List Call → LruPolicy
after = replay lru new_lru_policy

module _ (id : Str) (p : LruPolicy) (v : IsValid p) (m : Dict Str ℕ) (t : ℕ)
    (e : tracked p ≡ keys m) where
  hit-keys :
      tracked (Lru.on_hit id p)
      ≡ keys (elim (lookup id m) as (λ _. Dict Str ℕ) [ none ↦ m | some _ ↦ (id, t) ∷ erase id m ])
  hit-keys = ground (arith, Refines.tracked-on_hit id p v, contains-keys id m, keys-erase id m)

after-tracks : (h : List Call) → IsValid (after h) × (tracked (after h) ≡ keys (table h))
unfolding table replay lru
after-tracks [] = (Refines.new_lru_policy-IsValid, Refines.tracked-new_lru_policy)
after-tracks (hit id ∷ h) =
    let (v, e) = after-tracks h in
    (Refines.on_hit-IsValid id (after h) v, hit-keys id (after h) v (table h) (length h) e)
after-tracks (insert id ∷ h) =
    let (v, e) = after-tracks h in
    (
      Refines.on_insert-IsValid id (after h) v,
      ground (arith, Refines.tracked-on_insert id (after h) v, keys-erase id (table h)),
    )
after-tracks (delete id ∷ h) =
    let (v, e) = after-tracks h in
    (
      Refines.on_delete-IsValid id (after h) v,
      ground (arith, Refines.tracked-on_delete id (after h) v, keys-erase id (table h)),
    )
after-tracks (flush ∷ h) = (Refines.flush-IsValid (after h), Refines.tracked-flush (after h))

-- After any calls, the victim of the LRU policy is a tracked id, and no tracked id was last used
-- before it.
pub victim-last_use :
    (h : List Call) (v : Str)
    → Lru.victim (after h) ≡ some v
    → (n : ℕ) × (last_use v h ≡ some n) × ((q : Str) (t : ℕ) → last_use q h ≡ some t → n ≤ t)
unfolding Lru.victim GoList.back
victim-last_use h v e =
    let (n, here, least) =
      last-least (length h) v (table h) (table-Falls h) (table-Distinct h)
        (rw (← (after-tracks h).1) e) in
    (n, sym (lookup-table v h) ∙ here, λ q t u. least q t (lookup-table q h ∙ u))

-- The LRU policy has no victim exactly when no id is tracked.
pub victim_none-last_use :
    (h : List Call) → (Lru.victim (after h) ≡ none) ↔ ((q : Str) → last_use q h ≡ none)
unfolding Lru.victim GoList.back
victim_none-last_use h =
    let e = (after-tracks h).1 in
    let (only_if, back) = keys-empty_iff (table h) in
    (
      λ gone q. sym (lookup-table q h) ∙ only_if (sym e ∙ get_last?-none _ gone) q,
      λ unused. rw (e, back (λ q. lookup-table q h ∙ unused q)),
    )
