-- ===== src/Policy/Fifo/Arrival.antt =====
-- internal/policy/fifo.go: what `Victim` returns after any sequence of calls.
use llm_cache.Common.{
  ℕ, suc, ◌≤◌, ◌<◌, ◌≡◌, refl, sym, ◌∙◌, List, [], ◌∷◌, ◌++◌, none, some, Str, str_key, arith,
  length, head?, head?-none, All, ◌↔◌, Option-cases, inl, inr,
}
use llm_cache.Common.Dict.{
  Dict, lookup, erase, keys, contains-keys, keys-erase, lookup-erase, lookup-append_last, Distinct,
  erase-Distinct, append_last-Distinct, keys-append_last, keys-empty_iff,
}
use llm_cache.Policy.History.{inserted_at}
use llm_cache.Policy.Interface.{Call, hit, insert, delete, flush, replay}
use llm_cache.Policy.Fifo
use llm_cache.Policy.Fifo.{FifoPolicy, new_fifo_policy, fifo}
use llm_cache.Policy.Fifo.Refines
use llm_cache.Policy.Fifo.Refines.{IsValid, tracked}

-- The tracked ids with the times of their admissions, the earliest first.
admit : Str → ℕ → Dict Str ℕ → Dict Str ℕ
admit id t m = elim (lookup id m) [ some _ ↦ m | none ↦ m ++ (id, t) ∷ [] ]

table : List Call → Dict Str ℕ
table [] = []
table (hit id ∷ h) = table h
table (insert id ∷ h) = admit id (length h) (table h)
table (delete id ∷ h) = erase id (table h)
table (flush ∷ h) = []

lookup-table : (q : Str) (h : List Call) → lookup q (table h) ≡ inserted_at q h
unfolding table lookup inserted_at admit
lookup-table q [] = refl
lookup-table q (hit id ∷ h) = lookup-table q h
lookup-table q (insert id ∷ h) =
    ground (arith, lookup-table q h, lookup-append_last id q (length h) (table h))
lookup-table q (delete id ∷ h) = ground (arith, lookup-table q h, lookup-erase id q (table h))
lookup-table q (flush ∷ h) = refl

table-Distinct : (h : List Call) → Distinct (table h)
unfolding table admit
table-Distinct [] = tt
table-Distinct (hit id ∷ h) = table-Distinct h
table-Distinct (insert id ∷ h) =
    ground (arith, table-Distinct h, append_last-Distinct id (length h) (table h))
table-Distinct (delete id ∷ h) = erase-Distinct id (table h) (table-Distinct h)
table-Distinct (flush ∷ h) = tt

-- The times rise along the table, and stay below the bound.
abbrev Above : ℕ → Dict Str ℕ → Type 0
Above t = All (λ p. t < p.1)

abbrev Below : ℕ → Dict Str ℕ → Type 0
Below b = All (λ p. p.1 < b)

abbrev Rises : Dict Str ℕ → Type 0
Rises [] = Unit
Rises ((k, t) ∷ m) = Above t m × Rises m

module _ (P : Str × ℕ → Type 0) where
  All-erase : (k : Str) (m : Dict Str ℕ) → All P m → All P (erase k m)
  unfolding erase
  All-erase k [] f = f
  All-erase k ((j, t) ∷ m) f = ground (arith, All-erase k m f.1)

  All-append_last : (p : Str × ℕ) (m : Dict Str ℕ) → P p → All P m → All P (m ++ p ∷ [])
  All-append_last p [] x f = (x, tt)
  All-append_last p (r ∷ m) x f = (f.0, All-append_last p m x f.1)

Below-weaken : (b : ℕ) (m : Dict Str ℕ) → Below b m → Below (suc b) m
Below-weaken b [] f = f
Below-weaken b (r ∷ m) f = (omega arith, Below-weaken b m f.1)

Rises-erase : (k : Str) (m : Dict Str ℕ) → Rises m → Rises (erase k m)
unfolding erase
Rises-erase k [] f = f
Rises-erase k ((j, t) ∷ m) f = ground (arith, All-erase (λ p. t < p.1) k m f.0, Rises-erase k m f.1)

Rises-append_last :
    (k : Str) (b : ℕ) (m : Dict Str ℕ) → Below b m → Rises m → Rises (m ++ (k, b) ∷ [])
Rises-append_last k b [] l f = (tt, tt)
Rises-append_last k b ((j, t) ∷ m) l f =
    (All-append_last (λ p. t < p.1) (k, b) m l.0 f.0, Rises-append_last k b m l.1 f.1)

Above-lookup : (b t : ℕ) (q : Str) (m : Dict Str ℕ) → Above b m → lookup q m ≡ some t → b < t
unfolding lookup
Above-lookup b t q [] f e = cc
Above-lookup b t q ((j, u) ∷ m) f e = ground (arith, Above-lookup b t q m f.1)

admit-Below : (id : Str) (t : ℕ) (m : Dict Str ℕ) → Below t m → Below (suc t) (admit id t m)
unfolding admit
admit-Below id t m b = elim (Option-cases (lookup id m)) [
  | inl e ↦
      rw (e, admit)
        (All-append_last (λ p. p.1 < suc t) (id, t) m (omega arith) (Below-weaken t m b))
  | inr (u, e) ↦ rw (e, admit) (Below-weaken t m b)
]

table-Below : (h : List Call) → Below (length h) (table h)
unfolding table
table-Below [] = tt
table-Below (hit id ∷ h) = Below-weaken (length h) (table h) (table-Below h)
table-Below (insert id ∷ h) = admit-Below id (length h) (table h) (table-Below h)
table-Below (delete id ∷ h) =
    Below-weaken (length h) (erase id (table h))
      (All-erase (λ p. p.1 < length h) id (table h) (table-Below h))
table-Below (flush ∷ h) = tt

table-Rises : (h : List Call) → Rises (table h)
unfolding table admit
table-Rises [] = tt
table-Rises (hit id ∷ h) = table-Rises h
table-Rises (insert id ∷ h) =
    ground (arith, table-Rises h, Rises-append_last id (length h) (table h) (table-Below h))
table-Rises (delete id ∷ h) = Rises-erase id (table h) (table-Rises h)
table-Rises (flush ∷ h) = tt

-- The first key of a rising table has the least time.
first-least :
    (v : Str) (m : Dict Str ℕ)
    → Rises m
    → head? (keys m) ≡ some v
    → (n : ℕ) × (lookup v m ≡ some n) × ((q : Str) (t : ℕ) → lookup q m ≡ some t → n ≤ t)
unfolding lookup
first-least v [] f e = absurd (cc)
first-least v ((k, t) ∷ m) f e =
    (t, ground arith, λ q u h. ground (arith, Above-lookup t u q m f.0))

-- The policy after a history.
abbrev pub after : List Call → FifoPolicy
after = replay fifo new_fifo_policy

after-tracks : (h : List Call) → IsValid (after h) × (tracked (after h) ≡ keys (table h))
unfolding table replay fifo Fifo.on_hit admit
after-tracks [] = (Refines.new_fifo_policy-IsValid, Refines.tracked-new_fifo_policy)
after-tracks (hit id ∷ h) = after-tracks h
after-tracks (insert id ∷ h) =
    let (v, e) = after-tracks h in
    (
      Refines.on_insert-IsValid id (after h) v,
      ground (
        arith,
        Refines.tracked-on_insert id (after h) v,
        contains-keys id (table h),
        keys-append_last id (length h) (table h),
      ),
    )
after-tracks (delete id ∷ h) =
    let (v, e) = after-tracks h in
    (
      Refines.on_delete-IsValid id (after h) v,
      ground (arith, Refines.tracked-on_delete id (after h) v, keys-erase id (table h)),
    )
after-tracks (flush ∷ h) = (Refines.flush-IsValid (after h), Refines.tracked-flush (after h))

-- After any calls, the victim of the FIFO policy is a tracked id, and no tracked id was admitted
-- before it.
pub victim-inserted_at :
    (h : List Call) (v : Str)
    → Fifo.victim (after h) ≡ some v
    → (n : ℕ) × (inserted_at v h ≡ some n) × ((q : Str) (t : ℕ) → inserted_at q h ≡ some t → n ≤ t)
unfolding Fifo.victim
victim-inserted_at h v e =
    let (n, here, least) = first-least v (table h) (table-Rises h) (rw (← (after-tracks h).1) e) in
    (n, sym (lookup-table v h) ∙ here, λ q t u. least q t (lookup-table q h ∙ u))

-- The FIFO policy has no victim exactly when no id is tracked.
pub victim_none-inserted_at :
    (h : List Call) → (Fifo.victim (after h) ≡ none) ↔ ((q : Str) → inserted_at q h ≡ none)
unfolding Fifo.victim
victim_none-inserted_at h =
    let e = (after-tracks h).1 in
    let (only_if, back) = keys-empty_iff (table h) in
    (
      λ gone q. sym (lookup-table q h) ∙ only_if (sym e ∙ head?-none _ gone) q,
      λ unused. rw (e, back (λ q. lookup-table q h ∙ unused q)),
    )
