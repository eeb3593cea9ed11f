-- ===== src/Policy/Lfu/Choice.antt =====
-- internal/policy/lfu.go: what `Victim` returns after any sequence of calls.
use llm_cache.Common.{
  ℕ, ◌≤◌, ◌<◌, ◌≡◌, refl, sym, ◌∙◌, ap, ◌⊎◌, inl, inr, List, [], ◌∷◌, none, some, false, Str,
  str_key, arith, length, Option-cases, ◌↔◌,
}
use llm_cache.Common.Dict.{Dict, lookup}
use llm_cache.Common.Word.{rank_small, half64}
use llm_cache.Policy.History.{uses, inserted_at}
use llm_cache.Policy.Interface.{Call, hit, insert as put, delete, flush}
use llm_cache.Policy.Lfu
use llm_cache.Policy.Lfu.{
  LfuEntry, LfuPolicy, new_lfu_policy, lfu, on_hit, on_insert, on_delete, victim_over, precedes,
}
use llm_cache.Policy.Lfu.Scan.{victim_over-Chosen, victim_over-none}
use llm_cache.Policy.Lfu.Tally.{Tallies, inserted_at-lt, uses-le, after, after-Tallies, SameMap}

known-inserted_at :
    (h : List Call) (p : LfuPolicy)
    → Tallies h p
    → (q : Str) (x : LfuEntry) → lookup q p.entries ≡ some x
    → (t : ℕ) × (inserted_at q h ≡ some t)
known-inserted_at h p j q x e = elim (Option-cases (inserted_at q h)) [
  | inl gone ↦ absurd (ground (arith, j.known q))
  | inr (t, since) ↦ (t, since)
]

-- On small counters the signed comparison is that of the numbers.
least-order :
    (h : List Call) (p : LfuPolicy)
    → Tallies h p
    → length h < half64
    → (v q : Str) (x y : LfuEntry) → lookup v p.entries ≡ some x
    → lookup q p.entries ≡ some y
    → precedes y (some (v, x)) ≡ false
    → (x.count < y.count) ⊎ ((x.count ≡ y.count) × (x.order ≤ y.order))
unfolding precedes
least-order h p j small v q x y here there least = ground (
  arith,
  j.counts v,
  j.counts q,
  uses-le v h x.count,
  uses-le q h y.count,
  j.below v x here,
  j.below q y there,
  j.next_le,
  rank_small x.count,
  rank_small y.count,
  rank_small x.order,
  rank_small y.order,
)

-- After fewer than 2 ^ 63 calls, and in whatever order `range` goes through the map, the victim of
-- the LFU policy is a tracked id that was used least often since its admission, and among those the
-- one that was admitted first.
pub victim-uses :
    (h : List Call) (range : Dict Str LfuEntry) (v : Str)
    → length h < half64
    → SameMap range (after h).entries
    → victim_over range ≡ some v
    → (n t : ℕ) × (uses v h ≡ some n)
      × (inserted_at v h ≡ some t)
      × ((q : Str) (m u : ℕ)
          → uses q h ≡ some m
          → inserted_at q h ≡ some u
          → (n < m) ⊎ ((n ≡ m) × (t ≤ u)))
victim-uses h range v small same e =
    let j = after-Tallies h small in
    let (x, found, least) = victim_over-Chosen range v same.0 e in
    let here : lookup v (after h).entries ≡ some x = sym (same.1 v) ∙ found in
    let (t, since) = known-inserted_at h (after h) j v x here in
    (
      x.count,
      t,
      ground (arith, j.counts v),
      since,
      λ q m u used arrived. elim (Option-cases (lookup q (after h).entries)) [
        | inl gone ↦ absurd (ground (arith, j.counts q))
        | inr (y, there) ↦
            let count : y.count ≡ m = ground (arith, j.counts q) in
            let behind =
              least-order h (after h) j small v q x y here there (least q y (same.1 q ∙ there)) in
            ground (arith, j.sorted q v y x u t there here arrived since)
      ],
    )

inserted_at-injective :
    (q r : Str) (h : List Call) (t : ℕ)
    → inserted_at q h ≡ some t
    → inserted_at r h ≡ some t
    → q ≡ r
unfolding inserted_at
inserted_at-injective q r [] t e f = cc
inserted_at-injective q r (hit id ∷ h) t e f = inserted_at-injective q r h t e f
inserted_at-injective q r (put id ∷ h) t e f =
    ground (arith, inserted_at-injective q r h t, inserted_at-lt q h t, inserted_at-lt r h t)
inserted_at-injective q r (delete id ∷ h) t e f = ground (arith, inserted_at-injective q r h t)
inserted_at-injective q r (flush ∷ h) t e f = cc

-- Two ids that no entry precedes are one.
victims-agree :
    (h : List Call) (range range' : Dict Str LfuEntry) (v w : Str)
    → length h < half64
    → SameMap range (after h).entries
    → SameMap range' (after h).entries
    → victim_over range ≡ some v
    → victim_over range' ≡ some w
    → v ≡ w
victims-agree h range range' v w small same same' e f =
    let j = after-Tallies h small in
    let (x, found, least) = victim_over-Chosen range v same.0 e in
    let (y, found', least') = victim_over-Chosen range' w same'.0 f in
    let here : lookup v (after h).entries ≡ some x = sym (same.1 v) ∙ found in
    let there : lookup w (after h).entries ≡ some y = sym (same'.1 w) ∙ found' in
    let (t, since) = known-inserted_at h (after h) j v x here in
    let (u, since') = known-inserted_at h (after h) j w y there in
    let le = least-order h (after h) j small v w x y here there (least w y (same.1 w ∙ there)) in
    let ge = least-order h (after h) j small w v y x there here (least' v x (same'.1 v ∙ here)) in
    let flat : t ≡ u = ground (
      arith,
      j.sorted v w x y t u here there since since',
      j.sorted w v y x u t there here since' since,
    ) in
    inserted_at-injective v w h t since (rw (sym flat) at since')

-- A range without a victim lists nothing.
range-empty :
    (h : List Call) (range : Dict Str LfuEntry)
    → victim_over range ≡ none
    → ((q : Str) → lookup q range ≡ lookup q (after h).entries)
    → (q : Str) → lookup q (after h).entries ≡ none
unfolding lookup
range-empty h range gone same q = sym (same q) ∙ ap (lookup q) (victim_over-none range gone)

victim-absent :
    (h : List Call) (range range' : Dict Str LfuEntry) (w : Str)
    → victim_over range ≡ none
    → SameMap range (after h).entries
    → SameMap range' (after h).entries
    → victim_over range' ≡ some w
    → ⊥
victim-absent h range range' w gone same same' there =
    let (x, found, _) = victim_over-Chosen range' w same'.0 there in
    absurd (ground (arith, range-empty h range gone same.1 w, same'.1 w))

-- After fewer than 2 ^ 63 calls, the order in which `range` goes through the map does not matter to
-- the LFU policy: any two orders give one victim.
pub victim_over-SameMap :
    (h : List Call) (range range' : Dict Str LfuEntry)
    → length h < half64
    → SameMap range (after h).entries
    → SameMap range' (after h).entries
    → victim_over range ≡ victim_over range'
victim_over-SameMap h range range' small same same' = elim (Option-cases (victim_over range)) [
  | inl gone ↦ elim (Option-cases (victim_over range')) [
    | inl gone' ↦ gone ∙ sym gone'
    | inr (w, there) ↦ absurd (victim-absent h range range' w gone same same' there)
  ]
  | inr (v, here) ↦ elim (Option-cases (victim_over range')) [
    | inl gone' ↦ absurd (victim-absent h range' range v gone' same' same here)
    | inr (w, there) ↦
        rw (here, there, victims-agree h range range' v w small same same' here there)
  ]
]

-- The LFU policy has no victim exactly when no id is tracked.
pub victim_none-uses :
    (h : List Call)
    → length h < half64
    → (Lfu.victim (after h) ≡ none) ↔ ((q : Str) → uses q h ≡ none)
unfolding Lfu.victim
victim_none-uses h small =
    let j = after-Tallies h small in
    (
      λ gone q. ground (arith, j.counts q, (range-empty h (after h).entries gone (λ r. refl) q)),
      λ unused. elim (Option-cases (victim_over (after h).entries)) [
        | inl gone ↦ gone
        | inr (v, here) ↦
            let (x, found, _) = victim_over-Chosen (after h).entries v j.distinct here in
            absurd (ground (arith, j.counts v, unused v))
      ],
    )
