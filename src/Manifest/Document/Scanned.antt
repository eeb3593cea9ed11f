-- ===== src/Manifest/Document/Scanned.antt =====
-- internal/plugins/manifest/manifest.go: which documents the scan lets through.
use llm_cache.Common.{
  ℕ, ◌+◌, ◌≡◌, ◌⊎◌, refl, inl, inr, List, [], ◌∷◌, none, Str, str_key, arith, append-empty,
  Option-cases,
}
use llm_cache.Common.Sorting.{sort, All-sort, All-sort_inv}
use llm_cache.Manifest.Document.{
  Value, Items, Fields, null, boolean, integer, number, string, sequence, mapping, opaque, nil,
  cons, end, field, Issue, child, element, forbidden, scan_key, key_less, gather, scan_dangerous,
  scan_items, scan_fields,
}
use llm_cache.Common.{All}

-- A document, whose own path is `at`, has the key `k` in the mapping that stands at the path `p`.
unfoldable mutual
  pub HasKey : Value → Str → Str → Str → Type 0
  HasKey (sequence es) at p k = HasKeyItems es at 0 p k
  HasKey (mapping fs) at p k = HasKeyFields fs at p k
  HasKey v at p k = ⊥

  pub HasKeyItems : Items → Str → ℕ → Str → Str → Type 0
  HasKeyItems nil at i p k = ⊥
  HasKeyItems (cons v es) at i p k = HasKey v (element at i) p k ⊎ HasKeyItems es at (i + 1) p k

  pub HasKeyFields : Fields → Str → Str → Str → Type 0
  HasKeyFields end at p k = ⊥
  HasKeyFields (field j v fs) at p k =
      ((at ≡ p) × (j ≡ k)) ⊎ (HasKey v (child at j) p k ⊎ HasKeyFields fs at p k)

gather-empty : (l : List (Str × List Issue)) → gather l ≡ [] → All (λ e. e.1 ≡ []) l
gather-empty [] e = tt
gather-empty ((k, l) ∷ ls) e =
    let (here, later) = (append-empty l (gather ls)).0 e in (here, gather-empty ls later)

empty-gather : (l : List (Str × List Issue)) → All (λ e. e.1 ≡ []) l → gather l ≡ []
empty-gather [] h = refl
empty-gather ((k, l) ∷ ls) h = rw (h.0) (empty-gather ls h.1)

scan_key-empty : (at k : Str) → scan_key at k ≡ [] → forbidden at k ≡ none
unfolding scan_key
scan_key-empty at k e = elim (Option-cases (forbidden at k)) [
  | inl allowed ↦ allowed
  | inr (msg, bad) ↦ absurd (ground arith)
]

mutual
  unfolding scan_dangerous HasKey

  scanned :
      (v : Value) (at p k : Str) → scan_dangerous v at ≡ [] → HasKey v at p k → forbidden p k ≡ none
  scanned null at p k e h = absurd h
  scanned (boolean b) at p k e h = absurd h
  scanned (integer n) at p k e h = absurd h
  scanned (number x) at p k e h = absurd h
  scanned (string s) at p k e h = absurd h
  scanned opaque at p k e h = absurd h
  scanned (sequence es) at p k e h = scanned_items es at 0 p k e h
  scanned (mapping fs) at p k e h =
      scanned_fields fs at p k
        (All-sort_inv key_less (λ e. e.1 ≡ []) (scan_fields fs at)
          (gather-empty (sort key_less (scan_fields fs at)) e))
        h

  scanned_items :
      (es : Items) (at : Str) (i : ℕ) (p k : Str)
      → scan_items es at i ≡ []
      → HasKeyItems es at i p k
      → forbidden p k ≡ none
  scanned_items nil at i p k e h = absurd h
  scanned_items (cons v es) at i p k e h =
      let (here, later) =
        (append-empty (scan_dangerous v (element at i)) (scan_items es at (i + 1))).0 e in
      elim h [
        | inl x ↦ scanned v (element at i) p k here x
        | inr x ↦ scanned_items es at (i + 1) p k later x
      ]

  scanned_fields :
      (fs : Fields) (at p k : Str)
      → All (λ e. e.1 ≡ []) (scan_fields fs at)
      → HasKeyFields fs at p k
      → forbidden p k ≡ none
  scanned_fields end at p k e h = absurd h
  scanned_fields (field j v fs) at p k e h =
      let (own, below) = (append-empty (scan_key at j) (scan_dangerous v (child at j))).0 e.0 in
      elim h [
        | inl (there, same) ↦ rw (← there, ← same) (scan_key-empty at j own)
        | inr (inl x) ↦ scanned v (child at j) p k below x
        | inr (inr x) ↦ scanned_fields fs at p k e.1 x
      ]

scan_key-allowed : (at k : Str) → forbidden at k ≡ none → scan_key at k ≡ []
unfolding scan_key
scan_key-allowed at k e = ground (arith, e)

mutual
  unfolding scan_dangerous HasKey

  unscanned :
      (v : Value) (at : Str)
      → ((p k : Str) → HasKey v at p k → forbidden p k ≡ none)
      → scan_dangerous v at ≡ []
  unscanned null at h = refl
  unscanned (boolean b) at h = refl
  unscanned (integer n) at h = refl
  unscanned (number x) at h = refl
  unscanned (string s) at h = refl
  unscanned opaque at h = refl
  unscanned (sequence es) at h = unscanned_items es at 0 h
  unscanned (mapping fs) at h =
      empty-gather (sort key_less (scan_fields fs at))
        (All-sort key_less (λ e. e.1 ≡ []) (scan_fields fs at) (unscanned_fields fs at h))

  unscanned_items :
      (es : Items) (at : Str) (i : ℕ)
      → ((p k : Str) → HasKeyItems es at i p k → forbidden p k ≡ none)
      → scan_items es at i ≡ []
  unscanned_items nil at i h = refl
  unscanned_items (cons v es) at i h =
      rw
        (
          unscanned v (element at i) (λ p k x. h p k (inl x)),
          unscanned_items es at (i + 1) (λ p k x. h p k (inr x)),
        )
        refl

  unscanned_fields :
      (fs : Fields) (at : Str)
      → ((p k : Str) → HasKeyFields fs at p k → forbidden p k ≡ none)
      → All (λ e. e.1 ≡ []) (scan_fields fs at)
  unscanned_fields end at h = tt
  unscanned_fields (field j v fs) at h = (
    (append-empty (scan_key at j) (scan_dangerous v (child at j))).1 (
      scan_key-allowed at j (h at j (inl (refl, refl))),
      unscanned v (child at j) (λ p k x. h p k (inr (inl x))),
    ),
    unscanned_fields fs at (λ p k x. h p k (inr (inr x))),
  )
