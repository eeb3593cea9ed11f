-- ===== src/Plugins/Replay/Replayed.antt =====
-- internal/plugins/manager/activate.go: a policy that the entries were replayed to tracks them.
use llm_cache.Common.{
  ℕ, ◌≡◌, refl, ap, ◌∙◌, ◌⊎◌, inl, inr, List, [], ◌∷◌, none, true, Str, str_key, if◌then◌else◌,
  arith, Option-cases, Bool-cases, map, length, ◌==◌,
}
use llm_cache.Common.Dict.{contains}
use llm_cache.Common.Result.{Result, ok, err, Result-cases}
use llm_cache.Common.Sorting.{sort, contains-map-sort}
use llm_cache.Orchestrator.{RebuildEntry}
use llm_cache.Persistence.{Entry}
use llm_cache.Plugins.Replay.{
  entry_older, sorted_entries, ids_of, insert_entries, check_victim, migrate_policy, vectors_of,
  rebuild_from, RebuildError,
}
use llm_cache.Policy.Interface.{EvictionPolicy, Contract}

ids_of-map : (es : List Entry) → ids_of es ≡ map (λ e. e.id) es
ids_of-map [] = refl
ids_of-map (e ∷ es) = ap (◌∷◌ e.id) (ids_of-map es)

module _ {P : Type 0} (policy : EvictionPolicy P) {IsValid : P → Type 0} {tracked : P → List Str}
    (promise : Contract policy IsValid tracked) where
  insert_entries-IsValid :
      (es : List Entry) (p : P) → IsValid p → IsValid (insert_entries policy es p)
  unfolding insert_entries
  insert_entries-IsValid [] p v = v
  insert_entries-IsValid (e ∷ es) p v = insert_entries-IsValid es _ (promise.insert_valid e.id p v)

  tracked-insert_entries :
      (es : List Entry) (p : P) (q : Str)
      → IsValid p
      → contains q (tracked (insert_entries policy es p))
        ≡ (if contains q (ids_of es) then true else contains q (tracked p))
  unfolding insert_entries contains
  tracked-insert_entries [] p q v = refl
  tracked-insert_entries (e ∷ es) p q v = ground (
    arith,
    tracked-insert_entries es (policy.on_insert e.id p) q (promise.insert_valid e.id p v),
    promise.tracked_insert e.id q p v,
  )

  -- The policy after the replay of entries.
  abbrev replayed : List Entry → P → P
  replayed es p = insert_entries policy es (policy.flush p)

  replayed-ids :
      (es : List Entry) (p : P) (q : Str)
      → IsValid p
      → contains q (tracked (replayed es p)) ≡ contains q (ids_of es)
  unfolding contains
  replayed-ids es p q v = ground (
    arith,
    tracked-insert_entries es (policy.flush p) q (promise.flush_valid p v),
    promise.tracked_flush p v,
  )

  replayed-IsValid : (es : List Entry) (p : P) → IsValid p → IsValid (replayed es p)
  replayed-IsValid es p v = insert_entries-IsValid es (policy.flush p) (promise.flush_valid p v)

  check_victim-none :
      (es : List Entry) (p : P) → IsValid p → check_victim es (policy.victim (replayed es p)) ≡ none
  unfolding check_victim contains
  check_victim-none [] p v = elim (Option-cases (policy.victim (replayed [] p))) [
    | inl gone ↦ rw gone
    | inr (x, chosen) ↦ absurd (
        ground (
          arith,
          promise.victim_tracked (replayed [] p) x (replayed-IsValid [] p v) chosen,
          replayed-ids [] p x v,
        ))
  ]
  check_victim-none (e ∷ es) p v = elim (Option-cases (policy.victim (replayed (e ∷ es) p))) [
    | inl gone ↦ absurd (
        ground (
          arith,
          promise.victim_none (replayed (e ∷ es) p) (replayed-IsValid (e ∷ es) p v) gone,
          replayed-ids (e ∷ es) p e.id v,
        ))
    | inr (x, chosen) ↦ ground (
      arith,
      promise.victim_tracked (replayed (e ∷ es) p) x (replayed-IsValid (e ∷ es) p v) chosen,
      replayed-ids (e ∷ es) p x v,
    )
  ]

  sorted-ids :
      (entries : List Entry) (q : Str)
      → contains q (ids_of (sort entry_older entries)) ≡ contains q (ids_of entries)
  sorted-ids entries q = ground (
    arith,
    ids_of-map entries,
    ids_of-map (sort entry_older entries),
    contains-map-sort entry_older (λ (e : Entry). e.id) q entries,
  )

  -- When the persisted entries can be listed, the migration to a candidate policy that keeps the
  -- contract succeeds, and afterwards the candidate tracks exactly the ids of the entries, whatever
  -- it tracked before; its victim passes the check.
  pub migrate_policy-tracked :
      {S : Type 0} (list : S → Result Str (List Entry) × S) (s s' : S) (p : P)
      (entries : List Entry)
      → IsValid p
      → list s ≡ (ok entries, s')
      → (p' : P) × (migrate_policy policy list (s, p) ≡ (none, (s', p')))
        × IsValid p'
        × ((q : Str) → contains q (tracked p') ≡ contains q (ids_of entries))
  unfolding migrate_policy sorted_entries
  migrate_policy-tracked list s s' p entries v listed =
      let es = sort entry_older entries in
      (
        replayed es p,
        ground (arith, check_victim-none es p v),
        replayed-IsValid es p v,
        λ q. replayed-ids es p q v ∙ sorted-ids entries q,
      )

  -- `rebuildFrom` either succeeds, with the number of entries, and then the vector store was rebuilt
  -- from all entries of the new store and the policy tracks exactly their ids; or it fails, and then
  -- the policy is as before.
  pub rebuild_from-tracked :
      {S V : Type 0} (list : S → Result Str (List Entry) × S)
      (rebuild : List RebuildEntry → V → Result Str ℕ × V) (s s' : S) (w : V) (p : P)
      (entries : List Entry)
      → IsValid p
      → list s ≡ (ok entries, s')
      → let rebuilt = rebuild (vectors_of (sort entry_older entries)) w in
        ((p' : P) × (rebuilt.0 ≡ ok (length (vectors_of (sort entry_older entries))))
          × (rebuild_from policy list rebuild (s, w, p)
              ≡ (ok (length (sort entry_older entries)), (s', rebuilt.1, p')))
          × IsValid p'
          × ((q : Str) → contains q (tracked p') ≡ contains q (ids_of entries)))
        ⊎ ((e : RebuildError) × (rebuild_from policy list rebuild (s, w, p)
              ≡ (err e, (s', rebuilt.1, p))))
  unfolding rebuild_from sorted_entries
  rebuild_from-tracked list rebuild s s' w p entries v listed =
      let es = sort entry_older entries in
      let rebuilt = rebuild (vectors_of es) w in
      elim (Result-cases rebuilt.0) [
        | inr (e, failed) ↦ inr (RebuildError.vectors_not_rebuilt e, ground arith)
        | inl (n, done) ↦ elim (Bool-cases (n == length (vectors_of es))) [
          | inr partial ↦ inr (RebuildError.restored_only n (length (vectors_of es)), ground arith)
          | inl whole ↦ inl (
            replayed es p,
            ground arith,
            ground arith,
            replayed-IsValid es p v,
            λ q. replayed-ids es p q v ∙ sorted-ids entries q,
          )
        ]
      ]
