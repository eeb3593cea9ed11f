-- ===== src/Plugins/Replay.antt =====
-- internal/plugins/manager/activate.go: what the plans do with the persisted entries when a policy or
-- a store is replaced: `sortedEntries`, the migration of `planPolicy`, and `rebuildFrom`.
pub mod Replayed
use llm_cache.Common.{
  ℕ, List, [], ◌∷◌, Option, none, some, Bool, true, false, Str, str_key, if◌then◌else◌, ltb, ◌==◌,
  length, map,
}
use llm_cache.Common.Dict.{contains}
use llm_cache.Common.Result.{Result, ok, err}
use llm_cache.Common.Sorting.{sort, str_less}
use llm_cache.Orchestrator.{RebuildEntry}
use llm_cache.Persistence.{Entry}
use llm_cache.Policy.Interface.{EvictionPolicy}

-- The order of `sortedEntries`.
unfoldable pub entry_older : Entry → Entry → Bool
entry_older a b =
    if a.created_at == b.created_at then str_less a.id b.id else ltb a.created_at b.created_at

unfoldable pub sorted_entries :
    {S : Type 0} → (S → Result Str (List Entry) × S) → S → Result Str (List Entry) × S
sorted_entries list s =
    let (listed, s') = list s in
    elim listed [ err e ↦ (err e, s') | ok entries ↦ (ok (sort entry_older entries), s') ]

abbrev pub ids_of : List Entry → List Str
ids_of [] = []
ids_of (e ∷ es) = e.id ∷ ids_of es

-- The loops that tell a policy of the entries in creation order.
unfoldable pub insert_entries : {P : Type 0} → EvictionPolicy P → List Entry → P → P
insert_entries policy [] p = p
insert_entries policy (e ∷ es) p = insert_entries policy es (policy.on_insert e.id p)

pub data ReplayError : Type 0 where
  list_failed : Str → ReplayError
  victim_of_empty : Str → ReplayError
  no_victim : ℕ → ReplayError
  victim_not_persisted : Str → ReplayError

-- The check of the victim after the replay.
unfoldable pub check_victim : List Entry → Option Str → Option ReplayError
check_victim [] none = none
check_victim [] (some v) = some (victim_of_empty v)
check_victim (e ∷ es) none = some (no_victim (length (e ∷ es)))
check_victim (e ∷ es) (some v) =
    if contains v (ids_of (e ∷ es)) then none else some (victim_not_persisted v)

-- `migrate` of the plan, on the candidate's state.
unfoldable pub migrate_policy :
    {S P : Type 0}
    → EvictionPolicy P
    → (S → Result Str (List Entry) × S)
    → S × P
    → Option ReplayError × (S × P)
unfolding sorted_entries insert_entries check_victim
migrate_policy policy list (s, p) =
    let (listed, s') = sorted_entries list s in
    elim listed [
      | err e ↦ (some (list_failed e), (s', p))
      | ok entries ↦
          let p' = insert_entries policy entries (policy.flush p) in
          (check_victim entries (policy.victim p'), (s', p'))
    ]

pub data RebuildError : Type 0 where
  entries_not_listed vectors_not_rebuilt : Str → RebuildError
  restored_only : ℕ → ℕ → RebuildError

abbrev pub vectors_of : List Entry → List RebuildEntry
vectors_of [] = []
vectors_of (e ∷ es) = record { id = e.id; vector = e.vector } ∷ vectors_of es

-- The states are those of the new store, of the vector store and of the policy.
unfoldable pub rebuild_from :
    {S V P : Type 0}
    → EvictionPolicy P
    → (S → Result Str (List Entry) × S)
    → (List RebuildEntry → V → Result Str ℕ × V)
    → S × V × P
    → Result RebuildError ℕ × (S × V × P)
unfolding sorted_entries insert_entries
rebuild_from policy list rebuild (s, v, p) =
    let (listed, s') = sorted_entries list s in
    elim listed [
      | err e ↦ (err (entries_not_listed e), (s', v, p))
      | ok entries ↦
          let (rebuilt, v') = rebuild (vectors_of entries) v in
          elim rebuilt [
            | err e ↦ (err (vectors_not_rebuilt e), (s', v', p))
            | ok n ↦
                if n == length (vectors_of entries)
                then (ok (length entries), (s', v', insert_entries policy entries (policy.flush p)))
                else (err (restored_only n (length (vectors_of entries))), (s', v', p))
          ]
    ]
