-- ===== src/Orchestrator/Rebuild.antt =====
-- internal/orchestrator/service.go: `rebuildFromStore` and the retries in it, and
-- `NewWithDependencies`. The context and the ticker enter as the number of ticks that come before
-- the context is done.
pub mod Restored
use llm_cache.Common.{
  ℕ, zero, suc, List, [], ◌∷◌, Option, none, some, Bool, Str, if◌then◌else◌, ltb, map,
}
use llm_cache.Common.Int.{ℤ, pos, leb_ℤ}
use llm_cache.Common.Result.{Result, ok, err}
use llm_cache.Common.Sorting.{sort}
use llm_cache.Orchestrator.{Ports, Service, RebuildEntry, Config, no_stats}
use llm_cache.Persistence.{Entry}

pub data StartError : Type 0 where
  top_k_below_one : StartError
  list_entries rebuild_vectors : Str → StartError

unfoldable pub created_before : Entry → Entry → Bool
created_before a b = ltb a.created_at b.created_at

abbrev pub to_rebuild : Entry → RebuildEntry
to_rebuild e = record { id = e.id; vector = e.vector }

module _ {E V L S Q P : Type 0} (ports : Ports E V L S Q P) where
  -- `rebuildVectorStoreWithRetry`: an attempt, and one more after each tick; the last error.
  unfoldable pub rebuild_with_retry : ℕ → List RebuildEntry → V → Option Str × V
  rebuild_with_retry zero entries v = ports.rebuild entries v
  rebuild_with_retry (suc ticks) entries v =
      let (failed, v') = ports.rebuild entries v in
      elim failed [ none ↦ (none, v') | some _ ↦ rebuild_with_retry ticks entries v' ]

  -- The loop over the entries: each is told to the policy.
  unfoldable pub insert_all : List Entry → P → P
  insert_all [] policy = policy
  insert_all (e ∷ es) policy = insert_all es (ports.policy.on_insert e.id policy)

  unfoldable pub rebuild_from_store :
      ℕ → Service E V L S Q P → Option StartError × Service E V L S Q P
  rebuild_from_store ticks s =
      let (listed, store) = ports.list s.store in
      let s' = record s { store = store } in
      elim listed [
        | err e ↦ (some (list_entries e), s')
        | ok entries ↦
            let sorted = sort created_before entries in
            let (failed, vstore) = rebuild_with_retry ticks (map to_rebuild sorted) s'.vstore in
            (
              elim failed [ none ↦ none | some e ↦ some (rebuild_vectors e) ],
              record s' { vstore = vstore; policy = insert_all sorted s'.policy },
            )
      ]

  -- The service over its adapters; the worker is started by the caller of the model.
  unfoldable pub new_with_dependencies :
      ℕ → Config → E → V → L → S → Q → P → Result StartError (Service E V L S Q P)
  new_with_dependencies ticks cfg embedder vstore llm store queue policy =
      if leb_ℤ (pos 1) cfg.top_k
      then (let (failed, s) = rebuild_from_store ticks (record {
        cfg = cfg;
        embedder = embedder;
        vstore = vstore;
        llm = llm;
        store = store;
        queue = queue;
        policy = policy;
        live_threshold = none;
        stats = no_stats;
      }) in
          elim failed [ none ↦ ok s | some e ↦ err e ])
      else err top_k_below_one
