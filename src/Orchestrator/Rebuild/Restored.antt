-- ===== src/Orchestrator/Rebuild/Restored.antt =====
-- internal/orchestrator/service.go: what a restart restores.
use mathlib.Core.Path.{subst}
use llm_cache.Common.{
  ℕ, zero, suc, ◌≤◌, ◌<◌, Option, ◌≡◌, refl, sym, List, [], ◌∷◌, none, some, true, Str, str_key,
  arith, map, Option-cases, inl, inr, if◌then◌else◌,
}
use llm_cache.Common.Dict.{contains}
use llm_cache.Common.Int.{pos, leb_ℤ}
use llm_cache.Common.Result.{Result, ok, err}
use llm_cache.Common.Sorting.{sort, contains-map-sort}
use llm_cache.Orchestrator.{Ports, Service, Config, RebuildEntry, no_stats}
use llm_cache.Orchestrator.Rebuild.{
  StartError, created_before, to_rebuild, rebuild_with_retry, insert_all, rebuild_from_store,
  new_with_dependencies,
}
use llm_cache.Persistence.{Entry}
use llm_cache.Policy.Interface.{Contract}

abbrev pub id_of : Entry → Str
id_of e = e.id

module _ {E V L S Q P : Type 0} (ports : Ports E V L S Q P) {IsValid : P → Type 0}
    {tracked : P → List Str} (promise : Contract ports.policy IsValid tracked) where
  insert_all-IsValid : (es : List Entry) (p : P) → IsValid p → IsValid (insert_all ports es p)
  unfolding insert_all
  insert_all-IsValid [] p v = v
  insert_all-IsValid (e ∷ es) p v = insert_all-IsValid es _ (promise.insert_valid e.id p v)

  tracked-insert_all :
      (es : List Entry) (p : P) (q : Str)
      → IsValid p
      → contains q (tracked (insert_all ports es p))
        ≡ (if contains q (map id_of es) then true else contains q (tracked p))
  unfolding insert_all contains
  tracked-insert_all [] p q v = refl
  tracked-insert_all (e ∷ es) p q v = ground (
    arith,
    tracked-insert_all es (ports.policy.on_insert e.id p) q (promise.insert_valid e.id p v),
    promise.tracked_insert e.id q p v,
  )

  -- The n-th attempt to rebuild from the entries, counted from 0: its error, if it fails. Each attempt
  -- starts from the vector store that the one before left behind.
  unfoldable pub left_behind : List RebuildEntry → V → ℕ → V
  left_behind entries v zero = v
  left_behind entries v (suc n) = left_behind entries (ports.rebuild entries v).1 n

  abbrev pub attempt : List RebuildEntry → V → ℕ → Option Str
  attempt entries v n = (ports.rebuild entries (left_behind entries v n)).0

  -- The attempts up to the first that succeeds, or all of them, one more than there are ticks.
  pub data Tried (ticks : ℕ) (entries : List RebuildEntry) (v : V) : Option Str × V → Type 0 where
    rebuilt :
        (n : ℕ)
        → n ≤ ticks
        → ((k : ℕ) → k < n → (x : Str) × (attempt entries v k ≡ some x))
        → attempt entries v n ≡ none
        → Tried ticks entries v (none, left_behind entries v (suc n))
    given_up :
        (x : Str)
        → ((k : ℕ) → k < ticks → (y : Str) × (attempt entries v k ≡ some y))
        → attempt entries v ticks ≡ some x
        → Tried ticks entries v (some x, left_behind entries v (suc ticks))

  one_more :
      (entries : List RebuildEntry) (v : V) (x : Str) (m : ℕ)
      → attempt entries v 0 ≡ some x
      → ((k : ℕ) → k < m → (y : Str) × (attempt entries (ports.rebuild entries v).1 k ≡ some y))
      → (k : ℕ) → k < suc m
      → (y : Str) × (attempt entries v k ≡ some y)
  unfolding left_behind
  one_more entries v x m e before zero lt = (x, e)
  one_more entries v x m e before (suc k) lt = before k (omega arith)

  retried :
      (ticks : ℕ) (entries : List RebuildEntry) (v : V) (x : Str) (r : Option Str × V)
      → attempt entries v 0 ≡ some x
      → Tried ticks entries (ports.rebuild entries v).1 r
      → Tried (suc ticks) entries v r
  unfolding left_behind
  retried ticks entries v x r e (rebuilt n within before fine) =
      rebuilt (suc n) (omega arith) (one_more entries v x n e before) fine
  retried ticks entries v x r e (given_up y before last) =
      given_up y (one_more entries v x ticks e before) last

  rebuild_with_retry-Tried :
      (ticks : ℕ) (entries : List RebuildEntry) (v : V)
      → Tried ticks entries v (rebuild_with_retry ports ticks entries v)
  unfolding rebuild_with_retry left_behind
  rebuild_with_retry-Tried zero entries v = elim (Option-cases (ports.rebuild entries v).0) [
    | inl fine ↦
        subst (λ o. Tried 0 entries v (o, (ports.rebuild entries v).1)) (sym fine)
          (rebuilt 0 (omega arith) (λ k lt. absurd (omega arith)) fine)
    | inr (x, failed) ↦
        subst (λ o. Tried 0 entries v (o, (ports.rebuild entries v).1)) (sym failed)
          (given_up x (λ k lt. absurd (omega arith)) failed)
  ]
  rebuild_with_retry-Tried (suc ticks) entries v = elim (Option-cases (ports.rebuild entries v).0) [
    | inl fine ↦
        rw (fine, rebuild_with_retry) (rebuilt 0 (omega arith) (λ k lt. absurd (omega arith)) fine)
    | inr (x, failed) ↦
        rw (failed, rebuild_with_retry)
          (retried ticks entries v x
            (rebuild_with_retry ports ticks entries (ports.rebuild entries v).1) failed
            (rebuild_with_retry-Tried ticks entries (ports.rebuild entries v).1))
  ]

  -- How the service starts over a vector store, a policy and the entries that the store lists.
  pub data Starts (ticks : ℕ) (v : V) (policy : P) (entries : List Entry)
      : Result StartError (Service E V L S Q P) → Type 0 where
    started :
        (s : Service E V L S Q P) (n : ℕ)
        → n ≤ ticks
        → ((k : ℕ)
            → k < n
            → (x : Str) × (attempt (map to_rebuild (sort created_before entries)) v k ≡ some x))
        → attempt (map to_rebuild (sort created_before entries)) v n ≡ none
        → s.vstore ≡ left_behind (map to_rebuild (sort created_before entries)) v (suc n)
        → IsValid s.policy
        → ((q : Str)
            → contains q (tracked s.policy)
              ≡ (if contains q (map id_of entries) then true else contains q (tracked policy)))
        → Starts ticks v policy entries (ok s)
    refused :
        (x : Str)
        → ((k : ℕ)
            → k < ticks
            → (y : Str) × (attempt (map to_rebuild (sort created_before entries)) v k ≡ some y))
        → attempt (map to_rebuild (sort created_before entries)) v ticks ≡ some x
        → Starts ticks v policy entries (err (StartError.rebuild_vectors x))

  started_with :
      (cfg : Config) (e : E) (l : L) (store' : S) (queue : Q) (ticks : ℕ) (v : V) (policy : P)
      (entries : List Entry) (r : Option Str × V) (whole : Result StartError (Service E V L S Q P))
      → IsValid policy
      → Tried ticks (map to_rebuild (sort created_before entries)) v r
      → whole ≡ elim r.0 [
        | some x ↦ err (StartError.rebuild_vectors x)
        | none ↦ ok (record {
          cfg = cfg;
          embedder = e;
          vstore = r.1;
          llm = l;
          store = store';
          queue = queue;
          policy = insert_all ports (sort created_before entries) policy;
          live_threshold = none;
          stats = no_stats;
        })
      ]
      → Starts ticks v policy entries whole
  started_with cfg e l store' queue ticks v policy entries r whole valid
        (rebuilt n within before fine) same =
      rw same (
        started _ n within before fine refl
          (insert_all-IsValid (sort created_before entries) policy valid)
          (λ q. ground (
            arith,
            tracked-insert_all (sort created_before entries) policy q valid,
            contains-map-sort created_before id_of q entries,
          )))
  started_with cfg e l store' queue ticks v policy entries r whole valid (given_up x before last)
        same =
      rw same (refused x before last)

  -- With a policy that keeps its contract, a top-k of at least one and a store that lists its
  -- entries, the service tries to rebuild the vector store from them once, and once more after each
  -- tick, each time on what the attempt before left behind. It starts exactly when one of these
  -- attempts succeeds: no further attempt is made, its vector store is what that attempt left, and its
  -- policy tracks, besides what it already tracked, exactly the entries listed, whatever their order.
  -- When all fail, the error is that of the last one.
  pub new_with_dependencies-tracked :
      (ticks : ℕ) (cfg : Config) (e : E) (v : V) (l : L) (store store' : S) (queue : Q) (policy : P)
      (entries : List Entry)
      → IsValid policy
      → leb_ℤ (pos 1) cfg.top_k ≡ true
      → ports.list store ≡ (ok entries, store')
      → Starts ticks v policy entries
          (new_with_dependencies ports ticks cfg e v l store queue policy)
  unfolding new_with_dependencies rebuild_from_store
  new_with_dependencies-tracked ticks cfg e v l store store' queue policy entries valid many lists =
      let tries = map to_rebuild (sort created_before entries) in
      let r = rebuild_with_retry ports ticks tries v in
      started_with cfg e l store' queue ticks v policy entries r
        (new_with_dependencies ports ticks cfg e v l store queue policy) valid
        (rebuild_with_retry-Tried ticks tries v)
        (elim (Option-cases r.0) [ inl fine ↦ ground arith | inr (x, failed) ↦ ground arith ])
