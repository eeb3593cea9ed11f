-- ===== src/Orchestrator/Admin/Flushed.antt =====
-- internal/orchestrator/service.go: what `FlushCache` leaves.
use llm_cache.Common.{
  ◌≡◌, ◌⊎◌, refl, List, [], none, some, Str, str_key, arith, Option-cases, inl, inr,
}
use llm_cache.Orchestrator.{Ports, Service, no_stats}
use llm_cache.Orchestrator.Admin.{flush_cache}
use llm_cache.Policy.Interface.{Contract}

module _ {E V L S Q P : Type 0} (ports : Ports E V L S Q P) where
  module _ {IsValid : P → Type 0} {tracked : P → List Str}
      (promise : Contract ports.policy IsValid tracked) where
    -- With a policy that keeps its contract, a flush that the vector store refuses changes nothing
    -- else; any other empties the policy, resets the counters and reports success, whatever the
    -- store answers.
    pub flush_cache-emptied :
        (s : Service E V L S Q P)
        → IsValid s.policy
        → ((x : Str) × ((ports.vector_flush s.vstore).0 ≡ some x)
            × (flush_cache ports s
                ≡ (some x, record s { vstore = (ports.vector_flush s.vstore).1 })))
          ⊎ ((s' : Service E V L S Q P) × ((ports.vector_flush s.vstore).0 ≡ none)
              × (flush_cache ports s ≡ (none, s'))
              × (tracked s'.policy ≡ [])
              × (s'.stats ≡ no_stats)
              × (s'.store ≡ (ports.flush s.store).1))
    unfolding flush_cache
    flush_cache-emptied s v =
        let flushed = ports.vector_flush s.vstore in
        elim (Option-cases flushed.0) [
          | inr (x, failed) ↦ inl (x, failed, ground arith)
          | inl done ↦ inr (
            record s {
              vstore = flushed.1;
              store = (ports.flush s.store).1;
              policy = ports.policy.flush s.policy;
              stats = no_stats;
            },
            done,
            ground arith,
            promise.tracked_flush s.policy v,
            refl,
            refl,
          )
        ]
