-- ===== src/Orchestrator/Update.antt =====
-- internal/orchestrator/service.go: `updateCache`, which the worker runs for each job, and
-- `enforceCapacity`. The worker holds the write gate for reading, so it runs beside queries, whose
-- effects on the policy and the counters are steps of their own.
pub mod Rounds
pub mod Bound
pub mod Outcome
use llm_cache.Common.{
  ℕ, zero, suc, List, [], ◌∷◌, Option, none, some, Bool, true, false, Str, if◌then◌else◌,
}
use llm_cache.Common.Float.{Float64}
use llm_cache.Common.Int.{ℤ, pos, leb_ℤ}
use llm_cache.Common.Result.{Result, ok, err}
use llm_cache.Orchestrator.{Ports, Service, Failure, port, no_victim, record_eviction}
use llm_cache.Persistence.{Entry}

-- What one turn of the loop of `enforceCapacity` does: it returns, or it goes round again.
pub data Turn (A : Type 0) : Type 0 where
  returns : Option Failure → A → Turn A
  again : A → Turn A

module _ {E V L S Q P : Type 0} (ports : Ports E V L S Q P) where
  -- The part of a turn that removes the victim from the store, the vector store and the policy.
  unfoldable pub evict : Str → Service E V L S Q P → Turn (Service E V L S Q P)
  evict victim s =
      let (store_failed, store) = ports.delete victim s.store in
      let s' = record s { store = store } in
      elim store_failed [
        | some e ↦ returns (some (port e)) s'
        | none ↦
            let (vector_failed, vstore) = ports.vector_delete victim s'.vstore in
            let s'' = record s' { vstore = vstore } in
            elim vector_failed [
              | some e ↦ returns (some (port e)) s''
              | none ↦ again (
                  record_eviction
                    (record s'' { policy = ports.policy.on_delete victim s''.policy }))
            ]
      ]

  unfoldable pub turn : Service E V L S Q P → Turn (Service E V L S Q P)
  turn s =
      let (sized, store) = ports.size s.store in
      let s' = record s { store = store } in
      elim sized [
        | err e ↦ returns (some (port e)) s'
        | ok size ↦
            if leb_ℤ (pos size) s.cfg.capacity
            then returns none s'
            else elim (ports.policy.victim s'.policy) [
              | none ↦
                  returns (some (no_victim size s.cfg.capacity (ports.policy.name s'.policy))) s'
              | some victim ↦ evict victim s'
            ]
      ]

  -- The loop, with a bound on its turns: `none` means that the bound was met.
  unfoldable pub turns : ℕ → Service E V L S Q P → Option (Option Failure × Service E V L S Q P)
  turns zero s = none
  turns (suc fuel) s = elim (turn s) [
    | returns failure s' ↦ some (failure, s')
    | again s' ↦ turns fuel s'
  ]

  unfoldable pub enforce_capacity :
      ℕ → Service E V L S Q P → Option (Option Failure × Service E V L S Q P)
  enforce_capacity fuel s = if leb_ℤ s.cfg.capacity (pos 0) then some (none, s) else turns fuel s

  -- `now` is the time of the call. The error of the compensating delete is dropped.
  unfoldable pub update_cache :
      ℕ
      → ℕ
      → Str
      → List Float64
      → Str
      → Service E V L S Q P
      → Option (Option Failure × Service E V L S Q P)
  update_cache fuel now prompt vec reply s =
      let (upserted, vstore) = ports.upsert vec s.vstore in
      let s' = record s { vstore = vstore } in
      elim upserted [
        | err e ↦ some (some (port e), s')
        | ok id ↦
            let entry : Entry = record {
              id = id;
              prompt = prompt;
              reply = reply;
              vector = vec;
              created_at = now;
            } in
            let (failed, store) = ports.save entry s'.store in
            let s'' = record s' { store = store } in
            elim failed [
              | some e ↦
                  let (_, vstore') = ports.vector_delete id s''.vstore in
                  some (some (port e), record s'' { vstore = vstore' })
              | none ↦
                  enforce_capacity fuel
                    (record s'' { policy = ports.policy.on_insert id s''.policy })
            ]
      ]
