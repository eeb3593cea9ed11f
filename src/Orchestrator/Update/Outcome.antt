-- ===== src/Orchestrator/Update/Outcome.antt =====
-- internal/orchestrator/service.go: what `updateCache` does with a job.
use llm_cache.Common.{
  ℕ, suc, ◌+◌, ◌≤◌, ◌<◌, ◌≡◌, ◌⊎◌, List, Option, none, some, true, Str, str_key, arith, length,
  Option-cases, Bool-cases, inl, inr,
}
use llm_cache.Common.Dict.{contains, length-le_of_insert}
use llm_cache.Common.Float.{Float64}
use llm_cache.Common.Int.{pos, leb_ℤ}
use llm_cache.Common.Result.{ok, Result-cases}
use llm_cache.Orchestrator.{Ports, Service, Failure, port}
use llm_cache.Orchestrator.Update.{update_cache, enforce_capacity}
use llm_cache.Orchestrator.Update.Bound
use llm_cache.Orchestrator.Update.Bound.{Stores, IsConsistent, Bounded}
use llm_cache.Orchestrator.Update.Rounds.{turns-returns}
use llm_cache.Persistence.{Entry}
use llm_cache.Policy.Interface.{Contract}

module _ {E V L S Q P : Type 0} (ports : Ports E V L S Q P) where
  -- When the store refuses the entry, the vector that was just stored is deleted again, the error
  -- is the store's, and neither the policy nor the counters know of the entry.
  pub update_cache-unsaved :
      (fuel now : ℕ) (prompt : Str) (vec : List Float64) (reply : Str) (s : Service E V L S Q P)
      (id e : Str) (v : V) (store : S)
      → ports.upsert vec s.vstore ≡ (ok id, v)
      → ports.save
          (record { id = id; prompt = prompt; reply = reply; vector = vec; created_at = now })
          s.store
        ≡ (some e, store)
      → update_cache ports fuel now prompt vec reply s
        ≡ some (some (port e), record s { vstore = (ports.vector_delete id v).1; store = store })
  unfolding update_cache
  update_cache-unsaved fuel now prompt vec reply s id e v store upserts refused = ground arith

module _ {E V L S Q P : Type 0} (ports : Ports E V L S Q P) {IsValid : P → Type 0}
    {tracked : P → List Str} (promise : Contract ports.policy IsValid tracked) where
  length-on_insert :
      (id : Str) (p : P)
      → IsValid p
      → length (tracked (ports.policy.on_insert id p)) ≤ length (tracked p) + 1
  length-on_insert id p v =
      length-le_of_insert id (tracked (ports.policy.on_insert id p)) (tracked p)
        (promise.once _ (promise.insert_valid id p v)) (λ q. promise.tracked_insert id q p v)

  enforce_capacity-returns :
      (fuel : ℕ) (s : Service E V L S Q P)
      → IsValid s.policy
      → length (tracked s.policy) < fuel
      → (r : Option Failure × Service E V L S Q P) × (enforce_capacity ports fuel s ≡ some r)
  unfolding enforce_capacity
  enforce_capacity-returns fuel s valid enough =
      let (r, returned) = turns-returns ports promise fuel s valid enough in
      elim (Bool-cases (leb_ℤ s.cfg.capacity (pos 0))) [
        | inl off ↦ ((none, s), ground arith)
        | inr on ↦ (r, ground arith)
      ]

  -- With a policy that keeps its contract, `updateCache` returns, whatever the other ports answer:
  -- two turns more than the policy tracks ids are enough for the loop in it.
  pub update_cache-returns :
      (fuel now : ℕ) (prompt : Str) (vec : List Float64) (reply : Str) (s : Service E V L S Q P)
      → IsValid s.policy
      → length (tracked s.policy) + 1 < fuel
      → (r : Option Failure × Service E V L S Q P) × (update_cache ports fuel now prompt vec reply s
          ≡ some r)
  unfolding update_cache
  update_cache-returns fuel now prompt vec reply s valid enough =
      let upserted = ports.upsert vec s.vstore in
      elim (Result-cases upserted.0) [
        | inr (e, failed) ↦ ((some (port e), record s { vstore = upserted.1 }), ground arith)
        | inl (id, stored) ↦
            let entry : Entry = record {
              id = id;
              prompt = prompt;
              reply = reply;
              vector = vec;
              created_at = now;
            } in
            let saved = ports.save entry s.store in
            elim (Option-cases saved.0) [
              | inr (e, failed) ↦ (
                (
                  some (port e),
                  record s { vstore = (ports.vector_delete id upserted.1).1; store = saved.1 },
                ),
                ground arith,
              )
              | inl done ↦
                  let (r, returned) =
                    enforce_capacity-returns fuel
                      (record s {
                        vstore = upserted.1;
                        store = saved.1;
                        policy = ports.policy.on_insert id s.policy;
                      })
                      (promise.insert_valid id s.policy valid)
                      (omega (arith, length-on_insert id s.policy valid)) in
                  (r, ground arith)
            ]
      ]

  module _ {held : S → List Str} (stores : Stores ports held) where
    -- Where the policy keeps its contract, the stores do as they are told, the policy tracks what
    -- the store holds, and the vector store takes the vector, a job for a cache of positive
    -- capacity ends without an error, given one turn more than the store holds entries with the new
    -- one: the policy still tracks what the store holds, and the store holds no more entries than
    -- the capacity, and nothing but the old entries and the new one.
    pub update_cache-Bounded :
        (fuel now n : ℕ) (prompt : Str) (vec : List Float64) (reply : Str) (s : Service E V L S Q P)
        (id : Str) (v : V)
        → IsConsistent ports promise stores s
        → s.cfg.capacity ≡ pos (suc n)
        → length (held s.store) + 1 < fuel
        → ports.upsert vec s.vstore ≡ (ok id, v)
        → (s' : Service E V L S Q P) × (update_cache ports fuel now prompt vec reply s
            ≡ some (none, s'))
          × IsConsistent ports promise stores s'
          × (length (held s'.store) ≤ suc n)
          × ((q : Str)
              → contains q (held s'.store) ≡ true
              → (q ≡ id) ⊎ (contains q (held s.store) ≡ true))
    unfolding update_cache
    update_cache-Bounded fuel now n prompt vec reply s id v c cap enough upserts =
        let entry : Entry = record {
          id = id;
          prompt = prompt;
          reply = reply;
          vector = vec;
          created_at = now;
        } in
        let store = (ports.save entry s.store).1 in
        let s₁ : Service E V L S Q P = record s {
          vstore = v;
          store = store;
          policy = ports.policy.on_insert id s.policy;
        } in
        let c₁ : IsConsistent ports promise stores s₁ = record {
          valid = promise.insert_valid id s.policy c.valid;
          same = λ q. ground (
            arith,
            promise.tracked_insert id q s.policy c.valid,
            stores.held_save entry q s.store,
            c.same q,
          );
        } in
        let longer : length (held store) ≤ length (held s.store) + 1 =
          length-le_of_insert id (held store) (held s.store) (stores.once store)
            (λ q. stores.held_save entry q s.store) in
        let (s', returned, b) =
          Bound.enforce_capacity-Bounded ports promise stores fuel n s₁ c₁ cap (omega arith) in
        (
          s',
          ground (arith, stores.save entry s.store),
          b.consistent,
          omega (arith, b.size),
          λ q h. ground (arith, b.within q h, stores.held_save entry q s.store),
        )
