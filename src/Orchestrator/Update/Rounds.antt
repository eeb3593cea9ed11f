-- ===== src/Orchestrator/Update/Rounds.antt =====
-- internal/orchestrator/service.go: the loop of `enforceCapacity` ends, whatever the stores do.
use llm_cache.Common.{
  ℕ, zero, suc, ◌+◌, ◌<◌, ◌≡◌, ◌⊎◌, refl, List, Option, some, Str, str_key, arith, length,
  Option-cases, Bool-cases, inl, inr,
}
use llm_cache.Common.Dict.{
  remove, contains-remove, length-remove, remove-Once, length-eq_of_contains,
}
use llm_cache.Common.Int.{pos, leb_ℤ}
use llm_cache.Common.Result.{Result-cases}
use llm_cache.Orchestrator.{Ports, Service, Failure, record_eviction}
use llm_cache.Orchestrator.Update.{Turn, returns, again, evict, turn, turns}
use llm_cache.Policy.Interface.{Contract}

Turn-cases :
    {A : Type 0} (t : Turn A)
    → ((f : Option Failure) × (a : A) × (t ≡ returns f a)) ⊎ ((a : A) × (t ≡ again a))
Turn-cases (returns f a) = inl (f, a, refl)
Turn-cases (again a) = inr (a, refl)

module _ {E V L S Q P : Type 0} (ports : Ports E V L S Q P) where
  evict-again :
      (v : Str) (s s' : Service E V L S Q P)
      → evict ports v s ≡ again s'
      → s'.policy ≡ ports.policy.on_delete v s.policy
  unfolding evict record_eviction
  evict-again v s s' e = elim (Option-cases (ports.delete v s.store).0) [
    | inr (x, failed) ↦ absurd (ground arith)
    | inl deleted ↦ elim (Option-cases (ports.vector_delete v s.vstore).0) [
      | inr (x, failed) ↦ absurd (ground arith)
      | inl removed ↦ ground arith
    ]
  ]

  -- A turn that goes round again has taken the victim from the policy.
  pub turn-again_policy :
      (s s' : Service E V L S Q P)
      → turn ports s ≡ again s'
      → (v : Str) × (ports.policy.victim s.policy ≡ some v)
        × (s'.policy ≡ ports.policy.on_delete v s.policy)
  unfolding turn
  turn-again_policy s s' e =
      let sized = ports.size s.store in
      elim (Result-cases sized.0) [
        | inr (x, failed) ↦ absurd (ground arith)
        | inl (n, counted) ↦ elim (Option-cases (ports.policy.victim s.policy)) [
          | inl gone ↦ absurd (ground arith)
          | inr (v, chosen) ↦ elim (Bool-cases (leb_ℤ (pos n) s.cfg.capacity)) [
            | inl fits ↦ absurd (ground arith)
            | inr full ↦ (v, chosen, evict-again v (record s { store = sized.1 }) s' (ground arith))
          ]
        ]
      ]

module _ {E V L S Q P : Type 0} (ports : Ports E V L S Q P) {IsValid : P → Type 0}
    {tracked : P → List Str} (promise : Contract ports.policy IsValid tracked) where
  -- Deleting its victim makes the policy track one id less.
  pub length-on_delete :
      (p : P) (v : Str)
      → IsValid p
      → ports.policy.victim p ≡ some v
      → length (tracked (ports.policy.on_delete v p)) + 1 ≡ length (tracked p)
  length-on_delete p v valid e =
      let ids = tracked p in
      let once = promise.once p valid in
      let rest =
        length-eq_of_contains (tracked (ports.policy.on_delete v p)) (remove v ids)
          (promise.once _ (promise.delete_valid v p valid)) (remove-Once v ids once)
          (λ q. ground (arith, promise.tracked_delete v q p valid, contains-remove v q ids)) in
      omega (arith, rest, length-remove v ids once (promise.victim_tracked p v valid e))

  turn-again :
      (s s' : Service E V L S Q P)
      → IsValid s.policy
      → turn ports s ≡ again s'
      → IsValid s'.policy × (length (tracked s'.policy) < length (tracked s.policy))
  turn-again s s' valid e =
      let (v, chosen, gone) = turn-again_policy ports s s' e in
      rw gone (
        promise.delete_valid v s.policy valid,
        omega (arith, length-on_delete s.policy v valid chosen),
      )

  -- With a policy that keeps its contract, and with more turns allowed than it tracks ids, the loop
  -- of `enforceCapacity` returns, whatever the stores answer: each turn that goes on takes one id
  -- from the policy.
  pub turns-returns :
      (fuel : ℕ) (s : Service E V L S Q P)
      → IsValid s.policy
      → length (tracked s.policy) < fuel
      → (r : Option Failure × Service E V L S Q P) × (turns ports fuel s ≡ some r)
  unfolding turns
  turns-returns zero s valid h = absurd (omega arith)
  turns-returns (suc fuel) s valid h = elim (Turn-cases (turn ports s)) [
    | inl (f, s', e) ↦ ((f, s'), rw (e, turns))
    | inr (s', e) ↦
        let (valid', fewer) = turn-again s s' valid e in
        rw (e, turns) (turns-returns fuel s' valid' (omega arith))
  ]
