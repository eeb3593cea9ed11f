-- ===== src/Orchestrator/Update/Bound.antt =====
-- internal/orchestrator/service.go: `enforceCapacity` over stores that do as they are told.
use Prim.Native.Nat.{min}
use llm_cache.Common.{
  ℕ, zero, suc, ◌+◌, ◌≤◌, ◌<◌, ◌≡◌, refl, ap, ◌∙◌, List, none, some, true, false, Str, str_key,
  Str-discrete, ite, arith, length, Option-cases, Bool-cases, inl, inr, leb,
}
use llm_cache.Common.Dict.{contains, Once, length-eq_of_contains}
use llm_cache.Common.Int.{pos}
use llm_cache.Common.Result.{ok}
use llm_cache.Orchestrator.{Ports, Service, record_eviction}
use llm_cache.Orchestrator.Update.{returns, again, evict, turn, turns, enforce_capacity}
use llm_cache.Orchestrator.Update.Rounds.{length-on_delete}
use llm_cache.Persistence.{Entry}
use llm_cache.Policy.Interface.{Contract}

-- What the store and the vector store promise: `held` is the ids with an entry, each once, the size
-- counts them, a save succeeds and adds its id, and a delete succeeds and takes its id away.
pub record Stores {E V L S Q P : Type 0} (ports : Ports E V L S Q P) (held : S → List Str)
    : Type 0 where
  pub once : (s : S) → Once (held s)
  pub size : (s : S) → ports.size s ≡ (ok (length (held s)), s)
  pub delete : (id : Str) (s : S) → (ports.delete id s).0 ≡ none
  pub held_delete :
      (id q : Str) (s : S)
      → contains q (held (ports.delete id s).1)
        ≡ ite (Str-discrete id q) false (contains q (held s))
  pub save : (entry : Entry) (s : S) → (ports.save entry s).0 ≡ none
  pub held_save :
      (entry : Entry) (q : Str) (s : S)
      → contains q (held (ports.save entry s).1)
        ≡ ite (Str-discrete entry.id q) true (contains q (held s))
  pub vector_delete : (id : Str) (v : V) → (ports.vector_delete id v).0 ≡ none

module _ {E V L S Q P : Type 0} (ports : Ports E V L S Q P) {IsValid : P → Type 0}
    {tracked : P → List Str} (promise : Contract ports.policy IsValid tracked) {held : S → List Str}
    (stores : Stores ports held) where
  -- The policy tracks what the store holds.
  pub record IsConsistent (s : Service E V L S Q P) : Type 0 where
    pub valid : IsValid s.policy
    pub same : (q : Str) → contains q (tracked s.policy) ≡ contains q (held s.store)

  module _ (s : Service E V L S Q P) (c : IsConsistent s) where
    length-tracked : length (tracked s.policy) ≡ length (held s.store)
    length-tracked =
        length-eq_of_contains (tracked s.policy) (held s.store) (promise.once s.policy c.valid)
          (stores.once s.store) c.same

    -- The state after the eviction of an id.
    abbrev evicted : Str → Service E V L S Q P
    evicted v = record_eviction (record s {
      store = (ports.delete v s.store).1;
      vstore = (ports.vector_delete v s.vstore).1;
      policy = ports.policy.on_delete v s.policy;
    })

    turn-fits :
        (n : ℕ) → s.cfg.capacity ≡ pos n → length (held s.store) ≤ n → turn ports s ≡ returns none s
    unfolding turn
    turn-fits n cap fits = ground (arith, stores.size s.store)

    turn-full :
        (n : ℕ)
        → s.cfg.capacity ≡ pos n
        → n < length (held s.store)
        → (v : Str) × (ports.policy.victim s.policy ≡ some v) × (turn ports s ≡ again (evicted v))
    unfolding turn evict
    turn-full n cap full = elim (Option-cases (ports.policy.victim s.policy)) [
      | inl gone ↦ absurd (ground (arith, length-tracked, promise.victim_none s.policy c.valid))
      | inr (v, chosen) ↦ (
        v,
        chosen,
        ground
            (arith, stores.size s.store, stores.delete v s.store, stores.vector_delete v s.vstore),
      )
    ]

    evicted-IsConsistent : (v : Str) → IsConsistent (evicted v)
    unfolding record_eviction
    evicted-IsConsistent v = record {
      valid = promise.delete_valid v s.policy c.valid;
      same = λ q. ground (
        arith,
        promise.tracked_delete v q s.policy c.valid,
        stores.held_delete v q s.store,
        c.same q,
      );
    }

    cfg-evicted : (v : Str) → (evicted v).cfg ≡ s.cfg
    unfolding record_eviction
    cfg-evicted v = refl

    within-evicted :
        (v q : Str) → contains q (held (evicted v).store) ≡ true → contains q (held s.store) ≡ true
    unfolding record_eviction
    within-evicted v q h = ground (arith, stores.held_delete v q s.store)

  length-evicted :
      (s : Service E V L S Q P) (c : IsConsistent s) (v : Str)
      → ports.policy.victim s.policy ≡ some v
      → length (held (evicted s c v).store) + 1 ≡ length (held s.store)
  unfolding record_eviction
  length-evicted s c v chosen = omega (
    arith,
    length-tracked s c,
    length-tracked (evicted s c v) (evicted-IsConsistent s c v),
    length-on_delete ports promise s.policy v c.valid chosen,
  )

  -- What the loop leaves: no more is evicted than the capacity asks for, nothing is added, and the
  -- policy still tracks what the store holds.
  pub record Bounded (n : ℕ) (s s' : Service E V L S Q P) : Type 0 where
    pub size : length (held s'.store) ≡ min (length (held s.store)) n
    pub within : (q : Str) → contains q (held s'.store) ≡ true → contains q (held s.store) ≡ true
    pub consistent : IsConsistent s'

  evicted-Bounded :
      (fuel n : ℕ) (s : Service E V L S Q P) (c : IsConsistent s) (v : Str)
      → turn ports s ≡ again (evicted s c v)
      → length (held (evicted s c v).store) + 1 ≡ length (held s.store)
      → n < length (held s.store)
      → (s' : Service E V L S Q P) × (turns ports fuel (evicted s c v) ≡ some (none, s'))
        × Bounded n (evicted s c v) s'
      → (s' : Service E V L S Q P) × (turns ports (suc fuel) s ≡ some (none, s')) × Bounded n s s'
  unfolding turns
  evicted-Bounded fuel n s c v turned fewer full (s', returned, b) = (
    s',
    rw (turned, turns) returned,
    record {
      size = omega (arith, b.size);
      within = λ q h. within-evicted s c v q (b.within q h);
      consistent = b.consistent;
    },
  )

  turns-Bounded :
      (fuel n : ℕ) (s : Service E V L S Q P)
      → IsConsistent s
      → s.cfg.capacity ≡ pos n
      → 0 < fuel
      → length (held s.store) < fuel + n
      → (s' : Service E V L S Q P) × (turns ports fuel s ≡ some (none, s')) × Bounded n s s'
  unfolding turns
  turns-Bounded zero n s c cap some_fuel enough = absurd (omega arith)
  turns-Bounded (suc fuel) n s c cap some_fuel enough =
      elim (Bool-cases (leb (length (held s.store)) n)) [
        | inl fits ↦ (
          s,
          rw (turn-fits s c n cap (ground arith), turns),
          record { size = ground arith; within = λ q h. h; consistent = c },
        )
        | inr full ↦
            let (v, chosen, turned) = turn-full s c n cap (ground arith) in
            evicted-Bounded fuel n s c v turned (length-evicted s c v chosen) (ground arith) (
              turns-Bounded fuel n (evicted s c v) (evicted-IsConsistent s c v)
                (ap (λ cfg. cfg.capacity) (cfg-evicted s c v) ∙ cap) (ground arith)
                (omega (arith, length-evicted s c v chosen)))
      ]

  -- Over reliable stores, with more turns allowed than there are entries, `enforceCapacity` with a
  -- positive capacity returns without an error.
  pub enforce_capacity-Bounded :
      (fuel n : ℕ) (s : Service E V L S Q P)
      → IsConsistent s
      → s.cfg.capacity ≡ pos (suc n)
      → length (held s.store) < fuel
      → (s' : Service E V L S Q P) × (enforce_capacity ports fuel s ≡ some (none, s'))
        × Bounded (suc n) s s'
  unfolding enforce_capacity
  enforce_capacity-Bounded fuel n s c cap enough =
      let (s', returned, b) = turns-Bounded fuel (suc n) s c cap (omega arith) (omega arith) in
      (s', ground arith, b)
