-- ===== src/Policy/Manager/Selection.antt =====
-- internal/policy/policy.go: which policy a name selects, and what a change of it is told.
use llm_cache.Common.{
  ◌≡◌, ◌≢◌, refl, sym, ◌⊎◌, inl, inr, List, [], ◌∷◌, Str, str_key, Str-discrete, arith, ite, codes,
  if_pos, if_neg,
}
use llm_cache.Common.Dict.{lookup, insert}
use llm_cache.Common.Result.{ok, err}
use llm_cache.Common.Sorting.{sort, str_less}
use llm_cache.Plugin
use llm_cache.Plugin.{BuildError, unknown}
use llm_cache.Policy.Fifo
use llm_cache.Policy.Lfu
use llm_cache.Policy.Lru
use llm_cache.Policy.Lru.{lru}
use llm_cache.Policy.Lfu.{lfu}
use llm_cache.Policy.Fifo.{fifo}
use llm_cache.Policy.Interface.{EvictionPolicy}
use llm_cache.Policy.Manager.{
  is_lru, is_lfu, is_fifo, Manager, PolicyConfig, policy_registry, policy_lru, policy_lfu,
  policy_fifo, new, new_manager, current, default_name,
}

-- The registered names, sorted.
abbrev pub sorted_names : List Str
sorted_names = policy_fifo ∷ policy_lfu ∷ policy_lru ∷ []

module _ {X : Type 0} (other : EvictionPolicy X) where
  -- What the `init` functions leave behind.
  policy_registry_lem : (policy_registry {X = X}) ≡ record {
    kind = codes "eviction policy";
    entries =
        (policy_lru, λ _. ok (is_lru Lru.new_lru_policy))
        ∷ (policy_lfu, λ _. ok (is_lfu Lfu.new_lfu_policy))
        ∷ (policy_fifo, λ _. ok (is_fifo Fifo.new_fifo_policy))
        ∷ [];
  }
  unfolding policy_registry Plugin.register Plugin.new_registry insert Str-discrete
  policy_registry_lem = refl

  names-policy_registry : Plugin.names (policy_registry {X = X}) ≡ sorted_names
  unfolding Plugin.names policy_registry Plugin.register Plugin.new_registry insert Str-discrete
      sort str_less
  names-policy_registry = refl

  -- The policy that is registered under a name.
  build-policy_registry :
      (name : Str) (cfg : PolicyConfig)
      → Plugin.build (policy_registry {X = X}) name cfg
        ≡ ite (Str-discrete policy_lru name) (ok (is_lru Lru.new_lru_policy)) (
            ite (Str-discrete policy_lfu name) (ok (is_lfu Lfu.new_lfu_policy)) (
              ite
                (Str-discrete policy_fifo name)
                (ok (is_fifo Fifo.new_fifo_policy))
                (err (unknown (codes "eviction policy") name sorted_names))))
  unfolding Plugin.build lookup
  build-policy_registry name cfg =
      rw policy_registry_lem (ground (arith, rw policy_registry_lem at names-policy_registry))

  unregistered :
      (name : Str)
      → policy_lru ≢ default_name name
      → policy_lfu ≢ default_name name
      → policy_fifo ≢ default_name name
      → (new_manager {X = X} name ≡ err (unknown (codes "eviction policy") name sorted_names))
        × (name ≢ [])
        × (name ≢ policy_lru)
        × (name ≢ policy_lfu)
        × (name ≢ policy_fifo)
  unfolding new_manager new default_name
  unregistered name p q r = elim (Str-discrete name []) [
    | yes e ↦ absurd (p (sym (if_pos (Str-discrete name []) e policy_lru name)))
    | no ne ↦
        let key : default_name name ≡ name = if_neg (Str-discrete name []) ne policy_lru name in
        let p' : policy_lru ≢ name = rw key at p in
        let q' : policy_lfu ≢ name = rw key at q in
        let r' : policy_fifo ≢ name = rw key at r in
        (
          ground (arith, build-policy_registry (default_name name) (record { policy = name }), key),
          ne,
          λ e. p' (sym e),
          λ e. q' (sym e),
          λ e. r' (sym e),
        )
  ]

  -- With a name that is registered, or none, the manager holds the policy of that name, LRU for none.
  -- With any other name there is no manager, and the error lists the registered names in order.
  pub new_manager-current :
      (name : Str)
      → ((m : Manager X) × (new_manager {X = X} name ≡ ok m)
          × (current other m ≡ default_name name))
        ⊎ ((new_manager {X = X} name ≡ err (unknown (codes "eviction policy") name sorted_names))
            × (name ≢ [])
            × (name ≢ policy_lru)
            × (name ≢ policy_lfu)
            × (name ≢ policy_fifo))
  unfolding new_manager new current lru lfu fifo
  new_manager-current name =
      let key = default_name name in
      let built = build-policy_registry key (record { policy = name }) in
      elim (Str-discrete policy_lru key) [
        | yes p ↦ inl (record { policy = is_lru Lru.new_lru_policy }, ground (arith, built), p)
        | no p ↦ elim (Str-discrete policy_lfu key) [
          | yes q ↦ inl (record { policy = is_lfu Lfu.new_lfu_policy }, ground (arith, built), q)
          | no q ↦ elim (Str-discrete policy_fifo key) [
            | yes r ↦
                inl (record { policy = is_fifo Fifo.new_fifo_policy }, ground (arith, built), r)
            | no r ↦ inr (unregistered name p q r)
          ]
        ]
      ]
