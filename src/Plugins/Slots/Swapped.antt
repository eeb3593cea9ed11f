-- ===== src/Plugins/Slots/Swapped.antt =====
-- internal/plugins/manager/slots.go: what a swap does to the slots.
use llm_cache.Common.{◌≡◌, refl, ◌⊎◌, inl, inr, some, Bool, true, arith, Option-cases, Bool-cases}
use llm_cache.Common.Result.{ok, err}
use llm_cache.Plugins
use llm_cache.Plugins.{PluginType}
use llm_cache.Plugins.Slots.{Slots, SwapError, current, put, swap}

module _ {I : Type 0} where
  -- Two swaps of a slot, the second of which brings the first adapter back, cancel.
  pub put-put :
      (t : PluginType) (i j : I) (s : Slots I) → current t s ≡ some j → put t j (put t i s) ≡ s
  unfolding put current
  put-put Plugins.llm i j s h = ground arith
  put-put Plugins.embedder i j s h = ground arith
  put-put Plugins.vector_store i j s h = ground arith
  put-put Plugins.persistence i j s h = ground arith
  put-put Plugins.queue i j s h = ground arith
  put-put Plugins.policy i j s h = ground arith
  put-put Plugins.embedding_model i j s h = cc
  put-put Plugins.vector_index i j s h = cc
  put-put Plugins.similarity_metric i j s h = cc

  pub current-put :
      (t : PluginType) (i j : I) (s : Slots I)
      → current t s ≡ some j
      → current t (put t i s) ≡ some i
  unfolding put current
  current-put Plugins.llm i j s h = refl
  current-put Plugins.embedder i j s h = refl
  current-put Plugins.vector_store i j s h = refl
  current-put Plugins.persistence i j s h = refl
  current-put Plugins.queue i j s h = refl
  current-put Plugins.policy i j s h = refl
  current-put Plugins.embedding_model i j s h = cc
  current-put Plugins.vector_index i j s h = cc
  current-put Plugins.similarity_metric i j s h = cc

  module _ (fits : PluginType → I → Bool) (t : PluginType) (i : I) (s : Slots I) where
    pub swap-cases :
        ((j : I) × (current t s ≡ some j)
          × (fits t i ≡ true)
          × (swap fits t i s ≡ (ok j, put t i s)))
        ⊎ ((e : SwapError) × (swap fits t i s ≡ (err e, s)))
    unfolding swap
    swap-cases = elim (Option-cases (current t s)) [
      | inl gone ↦ inr (SwapError.unknown_slot, ground arith)
      | inr (j, here) ↦ elim (Bool-cases (fits t i)) [
        | inl fit ↦ inl (j, here, fit, ground arith)
        | inr unfit ↦ inr (SwapError.does_not_implement t, ground arith)
      ]
    ]

  -- The adapter that a swap replaced goes back.
  pub swap-back :
      (fits : PluginType → I → Bool) (t : PluginType) (i j : I) (s : Slots I)
      → current t s ≡ some j
      → fits t j ≡ true
      → swap fits t j (put t i s) ≡ (ok i, s)
  unfolding swap
  swap-back fits t i j s here fit = ground (arith, current-put t i j s here, put-put t i j s here)
