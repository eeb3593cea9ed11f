-- ===== src/Plugins/Slots.antt =====
-- internal/plugins/manager/slots.go, and the pointers of internal/plugins/dynamic that it swaps. An
-- adapter is of any type, and `fits` is the type assertion of a slot.
pub mod Swapped
use llm_cache.Common.{Option, none, some, Bool, true, false, if◌then◌else◌}
use llm_cache.Common.Result.{Result, ok, err}
use llm_cache.Plugins.{PluginType}
use llm_cache.Plugins

-- The six adapters of the service.
pub record Slots (I : Type 0) : Type 0 where
  pub llm : I
  pub embedder : I
  pub vector_store : I
  pub store : I
  pub queue : I
  pub policy : I

pub data SwapError : Type 0 where
  does_not_implement : PluginType → SwapError
  unknown_slot : SwapError

module _ {I : Type 0} where
  unfoldable pub current : PluginType → Slots I → Option I
  current Plugins.llm s = some s.llm
  current Plugins.embedder s = some s.embedder
  current Plugins.vector_store s = some s.vector_store
  current Plugins.persistence s = some s.store
  current Plugins.queue s = some s.queue
  current Plugins.policy s = some s.policy
  current t s = none

  -- The slots with an adapter in one of them.
  unfoldable pub put : PluginType → I → Slots I → Slots I
  put Plugins.llm i s = record s { llm = i }
  put Plugins.embedder i s = record s { embedder = i }
  put Plugins.vector_store i s = record s { vector_store = i }
  put Plugins.persistence i s = record s { store = i }
  put Plugins.queue i s = record s { queue = i }
  put Plugins.policy i s = record s { policy = i }
  put t i s = s

  -- The adapter that was replaced, or why none was.
  unfoldable pub swap :
      (PluginType → I → Bool) → PluginType → I → Slots I → Result SwapError I × Slots I
  unfolding current put
  swap fits slot i s = elim (current slot s) [
    | none ↦ (err unknown_slot, s)
    | some previous ↦
        if fits slot i then (ok previous, put slot i s) else (err (does_not_implement slot), s)
  ]
