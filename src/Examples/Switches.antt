-- ===== src/Examples/Switches.antt =====
-- Switches of a slot: internal/plugins/manager/activate.go.
use llm_cache.Common.{ℕ, suc, ◌≡◌, refl, [], none, some, true, str_key, Str-discrete, codes}
use llm_cache.Common.Dict.{lookup, insert}
use llm_cache.Common.Float.{float_zero}
use llm_cache.Examples.Records.{p, plain, no_confirmations}
use llm_cache.Plugins.{PluginType, text}
use llm_cache.Plugins.Registry.{Memory, RegistryError, new_memory, create, set_active, update}
use llm_cache.Plugins.Slots.{Slots, current, put}
use llm_cache.Plugins.Switch.{
  Mode, Plan, Ports, World, SwitchError, commit, settle, mark, enter, leave,
}
use llm_cache.Plugins.Switch.Committed
use llm_cache.Plugins.Switch.Recorded
use llm_cache.Plugins.Switch.Recorded.{memory_ports, memory-Selects, selected}

-- Adapters are numbers, and the cache is a number that the migration counts up.
abbrev ports : Ports ℕ Unit (Memory Unit) ℕ
ports = memory_ports 7 (λ c. none) (λ t i. true)

abbrev plan : Plan ℕ
plan = record {
  need_gate = true;
  force_miss = true;
  migrate = some (λ c. (none, suc c));
  after = some (λ c. (some (codes "after"), c));
  cleanup = none;
  threshold = none;
}

abbrev zeros : Slots ℕ
zeros = record { llm = 0; embedder = 0; vector_store = 0; store = 0; queue = 0; policy = 0 }

abbrev before : World ℕ (Memory Unit) ℕ
before = record { slots = zeros; active = []; reg = new_memory; threshold = float_zero; cache = 0 }

-- After the swap, with the record of the plugin in the registry, and with it deleted meanwhile.
abbrev swapped : World ℕ (Memory Unit) ℕ
swapped = record before { slots = put PluginType.queue 1 zeros; reg = (create plain new_memory).1 }

abbrev orphaned : World ℕ (Memory Unit) ℕ
orphaned = record before { slots = put PluginType.queue 1 zeros }

abbrev committed : World ℕ (Memory Unit) ℕ
committed =
    (commit ports PluginType.queue [] p no_confirmations plan Mode.activate float_zero swapped).1

commit-selected_example :
    (selected PluginType.queue committed.reg ≡ p)
    × (lookup (text PluginType.queue) committed.active ≡ some p)
    × (committed.slots ≡ swapped.slots)
    × (committed.cache ≡ swapped.cache)
commit-selected_example =
    Committed.commit-selected ports ((memory-Selects 7 (λ c. none) (λ t i. true)).0)
      PluginType.queue [] p no_confirmations plan Mode.activate float_zero swapped committed
      (unfold commit mark enter leave create new_memory set_active update insert lookup
          Str-discrete in
        refl)

abbrev refused : World ℕ (Memory Unit) ℕ
refused =
    (settle ports PluginType.queue [] p no_confirmations plan Mode.activate float_zero 0 orphaned).1

refused-settle :
    settle ports PluginType.queue [] p no_confirmations plan Mode.activate float_zero 0 orphaned
    ≡ (some (SwitchError.not_recorded RegistryError.not_found), refused)
unfolding settle commit mark enter leave create new_memory set_active update insert lookup
    Str-discrete
refused-settle = refl

settle-undone_example :
    (refused.slots ≡ zeros)
    × (refused.active ≡ orphaned.active)
    × (refused.threshold ≡ orphaned.threshold)
    × (refused.cache ≡ orphaned.cache)
settle-undone_example =
    Committed.settle-undone ports ((memory-Selects 7 (λ c. none) (λ t i. true)).0) PluginType.queue
      [] p no_confirmations plan Mode.activate float_zero 1 0 zeros (unfold current in refl) refl
      orphaned refused (SwitchError.not_recorded RegistryError.not_found) refl refused-settle

settle-disagrees_example :
    (selected PluginType.queue refused.reg ≡ p)
    × (refused.slots ≡ zeros)
    × (refused.active ≡ orphaned.active)
settle-disagrees_example =
    Committed.settle-disagrees ports ((memory-Selects 7 (λ c. none) (λ t i. true)).0)
      PluginType.queue [] p no_confirmations plan Mode.activate float_zero 1 0 zeros
      (unfold current in refl) refl orphaned refused
      (SwitchError.not_recorded RegistryError.not_found) refl (unfold mark Str-discrete in refl)
      refused-settle

memory-Selects_example : Committed.Selects ports selected × Recorded.Undisturbed Unit 7
memory-Selects_example = memory-Selects 7 (λ c. none) (λ t i. true)
