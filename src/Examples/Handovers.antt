-- ===== src/Examples/Handovers.antt =====
-- Switches of a slot from the request on: internal/plugins/manager/activate.go.
use llm_cache.Common.{
  ℕ, ◌≡◌, ◌⊎◌, refl, [], none, some, true, false, codes, Option, str_key, Str-discrete,
}
use llm_cache.Common.Dict.{lookup, insert}
use llm_cache.Common.Float.{float_zero}
use llm_cache.Common.Result.{ok, err}
use llm_cache.Examples.Records.{p, plain, no_confirmations}
use llm_cache.Plugins.{PluginType, State}
use llm_cache.Plugins.Registry.{Record, Memory, new_memory, create, get}
use llm_cache.Plugins.Slots.{Slots}
use llm_cache.Plugins.Switch.{Mode, Plan, World}
use llm_cache.Plugins.Switch.Recorded.{memory_ports, memory-Selects}
use llm_cache.Plugins.SwitchSlot.{
  Manager, Run, Refused, other, find_target, switch_slot, deactivate_plugin, rollback_plugin,
}
use llm_cache.Plugins.SwitchSlot.Switched
use llm_cache.Plugins.SwitchSlot.Stuck

abbrev simple : Plan ℕ
simple = record {
  need_gate = false;
  force_miss = false;
  migrate = none;
  after = none;
  cleanup = none;
  threshold = none;
}

-- Adapters and caches are numbers; no plan leads back to the built-in implementation.
abbrev manager : Manager ℕ Unit Unit (Memory Unit) ℕ
manager = record {
  ports = memory_ports 7 (λ c. none) (λ t i. true);
  get = get;
  passed = λ x. some true;
  builtin = λ t. 0;
  open_secrets = λ r. ok tt;
  build_adapter = λ r s. ok 1;
  probe_health = λ i. none;
  plan_for = λ t r i conf w. elim r [
    | none ↦ err (other (codes "cannot list the entries"))
    | some _ ↦ ok simple
  ];
  explain = λ e. other (codes "switch failed");
  scrub = λ s. s;
  illegal = λ from to. codes "illegal lifecycle transition";
}

abbrev zeros : Slots ℕ
zeros = record { llm = 0; embedder = 0; vector_store = 0; store = 0; queue = 1; policy = 0 }

abbrev on : Record Unit
on = record plain { active = true; state = State.active; rev = 1 }

-- Another plugin, ready to take over.
abbrev ready : Record Unit
ready = record plain { id = codes "q"; state = State.verified }

abbrev world : World ℕ (Memory Unit) ℕ
world = record {
  slots = zeros;
  active = [];
  reg = (create ready (create on new_memory).1).1;
  threshold = float_zero;
  cache = 0;
}

abbrev before : Run ℕ (Memory Unit) ℕ
before = record { world = world; owned = []; closed = []; draining = [] }

switch_slot-Outcome_example :
    let (r, last) =
      switch_slot manager false true PluginType.queue ready no_confirmations Mode.activate before in
    ((e : Refused) × (r ≡ err e)
      × Switched.Same manager
          ((memory-Selects 7 (λ c. none) (λ t i. true)).0)
          PluginType.queue
          before
          last)
    ⊎ ((target : Option (Record Unit)) × (find_target manager Mode.activate ready before.world.reg
          ≡ ok target)
        × Switched.Outcome manager
            ((memory-Selects 7 (λ c. none) (λ t i. true)).0)
            PluginType.queue
            target
            before
            r
            last)
switch_slot-Outcome_example =
    Switched.switch_slot-Outcome manager ((memory-Selects 7 (λ c. none) (λ t i. true)).0)
      PluginType.queue false true ready no_confirmations Mode.activate before (λ j e. refl)

deactivate_plugin-stuck_example :
    let (r, last) =
      deactivate_plugin (Stuck.over_memory manager 7) true false true p no_confirmations before in
    (r ≡ err (Refused.failed (other (codes "cannot list the entries"))))
    × (last.world.slots ≡ before.world.slots)
    × ((r' : Record Unit) × (lookup p last.world.reg.recs ≡ some r')
        × (r'.active ≡ true)
        × (r'.state ≡ State.failed))
    × ((x : Refused) × ((rollback_plugin
            (Stuck.over_memory manager 7)
            true
            false
            true
            p
            no_confirmations
            last).0
          ≡ err x))
deactivate_plugin-stuck_example =
    Stuck.deactivate_plugin-stuck manager 7 on no_confirmations no_confirmations
      (other (codes "cannot list the entries")) before (λ d same. cc)
      (unfold create new_memory insert lookup Str-discrete in refl) refl refl
