-- ===== src/Examples/Installations.antt =====
-- The states of an installation and its record: internal/plugins/types.go and
-- internal/plugins/registry/memory.go.
use llm_cache.Common.{ℕ, ◌≡◌, refl, List, [], ◌∷◌, true, Str, str_key, codes, take}
use llm_cache.Common.Result.{Result, ok}
use llm_cache.Examples.Records.{p, plain}
use llm_cache.Plugins.{PluginType, State, text, parse_type, is_python, slot, valid_transition}
use llm_cache.Plugins
use llm_cache.Plugins.Lifecycle
use llm_cache.Plugins.Registry.{Record, Memory, Event, new_memory, create, audit, max_audit_events}
use llm_cache.Plugins.Registry.Trail

abbrev states : List State
states = State.validating ∷ State.testing ∷ State.checking ∷ State.activating ∷ State.active ∷ []

states-IsRun : Lifecycle.IsRun State.draft states
unfolding valid_transition Plugins.one_of Plugins.transitions Plugins.index Plugins.in_progress
states-IsRun = (refl, (refl, (refl, (refl, (refl, tt)))))

visits-activating_example : Lifecycle.visits State.activating (State.draft ∷ states) ≡ true
visits-activating_example =
    Lifecycle.visits-activating State.draft states (unfold Plugins.index in refl) states-IsRun
      (unfold Lifecycle.visits Plugins.index in refl)

abbrev ready : Record Unit
ready = record plain { state = State.failed }

abbrev empty : Memory Unit
empty = new_memory

abbrev one : Memory Unit
one = (create plain empty).1

abbrev verify : Record Unit → Result Str (Record Unit)
verify r = ok (record r { state = State.verified })

abbrev event : ℕ → Event
event t = record {
  time = t;
  actor = codes "admin";
  action = codes "activate";
  plugin_id = p;
  kind = codes "queue";
  outcome = codes "ok";
  detail = [];
}

abbrev events : List Event
events = event 3 ∷ event 2 ∷ event 1 ∷ []

audit-after_example :
    audit p 2 (Trail.after_events events empty)
    ≡ Trail.cut 2 (Trail.select p (take max_audit_events events))
audit-after_example = Trail.audit-after empty (unfold new_memory in refl) events p 2
