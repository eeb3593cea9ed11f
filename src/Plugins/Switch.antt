-- ===== src/Plugins/Switch.antt =====
-- internal/plugins/manager/activate.go: `execute` and `commit`, and the end of `switchSlot` that
-- calls them. What the functions of a plan change, the caches behind the adapters, is the state
-- `cache`; the host's threshold is `threshold`, and `active` is the manager's own map from slots to
-- the ids of their plugins, where the empty id is the built-in implementation.
pub mod Executed
pub mod Committed
pub mod Recorded
use llm_cache.Common.{
  ℕ, List, [], ◌∷◌, Option, none, some, Bool, true, false, Str, str_key, Str-discrete, ite,
  if◌then◌else◌,
}
use llm_cache.Common.Dict.{Dict, insert}
use llm_cache.Common.Float.{Float64, float_minus_one}
use llm_cache.Common.Result.{Result, ok, err}
use llm_cache.Plugins.{PluginType, State, text}
use llm_cache.Plugins
use llm_cache.Plugins.Registry.{Record, Confirmations, RegistryError}
use llm_cache.Plugins.Slots.{Slots, SwapError, swap}

pub data Mode : Type 0 where
  activate deactivate rollback : Mode

-- The functions that a plan has none of are `none`; a step answers with its error.
pub record Plan (C : Type 0) : Type 0 where
  pub need_gate : Bool
  pub force_miss : Bool
  pub migrate : Option (C → Option Str × C)
  pub after : Option (C → Option Str × C)
  pub cleanup : Option (C → C)
  pub threshold : Option Float64

-- The store of the records as the manager calls it, and the gate of the host.
pub record Ports (I X R C : Type 0) : Type 0 where
  pub update : Str → (Record X → Result Str (Record X)) → R → Result RegistryError (Record X) × R
  pub set_active : PluginType → Str → R → Option RegistryError × R
  pub clear_active : PluginType → R → Option RegistryError × R
  pub pause_writes : C → Option Str
  pub fits : PluginType → I → Bool

pub record World (I R C : Type 0) : Type 0 where
  pub slots : Slots I
  pub active : Dict Str Str
  pub reg : R
  pub threshold : Float64
  pub cache : C

pub data SwitchError : Type 0 where
  step_failed : Str → SwitchError
  not_swapped : SwapError → SwitchError
  -- The error of the step after the swap, which could not be undone.
  not_undone : Str → SwapError → SwitchError
  not_recorded : RegistryError → SwitchError

unfoldable pub perform : {C : Type 0} → Option (C → Option Str × C) → C → Option Str × C
perform none c = (none, c)
perform (some f) c = f c

unfoldable pub clean : {C : Type 0} → Option (C → C) → C → C
clean none c = c
clean (some f) c = f c

-- What `commit` writes into the record of the new plugin.
unfoldable pub activated :
    {X : Type 0}
    → Str
    → Confirmations
    → Option Float64
    → Mode
    → Float64
    → Record X
    → Result Str (Record X)
activated {X = X} old_id conf threshold mode previous r =
    let on : Record X = record r {
      state = State.active;
      state_detail = [];
      active = true;
      confirmations = elim threshold [ none ↦ conf | some t ↦ record conf { threshold = some t } ];
    } in
    elim mode [
      | activate ↦ ok (record on {
        previous_active_id = old_id;
        previous_threshold = elim threshold [ none ↦ none | some _ ↦ some previous ];
      })
      | deactivate ↦ ok (record on { previous_active_id = []; previous_threshold = none })
      | rollback ↦ ok (record on { previous_active_id = []; previous_threshold = none })
    ]

-- And into that of the plugin that it replaces.
unfoldable pub retired : {X : Type 0} → Mode → Record X → Result Str (Record X)
retired mode r = ok (record r {
  active = false;
  state = elim mode [
    | activate ↦ State.inactive
    | deactivate ↦ State.inactive
    | rollback ↦ State.rolled_back
  ];
  state_detail = [];
})

module _ {I X R C : Type 0} (ports : Ports I X R C) where
  -- The part of `execute` from the swap on.
  unfoldable pub install :
      PluginType → I → Plan C → World I R C → Result SwitchError I × World I R C
  unfolding perform clean
  install slot impl pl w =
      let (swapped, slots) = swap ports.fits slot impl w.slots in
      let w' = record w { slots = slots } in
      elim swapped [
        | err e ↦ (err (not_swapped e), record w' { cache = clean pl.cleanup w'.cache })
        | ok previous ↦
            let (failed, cache) = perform pl.after w'.cache in
            let w'' = record w' { cache = cache } in
            elim failed [
              | none ↦ (ok previous, w'')
              | some e ↦
                  let (undone, back) = swap ports.fits slot previous w''.slots in
                  elim undone [
                    | err x ↦ (err (not_undone e x), record w'' { slots = back })
                    | ok _ ↦ (
                      err (step_failed e),
                      record w'' { slots = back; cache = clean pl.cleanup w''.cache },
                    )
                  ]
            ]
      ]

  -- The part of `execute` behind the gate and with the threshold set.
  unfoldable pub move : PluginType → I → Plan C → World I R C → Result SwitchError I × World I R C
  unfolding install perform clean
  move slot impl pl w =
      let (failed, cache) = perform pl.migrate w.cache in
      let w' = record w { cache = cache } in
      elim failed [
        | some e ↦ (err (step_failed e), record w' { cache = clean pl.cleanup w'.cache })
        | none ↦ install slot impl pl w'
      ]

  -- With `force_miss` no query can match until the threshold that was saved is put back.
  unfoldable pub execute :
      PluginType → I → Plan C → World I R C → Result SwitchError I × World I R C
  unfolding move
  execute slot impl pl w =
      let gate : Option Str = if pl.need_gate then ports.pause_writes w.cache else none in
      elim gate [
        | some e ↦ (err (step_failed e), w)
        | none ↦
            let (r, w') =
              move slot impl pl
                (if pl.force_miss then record w { threshold = float_minus_one } else w) in
            (r, if pl.force_miss then record w' { threshold = w.threshold } else w')
      ]

  -- The three parts of `commit` that write: the slot, the record of the new plugin, and that of the
  -- old one, whose error is dropped.
  unfoldable pub mark : PluginType → Str → R → Option RegistryError × R
  mark slot new_id reg =
      ite (Str-discrete new_id []) (ports.clear_active slot reg) (ports.set_active slot new_id reg)

  unfoldable pub enter :
      Str → Str → Confirmations → Option Float64 → Mode → Float64 → R → Option RegistryError × R
  unfolding activated
  enter old_id new_id conf threshold mode previous reg =
      let (updated, reg') =
        ports.update new_id (activated old_id conf threshold mode previous) reg in
      ite (Str-discrete new_id []) (none, reg) (elim updated [ ok _ ↦ none | err e ↦ some e ], reg')

  unfoldable pub leave : Str → Str → Mode → R → R
  unfolding retired
  leave old_id new_id mode reg =
      ite (Str-discrete old_id []) reg
        (ite (Str-discrete old_id new_id) reg (ports.update old_id (retired mode) reg).1)

  unfoldable pub commit :
      PluginType
      → Str
      → Str
      → Confirmations
      → Plan C
      → Mode
      → Float64
      → World I R C
      → Option SwitchError × World I R C
  unfolding mark enter leave
  commit slot old_id new_id conf pl mode previous w =
      let (failed, reg) = mark slot new_id w.reg in
      elim failed [
        | some e ↦ (some (not_recorded e), record w { reg = reg })
        | none ↦
            let (recorded, reg') = enter old_id new_id conf pl.threshold mode previous reg in
            elim recorded [
              | some e ↦ (some (not_recorded e), record w { reg = reg' })
              | none ↦ (
                none,
                record w {
                  reg = leave old_id new_id mode reg';
                  active = insert (text slot) new_id w.active;
                },
              )
            ]
      ]

  -- The steps of `switchSlot` after `execute`: the record of the switch, or the swap undone.
  -- Closing the candidate, and the state of failure that its record is given, are left out.
  unfoldable pub settle :
      PluginType
      → Str
      → Str
      → Confirmations
      → Plan C
      → Mode
      → Float64
      → I
      → World I R C
      → Option SwitchError × World I R C
  unfolding commit
  settle slot old_id new_id conf pl mode previous previous_impl w =
      let (failed, w') = commit slot old_id new_id conf pl mode previous w in
      elim failed [
        | some e ↦ (some e, record w' { slots = (swap ports.fits slot previous_impl w'.slots).1 })
        | none ↦ elim pl.threshold [
          | none ↦ (none, w')
          | some t ↦ (none, record w' { threshold = t })
        ]
      ]
