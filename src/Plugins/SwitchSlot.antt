-- ===== src/Plugins/SwitchSlot.antt =====
-- internal/plugins/manager/activate.go: `switchSlot` whole, over `execute` and `commit` of Switch,
-- with `Activate`, `Deactivate` and `Rollback` that call it. The log and the audit trail, the timers of
-- `scheduleStop` and the result's copy of the record are left out.
pub mod Switched
pub mod Stuck
use llm_cache.Common.{
  ◌≡◌, List, [], ◌∷◌, ◌++◌, Option, none, some, Bool, true, false, ◌&&◌, ◌||◌, not, Str, str_key,
  Str-discrete, codes, ite, if◌then◌else◌,
}
use llm_cache.Common.Dict.{Dict, lookup, erase}
use llm_cache.Common.Float.{Float64}
use llm_cache.Common.Result.{Result, ok, err}
use llm_cache.Plugins.{PluginType, State, text, slot, valid_transition}
use llm_cache.Plugins
use llm_cache.Plugins.Registry.{Record, Confirmations, RegistryError}
use llm_cache.Plugins.Activation.{set_state, Refusal, activate_check}
use llm_cache.Plugins.Switch.{
  Mode, activate, deactivate, rollback, Plan, Ports, World, SwitchError, execute, settle,
}

-- What an error is to `failed`: that the administrator must decide, that the candidate does not go
-- with the cache, or anything else; with its text, for the second kind the reason.
pub data Failure : Type 0 where
  requirement incompatible other : Str → Failure

pub data Refused : Type 0 where
  disabled busy no_host : Refused
  previous_gone already_active not_active only_active : Refused
  not_ready : Refusal → Refused
  registry : RegistryError → Refused
  failed : Failure → Refused

-- What the manager calls: the store of the records, the sealed secrets, the adapters, and the plan of
-- a slot. `explain` is what an error of the switch itself is.
pub record Manager (I X S R C : Type 0) : Type 0 where
  pub ports : Ports I X R C
  pub get : Str → R → Result RegistryError (Record X)
  pub passed : X → Option Bool
  pub builtin : PluginType → I
  pub open_secrets : Record X → Result Str S
  pub build_adapter : Record X → S → Result Str I
  pub probe_health : I → Option Str
  pub plan_for :
      PluginType → Option (Record X) → I → Confirmations → World I R C → Result Failure (Plan C)
  pub explain : SwitchError → Failure
  pub scrub : Str → Str
  pub illegal : State → State → Str

-- With the adapters that the manager built for the plugins, those it has closed, and those of a queue
-- that are closed once the queue is drained; the last ones come first.
pub record Run (I R C : Type 0) : Type 0 where
  pub world : World I R C
  pub owned : Dict Str I
  pub closed : List I
  pub draining : List I

abbrev pub is_activate : Mode → Bool
is_activate activate = true
is_activate m = false

abbrev pub first_state : Mode → State
first_state rollback = State.rolling_back
first_state m = State.checking

abbrev pub is_deactivate : Mode → Bool
is_deactivate deactivate = true
is_deactivate m = false

-- `actor.State` after a failure, and its detail.
unfoldable pub after_failure :
    {X : Type 0} → (Str → Str) → Mode → State → Failure → Record X → Record X
after_failure scrub mode prev (requirement e) r = record r { state = prev }
after_failure scrub rollback prev (incompatible e) r = record r {
  state = State.active;
  state_detail = codes "rollback failed: " ++ scrub e;
}
after_failure scrub rollback prev (other e) r = record r {
  state = State.active;
  state_detail = codes "rollback failed: " ++ scrub e;
}
after_failure scrub mode prev (incompatible e) r = record r {
  state = State.failed;
  state_detail = e;
}
after_failure scrub mode prev (other e) r = record r {
  state = State.failed;
  state_detail = scrub e;
}

-- `conf`, with the threshold that the plugin replaced when it came in.
unfoldable pub with_threshold : {X : Type 0} → Mode → Record X → Confirmations → Confirmations
with_threshold mode rec conf = if is_activate mode then conf else elim conf.threshold [
  | some t ↦ conf
  | none ↦ elim rec.previous_threshold [ none ↦ conf | some t ↦ record conf { threshold = some t } ]
]

abbrev pub to_activating : {X : Type 0} → Record X → Result Str (Record X)
to_activating r = ok (
    if valid_transition r.state State.activating
    then record r { state = State.activating; state_detail = codes "activating" }
    else r)

abbrev pub or_empty : Option Str → Str
or_empty none = []
or_empty (some id) = id

abbrev pub id_of : {X : Type 0} → Option (Record X) → Str
id_of none = []
id_of (some r) = r.id

abbrev pub is_queue : PluginType → Bool
is_queue Plugins.queue = true
is_queue t = false

-- Whether a plan changes the caches behind the adapters.
abbrev pub has_migration : {C : Type 0} → Option (C → Option Str × C) → Bool
has_migration none = false
has_migration (some f) = true

abbrev pub migrates : {C : Type 0} → Plan C → Bool
migrates pl = pl.need_gate || has_migration pl.migrate

module _ {I X S R C : Type 0} (m : Manager I X S R C) where
  abbrev pub set_reg : R → Run I R C → Run I R C
  set_reg reg st = record st { world = record st.world { reg = reg } }

  -- `_, _ = m.reg.Update(id, change)`
  unfoldable pub write : Str → (Record X → Result Str (Record X)) → Run I R C → Run I R C
  write id change st = set_reg (m.ports.update id change st.world.reg).1 st

  -- `setState`, and whether it failed.
  unfoldable pub enter_state : Str → State → Str → Run I R C → Option RegistryError × Run I R C
  enter_state id to detail st =
      let (updated, reg) = m.ports.update id (set_state m.illegal m.scrub to detail) st.world.reg in
      (elim updated [ ok _ ↦ none | err e ↦ some e ], set_reg reg st)

  -- `failed`
  unfoldable pub fail : Mode → Record X → Failure → Run I R C → Result Refused Unit × Run I R C
  unfolding write after_failure
  fail mode rec cause st =
      (err (failed cause), write rec.id (λ r. ok (after_failure m.scrub mode rec.state cause r)) st)

  -- `closeAdapter` of the candidate, where it was built for this switch.
  abbrev pub discard : Option (Record X) → I → Run I R C → Run I R C
  discard none impl st = st
  discard (some t) impl st = record st { closed = impl ∷ st.closed }

  -- `afterSwitch`
  unfoldable pub after_switch : PluginType → Str → I → Run I R C → Run I R C
  after_switch slot old_id prev st =
      let st' = record st { owned = erase old_id st.owned } in
      elim (lookup old_id st.owned) [
        | none ↦ st'
        | some _ ↦
            if is_queue slot
            then record st' { draining = prev ∷ st.draining }
            else record st' { closed = prev ∷ st.closed }
      ]

  -- The candidate, or why there is none; one that is not healthy is closed.
  unfoldable pub prepare : PluginType → Option (Record X) → Run I R C → Result Failure I × Run I R C
  prepare slot none st = (ok (m.builtin slot), st)
  prepare slot (some t) st = elim (m.open_secrets t) [
    | err e ↦ (err (other e), st)
    | ok sec ↦ elim (m.build_adapter t sec) [
      | err e ↦ (err (other e), st)
      | ok impl ↦ elim (m.probe_health impl) [
        | none ↦ (ok impl, st)
        | some e ↦ (
          err (other (codes "candidate is not healthy: " ++ e)),
          record st { closed = impl ∷ st.closed },
        )
      ]
    ]
  ]

  -- The update of the record between the swap and the commit.
  unfoldable pub note_activating : Mode → Record X → Run I R C → Run I R C
  unfolding write
  note_activating mode rec st = if is_deactivate mode then st else write rec.id to_activating st

  -- Step 4, with the threshold as it was before the plan was carried out.
  unfoldable pub record_switch :
      PluginType
      → Mode
      → Record X
      → Option (Record X)
      → Confirmations
      → Str
      → I
      → Plan C
      → Float64
      → I
      → Run I R C
      → Result Refused Unit × Run I R C
  unfolding fail after_switch
  record_switch slot mode rec target conf old_id impl pl threshold prev st =
      let (settled, w) =
        settle m.ports slot old_id (id_of target) conf pl mode threshold prev st.world in
      let st' = record st { world = w } in
      elim settled [
        | some e ↦ fail mode rec (m.explain e) (discard target impl st')
        | none ↦ (ok tt, after_switch slot old_id prev st')
      ]

  -- The steps 3 and 4.
  unfoldable pub carry_out :
      PluginType
      → Mode
      → Record X
      → Option (Record X)
      → Confirmations
      → Str
      → I
      → Plan C
      → Run I R C
      → Result Refused Unit × Run I R C
  unfolding fail note_activating record_switch
  carry_out slot mode rec target conf old_id impl pl st =
      let (executed, w) = execute m.ports slot impl pl st.world in
      let st' = record st { world = w } in
      elim executed [
        | err e ↦ fail mode rec (m.explain e) (discard target impl st')
        | ok prev ↦
            record_switch slot mode rec target conf old_id impl pl st.world.threshold prev
              (note_activating mode rec st')
      ]

  -- The plan, and the state `migrating` where it changes the caches.
  unfoldable pub plan_and_run :
      PluginType
      → Mode
      → Record X
      → Option (Record X)
      → Confirmations
      → Str
      → I
      → Run I R C
      → Result Refused Unit × Run I R C
  unfolding enter_state fail carry_out
  plan_and_run slot mode rec target conf old_id impl st =
      elim (m.plan_for slot target impl conf st.world) [
        | err e ↦ fail mode rec e (discard target impl st)
        | ok pl ↦
            if migrates pl
            then (let (refused, st') =
                  enter_state rec.id State.migrating (codes "migrating cache state") st in
                elim refused [
                  | some e ↦
                      if is_activate mode
                      then fail mode rec (m.explain (SwitchError.not_recorded e))
                          (discard target impl st')
                      else carry_out slot mode rec target conf old_id impl pl st'
                  | none ↦ carry_out slot mode rec target conf old_id impl pl st'
                ])
            else carry_out slot mode rec target conf old_id impl pl st
      ]

  unfoldable pub prepare_and_run :
      PluginType
      → Mode
      → Record X
      → Option (Record X)
      → Confirmations
      → Str
      → Run I R C
      → Result Refused Unit × Run I R C
  unfolding prepare fail plan_and_run
  prepare_and_run slot mode rec target conf old_id st =
      let (prepared, st') = prepare slot target st in
      elim prepared [
        | err e ↦ fail mode rec e st'
        | ok impl ↦ plan_and_run slot mode rec target conf old_id impl st'
      ]

  -- The record to activate, `none` for the built-in implementation.
  unfoldable pub find_target : Mode → Record X → R → Result Refused (Option (Record X))
  find_target activate rec reg = ok (some rec)
  find_target deactivate rec reg = ok none
  find_target rollback rec reg =
      ite (Str-discrete rec.previous_active_id []) (ok none)
        (elim (m.get rec.previous_active_id reg) [ ok t ↦ ok (some t) | err _ ↦ err previous_gone ])

  -- `locked` is whether another switch of the slot is running, `hosted` whether a host is set.
  unfoldable pub switch_slot :
      Bool
      → Bool
      → PluginType
      → Record X
      → Confirmations
      → Mode
      → Run I R C
      → Result Refused Unit × Run I R C
  unfolding find_target with_threshold enter_state prepare_and_run
  switch_slot locked hosted slot rec conf mode st =
      let old_id = or_empty (lookup (text slot) st.world.active) in
      let conf' = with_threshold mode rec conf in
      if locked
      then (err busy, st)
      else if not hosted
      then (err no_host, st)
      else elim (find_target mode rec st.world.reg) [
        | err e ↦ (err e, st)
        | ok target ↦
            if is_activate mode && ite (Str-discrete old_id rec.id) true false
            then (err already_active, st)
            else if is_deactivate mode
            then prepare_and_run slot mode rec target conf' old_id st
            else (let (refused, st') =
                  enter_state rec.id (first_state mode) (codes "preparing candidate") st in
                elim refused [
                  | some e ↦ (err (registry e), st')
                  | none ↦ prepare_and_run slot mode rec target conf' old_id st'
                ])
      ]

  -- `Activate`, `Deactivate` and `Rollback` of the plugin with an id.
  unfoldable pub activate_plugin :
      Bool → Bool → Bool → Str → Confirmations → Run I R C → Result Refused Unit × Run I R C
  unfolding switch_slot
  activate_plugin enabled locked hosted id conf st =
      if not enabled then (err disabled, st) else elim (m.get id st.world.reg) [
        | err e ↦ (err (registry e), st)
        | ok rec ↦ elim (activate_check rec.state (m.passed rec.rest)) [
          | some r ↦ (err (not_ready r), st)
          | none ↦ switch_slot locked hosted (slot rec.kind) rec conf activate st
        ]
      ]

  unfoldable pub deactivate_plugin :
      Bool → Bool → Bool → Str → Confirmations → Run I R C → Result Refused Unit × Run I R C
  unfolding switch_slot
  deactivate_plugin enabled locked hosted id conf st =
      if not enabled then (err disabled, st) else elim (m.get id st.world.reg) [
        | err e ↦ (err (registry e), st)
        | ok rec ↦
            if rec.active
            then switch_slot locked hosted (slot rec.kind) rec conf deactivate st
            else (err not_active, st)
      ]

  unfoldable pub rollback_plugin :
      Bool → Bool → Bool → Str → Confirmations → Run I R C → Result Refused Unit × Run I R C
  unfolding switch_slot
  rollback_plugin enabled locked hosted id conf st =
      if not enabled then (err disabled, st) else elim (m.get id st.world.reg) [
        | err e ↦ (err (registry e), st)
        | ok rec ↦
            if rec.active
            then switch_slot locked hosted (slot rec.kind) rec conf rollback st
            else (err only_active, st)
      ]
