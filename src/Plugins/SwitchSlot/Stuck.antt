-- ===== src/Plugins/SwitchSlot/Stuck.antt =====
-- internal/plugins/manager/activate.go over the store of internal/plugins/registry/memory.go: a
-- deactivation that fails.
use llm_cache.Common.{
  ℕ, ◌≡◌, ◌≢◌, [], refl, ap, ◌∙◌, inl, inr, none, some, true, false, Str, str_key, codes, arith,
}
use llm_cache.Common.Dict.{lookup, lookup-insert}
use llm_cache.Common.Result.{ok, err, Result-cases}
use llm_cache.Common.Word.{inc64}
use llm_cache.Plugins.{
  PluginType, State, text, slot, valid_transition, same, one_of, transitions, index,
}
use llm_cache.Plugins
use llm_cache.Plugins.Registry.{Record, Confirmations, Memory, RegistryError, get, update}
use llm_cache.Plugins.Activation.{set_state}
use llm_cache.Plugins.Switch.{deactivate, rollback}
use llm_cache.Plugins.Switch.Recorded.{memory_ports}
use llm_cache.Plugins.SwitchSlot.{
  Failure, requirement, incompatible, other, Refused, Manager, Run, with_threshold, after_failure,
  or_empty, write, enter_state, fail, prepare, plan_and_run, prepare_and_run, find_target,
  switch_slot, deactivate_plugin, rollback_plugin,
}

not_from_failed : valid_transition State.failed State.rolling_back ≡ false
unfolding valid_transition Plugins.one_of Plugins.transitions Plugins.index Plugins.in_progress
not_from_failed = refl

module _ {I X S C : Type 0} (base : Manager I X S (Memory X) C) (now : ℕ) where
  -- The manager over the store in memory.
  abbrev pub over_memory : Manager I X S (Memory X) C
  over_memory = record base {
    ports = memory_ports now base.ports.pause_writes base.ports.fits;
    get = get;
  }

  got :
      (id : Str) (rec : Record X) (reg : Memory X)
      → lookup id reg.recs ≡ some rec
      → get id reg ≡ ok rec
  unfolding get
  got id rec reg here = ground (arith, here)

  -- The detail of the state after a deactivation that failed.
  abbrev failure_detail : Failure → Str
  failure_detail (requirement e) = []
  failure_detail (incompatible e) = e
  failure_detail (other e) = base.scrub e

  no_plan :
      (rec : Record X) (conf : Confirmations) (old_id : Str) (cause : Failure)
      (st : Run I (Memory X) C)
      → base.plan_for (slot rec.kind) none (base.builtin (slot rec.kind)) conf st.world ≡ err cause
      → plan_and_run over_memory
          (slot rec.kind)
          deactivate
          rec
          none
          conf
          old_id
          (base.builtin (slot rec.kind))
          st
        ≡ fail over_memory deactivate rec cause st
  unfolding plan_and_run
  no_plan rec conf old_id cause st failed = rw (failed, plan_and_run) refl

  switched_off :
      (rec : Record X) (conf : Confirmations) (cause : Failure) (st : Run I (Memory X) C)
      → base.plan_for
          (slot rec.kind)
          none
          (base.builtin (slot rec.kind))
          (with_threshold deactivate rec conf)
          st.world
        ≡ err cause
      → switch_slot over_memory false true (slot rec.kind) rec conf deactivate st
        ≡ fail over_memory deactivate rec cause st
  unfolding switch_slot find_target prepare_and_run prepare
  switched_off rec conf cause st failed =
      let asked : switch_slot over_memory false true (slot rec.kind) rec conf deactivate st
          ≡ plan_and_run over_memory (slot rec.kind) deactivate rec none
              (with_threshold deactivate rec conf)
              (or_empty (lookup (text (slot rec.kind)) st.world.active))
              (base.builtin (slot rec.kind)) st =
        refl in
      asked
      ∙ no_plan rec (with_threshold deactivate rec conf)
          (or_empty (lookup (text (slot rec.kind)) st.world.active)) cause st failed

  -- A deactivation whose plan cannot be made.
  unplanned :
      (rec : Record X) (conf : Confirmations) (cause : Failure) (st : Run I (Memory X) C)
      → lookup rec.id st.world.reg.recs ≡ some rec
      → rec.active ≡ true
      → base.plan_for
          (slot rec.kind)
          none
          (base.builtin (slot rec.kind))
          (with_threshold deactivate rec conf)
          st.world
        ≡ err cause
      → deactivate_plugin over_memory true false true rec.id conf st
        ≡ fail over_memory deactivate rec cause st
  unplanned rec conf cause st here on failed =
      let found = got rec.id rec st.world.reg here in
      let asked : deactivate_plugin over_memory true false true rec.id conf st
          ≡ switch_slot over_memory false true (slot rec.kind) rec conf deactivate st =
        unfold deactivate_plugin in ground (arith, found) in
      asked ∙ switched_off rec conf cause st failed

  failed_record :
      (rec : Record X) (cause : Failure)
      → ((d : Str) → cause ≢ requirement d)
      → (st : Run I (Memory X) C) → lookup rec.id st.world.reg.recs ≡ some rec
      → lookup rec.id (fail over_memory deactivate rec cause st).1.world.reg.recs
        ≡ some (record rec {
          state = State.failed;
          state_detail = failure_detail cause;
          rev = inc64 rec.rev;
          updated_at = now;
        })
  unfolding fail write after_failure update
  failed_record rec (requirement d) undecided st here = absurd (undecided d refl)
  failed_record rec (incompatible e) undecided st here =
      let r' : Record X = record rec {
        state = State.failed;
        state_detail = e;
        rev = inc64 rec.rev;
        updated_at = now;
      } in
      ground (arith, here, lookup-insert rec.id rec.id r' st.world.reg.recs)
  failed_record rec (other e) undecided st here =
      let r' : Record X = record rec {
        state = State.failed;
        state_detail = base.scrub e;
        rev = inc64 rec.rev;
        updated_at = now;
      } in
      ground (arith, here, lookup-insert rec.id rec.id r' st.world.reg.recs)

  refused_transition :
      (rec : Record X) (st : Run I (Memory X) C)
      → lookup rec.id st.world.reg.recs ≡ some rec
      → rec.state ≡ State.failed
      → (enter_state over_memory rec.id State.rolling_back (codes "preparing candidate") st).0
        ≡ some (RegistryError.refused (base.illegal State.failed State.rolling_back))
  unfolding enter_state update set_state
  refused_transition rec st here bad =
      let closed : valid_transition rec.state State.rolling_back ≡ false = rw bad not_from_failed in
      ground (arith, here)

  -- A record in the state `failed` cannot be rolled back.
  no_rollback :
      (rec : Record X) (conf : Confirmations) (st : Run I (Memory X) C)
      → lookup rec.id st.world.reg.recs ≡ some rec
      → rec.active ≡ true
      → rec.state ≡ State.failed
      → (x : Refused) × ((rollback_plugin over_memory true false true rec.id conf st).0 ≡ err x)
  no_rollback rec conf st here on bad =
      let found = got rec.id rec st.world.reg here in
      let asked : rollback_plugin over_memory true false true rec.id conf st
          ≡ switch_slot over_memory false true (slot rec.kind) rec conf rollback st =
        unfold rollback_plugin in ground (arith, found) in
      let entered = refused_transition rec st here bad in
      elim (Result-cases (find_target over_memory rollback rec st.world.reg)) [
        | inr (x, gone) ↦ (x, ap (λ p. p.0) asked ∙ unfold switch_slot in ground (arith, gone))
        | inl (target, kept) ↦ (
          Refused.registry (RegistryError.refused (base.illegal State.failed State.rolling_back)),
          ap (λ p. p.0) asked ∙ unfold switch_slot in ground (arith, kept, entered),
        )
      ]

  -- Over the registry in memory, when no plan can be made for the deactivation of the active plugin of a
  -- slot, for a reason other than a decision that is missing, the deactivation returns the error and leaves the adapters in
  -- place; but the record of the plugin, which goes on being active, is in the state `failed`, and
  -- from there every attempt to roll it back is refused, whatever is confirmed.
  pub deactivate_plugin-stuck :
      (rec : Record X) (conf conf' : Confirmations) (cause : Failure) (st : Run I (Memory X) C)
      → ((d : Str) → cause ≢ requirement d)
      → lookup rec.id st.world.reg.recs ≡ some rec
      → rec.active ≡ true
      → base.plan_for
          (slot rec.kind)
          none
          (base.builtin (slot rec.kind))
          (with_threshold deactivate rec conf)
          st.world
        ≡ err cause
      → let (r, last) = deactivate_plugin over_memory true false true rec.id conf st in
        (r ≡ err (Refused.failed cause))
        × (last.world.slots ≡ st.world.slots)
        × ((r' : Record X) × (lookup rec.id last.world.reg.recs ≡ some r')
            × (r'.active ≡ true)
            × (r'.state ≡ State.failed))
        × ((x : Refused) × ((rollback_plugin over_memory true false true rec.id conf' last).0
              ≡ err x))
  deactivate_plugin-stuck rec conf conf' cause st undecided here on failed =
      let r' : Record X = record rec {
        state = State.failed;
        state_detail = failure_detail cause;
        rev = inc64 rec.rev;
        updated_at = now;
      } in
      let last = (fail over_memory deactivate rec cause st).1 in
      rw (unplanned rec conf cause st here on failed) (
        unfold fail write in refl,
        unfold fail write in refl,
        (r', failed_record rec cause undecided st here, on, refl),
        no_rollback r' conf' last (failed_record rec cause undecided st here) on refl,
      )
