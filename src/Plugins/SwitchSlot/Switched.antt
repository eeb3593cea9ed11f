-- ===== src/Plugins/SwitchSlot/Switched.antt =====
-- internal/plugins/manager/activate.go: how `switchSlot` may end.
use llm_cache.Common.{
  ◌≡◌, ◌⊎◌, refl, sym, ap, ◌∙◌, inl, inr, Option, none, some, Bool, true, false, ◌&&◌, Str, str_key,
  Str-discrete, codes, ite, arith, Bool-cases, Option-cases,
}
use llm_cache.Common.Dict.{lookup}
use llm_cache.Common.Float.{Float64}
use llm_cache.Common.Result.{Result, ok, err, Result-cases}
use llm_cache.Plugins.{PluginType, State, text}
use llm_cache.Plugins.Registry.{Record, Confirmations}
use llm_cache.Plugins.Slots.{current, put}
use llm_cache.Plugins.Switch.{Mode, Plan, World, SwitchError, execute, settle, commit}
use llm_cache.Plugins.Switch.Executed.{execute-Ends}
use llm_cache.Plugins.Switch.Committed.{Selects, commit-selected, settle-undone}
use llm_cache.Plugins.SwitchSlot.{
  Failure, Refused, Manager, Run, is_activate, is_deactivate, id_of, write, enter_state, fail,
  discard, after_switch, prepare, note_activating, record_switch, migrates, carry_out, plan_and_run,
  prepare_and_run, find_target, switch_slot, with_threshold, or_empty, first_state,
}

module _ {I X S R C : Type 0} (m : Manager I X S R C) {selected : PluginType → R → Str}
    (selects : Selects m.ports selected) (slot : PluginType) where
  -- What a switch that is refused or undone leaves alone.
  pub record Same (st st' : Run I R C) : Type 0 where
    pub slots : st'.world.slots ≡ st.world.slots
    pub active : st'.world.active ≡ st.world.active
    pub threshold : st'.world.threshold ≡ st.world.threshold

  -- The adapter of a target: the built-in one of the slot where there is none, and otherwise the one that
  -- was built for the plugin from its opened secrets, and that answered its probe.
  abbrev pub Supplies : Option (Record X) → I → Type 0
  Supplies none impl = impl ≡ m.builtin slot
  Supplies (some t) impl =
      (sec : S) × (m.open_secrets t ≡ ok sec)
      × (m.build_adapter t sec ≡ ok impl)
      × (m.probe_health impl ≡ none)

  -- The end of a switch to `target`: nothing was switched, or the adapter of the target stands in the slot,
  -- and the manager's map and the registry name the target.
  pub data Outcome (target : Option (Record X)) (st : Run I R C)
      : Result Refused Unit → Run I R C → Type 0 where
    undone : {e : Refused} {st' : Run I R C} → Same st st' → Outcome target st (err e) st'
    switched :
        {st' : Run I R C} (impl prev : I)
        → current slot st.world.slots ≡ some prev
        → Supplies target impl
        → m.ports.fits slot impl ≡ true
        → st'.world.slots ≡ put slot impl st.world.slots
        → lookup (text slot) st'.world.active ≡ some (id_of target)
        → selected slot st'.world.reg ≡ id_of target
        → Outcome target st (ok tt) st'

  -- The adapter in the slot is one that the slot takes.
  abbrev pub Fitting : Run I R C → Type 0
  Fitting st = (j : I) → current slot st.world.slots ≡ some j → m.ports.fits slot j ≡ true

  prepare-Same :
      (target : Option (Record X)) (st : Run I R C) → Same st (prepare m slot target st).1
  unfolding prepare
  prepare-Same none st = record { slots = refl; active = refl; threshold = refl }
  prepare-Same (some t) st =
      let same : Same st st = record { slots = refl; active = refl; threshold = refl } in
      elim (Result-cases (m.open_secrets t)) [
        | inr (x, sealed) ↦ rw (sealed, prepare) same
        | inl (sec, opened) ↦ elim (Result-cases (m.build_adapter t sec)) [
          | inr (x, failed) ↦ rw (opened, failed, prepare) same
          | inl (impl, built) ↦ elim (Option-cases (m.probe_health impl)) [
            | inl healthy ↦ rw (opened, built, healthy, prepare) same
            | inr (x, ill) ↦
                rw (opened, built, ill, prepare)
                  (record { slots = refl; active = refl; threshold = refl })
          ]
        ]
      ]

  prepare-Supplies :
      (target : Option (Record X)) (st : Run I R C) (impl : I)
      → (prepare m slot target st).0 ≡ ok impl
      → Supplies target impl
  unfolding prepare
  prepare-Supplies none st impl e = ground arith
  prepare-Supplies (some t) st impl e = elim (Result-cases (m.open_secrets t)) [
    | inr (x, sealed) ↦ absurd (ground arith)
    | inl (sec, opened) ↦ elim (Result-cases (m.build_adapter t sec)) [
      | inr (x, failed) ↦ absurd (ground arith)
      | inl (i, built) ↦ elim (Option-cases (m.probe_health i)) [
        | inr (x, ill) ↦ absurd (ground arith)
        | inl healthy ↦
            let same : i ≡ impl = ground arith in
            (sec, opened, built ∙ ap ok same, ap m.probe_health (sym same) ∙ healthy)
      ]
    ]
  ]

  module _ (mode : Mode) (rec : Record X) (target : Option (Record X)) (conf : Confirmations)
      (old_id : Str) where
    fail-Outcome :
        (cause : Failure) (st st' : Run I R C)
        → Same st st'
        → let (r, last) = fail m mode rec cause st' in Outcome target st r last
    unfolding fail write
    fail-Outcome cause st st' same =
        undone (record { slots = same.slots; active = same.active; threshold = same.threshold })

    discard-Same :
        (impl : I) (st st' : Run I R C) → Same st st' → Same st (discard m target impl st')
    discard-Same impl st st' same = elim (Option-cases target) [
      | inl builtin ↦ rw builtin same
      | inr (t, built) ↦
          rw built (record { slots = same.slots; active = same.active; threshold = same.threshold })
    ]

    note_activating-Same :
        (st st' : Run I R C) → Same st st' → Same st (note_activating m mode rec st')
    unfolding note_activating write
    note_activating-Same st st' same = elim (Bool-cases (is_deactivate mode)) [
      | inl leaving ↦ rw leaving same
      | inr coming ↦
          rw coming
            (record { slots = same.slots; active = same.active; threshold = same.threshold })
    ]

    after_switch-world :
        (prev : I) (st : Run I R C) → (after_switch m slot old_id prev st).world ≡ st.world
    unfolding after_switch
    after_switch-world prev st = elim (Option-cases (lookup old_id st.owned)) [
      | inl unowned ↦ ground arith
      | inr (i, mine) ↦ ground arith
    ]

    settle_recorded :
        (pl : Plan C) (threshold : Float64) (prev : I) (w w' : World I R C)
        → settle m.ports slot old_id (id_of target) conf pl mode threshold prev w ≡ (none, w')
        → (w'.slots ≡ w.slots)
          × (lookup (text slot) w'.active ≡ some (id_of target))
          × (selected slot w'.reg ≡ id_of target)
    unfolding settle
    settle_recorded pl threshold prev w w' e =
        let c = commit m.ports slot old_id (id_of target) conf pl mode threshold w in
        elim (Option-cases c.0) [
          | inr (x, refused) ↦ absurd (ground arith)
          | inl done ↦
              let facts =
                commit-selected m.ports selects slot old_id (id_of target) conf pl mode threshold w
                  c.1 (λ i. (done i, c.1)) in
              elim (Option-cases pl.threshold) [
                | inl unset ↦ ground (arith, facts)
                | inr (t, raised) ↦ ground (arith, facts)
              ]
        ]

    record_switch-Outcome :
        (impl prev : I) (pl : Plan C) (threshold : Float64) (st st' : Run I R C)
        → current slot st.world.slots ≡ some prev
        → Supplies target impl
        → m.ports.fits slot impl ≡ true
        → m.ports.fits slot prev ≡ true
        → st'.world.slots ≡ put slot impl st.world.slots
        → st'.world.active ≡ st.world.active
        → st'.world.threshold ≡ st.world.threshold
        → let (r, last) =
            record_switch m slot mode rec target conf old_id impl pl threshold prev st' in
          Outcome target st r last
    unfolding record_switch
    record_switch-Outcome impl prev pl threshold st st' here mine fit old_fit slots active same =
        let settled =
          settle m.ports slot old_id (id_of target) conf pl mode threshold prev st'.world in
        elim (Option-cases settled.0) [
          | inr (x, refused) ↦
              let back =
                settle-undone m.ports selects slot old_id (id_of target) conf pl mode threshold impl
                  prev st.world.slots here old_fit st'.world settled.1 x slots
                  (λ i. (refused i, settled.1)) in
              let ended : Run I R C = record st' { world = settled.1 } in
              let kept : Same st ended = record {
                slots = back.0;
                active = back.1 ∙ active;
                threshold = back.2 ∙ same;
              } in
              rw (refused, record_switch)
                (fail-Outcome (m.explain x) st (discard m target impl ended)
                  (discard-Same impl st ended kept))
          | inl done ↦
              let (kept, named, chosen) =
                settle_recorded pl threshold prev st'.world settled.1 (λ i. (done i, settled.1)) in
              let ended : Run I R C = record st' { world = settled.1 } in
              let world = after_switch-world prev ended in
              rw (done, record_switch)
                (switched impl prev here mine fit (ap (λ w. w.slots) world ∙ kept ∙ slots)
                  (ap (λ w. lookup (text slot) w.active) world ∙ named)
                  (ap (λ w. selected slot w.reg) world ∙ chosen))
        ]

    carry_out-Outcome :
        (impl : I) (pl : Plan C) (st st' : Run I R C)
        → Fitting st
        → Supplies target impl
        → Same st st'
        → let (r, last) = carry_out m slot mode rec target conf old_id impl pl st' in
          Outcome target st r last
    unfolding carry_out
    carry_out-Outcome impl pl st st' fitting mine same =
        let run = execute m.ports slot impl pl st'.world in
        let ran : Run I R C = record st' { world = run.1 } in
        let fitting' : (j : I)
            → current slot st'.world.slots ≡ some j
            → m.ports.fits slot j ≡ true =
          λ j e. fitting j (ap (current slot) (sym same.slots) ∙ e) in
        let (ends, kept) = execute-Ends m.ports slot impl pl st'.world fitting' in
        elim ends [
          | inl (x, refused, slots) ↦
              let undone' : Same st ran = record {
                slots = slots ∙ same.slots;
                active = kept.active ∙ same.active;
                threshold = kept.threshold ∙ same.threshold;
              } in
              rw (refused, carry_out)
                (fail-Outcome (m.explain x) st (discard m target impl ran)
                  (discard-Same impl st ran undone'))
          | inr (prev, done, here, fit, slots) ↦
              let here' : current slot st.world.slots ≡ some prev =
                ap (current slot) (sym same.slots) ∙ here in
              let noted : Run I R C = note_activating m mode rec ran in
              let note =
                note_activating-Same ran ran
                  (record { slots = refl; active = refl; threshold = refl }) in
              rw (done, carry_out)
                (record_switch-Outcome impl prev pl st'.world.threshold st noted here' mine fit
                  (fitting prev here') (note.slots ∙ slots ∙ ap (put slot impl) same.slots)
                  (note.active ∙ kept.active ∙ same.active)
                  (note.threshold ∙ kept.threshold ∙ same.threshold))
        ]

    enter_state-Same :
        (st st' : Run I R C) (to : State) (detail : Str)
        → Same st st'
        → Same st (enter_state m rec.id to detail st').1
    unfolding enter_state
    enter_state-Same st st' to detail same = record {
      slots = same.slots;
      active = same.active;
      threshold = same.threshold;
    }

    plan_and_run-Outcome :
        (impl : I) (st st' : Run I R C)
        → Fitting st
        → Supplies target impl
        → Same st st'
        → let (r, last) = plan_and_run m slot mode rec target conf old_id impl st' in
          Outcome target st r last
    unfolding plan_and_run
    plan_and_run-Outcome impl st st' fitting mine same =
        elim (Result-cases (m.plan_for slot target impl conf st'.world)) [
          | inr (x, none_made) ↦
              rw (none_made, plan_and_run)
                (fail-Outcome x st (discard m target impl st') (discard-Same impl st st' same))
          | inl (pl, made) ↦ elim (Bool-cases (migrates pl)) [
            | inr simple ↦
                rw (made, plan_and_run, simple) (carry_out-Outcome impl pl st st' fitting mine same)
            | inl moves ↦
                let entered =
                  enter_state m rec.id State.migrating (codes "migrating cache state") st' in
                let same' =
                  enter_state-Same st st' State.migrating (codes "migrating cache state") same in
                elim (Option-cases entered.0) [
                  | inl went ↦
                      rw (made, plan_and_run, moves, went)
                        (carry_out-Outcome impl pl st entered.1 fitting mine same')
                  | inr (x, refused) ↦ elim (Bool-cases (is_activate mode)) [
                    | inl activating ↦
                        rw (made, plan_and_run, moves, refused, activating)
                          (fail-Outcome (m.explain (SwitchError.not_recorded x)) st
                            (discard m target impl entered.1)
                            (discard-Same impl st entered.1 same'))
                    | inr leaving ↦
                        rw (made, plan_and_run, moves, refused, leaving)
                          (carry_out-Outcome impl pl st entered.1 fitting mine same')
                  ]
                ]
          ]
        ]

    prepare_and_run-Outcome :
        (st st' : Run I R C)
        → Fitting st
        → Same st st'
        → let (r, last) = prepare_and_run m slot mode rec target conf old_id st' in
          Outcome target st r last
    unfolding prepare_and_run
    prepare_and_run-Outcome st st' fitting same =
        let prepared = prepare m slot target st' in
        let same' : Same st prepared.1 = record {
          slots = (prepare-Same target st').slots ∙ same.slots;
          active = (prepare-Same target st').active ∙ same.active;
          threshold = (prepare-Same target st').threshold ∙ same.threshold;
        } in
        elim (Result-cases prepared.0) [
          | inr (x, failed) ↦ rw (failed, prepare_and_run) (fail-Outcome x st prepared.1 same')
          | inl (impl, ready) ↦
              rw (ready, prepare_and_run)
                (plan_and_run-Outcome impl st prepared.1 fitting
                  (prepare-Supplies target st' impl ready) same')
        ]

  -- With a registry that answers for a slot with what was last set there, and an adapter in the slot
  -- that the slot takes, a switch of the slot ends in one of two ways. It returns an error, and then
  -- the adapters of all slots, the manager's map and the threshold are as they were. Or it succeeds,
  -- and then the adapter of the target, which the slot takes, stands in place of the old one and the other
  -- slots are as they were: the built-in one where the target is none, and otherwise the one that was built
  -- for the plugin from its opened secrets and that answered its probe; and both the map and the registry name the target: the plugin itself when it is activated, none
  -- when it is deactivated, and the one before it, if there was one, when it is rolled back.
  pub switch_slot-Outcome :
      (locked hosted : Bool) (rec : Record X) (conf : Confirmations) (mode : Mode) (st : Run I R C)
      → Fitting st
      → let (r, last) = switch_slot m locked hosted slot rec conf mode st in
        ((e : Refused) × (r ≡ err e) × Same st last)
        ⊎ ((target : Option (Record X)) × (find_target m mode rec st.world.reg ≡ ok target)
            × Outcome target st r last)
  unfolding switch_slot
  switch_slot-Outcome locked hosted rec conf mode st fitting =
      let same : Same st st = record { slots = refl; active = refl; threshold = refl } in
      let old_id = or_empty (lookup (text slot) st.world.active) in
      let conf' = with_threshold mode rec conf in
      elim (Bool-cases locked) [
        | inl taken ↦ rw (taken, switch_slot) (inl (Refused.busy, refl, same))
        | inr free ↦ elim (Bool-cases hosted) [
          | inr absent ↦ rw (free, absent, switch_slot) (inl (Refused.no_host, refl, same))
          | inl present ↦ elim (Result-cases (find_target m mode rec st.world.reg)) [
            | inr (x, gone) ↦ rw (free, present, gone, switch_slot) (inl (x, refl, same))
            | inl (target, found) ↦
                elim (Bool-cases
                  (is_activate mode && ite (Str-discrete old_id rec.id) true false)) [
                    | inl again ↦
                        rw (free, present, found, again, switch_slot)
                          (inl (Refused.already_active, refl, same))
                    | inr new ↦ elim (Bool-cases (is_deactivate mode)) [
                      | inl leaving ↦
                          rw (free, present, found, new, leaving, switch_slot)
                            (inr (
                              target,
                              refl,
                              prepare_and_run-Outcome mode rec target conf' old_id st st fitting
                                  same,
                            ))
                      | inr coming ↦
                          let entered =
                            enter_state m rec.id (first_state mode) (codes "preparing candidate")
                              st in
                          let same' =
                            enter_state-Same mode rec target conf' old_id st st (first_state mode)
                              (codes "preparing candidate") same in
                          elim (Option-cases entered.0) [
                            | inr (x, refused) ↦
                                rw (free, present, found, new, coming, refused, switch_slot)
                                  (inl (Refused.registry x, refl, same'))
                            | inl went ↦
                                rw (free, present, found, new, coming, went, switch_slot)
                                  (inr (
                                    target,
                                    refl,
                                    prepare_and_run-Outcome mode rec target conf' old_id st
                                        entered.1 fitting same',
                                  ))
                          ]
                    ]
                  ]
          ]
        ]
      ]
