-- ===== src/Plugins/Switch/Executed.antt =====
-- internal/plugins/manager/activate.go: what `execute` leaves when it fails and when it succeeds.
use llm_cache.Common.{
  ◌≡◌, refl, ap, ◌∙◌, ◌⊎◌, inl, inr, Option, none, some, Bool, true, Str, arith, Option-cases,
  Bool-cases, if◌then◌else◌,
}
use llm_cache.Common.Float.{float_minus_one}
use llm_cache.Common.Result.{Result, ok, err}
use llm_cache.Plugins.{PluginType}
use llm_cache.Plugins.Slots.{current, put, swap}
use llm_cache.Plugins.Slots.Swapped.{swap-cases, swap-back}
use llm_cache.Plugins.Switch.{Plan, Ports, World, SwitchError, perform, install, move, execute}

-- What a switch leaves alone until it is recorded.
pub record Kept {I R C : Type 0} (w w' : World I R C) : Type 0 where
  pub active : w'.active ≡ w.active
  pub reg : w'.reg ≡ w.reg
  pub threshold : w'.threshold ≡ w.threshold

-- How `execute` may end: the adapters are as before, or the new one has taken the place of the one
-- that is answered.
abbrev pub Ends :
    {I R C : Type 0}
    → (PluginType → I → Bool)
    → PluginType
    → I
    → World I R C
    → Result SwitchError I
    → World I R C
    → Type 0
Ends {I = I} fits slot impl w r w' =
    ((e : SwitchError) × (r ≡ err e) × (w'.slots ≡ w.slots))
    ⊎ ((previous : I) × (r ≡ ok previous)
        × (current slot w.slots ≡ some previous)
        × (fits slot impl ≡ true)
        × (w'.slots ≡ put slot impl w.slots))

module _ {I X R C : Type 0} (ports : Ports I X R C) (slot : PluginType) (impl : I)
    (pl : Plan C) where
  install-Ends :
      (w : World I R C)
      → ((j : I) → current slot w.slots ≡ some j → ports.fits slot j ≡ true)
      → let (r, w') = install ports slot impl pl w in Ends ports.fits slot impl w r w' × Kept w w'
  unfolding install
  install-Ends w fitting = elim (swap-cases ports.fits slot impl w.slots) [
    | inr (e, refused) ↦
        rw (refused, install)
          ((
            inl (SwitchError.not_swapped e, refl, ground arith),
            record { active = refl; reg = refl; threshold = refl },
          ))
    | inl (j, here, fit, swapped) ↦ elim (Option-cases (perform pl.after w.cache).0) [
      | inl done ↦
          rw (swapped, done, install)
            ((
              inr (j, refl, here, fit, ground arith),
              record { active = refl; reg = refl; threshold = refl },
            ))
      | inr (e, failed) ↦
          let undone : swap ports.fits slot j (swap ports.fits slot impl w.slots).1
              ≡ (ok impl, w.slots) =
            ap (λ p. swap ports.fits slot j p.1) swapped
            ∙ swap-back ports.fits slot impl j w.slots here (fitting j here) in
          rw (swapped, failed, undone, install)
            ((
              inl (SwitchError.step_failed e, refl, ground arith),
              record { active = refl; reg = refl; threshold = refl },
            ))
    ]
  ]

  move-Ends :
      (w : World I R C)
      → ((j : I) → current slot w.slots ≡ some j → ports.fits slot j ≡ true)
      → let (r, w') = move ports slot impl pl w in Ends ports.fits slot impl w r w' × Kept w w'
  unfolding move
  move-Ends w fitting = elim (Option-cases (perform pl.migrate w.cache).0) [
    | inr (e, failed) ↦
        rw (failed, move)
          ((
            inl (SwitchError.step_failed e, refl, refl),
            record { active = refl; reg = refl; threshold = refl },
          ))
    | inl done ↦
        rw (done, move)
          (let (ends, kept) =
              install-Ends (record w { cache = (perform pl.migrate w.cache).1 }) fitting in
            (ends, record { active = kept.active; reg = kept.reg; threshold = kept.threshold }))
  ]

  -- When the adapter in place fits its slot, `execute` either fails, and then every slot holds the
  -- adapter that it held, or it answers with that adapter, and then the new one stands in its place
  -- and in no other. Either way the threshold, the registry and the map of the active plugins are as
  -- before, also when the plan lowered the threshold meanwhile.
  pub execute-Ends :
      (w : World I R C)
      → ((j : I) → current slot w.slots ≡ some j → ports.fits slot j ≡ true)
      → let (r, w') = execute ports slot impl pl w in Ends ports.fits slot impl w r w' × Kept w w'
  unfolding execute
  execute-Ends w fitting =
      let gate : Option Str = if pl.need_gate then ports.pause_writes w.cache else none in
      elim (Option-cases gate) [
        | inr (e, busy) ↦
            rw (busy, execute)
              ((
                inl (SwitchError.step_failed e, refl, refl),
                record { active = refl; reg = refl; threshold = refl },
              ))
        | inl open_gate ↦ elim (Bool-cases pl.force_miss) [
          | inl lowered ↦
              rw (open_gate, lowered, execute)
                (let (ends, kept) = move-Ends (record w { threshold = float_minus_one }) fitting in
                  (ends, record { active = kept.active; reg = kept.reg; threshold = refl }))
          | inr never ↦ rw (open_gate, never, execute) (move-Ends w fitting)
        ]
      ]
