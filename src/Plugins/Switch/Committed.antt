-- ===== src/Plugins/Switch/Committed.antt =====
-- internal/plugins/manager/activate.go: whether the registry, the manager's own map and the adapters
-- agree after a switch that was recorded, and after one that was not.
use llm_cache.Common.{◌≡◌, inl, inr, none, some, true, Str, str_key, [], arith, Option-cases}
use llm_cache.Common.Dict.{lookup, lookup-insert}
use llm_cache.Common.Float.{Float64}
use llm_cache.Common.Result.{Result}
use llm_cache.Plugins.{PluginType, text}
use llm_cache.Plugins.Registry.{Record, Confirmations}
use llm_cache.Plugins.Slots.{Slots, current, put}
use llm_cache.Plugins.Slots.Swapped.{swap-back}
use llm_cache.Plugins.Switch.{
  Mode, Plan, Ports, World, SwitchError, activated, retired, mark, enter, leave, commit, settle,
}

-- What a registry says of the active plugins: `selected` is the id of a slot, empty for none.
pub record Selects {I X R C : Type 0} (ports : Ports I X R C) (selected : PluginType → R → Str)
    : Type 0 where
  pub set :
      (t : PluginType) (id : Str) (r : R)
      → (ports.set_active t id r).0 ≡ none
      → selected t (ports.set_active t id r).1 ≡ id
  pub clear :
      (t : PluginType) (r : R)
      → (ports.clear_active t r).0 ≡ none
      → selected t (ports.clear_active t r).1 ≡ []
  pub update :
      (t : PluginType) (id : Str) (f : Record X → Result Str (Record X)) (r : R)
      → selected t (ports.update id f r).1 ≡ selected t r

module _ {I X R C : Type 0} (ports : Ports I X R C) {selected : PluginType → R → Str}
    (selects : Selects ports selected) (slot : PluginType) (old_id new_id : Str)
    (conf : Confirmations) (pl : Plan C) (mode : Mode) (previous : Float64) where
  mark-selected :
      (reg : R)
      → (mark ports slot new_id reg).0 ≡ none
      → selected slot (mark ports slot new_id reg).1 ≡ new_id
  unfolding mark
  mark-selected reg e = ground (arith, selects.set slot new_id reg, selects.clear slot reg)

  enter-selected :
      (reg : R)
      → selected slot (enter ports old_id new_id conf pl.threshold mode previous reg).1
        ≡ selected slot reg
  unfolding enter
  enter-selected reg =
      ground
        (arith, selects.update slot new_id (activated old_id conf pl.threshold mode previous) reg)

  leave-selected :
      (reg : R) → selected slot (leave ports old_id new_id mode reg) ≡ selected slot reg
  unfolding leave
  leave-selected reg = ground (arith, selects.update slot old_id (retired mode) reg)

  -- With a registry that answers for a slot with what was last set there, a commit that succeeds
  -- has the registry and the manager's map name the new plugin of the slot, and leaves the adapters
  -- and the caches alone.
  pub commit-selected :
      (w w' : World I R C)
      → commit ports slot old_id new_id conf pl mode previous w ≡ (none, w')
      → (selected slot w'.reg ≡ new_id)
        × (lookup (text slot) w'.active ≡ some new_id)
        × (w'.slots ≡ w.slots)
        × (w'.cache ≡ w.cache)
  unfolding commit
  commit-selected w w' e =
      let marked = mark ports slot new_id w.reg in
      let entered = enter ports old_id new_id conf pl.threshold mode previous marked.1 in
      elim (Option-cases marked.0) [
        | inr (x, refused) ↦ absurd (ground arith)
        | inl done ↦ elim (Option-cases entered.0) [
          | inr (x, refused) ↦ absurd (ground arith)
          | inl written ↦ (
            ground (
              arith,
              mark-selected w.reg done,
              enter-selected marked.1,
              leave-selected entered.1,
            ),
            ground (arith, lookup-insert (text slot) (text slot) new_id w.active),
            ground arith,
            ground arith,
          )
        ]
      ]

  commit_kept :
      (w w' : World I R C) (x : SwitchError)
      → commit ports slot old_id new_id conf pl mode previous w ≡ (some x, w')
      → (w'.slots ≡ w.slots)
        × (w'.active ≡ w.active)
        × (w'.cache ≡ w.cache)
        × (w'.threshold ≡ w.threshold)
  unfolding commit
  commit_kept w w' x e =
      let marked = mark ports slot new_id w.reg in
      let entered = enter ports old_id new_id conf pl.threshold mode previous marked.1 in
      elim (Option-cases marked.0) [
        | inr (y, refused) ↦ ground arith
        | inl done ↦ elim (Option-cases entered.0) [
          | inr (y, refused) ↦ ground arith
          | inl written ↦ absurd (ground arith)
        ]
      ]

  module _ (impl previous_impl : I) (before : Slots I)
      (here : current slot before ≡ some previous_impl)
      (fit : ports.fits slot previous_impl ≡ true) where
    -- A switch that cannot be recorded, after an adapter that fits its slot was replaced, puts that
    -- adapter back and leaves the manager's map and the threshold alone; the caches stay as the
    -- plan left them, since the plan's cleanup is not run.
    pub settle-undone :
        (w w' : World I R C) (x : SwitchError)
        → w.slots ≡ put slot impl before
        → settle ports slot old_id new_id conf pl mode previous previous_impl w ≡ (some x, w')
        → (w'.slots ≡ before)
          × (w'.active ≡ w.active)
          × (w'.threshold ≡ w.threshold)
          × (w'.cache ≡ w.cache)
    unfolding settle
    settle-undone w w' x installed e =
        let c = commit ports slot old_id new_id conf pl mode previous w in
        elim (Option-cases c.0) [
          | inl done ↦ elim (Option-cases pl.threshold) [
            | inl same ↦ absurd (ground arith)
            | inr (t, raised) ↦ absurd (ground arith)
          ]
          | inr (y, refused) ↦ ground (
            arith,
            commit_kept w c.1 y,
            swap-back ports.fits slot impl previous_impl before here fit,
          )
        ]

    -- With a registry that answers for a slot with what was last set there, when the slot was
    -- marked in it and the switch fails all the same, the switch is undone, and yet the registry
    -- goes on naming the new plugin of the slot, while the adapters and the manager's map are the
    -- old ones.
    pub settle-disagrees :
        (w w' : World I R C) (x : SwitchError)
        → w.slots ≡ put slot impl before
        → (mark ports slot new_id w.reg).0 ≡ none
        → settle ports slot old_id new_id conf pl mode previous previous_impl w ≡ (some x, w')
        → (selected slot w'.reg ≡ new_id) × (w'.slots ≡ before) × (w'.active ≡ w.active)
    unfolding settle commit
    settle-disagrees w w' x installed done e =
        let marked = mark ports slot new_id w.reg in
        let entered = enter ports old_id new_id conf pl.threshold mode previous marked.1 in
        let (slots_back, same_map, same_threshold, same_cache) = settle-undone w w' x installed e in
        elim (Option-cases entered.0) [
          | inl written ↦ elim (Option-cases pl.threshold) [
            | inl same ↦ absurd (ground arith)
            | inr (t, raised) ↦ absurd (ground arith)
          ]
          | inr (y, refused) ↦ (
            ground (arith, mark-selected w.reg done, enter-selected marked.1),
            slots_back,
            same_map,
          )
        ]
