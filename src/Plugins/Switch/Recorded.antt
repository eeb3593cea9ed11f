-- ===== src/Plugins/Switch/Recorded.antt =====
-- internal/plugins/registry/memory.go as the registry of the manager.
use llm_cache.Common.{
  ◌≡◌, ◌≢◌, Option, none, some, Bool, Str, str_key, [], arith, Option-cases, inl, inr, ℕ,
}
use llm_cache.Common.Dict.{lookup, lookup-insert, lookup-erase}
use llm_cache.Common.Result.{Result, Result-cases}
use llm_cache.Plugins.{PluginType, text}
use llm_cache.Plugins.Registry.{Record, Memory, update, set_active, clear_active, create, delete}
use llm_cache.Plugins.Switch.{Ports}
use llm_cache.Plugins.Switch.Committed.{Selects}

module _ {X : Type 0} where
  -- The id under a slot, empty for none.
  abbrev pub selected : PluginType → Memory X → Str
  selected t m = elim (lookup (text t) m.selected) [ none ↦ [] | some id ↦ id ]

  update_kept :
      (t : PluginType) (id : Str) (f : Record X → Result Str (Record X)) (now : ℕ) (m : Memory X)
      → selected t (update id f now m).1 ≡ selected t m
  unfolding update
  update_kept t id f now m = elim (Option-cases (lookup id m.recs)) [
    | inl gone ↦ ground arith
    | inr (r, here) ↦ elim (Result-cases (f r)) [
      | inr (e, failed) ↦ ground arith
      | inl (r', changed) ↦ ground arith
    ]
  ]

-- What no call changes: the id under another slot by a call for one, and any id by a call for a record.
pub record Undisturbed (X : Type 0) (now : ℕ) : Type 0 where
  pub set_other :
      (t u : PluginType) (id : Str) (m : Memory X)
      → text t ≢ text u
      → selected u (set_active t id m) ≡ selected u m
  pub clear_other :
      (t u : PluginType) (m : Memory X)
      → text t ≢ text u
      → selected u (clear_active t m) ≡ selected u m
  pub created :
      (t : PluginType) (r : Record X) (m : Memory X) → selected t (create r m).1 ≡ selected t m
  pub updated :
      (t : PluginType) (id : Str) (f : Record X → Result Str (Record X)) (m : Memory X)
      → selected t (update id f now m).1 ≡ selected t m
  pub deleted :
      (t : PluginType) (id : Str) (m : Memory X) → selected t (delete id m).1 ≡ selected t m

module _ {I X C : Type 0} where
  -- The ports over the store in memory, at a time of the updates.
  abbrev pub memory_ports : ℕ → (C → Option Str) → (PluginType → I → Bool) → Ports I X (Memory X) C
  memory_ports now pause_writes fits = record {
    update = λ id f m. update id f now m;
    set_active = λ t id m. (none, set_active t id m);
    clear_active = λ t m. (none, clear_active t m);
    pause_writes = pause_writes;
    fits = fits;
  }

  -- The store in memory is a registry as the switch of a slot takes it: it answers for a slot with the id
  -- that was last set there, and with none once the slot was cleared; and neither a call for another slot
  -- nor the creation, the update or the deletion of a record changes that, whether it is refused or not.
  pub memory-Selects :
      (now : ℕ) (pause_writes : C → Option Str) (fits : PluginType → I → Bool)
      → Selects (memory_ports now pause_writes fits) selected × Undisturbed X now
  unfolding set_active clear_active create delete
  memory-Selects now pause_writes fits = (
    record {
      set = λ t id m e. ground (arith, lookup-insert (text t) (text t) id m.selected);
      clear = λ t m e. ground (arith, lookup-erase (text t) (text t) m.selected);
      update = λ t id f m. update_kept t id f now m;
    },
    record {
      set_other = λ t u id m apart. ground (arith, lookup-insert (text t) (text u) id m.selected);
      clear_other = λ t u m apart. ground (arith, lookup-erase (text t) (text u) m.selected);
      created = λ t r m. elim (Option-cases (lookup r.id m.recs)) [
        | inl free ↦ ground arith
        | inr (s, taken) ↦ ground arith
      ];
      updated = λ t id f m. update_kept t id f now m;
      deleted = λ t id m. elim (Option-cases (lookup id m.recs)) [
        | inl gone ↦ ground arith
        | inr (s, here) ↦ ground arith
      ];
    },
  )
