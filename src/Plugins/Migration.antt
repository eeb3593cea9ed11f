-- ===== src/Plugins/Migration.antt =====
-- internal/plugins/manager/activate.go: `planPersistence` once the entries in place and the size of the
-- candidate were read. The candidate's state is `C`, that of the store in place is `S`.
pub mod Verified
use llm_cache.Common.{
  ℕ, List, [], ◌∷◌, Option, none, some, Bool, true, false, ◌&&◌, Str, Str-discrete, codes, ite,
  if◌then◌else◌, ◌==◌, length,
}
use llm_cache.Common.Result.{Result, ok, err}
use llm_cache.Persistence.{Entry}
use llm_cache.Plugins.Replay.{sorted_entries}

-- What the plan is, from the entries in place, the size of the candidate and what the administrator
-- confirmed.
pub data Choice : Type 0 where
  -- Nothing to keep; the index and the policy are rebuilt from the candidate's own entries, if any.
  start_empty adopt : Choice
  -- The entries are copied, or the index and the policy are flushed.
  migrate empty : Choice
  -- The candidate must be empty for that.
  incompatible : Choice
  -- The administrator must choose.
  must_choose : List Str → Choice

unfoldable pub plan_persistence : List Entry → ℕ → Str → Choice
plan_persistence [] cand_size compat = if cand_size == 0 then start_empty else adopt
plan_persistence (e ∷ es) cand_size compat =
    ite (Str-discrete compat (codes "migrate")) (if cand_size == 0 then migrate else incompatible) (
      ite (Str-discrete compat (codes "empty")) (if cand_size == 0 then empty else incompatible) (
        ite (Str-discrete compat (codes "adopt")) adopt (
          must_choose
            (if cand_size == 0 then codes "migrate" ∷ codes "empty" ∷ [] else codes "adopt" ∷ []))))

pub data MigrateError : Type 0 where
  not_listed : Str → MigrateError
  not_copied : Str → Str → MigrateError
  count_mismatch : MigrateError
  not_loaded : Str → Str → MigrateError
  differs : Str → MigrateError

module _ {C : Type 0} (save : Entry → C → Option Str × C)
    (load : Str → C → Result Str Entry × C) where
  -- The loop that copies, with the ids that were saved.
  unfoldable pub copy_entries : List Entry → C → Option MigrateError × List Str × C
  copy_entries [] c = (none, [], c)
  copy_entries (e ∷ es) c =
      let (failed, c') = save e c in
      elim failed [
        | some x ↦ (some (not_copied e.id x), [], c')
        | none ↦ let (result, saved, c'') = copy_entries es c' in (result, e.id ∷ saved, c'')
      ]

  unfoldable pub same_entry : Entry → Entry → Bool
  same_entry got e =
      ite (Str-discrete got.reply e.reply) true false
      && ite (Str-discrete got.prompt e.prompt) true false
      && length got.vector == length e.vector
      && got.created_at == e.created_at

  -- The loop that reads every entry back.
  unfoldable pub verify_entries : List Entry → C → Option MigrateError × C
  unfolding same_entry
  verify_entries [] c = (none, c)
  verify_entries (e ∷ es) c =
      let (found, c') = load e.id c in
      elim found [
        | err x ↦ (some (not_loaded e.id x), c')
        | ok got ↦ if same_entry got e then verify_entries es c' else (some (differs e.id), c')
      ]

  -- `migrate` of the plan, with the ids that were saved, and its `cleanup`.
  unfoldable pub migrate_entries :
      {S : Type 0}
      → (S → Result Str (List Entry) × S)
      → (C → Result Str ℕ × C)
      → S × C
      → Option MigrateError × List Str × (S × C)
  unfolding sorted_entries copy_entries verify_entries
  migrate_entries list size (s, c) =
      let (listed, s') = sorted_entries list s in
      elim listed [
        | err x ↦ (some (not_listed x), [], (s', c))
        | ok entries ↦
            let (failed, saved, c') = copy_entries entries c in
            elim failed [
              | some x ↦ (some x, saved, (s', c'))
              | none ↦
                  let (sized, c'') = size c' in
                  elim sized [
                    | err x ↦ (some count_mismatch, saved, (s', c''))
                    | ok n ↦
                        if n == length entries
                        then (let (result, c''') = verify_entries entries c'' in
                            (result, saved, (s', c''')))
                        else (some count_mismatch, saved, (s', c''))
                  ]
            ]
      ]

unfoldable pub clean_up : {C : Type 0} → (Str → C → Option Str × C) → List Str → C → C
clean_up delete [] c = c
clean_up delete (id ∷ ids) c = let (_, c') = delete id c in clean_up delete ids c'
