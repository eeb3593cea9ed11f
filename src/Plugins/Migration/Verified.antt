-- ===== src/Plugins/Migration/Verified.antt =====
-- internal/plugins/manager/activate.go: what a migration that succeeds has shown.
use llm_cache.Common.{
  ℕ, ◌≡◌, sym, List, [], ◌∷◌, Option, none, true, Str, arith, All, Option-cases, Bool-cases, inl,
  inr, length, ◌==◌,
}
use mathlib.Core.Path.{subst}
use llm_cache.Common.Result.{Result, ok, Result-cases}
use llm_cache.Common.Sorting.{sort, All-sort_inv}
use llm_cache.Persistence.{Entry}
use llm_cache.Plugins.Migration.{copy_entries, same_entry, verify_entries, migrate_entries}
use llm_cache.Plugins.Replay.{entry_older, sorted_entries}

module _ {C : Type 0} (save : Entry → C → Option Str × C) (load : Str → C → Result Str Entry × C)
    (held : C → Str → Result Str Entry)
    (reads : (id : Str) (c : C) → load id c ≡ (held c id, c)) where
  -- The candidate answers for the entry with one that is the same.
  abbrev pub Kept : C → Entry → Type 0
  Kept c e = (got : Entry) × (held c e.id ≡ ok got) × (same_entry save load got e ≡ true)

  verify_entries-Kept :
      (es : List Entry) (c c' : C)
      → verify_entries save load es c ≡ (none, c')
      → (c' ≡ c) × All (Kept c) es
  unfolding verify_entries
  verify_entries-Kept [] c c' h = (ground arith, tt)
  verify_entries-Kept (e ∷ es) c c' h = elim (Result-cases (held c e.id)) [
    | inr (x, gone) ↦ absurd (ground (arith, reads e.id c))
    | inl (got, here) ↦ elim (Bool-cases (same_entry save load got e)) [
      | inr other ↦ absurd (ground (arith, reads e.id c))
      | inl same ↦
          let (fixed, rest) = verify_entries-Kept es c c' (ground (arith, reads e.id c)) in
          (fixed, ((got, here, same), rest))
    ]
  ]

  -- A migration that reports success has every entry of the store in place readable from the
  -- candidate, with the reply, the prompt, the time and the number of components of the vector that
  -- it had; the candidate is one whose loads change nothing.
  pub migrate_entries-Kept :
      {S : Type 0} (list : S → Result Str (List Entry) × S) (size : C → Result Str ℕ × C)
      (s s' t : S) (c c' : C) (entries : List Entry) (saved : List Str)
      → list s ≡ (ok entries, t)
      → migrate_entries save load list size (s, c) ≡ (none, saved, (s', c'))
      → All (Kept c') entries
  unfolding migrate_entries sorted_entries
  migrate_entries-Kept list size s s' t c c' entries saved listed h =
      let es = sort entry_older entries in
      let copied = copy_entries save load es c in
      let sized = size copied.2 in
      elim (Option-cases copied.0) [
        | inr (x, failed) ↦ absurd (ground arith)
        | inl done ↦ elim (Result-cases sized.0) [
          | inr (x, failed) ↦ absurd (ground arith)
          | inl (n, counted) ↦ elim (Bool-cases (n == length es)) [
            | inr other ↦ absurd (ground arith)
            | inl whole ↦
                let (fixed, kept) = verify_entries-Kept es sized.1 c' (ground arith) in
                All-sort_inv entry_older (Kept c') entries
                  (subst (λ d. All (Kept d) es) (sym fixed) kept)
          ]
        ]
      ]
