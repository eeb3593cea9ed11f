-- ===== src/Plugins/Registry/Trail.antt =====
-- internal/plugins/registry/memory.go: what the audit trail and the logs answer after any appends.
use llm_cache.Common.{
  ℕ, zero, suc, ◌+◌, ◌≡◌, refl, sym, ap, ◌∙◌, List, [], ◌∷◌, ◌++◌, none, some, Str, str_key,
  Str-discrete, ite, if◌then◌else◌, ltb, length, take, reverse, arith, inl, inr, Bool-cases,
}
use llm_cache.Common.Dict.{lookup, lookup-insert}
use llm_cache.Common.Ends.{last_of, last_of-reverse, take-take}
use llm_cache.Plugins.Registry.{
  Event, Memory, max_audit_events, max_log_lines, max_log_line_len, append_audit, append_log, logs,
  wanted, matching, audit,
}
use mathlib.Core.List.{reverse-cons, reverse-reverse}

abbrev pub cut : {A : Type 0} → ℕ → List A → List A
cut limit l = if ltb 0 limit then take limit l else l

-- The events that are asked for.
abbrev pub select : Str → List Event → List Event
select id [] = []
select id (e ∷ es) = let rest = select id es in if wanted id e then e ∷ rest else rest

matching-all : (id : Str) (found : ℕ) (es : List Event) → matching id 0 found es ≡ select id es
unfolding matching
matching-all id found [] = refl
matching-all id found (e ∷ es) =
    ground (arith, matching-all id (found + 1) es, matching-all id found es)

matching-take :
    (id : Str) (limit found n : ℕ) (es : List Event)
    → limit ≡ found + suc n
    → matching id limit found es ≡ take (suc n) (select id es)
unfolding matching
matching-take id limit found n [] h = refl
matching-take id limit found zero (e ∷ es) h = elim (Bool-cases (wanted id e)) [
  | inl hit ↦ ground (arith, matching-take id limit found zero es h)
  | inr missed ↦ ground (arith, matching-take id limit found zero es h)
]
matching-take id limit found (suc n) (e ∷ es) h = elim (Bool-cases (wanted id e)) [
  | inl hit ↦ ground (arith, matching-take id limit (found + 1) n es (omega arith))
  | inr missed ↦ ground (arith, matching-take id limit found (suc n) es h)
]

matching-cut :
    (id : Str) (limit : ℕ) (es : List Event) → matching id limit 0 es ≡ cut limit (select id es)
matching-cut id zero es = matching-all id 0 es
matching-cut id (suc n) es = ground (arith, matching-take id (suc n) 0 n es (omega arith))

-- The latest of a list whose newest stands first, after one more.
newest :
    {A : Type 0} (n : ℕ) (x : A) (xs : List A)
    → last_of (suc n) (reverse (take (suc n) xs) ++ x ∷ []) ≡ reverse (take (suc n) (x ∷ xs))
newest n x xs =
    ap (last_of (suc n)) (sym (reverse-cons x (take (suc n) xs)))
    ∙ last_of-reverse (suc n) (x ∷ take (suc n) xs)
    ∙ ap (λ l. reverse (x ∷ l)) (take-take n (suc n) xs (omega arith))

-- The store after events, the newest of which stands first.
unfoldable pub after_events : {X : Type 0} → List Event → Memory X → Memory X
after_events [] m = m
after_events (e ∷ es) m = append_audit e (after_events es m)

module _ {X : Type 0} (m : Memory X) (fresh : m.events ≡ []) where
  events-after : (es : List Event) → (after_events es m).events ≡ reverse (take max_audit_events es)
  unfolding after_events append_audit
  events-after [] = fresh
  events-after (e ∷ es) =
      ap (λ l. last_of max_audit_events (l ++ e ∷ [])) (events-after es) ∙ newest 999 e es

  -- After any events in a store that had none, `Audit` answers with those of the last thousand that
  -- are asked for, the newest first, and with no more than the limit, where 0 stands for no limit.
  pub audit-after :
      (es : List Event) (id : Str) (limit : ℕ)
      → audit id limit (after_events es m) ≡ cut limit (select id (take max_audit_events es))
  unfolding audit
  audit-after es id limit =
      ap (λ l. matching id limit 0 (reverse l)) (events-after es)
      ∙ ap (matching id limit 0) (reverse-reverse (take max_audit_events es))
      ∙ matching-cut id limit (take max_audit_events es)

-- A line as it is kept.
abbrev pub clip : Str → Str
clip line = if ltb max_log_line_len (length line) then take max_log_line_len line else line

-- The lines that an id was given, the newest first.
abbrev pub lines_of : Str → List (Str × Str) → List Str
lines_of id [] = []
lines_of id ((j, line) ∷ ls) =
    let rest = lines_of id ls in ite (Str-discrete j id) (clip line ∷ rest) rest

-- The store after lines, each with its id, the newest of which stands first.
unfoldable pub after_lines : {X : Type 0} → List (Str × Str) → Memory X → Memory X
after_lines [] m = m
after_lines ((id, line) ∷ ls) m = append_log id line (after_lines ls m)

abbrev held_lines : {X : Type 0} → Str → Memory X → List Str
held_lines id m = elim (lookup id m.lines) [ none ↦ [] | some l ↦ l ]

held_lines-append_log :
    {X : Type 0} (id j line : Str) (m : Memory X)
    → held_lines id (append_log j line m)
      ≡ ite
          (Str-discrete j id)
          (last_of max_log_lines (held_lines id m ++ clip line ∷ []))
          (held_lines id m)
unfolding append_log
held_lines-append_log id j line m =
    ground
      (arith, lookup-insert j id (last_of max_log_lines (held_lines j m ++ clip line ∷ [])) m.lines)

module _ {X : Type 0} (m : Memory X) (fresh : (id : Str) → lookup id m.lines ≡ none) where
  lines-after :
      (ls : List (Str × Str)) (id : Str)
      → held_lines id (after_lines ls m) ≡ reverse (take max_log_lines (lines_of id ls))
  unfolding after_lines
  lines-after [] id = ground (arith, fresh id)
  lines-after ((j, line) ∷ ls) id = ground (
    arith,
    lines-after ls id,
    held_lines-append_log id j line (after_lines ls m),
    newest 499 (clip line) (lines_of id ls),
  )

  -- After any lines in a store that had none, `Logs` answers with the last five hundred lines of the
  -- id, the oldest first and each cut off at two thousand bytes, or with the last `limit` of those,
  -- where 0 stands for no limit.
  pub logs-after :
      (ls : List (Str × Str)) (id : Str) (limit : ℕ)
      → logs id limit (after_lines ls m) ≡ reverse (cut limit (take max_log_lines (lines_of id ls)))
  unfolding logs
  logs-after ls id limit =
      ground (arith, lines-after ls id, last_of-reverse limit (take max_log_lines (lines_of id ls)))
