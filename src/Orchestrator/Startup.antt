-- ===== src/Orchestrator/Startup.antt =====
-- internal/orchestrator/startup.go. `attempt n` is what the n-th call of the function returns, and
-- `late n` whether the deadline has passed after it.
pub mod Retried
use llm_cache.Common.{
  ℕ, zero, suc, ◌+◌, List, [], ◌∷◌, Option, none, some, Bool, true, false, not, ◌&&◌, ◌||◌, Str,
  codes, if◌then◌else◌, leb, map,
}
use llm_cache.Orchestrator.Guard.{cut_prefix}

-- strings.ToLower, of an ASCII string.
unfoldable pub to_lower : Str → Str
to_lower [] = []
to_lower (c ∷ s) = (if leb 65 c && leb c 90 then c + 32 else c) ∷ to_lower s

-- strings.Contains
unfoldable pub contains_str : Str → Str → Bool
contains_str s [] = elim (cut_prefix s []) [ none ↦ false | some _ ↦ true ]
contains_str s (c ∷ t) =
    let later = contains_str s t in elim (cut_prefix s (c ∷ t)) [ none ↦ later | some _ ↦ true ]

abbrev pub transient_messages : List Str
transient_messages =
    codes "connection refused"
    ∷ codes "no such host"
    ∷ codes "i/o timeout"
    ∷ codes "ping failed"
    ∷ codes "unreachable"
    ∷ codes "connection reset"
    ∷ codes "eof"
    ∷ []

-- The loop of `isTransient`.
unfoldable pub any_contained : Str → List Str → Bool
any_contained msg [] = false
any_contained msg (s ∷ ss) = if contains_str s msg then true else any_contained msg ss

unfoldable pub is_transient : Str → Bool
is_transient e = any_contained (to_lower e) transient_messages

-- The loop from the n-th call on, with a bound on its turns: `none` means that the bound was met.
unfoldable pub retry_transient : (ℕ → Option Str) → (ℕ → Bool) → ℕ → ℕ → Option (Option Str)
retry_transient attempt late zero n = none
retry_transient attempt late (suc fuel) n = elim (attempt n) [
  | none ↦ some none
  | some e ↦
      if not (is_transient e) || late n
      then some (some e)
      else retry_transient attempt late fuel (n + 1)
]
