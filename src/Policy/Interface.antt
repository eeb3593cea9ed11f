-- ===== src/Policy/Interface.antt =====
-- internal/policy/policy.go: the interface `EvictionPolicy`, the contract that the orchestrator
-- relies on, and the calls as data. A value of the interface is a state with these functions.
use llm_cache.Common.{
  ℕ, ◌+◌, ◌≡◌, List, [], ◌∷◌, Option, none, some, Bool, true, false, Str, str_key, ite,
}
use llm_cache.Common.Dict.{contains, Once}
use llm_cache.Common

pub record EvictionPolicy (S : Type 0) : Type 0 where
  pub name : S → Str
  pub on_hit : Str → S → S
  pub on_insert : Str → S → S
  pub on_delete : Str → S → S
  pub victim : S → Option Str
  pub flush : S → S

-- The calls that change a policy.
pub data Call : Type 0 where
  hit insert delete : Str → Call
  flush : Call

module _ {S : Type 0} (p : EvictionPolicy S) where
  unfoldable pub call : Call → S → S
  call (hit id) s = p.on_hit id s
  call (insert id) s = p.on_insert id s
  call (delete id) s = p.on_delete id s
  call flush s = p.flush s

  -- The state after the calls, the newest of which stands first.
  unfoldable pub replay : S → List Call → S
  unfolding call
  replay s [] = s
  replay s (c ∷ h) = call c (replay s h)

-- What a policy promises of the ids that it tracks, under an invariant of its state.
pub record Contract {S : Type 0} (p : EvictionPolicy S) (IsValid : S → Type 0)
    (tracked : S → List Str) : Type 0 where
  pub once : (s : S) → IsValid s → Once (tracked s)
  pub hit_valid : (id : Str) (s : S) → IsValid s → IsValid (p.on_hit id s)
  pub insert_valid : (id : Str) (s : S) → IsValid s → IsValid (p.on_insert id s)
  pub delete_valid : (id : Str) (s : S) → IsValid s → IsValid (p.on_delete id s)
  pub flush_valid : (s : S) → IsValid s → IsValid (p.flush s)
  pub tracked_hit :
      (id q : Str) (s : S)
      → IsValid s
      → contains q (tracked (p.on_hit id s)) ≡ contains q (tracked s)
  pub tracked_insert :
      (id q : Str) (s : S)
      → IsValid s
      → contains q (tracked (p.on_insert id s))
        ≡ ite (Common.Str-discrete id q) true (contains q (tracked s))
  pub tracked_delete :
      (id q : Str) (s : S)
      → IsValid s
      → contains q (tracked (p.on_delete id s))
        ≡ ite (Common.Str-discrete id q) false (contains q (tracked s))
  pub tracked_flush : (s : S) → IsValid s → tracked (p.flush s) ≡ []
  pub victim_tracked :
      (s : S) (v : Str) → IsValid s → p.victim s ≡ some v → contains v (tracked s) ≡ true
  pub victim_none : (s : S) → IsValid s → p.victim s ≡ none → tracked s ≡ []
