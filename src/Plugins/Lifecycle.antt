-- ===== src/Plugins/Lifecycle.antt =====
-- internal/plugins/types.go: the paths that an installation can take through its states.
use llm_cache.Common.{
  ◌≡◌, inl, inr, List, [], ◌∷◌, Bool, true, false, arith, Bool-cases, ◌||◌, if◌then◌else◌,
}
use llm_cache.Plugins.{
  State, draft, validating, testing, building, scanning, starting, migrating, checking, activating,
  verified, active, inactive, failed, rolling_back, rolled_back, in_progress, transitions, index,
  same, one_of, valid_transition,
}

-- A run: each state is followed by one that it may change to.
abbrev pub IsRun : State → List State → Type 0
IsRun s [] = Unit
IsRun s (t ∷ ts) = (valid_transition s t ≡ true) × IsRun t ts

-- The states that only a plugin that was activated is in.
abbrev pub live : State → Bool
live s = same active s || same rolling_back s

unfoldable pub visits : State → List State → Bool
visits s [] = false
visits s (t ∷ ts) = if same s t then true else visits s ts

-- A change from a state that is not live to one that is starts at `activating`.
live-step :
    (s t : State)
    → live s ≡ false
    → live t ≡ true
    → valid_transition s t ≡ true
    → same activating s ≡ true
unfolding valid_transition one_of transitions index in_progress
live-step draft t a b v = ground arith
live-step validating t a b v = ground arith
live-step testing t a b v = ground arith
live-step building t a b v = ground arith
live-step scanning t a b v = ground arith
live-step starting t a b v = ground arith
live-step migrating t a b v = ground arith
live-step checking t a b v = ground arith
live-step activating t a b v = ground arith
live-step verified t a b v = ground arith
live-step active t a b v = ground arith
live-step inactive t a b v = ground arith
live-step failed t a b v = ground arith
live-step rolling_back t a b v = ground arith
live-step rolled_back t a b v = ground arith

-- A run that starts at a state other than `active` and `rolling_back` and that visits `active` also
-- visits `activating`, where the start counts as visited.
pub visits-activating :
    (s : State) (ts : List State)
    → live s ≡ false
    → IsRun s ts
    → visits active ts ≡ true
    → visits activating (s ∷ ts) ≡ true
unfolding visits
visits-activating s [] h r v = cc
visits-activating s (t ∷ ts) h r v = elim (Bool-cases (live t)) [
  | inl on ↦ ground (arith, live-step s t h on r.0)
  | inr off ↦ ground (arith, visits-activating t ts off r.1)
]
