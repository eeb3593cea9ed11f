-- ===== src/Plugins/Activation.antt =====
-- internal/plugins/manager: the guard of `activate` in activate.go, and `setState` of manager.go,
-- which `switchSlot` calls first. `scrub` takes the secrets out of a text.
use llm_cache.Common.{◌≡◌, refl, Option, none, some, Bool, true, false, Str, arith, if◌then◌else◌}
use llm_cache.Common.Result.{Result, ok, err}
use llm_cache.Plugins
use llm_cache.Plugins.{
  State, draft, validating, testing, building, scanning, starting, migrating, checking, activating,
  verified, active, inactive, failed, rolling_back, rolled_back, valid_transition,
}
use llm_cache.Plugins.Registry.{Record}

pub data Refusal : Type 0 where
  failed_verification already_active : Refusal
  not_ready : State → Refusal

-- `passed` is what the last contract run said, if there was one.
unfoldable pub activate_check : State → Option Bool → Option Refusal
activate_check verified passed = none
activate_check inactive passed = none
activate_check rolled_back passed = none
activate_check failed none = some failed_verification
activate_check failed (some true) = none
activate_check failed (some false) = some failed_verification
activate_check active passed = some already_active
activate_check s passed = some (not_ready s)

-- `illegal` is the text of the error for a change of the state that is not in the table.
unfoldable pub set_state :
    {X : Type 0}
    → (State → State → Str)
    → (Str → Str)
    → State
    → Str
    → Record X
    → Result Str (Record X)
set_state illegal scrub to detail r =
    if valid_transition r.state to
    then ok (record r { state = to; state_detail = scrub detail })
    else err (illegal r.state to)

checking-valid :
    (s : State) (passed : Option Bool)
    → activate_check s passed ≡ none
    → valid_transition s checking ≡ true
unfolding activate_check valid_transition Plugins.one_of Plugins.transitions Plugins.index
    Plugins.in_progress
checking-valid verified passed h = refl
checking-valid inactive passed h = refl
checking-valid rolled_back passed h = refl
checking-valid failed passed h = refl
checking-valid checking passed h = refl
checking-valid draft passed h = cc
checking-valid validating passed h = cc
checking-valid testing passed h = cc
checking-valid building passed h = cc
checking-valid scanning passed h = cc
checking-valid starting passed h = cc
checking-valid migrating passed h = cc
checking-valid activating passed h = cc
checking-valid active passed h = cc
checking-valid rolling_back passed h = cc

-- An activation that the guard lets through is never refused by the table of transitions: its first
-- change of the record, to `checking`, succeeds, and changes nothing but the state and its detail.
pub set_state-activate_check :
    {X : Type 0} (illegal : State → State → Str) (scrub : Str → Str) (detail : Str) (r : Record X)
    (passed : Option Bool)
    → activate_check r.state passed ≡ none
    → set_state illegal scrub checking detail r
      ≡ ok (record r { state = checking; state_detail = scrub detail })
unfolding set_state
set_state-activate_check illegal scrub detail r passed h =
    ground (arith, checking-valid r.state passed h)
