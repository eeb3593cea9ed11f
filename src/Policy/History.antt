-- ===== src/Policy/History.antt =====
-- What a sequence of policy calls says about an id, with no regard to how a policy stores it. The
-- newest call stands first, and the number of calls before a call is its time.
use llm_cache.Common.{ℕ, suc, List, [], ◌∷◌, Option, none, some, Str, Str-discrete, length, ite}
use llm_cache.Policy.Interface.{Call, hit, insert, delete, flush}

-- When an id that is tracked was last inserted or hit.
unfoldable pub last_use : Str → List Call → Option ℕ
last_use q [] = none
last_use q (hit id ∷ h) =
    let before = last_use q h in
    ite (Str-discrete id q) (elim before [ none ↦ none | some _ ↦ some (length h) ]) before
last_use q (insert id ∷ h) =
    let before = last_use q h in ite (Str-discrete id q) (some (length h)) before
last_use q (delete id ∷ h) = let before = last_use q h in ite (Str-discrete id q) none before
last_use q (flush ∷ h) = none

-- When an id that is tracked was admitted: a second insert does not count.
unfoldable pub inserted_at : Str → List Call → Option ℕ
inserted_at q [] = none
inserted_at q (hit id ∷ h) = inserted_at q h
inserted_at q (insert id ∷ h) =
    let before = inserted_at q h in
    ite (Str-discrete id q) (elim before [ none ↦ some (length h) | some t ↦ some t ]) before
inserted_at q (delete id ∷ h) = let before = inserted_at q h in ite (Str-discrete id q) none before
inserted_at q (flush ∷ h) = none

-- How often an id was used since it was admitted, the admission counted.
unfoldable pub uses : Str → List Call → Option ℕ
uses q [] = none
uses q (hit id ∷ h) =
    let before = uses q h in
    ite (Str-discrete id q) (elim before [ none ↦ none | some n ↦ some (suc n) ]) before
uses q (insert id ∷ h) =
    let before = uses q h in
    ite (Str-discrete id q) (elim before [ none ↦ some 1 | some n ↦ some n ]) before
uses q (delete id ∷ h) = let before = uses q h in ite (Str-discrete id q) none before
uses q (flush ∷ h) = none
