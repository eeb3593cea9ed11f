-- ===== src/Examples/Limits.antt =====
-- The rate limiter: internal/orchestrator/guard.go.
use llm_cache.Common.{
  ℕ, ◌*◌, ◌≡◌, refl, arith, List, [], ◌∷◌, Str, str_key, codes, Str-discrete, ◌<◌,
}
use llm_cache.Common.Dict.{lookup, insert}
use llm_cache.Orchestrator.Limiter.{RateLimiter, new_rate_limiter, allow, admit, sweep}
use llm_cache.Orchestrator.Limiter.Admitted.{IsSound, new_rate_limiter-IsSound, allow-IsSound}
use llm_cache.Orchestrator.Limiter.Budget

abbrev a : Str
a = codes "a"

-- A limiter of two requests in ten seconds, asked once.
abbrev asked : RateLimiter
asked = (allow a 5 (new_rate_limiter 2 10)).1

asked-IsSound : IsSound asked
unfolding new_rate_limiter
asked-IsSound =
    allow-IsSound a 5 (new_rate_limiter 2 10) (omega arith) (new_rate_limiter-IsSound 2 10)

abbrev requests : List (Str × ℕ)
requests = (a, 12) ∷ (a, 14) ∷ (a, 15) ∷ (a, 16) ∷ (a, 17) ∷ []

-- Twice the limit less one: a request before the bucket expires, and two after.
admitted-asked : Budget.admitted a requests asked ≡ 3
unfolding Budget.admitted allow admit new_rate_limiter insert lookup Str-discrete sweep
admitted-asked = refl

during : Budget.Within 12 10 requests
during = (
  (omega arith, omega arith),
  (
    (omega arith, omega arith),
    ((omega arith, omega arith), ((omega arith, omega arith), ((omega arith, omega arith), tt))),
  ),
)

admitted-bound_example : Budget.admitted a requests asked < 2 * asked.limit
unfolding allow admit new_rate_limiter insert lookup
admitted-bound_example =
    Budget.admitted-bound 12 a requests asked (omega arith) asked-IsSound during
