-- ===== src/Orchestrator/Limiter.antt =====
-- internal/orchestrator/guard.go: the rate limiter, a counter per key and fixed window. The clock
-- is an argument of each call. `now.Sub(b.start) >= l.window` is written as a sum, which is the
-- same for a window that is not negative.
pub mod Admitted
pub mod Budget
use llm_cache.Common.{
  ℕ, ◌+◌, List, [], ◌∷◌, Option, none, some, Bool, true, false, Str, str_key, if◌then◌else◌, ltb,
  leb, length,
}
use llm_cache.Common.Dict.{Dict, lookup, insert}

pub record Bucket : Type 0 where
  pub start : ℕ
  pub count : ℕ

pub record RateLimiter : Type 0 where
  pub limit : ℕ
  pub window : ℕ
  pub buckets : Dict Str Bucket

unfoldable pub new_rate_limiter : ℕ → ℕ → RateLimiter
new_rate_limiter limit window = record { limit = limit; window = window; buckets = [] }

abbrev pub expired : ℕ → ℕ → Bucket → Bool
expired now window b = leb (b.start + window) now

-- The loop that drops the expired buckets.
unfoldable pub sweep : ℕ → ℕ → Dict Str Bucket → Dict Str Bucket
sweep now window [] = []
sweep now window ((k, b) ∷ m) =
    let rest = sweep now window m in if expired now window b then rest else (k, b) ∷ rest

abbrev pub max_buckets : ℕ
max_buckets = 10000

-- The part of `allow` after the sweep.
unfoldable pub admit : Str → ℕ → RateLimiter → Bool × RateLimiter
admit key now l = elim (lookup key l.buckets) [
  | none ↦ (true, record l { buckets = insert key (record { start = now; count = 1 }) l.buckets })
  | some b ↦
      if expired now l.window b
      then (true, record l { buckets = insert key (record { start = now; count = 1 }) l.buckets })
      else if leb l.limit b.count
      then (false, l)
      else (true, record l { buckets = insert key (record b { count = b.count + 1 }) l.buckets })
]

unfoldable pub allow : Str → ℕ → RateLimiter → Bool × RateLimiter
allow key now l =
    let l' : RateLimiter =
      if ltb max_buckets (length l.buckets)
      then record l { buckets = sweep now l.window l.buckets }
      else l in
    admit key now l'
