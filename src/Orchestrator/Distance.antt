-- ===== src/Orchestrator/Distance.antt =====
-- internal/orchestrator/service.go: `normalizeDistance`.
use llm_cache.Common.{◌≡◌, ◌⊎◌, ◌&&◌, true, false, arith, if◌then◌else◌}
use llm_cache.Common.Float.{Float64, float_lt, float_zero, float_minus_micro}

unfoldable pub normalize_distance : Float64 → Float64
normalize_distance d =
    if float_lt d float_zero && float_lt float_minus_micro d then float_zero else d

-- A distance strictly between -1e-6 and 0 becomes 0, and every other stays what it is.
pub normalize_distance_band :
    (d : Float64)
    → ((float_lt d float_zero ≡ true)
        × (float_lt float_minus_micro d ≡ true)
        × (normalize_distance d ≡ float_zero))
      ⊎ (((float_lt d float_zero ≡ false) ⊎ (float_lt float_minus_micro d ≡ false))
          × (normalize_distance d ≡ d))
unfolding normalize_distance
normalize_distance_band d = ground arith
