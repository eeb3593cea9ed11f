-- ===== src/Llm.antt =====
-- internal/llm/fallback.go and internal/llm/usage.go. The day of the quota and the time until it
-- ends come from the clock, and what the quota error says of the limit from a regular expression;
-- both are arguments.
pub mod Counted
use llm_cache.Common.{
  ℕ, ◌+◌, [], Option, none, some, Bool, true, false, Str, Str-discrete, ite, if◌then◌else◌, ◌==◌,
  ◌&&◌,
}
use llm_cache.Common.Result.{Result, ok, err}
use llm_cache.Common.Word.{add64, inc64, sub64, slt64}

-- The token counts of an answer.
pub record GeminiUsage : Type 0 where
  pub prompt_token_count : ℕ  -- int
  pub candidates_token_count : ℕ  -- int
  pub thoughts_token_count : ℕ  -- int
  pub total_token_count : ℕ  -- int

-- The counters are ints; a limit of 0 is unknown.
pub record UsageTracker : Type 0 where
  pub day : Str
  pub requests : ℕ
  pub tokens : ℕ
  pub exhausted : Bool
  pub request_limit : ℕ
  pub token_budget : ℕ

pub record UsageSnapshot : Type 0 where
  pub model : Str
  pub requests : ℕ
  pub tokens : ℕ
  pub request_limit : ℕ
  pub requests_left : Option ℕ
  pub token_budget : ℕ
  pub tokens_left : Option ℕ
  pub exhausted : Bool
  pub resets_in_seconds : ℕ

unfoldable pub new_usage_tracker : ℕ → ℕ → UsageTracker
new_usage_tracker request_limit token_budget = record {
  day = [];
  requests = 0;
  tokens = 0;
  exhausted = false;
  request_limit = request_limit;
  token_budget = token_budget;
}

unfoldable pub rollover : Str → UsageTracker → UsageTracker
rollover today t =
    ite (Str-discrete today t.day) t
      (record t { day = today; requests = 0; tokens = 0; exhausted = false })

unfoldable pub total_of : GeminiUsage → ℕ
total_of u =
    if u.total_token_count == 0
    then add64 (add64 u.prompt_token_count u.candidates_token_count) u.thoughts_token_count
    else u.total_token_count

unfoldable pub record_success : Str → GeminiUsage → UsageTracker → UsageTracker
unfolding rollover total_of
record_success today u t =
    let t' = rollover today t in
    record t' { requests = inc64 t'.requests; tokens = add64 t'.tokens (total_of u) }

-- `found` is the limit that the error names.
unfoldable pub record_quota_exhausted : Str → Option ℕ → UsageTracker → UsageTracker
unfolding rollover
record_quota_exhausted today found t =
    let t' = record (rollover today t) { exhausted = true } in
    elim found [
      | none ↦ t'
      | some n ↦ if t'.request_limit == 0 then record t' { request_limit = n } else t'
    ]

-- max(limit-used, 0)
unfoldable pub left : ℕ → ℕ → ℕ
left limit used = let d = sub64 limit used in if slt64 0 d then d else 0

unfoldable pub snapshot : Str → ℕ → Str → UsageTracker → UsageSnapshot × UsageTracker
unfolding rollover left
snapshot today resets_in model t =
    let t' = rollover today t in
    (
      record {
        model = model;
        requests = t'.requests;
        tokens = t'.tokens;
        request_limit = t'.request_limit;
        requests_left =
            if slt64 0 t'.request_limit
            then some (if t'.exhausted then 0 else left t'.request_limit t'.requests)
            else none;
        token_budget = t'.token_budget;
        tokens_left =
            if slt64 0 t'.token_budget then some (left t'.token_budget t'.tokens) else none;
        exhausted = t'.exhausted;
        resets_in_seconds = resets_in;
      },
      t',
    )

pub record Backend (L : Type 0) : Type 0 where
  pub complete : Str → L → Result Str Str × L
  pub usage : L → Option UsageSnapshot

-- `ctx_err` is the error of the context when the primary backend has failed.
unfoldable pub fallback_complete :
    {A B : Type 0} → Backend A → Backend B → Option Str → Str → A × B → Result Str Str × (A × B)
fallback_complete primary fallback ctx_err prompt (a, b) =
    let (reply, a') = primary.complete prompt a in
    elim reply [
      | ok text ↦ (ok text, (a', b))
      | err _ ↦ elim ctx_err [
        | some e ↦ (err e, (a', b))
        | none ↦ let (second, b') = fallback.complete prompt b in (second, (a', b'))
      ]
    ]

-- The usage is the primary backend's.
unfoldable pub fallback_usage :
    {A B : Type 0} → Backend A → Backend B → A × B → Option UsageSnapshot
fallback_usage primary fallback (a, b) = primary.usage a
