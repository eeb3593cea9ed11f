-- ===== src/Llm/Counted.antt =====
-- internal/llm/usage.go: what is left of a day's quota.
use llm_cache.Common.{
  ℕ, suc, ◌+◌, ◌-◌, ◌<◌, ◌≡◌, ◌≢◌, ap, ◌∙◌, List, [], ◌∷◌, some, false, Str, arith, length,
}
use mathlib.Core.Path.{subst}
use llm_cache.Common.Word.{half64, sub64, rank, inc64, inc64_small}
use llm_cache.Llm.{GeminiUsage, UsageTracker, rollover, record_success, left, snapshot}

left-minus : (limit used : ℕ) → limit < half64 → used < half64 → left limit used ≡ limit - used
unfolding left sub64 rank
left-minus limit used a b = ground arith

-- The tracker after answers of one day, the newest of which stands first.
unfoldable pub after_answers : Str → List GeminiUsage → UsageTracker → UsageTracker
after_answers today [] t = t
after_answers today (u ∷ us) t = record_success today u (after_answers today us t)

-- What the tracker says of the day.
record Tallied (today : Str) (n limit : ℕ) (t : UsageTracker) : Type 0 where
  day : t.day ≡ today
  requests : t.requests ≡ n
  exhausted : t.exhausted ≡ false
  request_limit : t.request_limit ≡ limit

rollover-Tallied :
    (today : Str) (n limit : ℕ) (t : UsageTracker) → Tallied today n limit t → rollover today t ≡ t
unfolding rollover
rollover-Tallied today n limit t c = ground (arith, c.day)

record_success-Tallied :
    (today : Str) (n limit : ℕ) (u : GeminiUsage) (t : UsageTracker)
    → n + 1 < half64
    → Tallied today n limit (rollover today t)
    → Tallied today (n + 1) limit (record_success today u t)
unfolding record_success
record_success-Tallied today n limit u t small c = record {
  day = c.day;
  requests = ap inc64 c.requests ∙ inc64_small n (omega arith);
  exhausted = c.exhausted;
  request_limit = c.request_limit;
}

module _ (today : Str) (t : UsageTracker) (new_day : today ≢ t.day) where
  first-Tallied : Tallied today 0 t.request_limit (rollover today t)
  unfolding rollover
  first-Tallied = record {
    day = ground arith;
    requests = ground arith;
    exhausted = ground arith;
    request_limit = ground arith;
  }

  after_answers-Tallied :
      (us : List GeminiUsage)
      → length us < half64
      → Tallied today (length us) t.request_limit (rollover today (after_answers today us t))
  unfolding after_answers
  after_answers-Tallied [] small = first-Tallied
  after_answers-Tallied (u ∷ us) small =
      let before = after_answers today us t in
      let c : Tallied today (suc (length us)) t.request_limit (record_success today u before) =
        subst (λ n. Tallied today n t.request_limit (record_success today u before)) (omega arith)
          (record_success-Tallied today (length us) t.request_limit u before (omega arith)
            (after_answers-Tallied us (omega arith))) in
      rw
        (rollover-Tallied today (suc (length us)) t.request_limit (record_success today u before) c)
        c

  -- With a limit on the requests, after any answers of a day that is new to the tracker, the usage
  -- shows that many requests and the rest of the limit, which is 0 once the limit is reached, and
  -- no exhaustion of the day before is left. The limit and the number of answers are below 2 ^ 63.
  pub snapshot-left :
      (us : List GeminiUsage) (resets_in : ℕ) (model : Str)
      → length us < half64
      → 0 < t.request_limit
      → t.request_limit < half64
      → let (s, t') = snapshot today resets_in model (after_answers today us t) in
        (s.requests ≡ length us)
        × (s.requests_left ≡ some (t.request_limit - length us))
        × (s.exhausted ≡ false)
  unfolding snapshot rank
  snapshot-left us resets_in model small set fits =
      let c = after_answers-Tallied us small in
      (
        c.requests,
        ground (
          arith,
          c.requests,
          c.exhausted,
          c.request_limit,
          left-minus t.request_limit (length us) fits small,
        ),
        c.exhausted,
      )
