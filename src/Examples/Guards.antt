-- ===== src/Examples/Guards.antt =====
-- The guard, the retries of the start and the quota of a day: internal/orchestrator/guard.go and
-- startup.go, and internal/llm/usage.go.
use llm_cache.Common.{
  ℕ, zero, suc, ◌+◌, ◌-◌, ◌≤◌, ◌<◌, ◌≡◌, ◌≢◌, ◌⊎◌, refl, ap, [], ◌∷◌, ◌++◌, Option, none, some,
  Bool, true, false, Str, Str-discrete, codes, arith, leb,
}
use llm_cache.Llm.{GeminiUsage, UsageTracker, snapshot}
use llm_cache.Llm.Counted
use llm_cache.Orchestrator.Guard.{
  Guard, Request, Answer, client_ip, serve_http, before, trim_space, trim_left, split_host,
  last_index, index_byte, eq_str,
}
use llm_cache.Orchestrator.Guard.Authorized
use llm_cache.Orchestrator.Startup.{retry_transient}
use llm_cache.Orchestrator.Startup.Retried

abbrev guarded : Guard
guarded = record { admin_token = codes "secret"; limiter = none; trust_proxy = true }

abbrev flush_request : Request
flush_request = record {
  method = codes "POST";
  path = codes "/flush";
  authorization = codes "Bearer secret";
  forwarded_for = codes " 10.0.0.1 , 10.0.0.2";
  remote_addr = codes "[::1]:8080";
}

serve_http-admin_example :
    ((flush_request.authorization ≡ codes "Bearer " ++ guarded.admin_token)
      × (serve_http guarded 0 flush_request ≡ (Answer.passed, guarded)))
    ⊎ ((flush_request.authorization ≢ codes "Bearer " ++ guarded.admin_token)
        × (serve_http guarded 0 flush_request ≡ (Answer.admin_token_required, guarded)))
serve_http-admin_example =
    Authorized.serve_http-admin guarded 0 flush_request (λ e. cc) (unfold Str-discrete in refl)

-- With a trusted proxy the first address of the header, and otherwise the host of the caller.
client_ip_proxy : client_ip guarded flush_request ≡ codes "10.0.0.1"
unfolding client_ip before trim_space trim_left Str-discrete
client_ip_proxy = refl

client_ip_direct : client_ip (record guarded { trust_proxy = false }) flush_request ≡ codes "::1"
unfolding client_ip split_host last_index index_byte Str-discrete
client_ip_direct = refl

-- Two calls fail while the dependency starts, and the third succeeds.
abbrev attempt : ℕ → Option Str
attempt zero = some (codes "dial tcp: Connection refused")
attempt (suc zero) = some (codes "dial tcp: i/o timeout")
attempt (suc (suc n)) = none

abbrev late : ℕ → Bool
late n = leb 5 n

retry_transient-Ends_example :
    (m : ℕ) × (0 ≤ m)
    × (m ≤ 0 + 5)
    × (retry_transient attempt late 6 0 ≡ some (attempt m))
    × Retried.Ends attempt late m
    × ((j : ℕ) → 0 ≤ j → j < m → Retried.GoesOn attempt late j)
retry_transient-Ends_example = Retried.retry_transient-Ends attempt late 5 0 refl

abbrev yesterday : UsageTracker
yesterday = record {
  day = codes "2024-01-01";
  requests = 9;
  tokens = 90;
  exhausted = true;
  request_limit = 10;
  token_budget = 0;
}

abbrev usage : GeminiUsage
usage = record {
  prompt_token_count = 1;
  candidates_token_count = 2;
  thoughts_token_count = 0;
  total_token_count = 3;
}

next_day : codes "2024-01-02" ≢ yesterday.day
unfolding Str-discrete
next_day e = let f = ap (λ l. eq_str l (codes "2024-01-01")) e in absurd (cc)

snapshot-left_example :
    let (s, t) =
      snapshot
        (codes "2024-01-02")
        60
        (codes "m")
        (Counted.after_answers (codes "2024-01-02") (usage ∷ usage ∷ []) yesterday) in
    (s.requests ≡ 2) × (s.requests_left ≡ some (10 - 2)) × (s.exhausted ≡ false)
snapshot-left_example =
    Counted.snapshot-left (codes "2024-01-02") yesterday next_day (usage ∷ usage ∷ []) 60
      (codes "m") (omega arith) (omega arith) (omega arith)
