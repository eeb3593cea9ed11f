-- ===== src/Orchestrator/Query/Answers.antt =====
-- internal/orchestrator/service.go: what `handleQuery` answers, and what it leaves behind.
use llm_cache.Common.{
  ℕ, ◌≡◌, ◌≢◌, refl, List, [], ◌∷◌, Option, none, some, true, false, Str, Str-discrete, codes,
  if_neg, arith, Option-cases, List-cases, inl, inr,
}
use llm_cache.Common.Float.{Float64, float_minus_one}
use llm_cache.Common.Result.{ok, err, Result-cases}
use llm_cache.Common.Word.{inc64, add64}
use llm_cache.Orchestrator.{Ports, Service, Match, current_threshold}
use llm_cache.Orchestrator.Distance.{normalize_distance}
use llm_cache.Orchestrator.Query.{
  Body, milliseconds, too_large, malformed, decoded, QueryResult, Rejection, collect, record_hit,
  record_miss, answer_miss, answer_hit, answer, handle_query,
}
use llm_cache.Persistence.{Entry}

-- The matches with an entry behind them, in the order of the vector store.
abbrev pub found : (Str → Option Entry) → List Match → List QueryResult
found held [] = []
found held (m ∷ ms) =
    let rest = found held ms in
    elim (held m.id) [
      | none ↦ rest
      | some entry ↦
          record { id = m.id; reply = entry.reply; distance = normalize_distance m.distance } ∷ rest
    ]

module _ {E V L S Q P : Type 0} (ports : Ports E V L S Q P) where
  -- The policy after it was told of the results, the best first.
  abbrev pub told : List QueryResult → P → P
  told [] policy = policy
  told (r ∷ rs) policy = told rs (ports.policy.on_hit r.id policy)

  -- Without a result the policy is told nothing.
  collect-none :
      (ms : List Match) (store store' : S) (policy policy' : P)
      → collect ports ms store policy ≡ ([], store', policy')
      → policy' ≡ policy
  unfolding collect
  collect-none [] store store' policy policy' e = ground arith
  collect-none (m ∷ ms) store store' policy policy' e =
      elim (Option-cases (ports.load m.id store).0) [
        | inl gone ↦ collect-none ms (ports.load m.id store).1 store' policy policy' (ground arith)
        | inr (entry, here) ↦ absurd (ground arith)
      ]

  -- What a rejected request leaves as it was.
  pub record Untouched (s s' : Service E V L S Q P) : Type (0) where
    pub stats : s'.stats ≡ s.stats
    pub queue : s'.queue ≡ s.queue
    pub policy : s'.policy ≡ s.policy

  answer-rejected :
      (prompt : Str) (elapsed : ℕ) (s s' : Service E V L S Q P) (x : Rejection)
      → answer ports prompt elapsed s ≡ (err x, s')
      → Untouched s s'
  unfolding answer answer_miss answer_hit record_miss
  answer-rejected prompt elapsed s s' x e = elim (Result-cases (ports.embed prompt s.embedder).0) [
    | inr (y, failed) ↦ ground arith
    | inl (vec, embedded) ↦
        let searched = ports.search vec s.cfg.top_k (current_threshold s) s.vstore in
        elim (Result-cases searched.0) [
          | inr (y, failed) ↦ ground arith
          | inl (matches, hits) ↦
              let c = collect ports matches s.store s.policy in
              elim (List-cases c.0) [
                | inr (best, rest, some_found) ↦ absurd (ground arith)
                | inl none_found ↦ ground (arith, collect-none matches s.store c.1 s.policy c.2)
              ]
        ]
  ]

  -- A rejected request, whatever the reason, counts neither as a hit nor as a miss, puts nothing on
  -- the queue and tells the policy nothing.
  pub handle_query-rejected :
      (body : Body) (elapsed : ℕ) (s s' : Service E V L S Q P) (x : Rejection)
      → handle_query ports body elapsed s ≡ (err x, s')
      → Untouched s s'
  unfolding handle_query
  handle_query-rejected too_large elapsed s s' x e = ground arith
  handle_query-rejected malformed elapsed s s' x e = ground arith
  handle_query-rejected (decoded prompt) elapsed s s' x e = elim (Str-discrete prompt []) [
    | yes p ↦ ground arith
    | no p ↦ answer-rejected prompt elapsed s s' x (ground arith)
  ]

  -- A store whose reads answer by a function of its state, and leave it alone.
  module _ (held : S → Str → Option Entry)
      (reads : (id : Str) (store : S) → ports.load id store ≡ (held store id, store)) where
    collect-found :
        (ms : List Match) (store : S) (policy : P)
        → collect ports ms store policy
          ≡ (found (held store) ms, store, told (found (held store) ms) policy)
    unfolding collect
    collect-found [] store policy = refl
    collect-found (m ∷ ms) store policy = elim (Option-cases (held store m.id)) [
      | inl gone ↦ ground (arith, reads m.id store, collect-found ms store policy)
      | inr (entry, here) ↦
          ground (arith, reads m.id store, collect-found ms store (ports.policy.on_hit m.id policy))
    ]

    module _ (prompt : Str) (vec : List Float64) (matches : List Match) (e : E) (v : V)
        (elapsed : ℕ) (s : Service E V L S Q P) (asked : prompt ≢ [])
        (embeds : ports.embed prompt s.embedder ≡ (ok vec, e))
        (searches : ports.search vec s.cfg.top_k (current_threshold s) s.vstore
          ≡ (ok matches, v)) where
      -- With loads that change nothing, a query with a prompt that is embedded and searched for
      -- without an error, and whose matches have an entry behind one of them, is answered from the
      -- cache: the reply and the distance are those of the first such match, the results are all
      -- such matches in the order of the vector store, the policy is told of each, the hit is
      -- counted, and neither the LLM nor the queue nor the store is touched.
      pub handle_query-hit :
          (best : QueryResult) (rest : List QueryResult)
          → found (held s.store) matches ≡ best ∷ rest
          → handle_query ports (decoded prompt) elapsed s ≡ (
            ok (record {
              reply = best.reply;
              cache_hit = true;
              distance = best.distance;
              results = best ∷ rest;
              latency_ms = milliseconds elapsed;
              source = codes "cache";
            }),
            record s {
              embedder = e;
              vstore = v;
              policy = told (best ∷ rest) s.policy;
              stats = record s.stats {
                hits = inc64 s.stats.hits;
                hit_latency_sum = add64 s.stats.hit_latency_sum elapsed;
                hit_distance_sum = ports.add s.stats.hit_distance_sum best.distance;
              };
            },
          )
      unfolding handle_query answer_hit record_hit
      handle_query-hit best rest hit =
          rw (if_neg _ asked) (ground (arith, collect-found matches s.store s.policy))

      -- With loads that change nothing, a query with a prompt that is embedded and searched for
      -- without an error, whose matches have no entry behind them, and which the LLM completes, is
      -- answered by the LLM: the answer is its reply at the distance -1, the miss is counted, the
      -- job for the cache is put on the queue, and neither the store nor the policy changes. A
      -- failed enqueue makes no difference.
      pub handle_query-miss :
          (reply : Str) (l : L) (x : Option Str) (q : Q)
          → found (held s.store) matches ≡ []
          → ports.complete prompt s.llm ≡ (ok reply, l)
          → ports.enqueue (record { prompt = prompt; reply = reply; vector = vec }) s.queue ≡ (x, q)
          → handle_query ports (decoded prompt) elapsed s ≡ (
            ok (record {
              reply = reply;
              cache_hit = false;
              distance = float_minus_one;
              results = [];
              latency_ms = milliseconds elapsed;
              source = codes "llm";
            }),
            record s {
              embedder = e;
              vstore = v;
              llm = l;
              queue = q;
              stats = record s.stats {
                misses = inc64 s.stats.misses;
                miss_latency_sum = add64 s.stats.miss_latency_sum elapsed;
              };
            },
          )
      unfolding handle_query answer_miss record_miss
      handle_query-miss reply l x q none_found completes enqueues =
          rw (if_neg _ asked) (ground (arith, collect-found matches s.store s.policy))
