-- ===== src/Orchestrator/Query.antt =====
-- internal/orchestrator/service.go: `handleQuery`.
pub mod Answers
use llm_cache.Common.{
  ℕ, ◌/◌, List, [], ◌∷◌, Option, none, some, Bool, true, false, Str, Str-discrete, codes, ite,
}
use llm_cache.Common.Float.{Float64, float_minus_one}
use llm_cache.Common.Result.{Result, ok, err}
use llm_cache.Common.Word.{inc64, add64}
use llm_cache.Orchestrator.{Ports, Service, Match, Job, Stats, current_threshold}
use llm_cache.Orchestrator.Distance.{normalize_distance}

-- What the JSON decoder makes of the body, which is cut off at 16 KiB.
pub data Body : Type 0 where
  too_large malformed : Body
  decoded : Str → Body

-- `d.Milliseconds()` of a duration in nanoseconds.
abbrev pub milliseconds : ℕ → ℕ
milliseconds d = d / 1_000_000

pub record QueryResult : Type 0 where
  pub id : Str
  pub reply : Str
  pub distance : Float64

pub record QueryResponse : Type 0 where
  pub reply : Str
  pub cache_hit : Bool
  pub distance : Float64
  pub results : List QueryResult
  pub latency_ms : ℕ
  pub source : Str

pub data Rejection : Type 0 where
  prompt_too_large missing_or_invalid_prompt : Rejection
  embedding_failed vector_search_failed llm_failed : Str → Rejection

-- The status of `writeError`.
unfoldable pub status : Rejection → ℕ
status prompt_too_large = 413
status missing_or_invalid_prompt = 400
status (embedding_failed e) = 502
status (vector_search_failed e) = 502
status (llm_failed e) = 502

module _ {E V L S Q P : Type 0} (ports : Ports E V L S Q P) where
  -- The loop over the matches: stale ids are skipped, and each hit is told to the policy.
  unfoldable pub collect : List Match → S → P → List QueryResult × S × P
  collect [] store policy = ([], store, policy)
  collect (m ∷ ms) store policy =
      let (found, store') = ports.load m.id store in
      elim found [
        | none ↦ collect ms store' policy
        | some entry ↦
            let (results, store'', policy') = collect ms store' (ports.policy.on_hit m.id policy) in
            (
              record { id = m.id; reply = entry.reply; distance = normalize_distance m.distance }
                  ∷ results,
              store'',
              policy',
            )
      ]

  unfoldable pub record_hit : ℕ → Float64 → Service E V L S Q P → Service E V L S Q P
  record_hit latency distance s = record s {
    stats = record s.stats {
      hits = inc64 s.stats.hits;
      hit_latency_sum = add64 s.stats.hit_latency_sum latency;
      hit_distance_sum = ports.add s.stats.hit_distance_sum distance;
    };
  }

  unfoldable pub record_miss : ℕ → Service E V L S Q P → Service E V L S Q P
  record_miss latency s = record s {
    stats = record s.stats {
      misses = inc64 s.stats.misses;
      miss_latency_sum = add64 s.stats.miss_latency_sum latency;
    };
  }

  -- The part after the loop when nothing was found. A failed enqueue is logged only.
  unfoldable pub answer_miss :
      Str
      → List Float64
      → ℕ
      → Service E V L S Q P
      → Result Rejection QueryResponse × Service E V L S Q P
  answer_miss prompt vec elapsed s =
      let (completed, llm) = ports.complete prompt s.llm in
      elim completed [
        | err e ↦ (err (llm_failed e), record s { llm = llm })
        | ok reply ↦
            let s' = record_miss elapsed (record s { llm = llm }) in
            let (_, queue) =
              ports.enqueue (record { prompt = prompt; reply = reply; vector = vec }) s'.queue in
            (
              ok (record {
                reply = reply;
                cache_hit = false;
                distance = float_minus_one;
                results = [];
                latency_ms = milliseconds elapsed;
                source = codes "llm";
              }),
              record s' { queue = queue },
            )
      ]

  unfoldable pub answer_hit :
      QueryResult
      → List QueryResult
      → ℕ
      → Service E V L S Q P
      → Result Rejection QueryResponse × Service E V L S Q P
  answer_hit best rest elapsed s = (
    ok (record {
      reply = best.reply;
      cache_hit = true;
      distance = best.distance;
      results = best ∷ rest;
      latency_ms = milliseconds elapsed;
      source = codes "cache";
    }),
    record_hit elapsed best.distance s,
  )

  -- The rest of the handler, for a prompt.
  unfoldable pub answer :
      Str → ℕ → Service E V L S Q P → Result Rejection QueryResponse × Service E V L S Q P
  answer prompt elapsed s =
      let (embedded, embedder) = ports.embed prompt s.embedder in
      let s₁ = record s { embedder = embedder } in
      elim embedded [
        | err e ↦ (err (embedding_failed e), s₁)
        | ok vec ↦
            let (searched, vstore) = ports.search vec s.cfg.top_k (current_threshold s) s.vstore in
            let s₂ = record s₁ { vstore = vstore } in
            elim searched [
              | err e ↦ (err (vector_search_failed e), s₂)
              | ok matches ↦
                  let (results, store, policy) = collect matches s.store s.policy in
                  let s₃ = record s₂ { store = store; policy = policy } in
                  elim results [
                    | [] ↦ answer_miss prompt vec elapsed s₃
                    | best ∷ rest ↦ answer_hit best rest elapsed s₃
                  ]
            ]
      ]

  -- `elapsed` is the time from the start of the request to its answer.
  unfoldable pub handle_query :
      Body → ℕ → Service E V L S Q P → Result Rejection QueryResponse × Service E V L S Q P
  unfolding answer
  handle_query too_large elapsed s = (err prompt_too_large, s)
  handle_query malformed elapsed s = (err missing_or_invalid_prompt, s)
  handle_query (decoded prompt) elapsed s =
      ite (Str-discrete prompt []) (err missing_or_invalid_prompt, s) (answer prompt elapsed s)
