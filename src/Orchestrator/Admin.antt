-- ===== src/Orchestrator/Admin.antt =====
-- internal/orchestrator/service.go: `FlushCache` and the handlers of /flush, /stats, /policy and
-- /health.
pub mod Flushed
use llm_cache.Common.{
  ℕ, List, [], ◌∷◌, Option, none, some, Bool, true, false, Str, codes, if◌then◌else◌,
}
use llm_cache.Common.Float.{Float64, float_zero}
use llm_cache.Common.Result.{Result, ok, err}
use llm_cache.Common.Word.{add64, slt64}
use llm_cache.Orchestrator.{Ports, Service, Stats, no_stats}
use llm_cache.Policy.Interface.{EvictionPolicy}
use llm_cache.Policy.Manager.{Manager, set_policy, current, SetError}

-- The arithmetic of floats that the statistics use: the float of an int, and a quotient.
pub record Quotients : Type 0 where
  pub of_int : ℕ → Float64
  pub div : Float64 → Float64 → Float64
  -- float64(time.Millisecond)
  pub millisecond : Float64

pub record StatsResponse : Type 0 where
  pub requests : ℕ
  pub hits : ℕ
  pub misses : ℕ
  pub hit_rate : Float64
  pub avg_hit_latency_ms : Float64
  pub avg_miss_latency_ms : Float64
  pub avg_hit_distance : Float64
  pub evictions : ℕ
  pub size : ℕ
  pub policy : Str

-- The checks of the embedder, the vector store and the store; `none` stands for "ok".
pub record HealthResponse : Type 0 where
  pub code : ℕ
  pub status : Str
  pub embedding : Option Str
  pub vectorstore : Option Str
  pub redis : Option Str

unfoldable pub mean : Quotients → Float64 → ℕ → Float64
mean ops sum n = if slt64 0 n then ops.div sum (ops.of_int n) else float_zero

unfoldable pub mean_latency : Quotients → ℕ → ℕ → Float64
mean_latency ops sum n =
    if slt64 0 n
    then ops.div (ops.div (ops.of_int sum) (ops.of_int n)) ops.millisecond
    else float_zero

module _ {E V L S Q P : Type 0} (ports : Ports E V L S Q P) where
  unfoldable pub flush_cache : Service E V L S Q P → Option Str × Service E V L S Q P
  flush_cache s =
      let (failed, vstore) = ports.vector_flush s.vstore in
      let s' = record s { vstore = vstore } in
      elim failed [
        | some e ↦ (some e, s')
        | none ↦
            let (_, store) = ports.flush s'.store in
            (
              none,
              record s' { store = store; policy = ports.policy.flush s'.policy; stats = no_stats },
            )
      ]

  -- The status of the answer to /flush.
  unfoldable pub handle_flush : Service E V L S Q P → ℕ × Service E V L S Q P
  handle_flush s =
      let (failed, s') = flush_cache s in (elim failed [ none ↦ 200 | some _ ↦ 502 ], s')

  -- The usage of a metered LLM is left out.
  unfoldable pub handle_stats :
      Quotients → Service E V L S Q P → StatsResponse × Service E V L S Q P
  unfolding mean mean_latency
  handle_stats ops s =
      let t = s.stats in
      let requests = add64 t.hits t.misses in
      let (sized, store) = ports.size s.store in
      (
        record {
          requests = requests;
          hits = t.hits;
          misses = t.misses;
          hit_rate = mean ops (ops.of_int t.hits) requests;
          avg_hit_latency_ms = mean_latency ops t.hit_latency_sum t.hits;
          avg_miss_latency_ms = mean_latency ops t.miss_latency_sum t.misses;
          avg_hit_distance = mean ops t.hit_distance_sum t.hits;
          evictions = t.evictions;
          size = elim sized [ ok n ↦ n | err _ ↦ 0 ];
          policy = ports.policy.name s.policy;
        },
        record s { store = store },
      )

  unfoldable pub handle_health : Service E V L S Q P → HealthResponse
  handle_health s =
      let e = ports.embed_health s.embedder in
      let v = ports.vector_health s.vstore in
      let r = ports.store_health s.store in
      let healthy : Bool = elim e [
        | some _ ↦ false
        | none ↦ elim v [ some _ ↦ false | none ↦ elim r [ some _ ↦ false | none ↦ true ] ]
      ] in
      record {
        code = if healthy then 200 else 503;
        status = if healthy then codes "ok" else codes "degraded";
        embedding = e;
        vectorstore = v;
        redis = r;
      }

-- The status of the answer to /policy; `none` is a body that does not decode.
unfoldable pub handle_policy : {X : Type 0} → EvictionPolicy X → Option Str → Manager X → ℕ
handle_policy other none m = 400
handle_policy other (some name) m = elim (set_policy other name m) [ ok _ ↦ 200 | err _ ↦ 400 ]
