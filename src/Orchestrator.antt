-- ===== src/Orchestrator.antt =====
-- internal/orchestrator/service.go: the state of the service, and the ports that it runs on. A port
-- is a set of functions on the state of what stands behind it: each answers, with an error where
-- the Go method returns one, and leaves a new state.
pub mod Distance
pub mod Query
pub mod Update
pub mod Rebuild
pub mod Admin
pub mod Limiter
pub mod Memory
pub mod Guard
pub mod Startup
use llm_cache.Common.{ℕ, List, [], Option, none, some, Bool, true, false, Str}
use llm_cache.Common.Float.{Float64, float_zero}
use llm_cache.Common.Int.{ℤ}
use llm_cache.Common.Result.{Result}
use llm_cache.Common.Word.{inc64}
use llm_cache.Persistence.{Entry}
use llm_cache.Policy.Interface.{EvictionPolicy}

pub record Match : Type 0 where
  pub id : Str
  pub distance : Float64

pub record RebuildEntry : Type 0 where
  pub id : Str
  pub vector : List Float64

pub record Job : Type 0 where
  pub prompt : Str
  pub reply : Str
  pub vector : List Float64

-- The settings that the service reads.
pub record Config : Type 0 where
  pub capacity : ℤ
  pub top_k : ℤ
  pub threshold : Float64

-- `Dependencies`: the adapters. `none` stands for a nil error.
pub record Ports (E V L S Q P : Type 0) : Type 0 where
  pub embed : Str → E → Result Str (List Float64) × E
  pub embed_health : E → Option Str
  pub search : List Float64 → ℤ → Float64 → V → Result Str (List Match) × V
  pub upsert : List Float64 → V → Result Str Str × V
  pub vector_delete : Str → V → Option Str × V
  pub vector_flush : V → Option Str × V
  pub rebuild : List RebuildEntry → V → Option Str × V
  pub vector_health : V → Option Str
  pub complete : Str → L → Result Str Str × L
  pub save : Entry → S → Option Str × S
  pub load : Str → S → Option Entry × S
  pub list : S → Result Str (List Entry) × S
  pub size : S → Result Str ℕ × S
  pub delete : Str → S → Option Str × S
  pub flush : S → Option Str × S
  pub store_health : S → Option Str
  pub enqueue : Job → Q → Option Str × Q
  pub policy : EvictionPolicy P
  -- The sum of two float64.
  pub add : Float64 → Float64 → Float64

pub record Stats : Type 0 where
  pub hits : ℕ  -- int
  pub misses : ℕ  -- int
  pub hit_latency_sum : ℕ  -- time.Duration
  pub miss_latency_sum : ℕ  -- time.Duration
  pub hit_distance_sum : Float64
  pub evictions : ℕ  -- int

abbrev pub no_stats : Stats
no_stats = record {
  hits = 0;
  misses = 0;
  hit_latency_sum = 0;
  miss_latency_sum = 0;
  hit_distance_sum = float_zero;
  evictions = 0;
}

-- `threshold` is the bits in the atomic cell, and `none` until one is set.
pub record Service (E V L S Q P : Type 0) : Type 0 where
  pub cfg : Config
  pub embedder : E
  pub vstore : V
  pub llm : L
  pub store : S
  pub queue : Q
  pub policy : P
  pub live_threshold : Option Float64
  pub stats : Stats

-- The errors that an operation of the service returns: one from a port, or its own.
pub data Failure : Type 0 where
  port : Str → Failure
  no_victim : ℕ → ℤ → Str → Failure

module _ {E V L S Q P : Type 0} where
  unfoldable pub current_threshold : Service E V L S Q P → Float64
  current_threshold s = elim s.live_threshold [ none ↦ s.cfg.threshold | some t ↦ t ]

  unfoldable pub set_threshold : Float64 → Service E V L S Q P → Service E V L S Q P
  set_threshold v s = record s { live_threshold = some v }

  unfoldable pub record_eviction : Service E V L S Q P → Service E V L S Q P
  record_eviction s = record s { stats = record s.stats { evictions = inc64 s.stats.evictions } }
