-- ===== src/Examples/Queues.antt =====
-- The queue that can be swapped: internal/plugins/dynamic/queue.go. Queues are numbers.
use llm_cache.Common.{ℕ, zero, suc, Option, none, leb, ◌≡◌, ◌⊎◌, refl, some, true, false}
use native.Mathlib.Decide.{ℕ_discrete}
use llm_cache.Common.Dict.{Key, lookup, insert}
use llm_cache.Plugins.Dynamic.{
  Worker, Queue, fresh, new_queue, start_locked, run, swap_queue, stop_worker, Work, idle,
}
use llm_cache.Plugins.Dynamic.{drain}
use llm_cache.Plugins.Dynamic.Drained
use llm_cache.Plugins.Dynamic.Served
use llm_cache.Plugins.Dynamic.Stranded

instance abbrev number_key : Key ℕ
number_key = record { dec = ℕ_discrete }

-- Run has started the worker of the queue 0.
abbrev running_queue : Queue ℕ
running_queue = run (new_queue 0)

free : (w : Worker) → lookup 1 running_queue.workers ≡ some w → w.done ≡ false → w.stopping ≡ false
unfolding run new_queue start_locked lookup insert ℕ_discrete
free w e live = cc

swap_queue-Serving_example :
    Served.Serving (swap_queue 1 running_queue).1
    × ((b c : Queue ℕ) → Work b c → Served.Serving b → Served.Serving c ⊎ (c ≡ stop_worker b.cur b))
    × ((b : Queue ℕ) → Served.Serving b → Served.Advances b)
swap_queue-Serving_example =
    Served.swap_queue-Serving running_queue 1 (unfold run new_queue start_locked lookup in refl)
      free

-- Swapped to the queue 1, with the worker of the queue 0 told to stop.
abbrev leaving : Queue ℕ
leaving = stop_worker 0 (swap_queue 1 running_queue).1

abbrev told : Worker
told = record fresh { stopping = true }

swap_queue-Stranded_example :
    ((swap_queue 0 leaving).1.cur ≡ 0) × Stranded.Stranded (swap_queue 0 leaving).1
swap_queue-Stranded_example =
    Stranded.swap_queue-Stranded leaving (swap_queue 0 leaving).1 0 told
      (unfold stop_worker swap_queue run new_queue start_locked lookup insert ℕ_discrete in refl)
      refl refl idle

-- A queue that reports 2, nothing, and then 0.
abbrev depth : ℕ → Option ℕ
depth zero = some 2
depth (suc zero) = none
depth (suc (suc n)) = some 0

drain-Ends_example :
    Drained.Ends depth (λ n. leb 5 n) 0 5 none (drain depth (λ n. leb 5 n) 6 0 none)
drain-Ends_example = Drained.drain-Ends depth (λ n. leb 5 n) 5 0 none refl
