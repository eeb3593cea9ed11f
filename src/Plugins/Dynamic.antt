-- ===== src/Plugins/Dynamic.antt =====
-- internal/plugins/dynamic/queue.go: the queue that can be swapped, with a worker for each queue that it
-- consumes from. A queue is of any type with an equality, that of the pointers. What a worker does is up
-- to the Run of the queue that it consumes from, which is not code of this file: the steps of `Work` are
-- what the interface says of it, that it consumes jobs, a handler for each, until its context is
-- canceled, taken so that it returns only then, and not before it is through with what it has leased, as
-- the queue over Redis does; a job stands for all that is leased at once. The end of the context of Run,
-- at a shutdown, is left out, as are the contexts that the handlers get.
pub mod Served
pub mod Stranded
pub mod Drained
use llm_cache.Common.{
  ℕ, zero, suc, ◌+◌, ◌≡◌, List, [], ◌∷◌, Option, none, some, Bool, true, false, not, ◌&&◌, ◌||◌,
  if◌then◌else◌, ◌==◌,
}
use llm_cache.Common.Dict.{Key, Dict, lookup, insert}

-- Whether the worker was told to stop, whether a handler is running, and whether its Run returned.
pub record Worker : Type 0 where
  pub stopping : Bool
  pub busy : Bool
  pub done : Bool

-- `handler` is whether Run has set the handler.
pub record Queue (Q : Type 0) : Type 0 where
  pub cur : Q
  pub handler : Bool
  pub workers : Dict Q Worker

abbrev pub fresh : Worker
fresh = record { stopping = false; busy = false; done = false }

module _ {Q : Type 0} ⦃e : Key Q⦄ where
  unfoldable pub new_queue : Q → Queue Q
  new_queue initial = record { cur = initial; handler = false; workers = [] }

  abbrev pub set_worker : Q → Worker → Queue Q → Queue Q
  set_worker q w d = record d { workers = insert q w d.workers }

  -- `startLocked`: a worker that was started and has not finished is left alone.
  unfoldable pub start_locked : Q → Queue Q → Queue Q
  start_locked q d =
      if d.handler
      then elim (lookup q d.workers) [
        | none ↦ set_worker q fresh d
        | some w ↦ if w.done then set_worker q fresh d else d
      ]
      else d

  -- The part of Run before it waits.
  unfoldable pub run : Queue Q → Queue Q
  unfolding start_locked
  run d = let d' : Queue Q = record d { handler = true } in start_locked d.cur d'

  -- With the previous queue.
  unfoldable pub swap_queue : Q → Queue Q → Q × Queue Q
  unfolding start_locked
  swap_queue next d = (d.cur, start_locked next (record d { cur = next }))

  -- What StopWorker does before it waits; whether the worker stops in time is for its steps to say.
  unfoldable pub stop_worker : Q → Queue Q → Queue Q
  stop_worker q d = elim (lookup q d.workers) [
    | none ↦ d
    | some w ↦ set_worker q (record w { stopping = true }) d
  ]

  -- What StopWorker does to the workers, and what they do by the promise of their Run: a job is leased by a
  -- worker that is idle and was not told to stop, its handler returns, and an idle worker that was told
  -- to stop finishes.
  pub data Work (d : Queue Q) : Queue Q → Type 0 where
    stop : (q : Q) → Work d (stop_worker q d)
    lease :
        (q : Q) (w : Worker)
        → lookup q d.workers ≡ some w
        → w.stopping ≡ false
        → w.busy ≡ false
        → w.done ≡ false
        → Work d (set_worker q (record w { busy = true }) d)
    handled :
        (q : Q) (w : Worker)
        → lookup q d.workers ≡ some w
        → w.busy ≡ true
        → Work d (set_worker q (record w { busy = false }) d)
    finish :
        (q : Q) (w : Worker)
        → lookup q d.workers ≡ some w
        → w.stopping ≡ true
        → w.busy ≡ false
        → Work d (set_worker q (record w { done = true }) d)

  -- Any number of such steps.
  pub data Works (d : Queue Q) : Queue Q → Type 0 where
    idle : Works d d
    after : {b c : Queue Q} → Works d b → Work b c → Works d c

-- The loop of Drain from the n-th turn on, with a bound on its turns and the last backlog that the
-- queue reported, none for -1: `depth n` is what the queue reports then, if it can and does, and `late
-- n` whether the window is over or the context done. The result is none where the bound was met.
unfoldable pub drain : (ℕ → Option ℕ) → (ℕ → Bool) → ℕ → ℕ → Option ℕ → Option (Option ℕ)
drain depth late zero n remaining = none
drain depth late (suc fuel) n remaining = elim (depth n) [
  | none ↦
      let rest = drain depth late fuel (n + 1) remaining in if late n then some remaining else rest
  | some k ↦
      let rest = drain depth late fuel (n + 1) (some k) in
      if k == 0 then some (some 0) else if late n then some (some k) else rest
]
