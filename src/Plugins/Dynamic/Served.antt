-- ===== src/Plugins/Dynamic/Served.antt =====
-- internal/plugins/dynamic/queue.go: who consumes from the current queue.
use llm_cache.Common.{
  ◌≡◌, refl, sym, ap, ◌∙◌, ◌⊎◌, inl, inr, some, true, false, not, arith, Bool-cases, Option-cases,
}
use llm_cache.Common.Dict.{Key, lookup, lookup-insert}
use llm_cache.Plugins.Dynamic.{
  Worker, Queue, fresh, set_worker, start_locked, swap_queue, stop_worker, Work, stop, lease,
  handled, finish,
}

module _ {Q : Type 0} ⦃e : Key Q⦄ where
  -- The current queue has a worker that was not told to stop and has not finished.
  abbrev pub Serving : Queue Q → Type 0
  Serving d =
      (w : Worker) × (lookup d.cur d.workers ≡ some w) × (w.stopping ≡ false) × (w.done ≡ false)

  set_worker-Serving :
      (q : Q) (v w : Worker) (d : Queue Q)
      → lookup q d.workers ≡ some v
      → (v.stopping ≡ false → v.done ≡ false → (w.stopping ≡ false) × (w.done ≡ false))
      → Serving d
      → Serving (set_worker q w d)
  set_worker-Serving q v w d here keeps (u, found, on, live) = elim (e.dec q d.cur) [
    | yes current ↦
        let same : u ≡ v = ground arith in
        let (on', live') =
          keeps (ap (λ x. x.stopping) (sym same) ∙ on) (ap (λ x. x.done) (sym same) ∙ live) in
        (w, ground (arith, lookup-insert q d.cur w d.workers), on', live')
    | no other ↦ (u, ground (arith, lookup-insert q d.cur w d.workers), on, live)
  ]

  Work-Serving : {d d' : Queue Q} → Work d d' → Serving d → Serving d' ⊎ (d' ≡ stop_worker d.cur d)
  unfolding stop_worker
  Work-Serving {d = d} (stop q) (u, found, on, live) = elim (e.dec q d.cur) [
    | yes current ↦ inr (ap (λ j. stop_worker j d) current)
    | no other ↦ inl (elim (Option-cases (lookup q d.workers)) [
      | inl gone ↦ rw (stop_worker, gone) (u, found, on, live)
      | inr (w, here) ↦
          rw (stop_worker, here)
            (
              u,
              ground (arith, lookup-insert q d.cur (record w { stopping = true }) d.workers),
              on,
              live,
            )
    ])
  ]
  Work-Serving {d = d} (lease q w here on free live) h =
      inl (set_worker-Serving q w (record w { busy = true }) d here (λ a b. (a, b)) h)
  Work-Serving {d = d} (handled q w here at_work) h =
      inl (set_worker-Serving q w (record w { busy = false }) d here (λ a b. (a, b)) h)
  Work-Serving {d = d} (finish q w here told free) h =
      inl (set_worker-Serving q w (record w { done = true }) d here (λ a b. ground arith) h)

  -- A step that the worker of the current queue can take: to lease a job, or to finish the one that
  -- it has.
  abbrev pub Advances : Queue Q → Type 0
  Advances b =
      (c : Queue Q) × (w w' : Worker) × Work b c
      × (lookup b.cur b.workers ≡ some w)
      × (lookup b.cur c.workers ≡ some w')
      × (w'.busy ≡ not w.busy)

  Serving-Advances : (b : Queue Q) → Serving b → Advances b
  Serving-Advances b (w, found, on, live) = elim (Bool-cases w.busy) [
    | inl at_work ↦ (
      set_worker b.cur (record w { busy = false }) b,
      w,
      record w { busy = false },
      handled b.cur w found at_work,
      found,
      ground (arith, lookup-insert b.cur b.cur (record w { busy = false }) b.workers),
      ground arith,
    )
    | inr free ↦ (
      set_worker b.cur (record w { busy = true }) b,
      w,
      record w { busy = true },
      lease b.cur w found on free live,
      found,
      ground (arith, lookup-insert b.cur b.cur (record w { busy = true }) b.workers),
      ground arith,
    )
  ]

  start_locked-Serving :
      (d : Queue Q)
      → d.handler ≡ true
      → ((w : Worker) → lookup d.cur d.workers ≡ some w → w.done ≡ false → w.stopping ≡ false)
      → Serving (start_locked d.cur d)
  unfolding start_locked
  start_locked-Serving d set free = elim (Option-cases (lookup d.cur d.workers)) [
    | inl gone ↦
        rw (set, gone, start_locked)
          (fresh, ground (arith, lookup-insert d.cur d.cur fresh d.workers), refl, refl)
    | inr (w, here) ↦ elim (Bool-cases w.done) [
      | inl done ↦
          rw (set, here, done, start_locked)
            (fresh, ground (arith, lookup-insert d.cur d.cur fresh d.workers), refl, refl)
      | inr live ↦ rw (set, here, live, start_locked) (w, here, free w here live, live)
    ]
  ]

  -- Once Run has set the handler, a swap to a queue whose worker, if it has one that has not finished,
  -- was not told to stop, gives that queue a worker that consumes from it; that lasts through every
  -- step of the workers but the order to stop this very worker; and such a worker is never stuck: it can
  -- always lease a job or finish the one that it is handling.
  pub swap_queue-Serving :
      (d : Queue Q) (next : Q)
      → d.handler ≡ true
      → ((w : Worker) → lookup next d.workers ≡ some w → w.done ≡ false → w.stopping ≡ false)
      → Serving (swap_queue next d).1
        × ((b c : Queue Q) → Work b c → Serving b → Serving c ⊎ (c ≡ stop_worker b.cur b))
        × ((b : Queue Q) → Serving b → Advances b)
  unfolding swap_queue
  swap_queue-Serving d next set free = (
    start_locked-Serving (record d { cur = next }) set free,
    λ b c s h. Work-Serving s h,
    λ b h. Serving-Advances b h,
  )
