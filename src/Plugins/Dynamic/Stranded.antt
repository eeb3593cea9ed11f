-- ===== src/Plugins/Dynamic/Stranded.antt =====
-- internal/plugins/dynamic/queue.go: a queue that is left without a worker that consumes from it.
use llm_cache.Common.{
  ◌≡◌, refl, sym, ap, ◌∙◌, inl, inr, some, true, false, arith, Bool-cases, Option-cases,
}
use llm_cache.Common.Dict.{Key, lookup, lookup-insert}
use llm_cache.Plugins.Dynamic.{
  Worker, Queue, set_worker, start_locked, swap_queue, stop_worker, Work, stop, lease, handled,
  finish, Works, idle, after,
}

module _ {Q : Type 0} ⦃e : Key Q⦄ where
  -- A worker of the current queue that was told to stop, and no step of the workers changes that.
  abbrev pub Stranded : Queue Q → Type 0
  Stranded d = (w : Worker) × (lookup d.cur d.workers ≡ some w) × (w.stopping ≡ true)

  set_worker-Stranded :
      (q : Q) (v w : Worker) (d : Queue Q)
      → lookup q d.workers ≡ some v
      → (v.stopping ≡ true → w.stopping ≡ true)
      → Stranded d
      → Stranded (set_worker q w d)
  set_worker-Stranded q v w d here keeps (u, found, told) = elim (e.dec q d.cur) [
    | yes current ↦
        let same : u ≡ v = ground arith in
        (
          w,
          ground (arith, lookup-insert q d.cur w d.workers),
          keeps (ap (λ x. x.stopping) (sym same) ∙ told),
        )
    | no other ↦ (u, ground (arith, lookup-insert q d.cur w d.workers), told)
  ]

  Work-Stranded : {d d' : Queue Q} → Work d d' → Stranded d → (d'.cur ≡ d.cur) × Stranded d'
  unfolding stop_worker
  Work-Stranded {d = d} (stop q) h = elim (Option-cases (lookup q d.workers)) [
    | inl gone ↦ rw (stop_worker, gone) (refl, h)
    | inr (w, here) ↦
        rw (stop_worker, here)
          (refl, set_worker-Stranded q w (record w { stopping = true }) d here (λ a. refl) h)
  ]
  Work-Stranded {d = d} (lease q w here on free live) h =
      (refl, set_worker-Stranded q w (record w { busy = true }) d here (λ a. a) h)
  Work-Stranded {d = d} (handled q w here at_work) h =
      (refl, set_worker-Stranded q w (record w { busy = false }) d here (λ a. a) h)
  Work-Stranded {d = d} (finish q w here told free) h =
      (refl, set_worker-Stranded q w (record w { done = true }) d here (λ a. a) h)

  Works-Stranded : {d d' : Queue Q} → Works d d' → Stranded d → (d'.cur ≡ d.cur) × Stranded d'
  Works-Stranded idle h = (refl, h)
  Works-Stranded (after ws s) h =
      let (same, mid) = Works-Stranded ws h in
      let (same', last) = Work-Stranded s mid in (same' ∙ same, last)

  start_locked_running :
      (q : Q) (d : Queue Q) (w : Worker)
      → lookup q d.workers ≡ some w
      → w.done ≡ false
      → start_locked q d ≡ d
  unfolding start_locked
  start_locked_running q d w here live = elim (Bool-cases d.handler) [
    | inl set ↦ ground (arith, here)
    | inr unset ↦ ground arith
  ]

  -- A swap back to a queue whose worker was told to stop and has not finished yet starts no new worker
  -- for it: whatever the workers do from there on, the current queue is left with a worker that was told
  -- to stop, and that leases no further job.
  pub swap_queue-Stranded :
      (d d' : Queue Q) (next : Q) (w : Worker)
      → lookup next d.workers ≡ some w
      → w.stopping ≡ true
      → w.done ≡ false
      → Works (swap_queue next d).1 d'
      → (d'.cur ≡ next) × Stranded d'
  unfolding swap_queue
  swap_queue-Stranded d d' next w here told live ws =
      let kept : (swap_queue next d).1 ≡ record d { cur = next } =
        start_locked_running next (record d { cur = next }) w here live in
      let moved : Works (record d { cur = next }) d' = rw kept at ws in
      Works-Stranded moved (w, here, told)
