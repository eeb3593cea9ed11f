-- ===== src/Plugins/Dynamic/Drained.antt =====
-- internal/plugins/dynamic/queue.go: how Drain ends.
use llm_cache.Common.{
  ℕ, zero, suc, ◌+◌, ◌≤◌, ◌<◌, ◌≡◌, ◌≢◌, ◌⊎◌, sym, ap, ◌∙◌, inl, inr, Option, none, some, Bool,
  true, false, ◌==◌, arith, Bool-cases, Option-cases,
}
use llm_cache.Plugins.Dynamic.{drain}

module _ (depth : ℕ → Option ℕ) (late : ℕ → Bool) where
  abbrev pub reported : ℕ → Option ℕ → Option ℕ
  reported n before = elim (depth n) [ none ↦ before | some k ↦ some k ]

  -- The last backlog that the queue reported in the turns n to n + k, or the one before them.
  unfoldable pub last_report : ℕ → ℕ → Option ℕ → Option ℕ
  last_report n zero before = reported n before
  last_report n (suc k) before = last_report (n + 1) k (reported n before)

  -- The loop goes on after a turn in which the window is not over and the queue does not report 0.
  abbrev pub GoesOn : ℕ → Type 0
  GoesOn n = (late n ≡ false) × (depth n ≢ some 0)

  -- The loop ends with the turn n + k, which is the first that it does not go on after.
  pub record Ends (n fuel : ℕ) (before : Option ℕ) (r : Option (Option ℕ)) : Type 0 where
    pub k : ℕ
    pub within : k ≤ fuel
    pub first : (j : ℕ) → j < k → GoesOn (n + j)
    pub over : (depth (n + k) ≡ some 0) ⊎ (late (n + k) ≡ true)
    pub result : r ≡ some (last_report n k before)

  earlier :
      (n k : ℕ)
      → GoesOn n
      → ((j : ℕ) → j < k → GoesOn (n + 1 + j))
      → (j : ℕ) → j < suc k
      → GoesOn (n + j)
  earlier n k on first zero lt =
      let same : n + 0 ≡ n = omega arith in
      (ap late same ∙ on.0, λ e. on.1 (ap depth (sym same) ∙ e))
  earlier n k on first (suc j) lt =
      let (a, b) = first j (omega arith) in
      let same : n + 1 + j ≡ n + suc j = omega arith in
      (ap late (sym same) ∙ a, λ e. b (ap depth same ∙ e))

  later :
      (n fuel : ℕ) (before : Option ℕ) (r : Option (Option ℕ))
      → GoesOn n
      → Ends (n + 1) fuel (reported n before) r
      → Ends n (suc fuel) before r
  unfolding last_report
  later n fuel before r on ends =
      let same : n + 1 + ends.k ≡ n + suc ends.k = omega arith in
      record {
        k = suc ends.k;
        within = omega (arith, ends.within);
        first = earlier n ends.k on ends.first;
        over = elim ends.over [
          | inl empty ↦ inl (ap depth (sym same) ∙ empty)
          | inr past ↦ inr (ap late (sym same) ∙ past)
        ];
        result = ends.result;
      }

  now :
      (n fuel : ℕ) (before : Option ℕ) (r : Option (Option ℕ))
      → (depth n ≡ some 0) ⊎ (late n ≡ true)
      → r ≡ some (reported n before)
      → Ends n fuel before r
  unfolding last_report
  now n fuel before r over same =
      let start : n + 0 ≡ n = omega arith in
      record {
        k = 0;
        within = omega arith;
        first = λ j lt. absurd (omega arith);
        over = elim over [
          | inl empty ↦ inl (ap depth start ∙ empty)
          | inr past ↦ inr (ap late start ∙ past)
        ];
        result = same;
      }

  -- One turn of the loop.
  turn :
      (n fuel more : ℕ) (before : Option ℕ)
      → (GoesOn n → Ends n fuel before (drain depth late more (n + 1) (reported n before)))
      → Ends n fuel before (drain depth late (suc more) n before)
  unfolding drain
  turn n fuel more before rest =
      let next = drain depth late more (n + 1) (reported n before) in
      let whole = drain depth late (suc more) n before in
      elim (Option-cases (depth n)) [
        | inl silent ↦ elim (Bool-cases (late n)) [
          | inl past ↦
              let e : whole ≡ some (reported n before) = ground arith in
              now n fuel before whole (inr past) e
          | inr on ↦ let e : whole ≡ next = ground arith in rw e (rest (on, λ zeroed. ground arith))
        ]
        | inr (k, told) ↦ elim (Bool-cases (k == 0)) [
          | inl empty ↦
              let e : whole ≡ some (reported n before) = ground arith in
              now n fuel before whole (inl (ground arith)) e
          | inr full ↦ elim (Bool-cases (late n)) [
            | inl past ↦
                let e : whole ≡ some (reported n before) = ground arith in
                now n fuel before whole (inr past) e
            | inr on ↦
                let e : whole ≡ next = ground arith in rw e (rest (on, λ zeroed. ground arith))
          ]
        ]
      ]

  -- Where the window is over at a turn, the loop of Drain ends with that turn or before it: with the first
  -- turn in which the queue reports 0 or the window is over. It returns the last backlog that the queue
  -- reported up to then, or the one given if it reported none.
  pub drain-Ends :
      (fuel n : ℕ) (before : Option ℕ)
      → late (n + fuel) ≡ true
      → Ends n fuel before (drain depth late (suc fuel) n before)
  drain-Ends zero n before over =
      let start : n + 0 ≡ n = omega arith in
      turn n 0 0 before (λ on. absurd (ground (arith, ap late start)))
  drain-Ends (suc fuel) n before over =
      let over' : late (n + 1 + fuel) ≡ true = ap late (omega arith) ∙ over in
      turn n (suc fuel) (suc fuel) before
        (λ on. later n fuel before _ on (drain-Ends fuel (n + 1) (reported n before) over'))
