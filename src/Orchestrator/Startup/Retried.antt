-- ===== src/Orchestrator/Startup/Retried.antt =====
-- internal/orchestrator/startup.go: when the retries end, and with what.
use llm_cache.Common.{
  ℕ, zero, suc, ◌+◌, ◌≤◌, ◌<◌, ◌≡◌, ◌⊎◌, inl, inr, Option, none, some, Bool, true, false, Str,
  arith, Option-cases, Bool-cases, ap, ◌∙◌, ◌==◌,
}
use mathlib.Core.Path.{subst}
use llm_cache.Orchestrator.Startup.{is_transient, retry_transient}

-- A call that is followed by another.
abbrev pub GoesOn : (ℕ → Option Str) → (ℕ → Bool) → ℕ → Type 0
GoesOn attempt late n =
    (e : Str) × (attempt n ≡ some e) × (is_transient e ≡ true) × (late n ≡ false)

-- A call that is the last.
abbrev pub Ends : (ℕ → Option Str) → (ℕ → Bool) → ℕ → Type 0
Ends attempt late n =
    (attempt n ≡ none)
    ⊎ ((e : Str) × (attempt n ≡ some e) × ((is_transient e ≡ false) ⊎ (late n ≡ true)))

-- The outcome of the calls from `n` to `n + k` at most.
abbrev Outcome : (ℕ → Option Str) → (ℕ → Bool) → ℕ → ℕ → Type 0
Outcome attempt late k n =
    (m : ℕ) × (n ≤ m)
    × (m ≤ n + k)
    × (retry_transient attempt late (suc k) n ≡ some (attempt m))
    × Ends attempt late m
    × ((j : ℕ) → n ≤ j → j < m → GoesOn attempt late j)

module _ (attempt : ℕ → Option Str) (late : ℕ → Bool) where
  -- Whether the `n`-th call is the last.
  Ends-cases : (n : ℕ) → Ends attempt late n ⊎ GoesOn attempt late n
  Ends-cases n = elim (Option-cases (attempt n)) [
    | inl done ↦ inl (inl done)
    | inr (e, failed) ↦ elim (Bool-cases (is_transient e)) [
      | inr fatal ↦ inl (inr (e, failed, inl fatal))
      | inl passing ↦ elim (Bool-cases (late n)) [
        | inl past ↦ inl (inr (e, failed, inr past))
        | inr early ↦ inr (e, failed, passing, early)
      ]
    ]
  ]

  retry_transient-last :
      (k n : ℕ) → Ends attempt late n → retry_transient attempt late (suc k) n ≡ some (attempt n)
  unfolding retry_transient
  retry_transient-last k n (inl done) = rw (done, retry_transient)
  retry_transient-last k n (inr (e, failed, inl fatal)) = rw (failed, fatal, retry_transient)
  retry_transient-last k n (inr (e, failed, inr past)) = ground arith

  retry_transient-next :
      (k n : ℕ)
      → GoesOn attempt late n
      → retry_transient attempt late (suc k) n ≡ retry_transient attempt late k (n + 1)
  unfolding retry_transient
  retry_transient-next k n (e, failed, passing, early) = ground arith

  stops : (k n : ℕ) → Ends attempt late n → Outcome attempt late k n
  stops k n ends = (
    n,
    omega arith,
    omega arith,
    retry_transient-last k n ends,
    ends,
    λ j lo hi. absurd (omega arith),
  )

  goes :
      (k n : ℕ)
      → GoesOn attempt late n
      → Outcome attempt late k (n + 1)
      → Outcome attempt late (suc k) n
  goes k n on (m, lo, hi, returned, ends, before) = (
    m,
    omega arith,
    omega arith,
    retry_transient-next (suc k) n on ∙ returned,
    ends,
    λ j l h. elim (Bool-cases (n == j)) [
      | inl here ↦ subst (GoesOn attempt late) (ground arith) on
      | inr later ↦ before j (ground arith) h
    ],
  )

  -- Once the deadline has passed the retries are over: they return the result of the first call that
  -- succeeds, fails with an error that is not transient, or ends after the deadline, and every call
  -- before that one failed with a transient error before the deadline.
  pub retry_transient-Ends :
      (k n : ℕ)
      → late (n + k) ≡ true
      → (m : ℕ) × (n ≤ m)
        × (m ≤ n + k)
        × (retry_transient attempt late (suc k) n ≡ some (attempt m))
        × Ends attempt late m
        × ((j : ℕ) → n ≤ j → j < m → GoesOn attempt late j)
  retry_transient-Ends zero n over = elim (Ends-cases n) [
    | inl ends ↦ stops zero n ends
    | inr (e, failed, passing, early) ↦
        let same : n + zero ≡ n = omega arith in absurd (ground (arith, ap late same))
  ]
  retry_transient-Ends (suc k) n over = elim (Ends-cases n) [
    | inl ends ↦ stops (suc k) n ends
    | inr on ↦
        goes k n on (retry_transient-Ends k (n + 1) (subst (λ x. late x ≡ true) (omega arith) over))
  ]
