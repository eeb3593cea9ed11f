-- ===== src/Orchestrator/Limiter/Budget.antt =====
-- internal/orchestrator/guard.go: how many requests of a key the rate limiter admits in a span of
-- time as long as its window.
use llm_cache.Common.{
  ℕ, ◌+◌, ◌*◌, ◌-◌, ◌≤◌, ◌<◌, ◌≡◌, List, [], ◌∷◌, Option, none, some, Bool, true, false, Str,
  str_key, Str-discrete, if◌then◌else◌, ltb, leb, arith, Bool-cases, Option-cases, inl, inr, ite,
  All,
}
use llm_cache.Common.Dict.{lookup, lookup-insert}
use llm_cache.Orchestrator.Limiter.{Bucket, RateLimiter, new_rate_limiter, expired, admit, allow}
use llm_cache.Orchestrator.Limiter.Admitted.{
  live, swept, lookup-sweep, swept-IsSound, IsSound, allow-IsSound, new_rate_limiter-IsSound,
}

-- The answer for a key, from the bucket of the key that still counts.
abbrev pub grants : ℕ → Option Bucket → Bool
grants limit none = true
grants limit (some b) = ltb b.count limit

admit-grants :
    (key : Str) (now : ℕ) (l : RateLimiter)
    → (admit key now l).0 ≡ grants l.limit (live now l.window (lookup key l.buckets))
unfolding admit
admit-grants key now l = ground arith

lookup-swept :
    (key : Str) (now : ℕ) (l : RateLimiter)
    → IsSound l
    → live now l.window (lookup key (swept now l).buckets)
      ≡ live now l.window (lookup key l.buckets)
unfolding swept
lookup-swept key now l s = ground (arith, lookup-sweep now l.window key l.buckets s.distinct)

swept-fixed :
    (now : ℕ) (l : RateLimiter)
    → ((swept now l).limit ≡ l.limit) × ((swept now l).window ≡ l.window)
unfolding swept
swept-fixed now l = ground arith

-- With a sound limiter, a request is admitted exactly when its key has no bucket that still counts,
-- or has one below the limit, whether or not the buckets were swept.
pub allow-grants :
    (key : Str) (now : ℕ) (l : RateLimiter)
    → IsSound l
    → (allow key now l).0 ≡ grants l.limit (live now l.window (lookup key l.buckets))
unfolding allow swept
allow-grants key now l s =
    ground (arith, admit-grants key now (swept now l), lookup-swept key now l s, swept-fixed now l)

-- What a key may still be granted before `from + window`.
abbrev left : ℕ → ℕ → Option Bucket → ℕ
left from limit none = limit
left from limit (some b) = limit - b.count + (if ltb b.start from then limit else 0)

unfoldable budget : ℕ → Str → RateLimiter → ℕ
budget from key l = left from l.limit (lookup key l.buckets)

abbrev one_if : Bool → ℕ
one_if true = 1
one_if false = 0

-- What one request takes from the budget of a key.
abbrev taken : Str → Str → Bool → ℕ
taken key id granted = ite (Str-discrete id key) (one_if granted) 0

admit-budget :
    (from now : ℕ) (key id : Str) (l : RateLimiter)
    → 0 < l.limit
    → IsSound l
    → from ≤ now
    → now < from + l.window
    → budget from key (admit id now l).1 + taken key id (admit id now l).0 ≤ budget from key l
unfolding admit budget
admit-budget from now key id l pos s lo hi = elim (Option-cases (lookup id l.buckets)) [
  | inl gone ↦
      let b : Bucket = record { start = now; count = 1 } in
      rw (gone, admit, budget) (ground (arith, lookup-insert id key b l.buckets))
  | inr (b, here) ↦ elim (Bool-cases (expired now l.window b)) [
    | inl old ↦
        let b' : Bucket = record { start = now; count = 1 } in
        rw (here, old, admit, budget)
          (ground (arith, lookup-insert id key b' l.buckets, s.capped id b))
    | inr young ↦ elim (Bool-cases (leb l.limit b.count)) [
      | inl full ↦ rw (here, young, full, admit, budget) (ground arith)
      | inr room ↦
          let b' : Bucket = record b { count = b.count + 1 } in
          rw (here, young, room, admit, budget)
            (ground (arith, lookup-insert id key b' l.buckets, s.capped id b))
    ]
  ]
]

swept-budget :
    (from now : ℕ) (key : Str) (l : RateLimiter)
    → IsSound l
    → from ≤ now
    → now < from + l.window
    → budget from key (swept now l) ≤ budget from key l
unfolding swept budget
swept-budget from now key l s lo hi =
    ground (arith, lookup-sweep now l.window key l.buckets s.distinct)

allow-budget :
    (from now : ℕ) (key id : Str) (l : RateLimiter)
    → 0 < l.limit
    → IsSound l
    → from ≤ now
    → now < from + l.window
    → budget from key (allow id now l).1 + taken key id (allow id now l).0 ≤ budget from key l
unfolding allow swept
allow-budget from now key id l pos s lo hi = ground (
  arith,
  admit-budget from now key id (swept now l),
  swept-budget from now key l s lo hi,
  swept-IsSound now l s,
  swept-fixed now l,
)

admit-fixed :
    (id : Str) (now : ℕ) (l : RateLimiter)
    → ((admit id now l).1.limit ≡ l.limit) × ((admit id now l).1.window ≡ l.window)
unfolding admit
admit-fixed id now l = ground arith

allow-fixed :
    (id : Str) (now : ℕ) (l : RateLimiter)
    → ((allow id now l).1.limit ≡ l.limit) × ((allow id now l).1.window ≡ l.window)
unfolding allow swept
allow-fixed id now l = ground (arith, admit-fixed id now (swept now l), swept-fixed now l)

-- How many of the requests, each a key and its time, are admitted for a key.
unfoldable pub admitted : Str → List (Str × ℕ) → RateLimiter → ℕ
admitted key [] l = 0
admitted key ((id, now) ∷ reqs) l =
    let (granted, l') = allow id now l in taken key id granted + admitted key reqs l'

-- The times of the requests lie in the span of a window that starts at `from`.
abbrev pub Within : ℕ → ℕ → List (Str × ℕ) → Type 0
Within from window reqs = All (λ r. (from ≤ r.1) × (r.1 < from + window)) reqs

admitted-budget :
    (from : ℕ) (key : Str) (reqs : List (Str × ℕ)) (l : RateLimiter)
    → 0 < l.limit
    → IsSound l
    → Within from l.window reqs
    → admitted key reqs l ≤ budget from key l
unfolding admitted
admitted-budget from key [] l pos s w = omega arith
admitted-budget from key ((id, now) ∷ reqs) l pos s w =
    let (same_limit, same_window) = allow-fixed id now l in
    omega (
      arith,
      allow-budget from now key id l pos s w.0.0 w.0.1,
      admitted-budget from key reqs (allow id now l).1 (rw same_limit pos)
          (allow-IsSound id now l pos s) (rw same_window w.1),
    )

-- Of requests whose times lie in a span as long as the window, wherever it starts, a sound limiter
-- with a positive limit admits less than twice the limit for each key, whatever the other keys ask.
pub admitted-bound :
    (from : ℕ) (key : Str) (reqs : List (Str × ℕ)) (l : RateLimiter)
    → 0 < l.limit
    → IsSound l
    → Within from l.window reqs
    → admitted key reqs l < 2 * l.limit
unfolding budget
admitted-bound from key reqs l pos s w = elim (Option-cases (lookup key l.buckets)) [
  | inl gone ↦ ground (arith, admitted-budget from key reqs l pos s w)
  | inr (b, here) ↦ ground (arith, admitted-budget from key reqs l pos s w, s.used key b here)
]

-- Of requests whose times lie in a span as long as the window, a new limiter with a positive limit
-- admits at most the limit for each key.
pub admitted-bound_new :
    (from limit window : ℕ) (key : Str) (reqs : List (Str × ℕ))
    → 0 < limit
    → Within from window reqs
    → admitted key reqs (new_rate_limiter limit window) ≤ limit
unfolding budget new_rate_limiter lookup
admitted-bound_new from limit window key reqs pos w =
    admitted-budget from key reqs (new_rate_limiter limit window) pos
      (new_rate_limiter-IsSound limit window) w
