-- ===== src/Orchestrator/Limiter/Admitted.antt =====
-- internal/orchestrator/guard.go: how many requests of a key the rate limiter admits.
use llm_cache.Common.{
  ℕ, ◌+◌, ◌≤◌, ◌<◌, ◌≡◌, refl, [], ◌∷◌, Option, none, some, false, Str, str_key, if◌then◌else◌, ltb,
  leb, length, arith, Bool-cases, Option-cases, inl, inr,
}
use llm_cache.Common.Dict.{Dict, lookup, insert, lookup-insert, insert-Distinct, Distinct}
use llm_cache.Orchestrator.Limiter.{
  Bucket, RateLimiter, new_rate_limiter, expired, sweep, max_buckets, admit, allow,
}

-- A bucket that has expired counts as none.
abbrev pub live : ℕ → ℕ → Option Bucket → Option Bucket
live now window none = none
live now window (some b) = if expired now window b then none else some b

pub lookup-sweep :
    (now window : ℕ) (k : Str) (m : Dict Str Bucket)
    → Distinct m
    → lookup k (sweep now window m) ≡ live now window (lookup k m)
unfolding lookup sweep
lookup-sweep now window k [] d = refl
lookup-sweep now window k ((j, b) ∷ m) d = ground (arith, lookup-sweep now window k m d.1)

sweep-absent :
    (now window : ℕ) (k : Str) (m : Dict Str Bucket)
    → lookup k m ≡ none
    → lookup k (sweep now window m) ≡ none
unfolding lookup sweep
sweep-absent now window k [] h = refl
sweep-absent now window k ((j, b) ∷ m) h = ground (arith, sweep-absent now window k m)

sweep-Distinct : (now window : ℕ) (m : Dict Str Bucket) → Distinct m → Distinct (sweep now window m)
unfolding sweep
sweep-Distinct now window [] d = d
sweep-Distinct now window ((j, b) ∷ m) d =
    ground (arith, sweep-absent now window j m d.0, sweep-Distinct now window m d.1)

-- Each key has one bucket, which counts at least one request, and none past the limit.
pub record IsSound (l : RateLimiter) : Type 0 where
  pub distinct : Distinct l.buckets
  pub capped : (k : Str) (b : Bucket) → lookup k l.buckets ≡ some b → b.count ≤ l.limit
  pub used : (k : Str) (b : Bucket) → lookup k l.buckets ≡ some b → 0 < b.count

pub new_rate_limiter-IsSound : (limit window : ℕ) → IsSound (new_rate_limiter limit window)
unfolding new_rate_limiter lookup
new_rate_limiter-IsSound limit window = record {
  distinct = tt;
  capped = λ k b e. cc;
  used = λ k b e. cc;
}

-- The limiter that `allow` asks, which may have been swept.
unfoldable pub swept : ℕ → RateLimiter → RateLimiter
swept now l =
    if ltb max_buckets (length l.buckets)
    then record l { buckets = sweep now l.window l.buckets }
    else l

pub swept-IsSound : (now : ℕ) (l : RateLimiter) → IsSound l → IsSound (swept now l)
unfolding swept
swept-IsSound now l s = elim (Bool-cases (ltb max_buckets (length l.buckets))) [
  | inr small ↦ rw (small, swept) s
  | inl large ↦
      rw (large, swept)
        (record {
          distinct = sweep-Distinct now l.window l.buckets s.distinct;
          capped = λ k b e.
              ground (arith, lookup-sweep now l.window k l.buckets s.distinct, s.capped k b);
          used =
              λ k b e. ground (arith, lookup-sweep now l.window k l.buckets s.distinct, s.used k b);
        })
]

admit-IsSound :
    (key : Str) (now : ℕ) (l : RateLimiter) → 0 < l.limit → IsSound l → IsSound (admit key now l).1
unfolding admit
admit-IsSound key now l pos s = elim (Option-cases (lookup key l.buckets)) [
  | inl gone ↦ rw (gone, admit) (fresh)
  | inr (b, here) ↦ elim (Bool-cases (expired now l.window b)) [
    | inl old ↦ rw (here, old, admit) (fresh)
    | inr young ↦ elim (Bool-cases (leb l.limit b.count)) [
      | inl full ↦ rw (here, young, full, admit) s
      | inr room ↦ rw (here, young, room, admit) (counted b here room)
    ]
  ]
]
  where
    first : Bucket
    first = record { start = now; count = 1 }

    fresh : IsSound (record l { buckets = insert key first l.buckets })
    fresh = record {
      distinct = insert-Distinct key first l.buckets s.distinct;
      capped = λ k b e. ground (arith, lookup-insert key k first l.buckets, s.capped k b);
      used = λ k b e. ground (arith, lookup-insert key k first l.buckets, s.used k b);
    }

    counted :
        (b : Bucket)
        → lookup key l.buckets ≡ some b
        → leb l.limit b.count ≡ false
        → IsSound (record l { buckets = insert key (record b { count = b.count + 1 }) l.buckets })
    counted b here room =
        let b' : Bucket = record b { count = b.count + 1 } in
        record {
          distinct = insert-Distinct key b' l.buckets s.distinct;
          capped = λ k c e. ground (arith, lookup-insert key k b' l.buckets, s.capped k c);
          used = λ k c e. ground (arith, lookup-insert key k b' l.buckets, s.used k c);
        }

-- The limiter after a call is sound when the one before is.
pub allow-IsSound :
    (key : Str) (now : ℕ) (l : RateLimiter) → 0 < l.limit → IsSound l → IsSound (allow key now l).1
unfolding allow swept
allow-IsSound key now l pos s =
    admit-IsSound key now (swept now l) (swept-limit) (swept-IsSound now l s)
  where
    swept-limit : 0 < (swept now l).limit
    swept-limit = ground arith
