-- ===== src/Policy/Lfu/Scan.antt =====
-- internal/policy/lfu.go: the loop of `Victim` finds an entry that no entry precedes, whatever the
-- order of iteration.
use llm_cache.Common.{
  ◌≡◌, refl, ◌⊎◌, inl, inr, [], ◌∷◌, Option, none, some, true, false, Str, str_key, arith,
  Bool-cases, Option-cases,
}
use llm_cache.Common.Dict.{Dict, lookup, Distinct}
use llm_cache.Policy.Lfu.{LfuEntry, precedes, scan, victim_over}

-- What stands behind the id that the scan returns.
pub record Chosen (best : Option (Str × LfuEntry)) (m : Dict Str LfuEntry) (v : Str) (x : LfuEntry)
    : Type 0 where
  pub from : (best ≡ some (v, x)) ⊎ (lookup v m ≡ some x)
  pub least : (q : Str) (y : LfuEntry) → lookup q m ≡ some y → precedes y (some (v, x)) ≡ false
  pub beats : (b : Str × LfuEntry) → best ≡ some b → precedes b.1 (some (v, x)) ≡ false

precedes-none : (x : LfuEntry) → precedes x none ≡ true
unfolding precedes
precedes-none x = refl

precedes_irrefl : (x : LfuEntry) (v : Str) → precedes x (some (v, x)) ≡ false
unfolding precedes
precedes_irrefl x v = ground arith

-- An entry that comes before another leaves it behind the least one.
precedes_loser :
    (a b x : LfuEntry) (w v : Str)
    → precedes a (some (w, b)) ≡ true
    → precedes a (some (v, x)) ≡ false
    → precedes b (some (v, x)) ≡ false
unfolding precedes
precedes_loser a b x w v h k = ground arith

precedes_chain :
    (a b x : LfuEntry) (w v : Str)
    → precedes a (some (w, b)) ≡ false
    → precedes b (some (v, x)) ≡ false
    → precedes a (some (v, x)) ≡ false
unfolding precedes
precedes_chain a b x w v h k = ground arith

-- A choice over the tail is one over the list, for the entry that won the first round ...
won-Chosen :
    (id : Str) (entry : LfuEntry) (best : Option (Str × LfuEntry)) (m : Dict Str LfuEntry) (v : Str)
    (x : LfuEntry)
    → Distinct {V = LfuEntry} ((id, entry) ∷ m)
    → precedes entry best ≡ true
    → Chosen (some (id, entry)) m v x
    → Chosen best ((id, entry) ∷ m) v x
unfolding lookup
won-Chosen id entry best m v x d won c = record {
  from = ground arith;
  least = λ q y h. ground (arith, c.least q y, c.beats (id, entry));
  beats = λ b h. precedes_loser entry b.1 x b.0 v (rw h at won) (c.beats (id, entry) refl);
}

-- ... and for one that lost it.
lost-Chosen :
    (id : Str) (entry : LfuEntry) (best : Str × LfuEntry) (m : Dict Str LfuEntry) (v : Str)
    (x : LfuEntry)
    → Distinct {V = LfuEntry} ((id, entry) ∷ m)
    → precedes entry (some best) ≡ false
    → Chosen (some best) m v x
    → Chosen (some best) ((id, entry) ∷ m) v x
unfolding lookup
lost-Chosen id entry best m v x d lost c = record {
  from = ground arith;
  least = λ q y h.
      ground (arith, c.least q y, precedes_chain entry best.1 x best.0 v lost (c.beats best refl));
  beats = c.beats;
}

pub scan-Chosen :
    (best : Option (Str × LfuEntry)) (m : Dict Str LfuEntry) (v : Str) (x : LfuEntry)
    → Distinct m
    → scan best m ≡ some (v, x)
    → Chosen best m v x
unfolding scan lookup
scan-Chosen best [] v x d e = record {
  from = inl e;
  least = λ q y h. cc;
  beats = λ b h. ground (arith, precedes_irrefl x v);
}
scan-Chosen none ((id, entry) ∷ m) v x d e =
    won-Chosen id entry none m v x d (precedes-none entry)
      (scan-Chosen (some (id, entry)) m v x d.1 (rw (precedes-none entry) at e))
scan-Chosen (some best) ((id, entry) ∷ m) v x d e = elim (Bool-cases (precedes entry (some best))) [
  | inl won ↦
      won-Chosen id entry (some best) m v x d won
        (scan-Chosen (some (id, entry)) m v x d.1 (rw won at e))
  | inr lost ↦
      lost-Chosen id entry best m v x d lost (scan-Chosen (some best) m v x d.1 (rw lost at e))
]

-- With something to choose from, or to begin with, the scan returns something.
scan-some :
    (b : Str × LfuEntry) (m : Dict Str LfuEntry) → (c : Str × LfuEntry) × (scan (some b) m ≡ some c)
unfolding scan
scan-some b [] = (b, refl)
scan-some b ((id, entry) ∷ m) = elim (Bool-cases (precedes entry (some b))) [
  | inl won ↦ rw won (scan-some (id, entry) m)
  | inr lost ↦ rw lost (scan-some b m)
]

pub victim_over-none : (m : Dict Str LfuEntry) → victim_over m ≡ none → m ≡ []
unfolding victim_over scan
victim_over-none [] e = refl
victim_over-none ((id, entry) ∷ m) e =
    let (c, found) = scan-some (id, entry) m in absurd (ground (arith, found, precedes-none entry))

-- The victim is an entry that no entry precedes.
pub victim_over-Chosen :
    (m : Dict Str LfuEntry) (v : Str)
    → Distinct m
    → victim_over m ≡ some v
    → (x : LfuEntry) × (lookup v m ≡ some x)
      × ((q : Str) (y : LfuEntry) → lookup q m ≡ some y → precedes y (some (v, x)) ≡ false)
unfolding victim_over
victim_over-Chosen m v d e = elim (Option-cases (scan none m)) [
  | inl gone ↦ absurd (cc)
  | inr ((w, x), found) ↦
      let c = scan-Chosen none m w x d found in
      let same : w ≡ v = ground arith in (x, ground (arith, c.from), rw (← same) c.least)
]
