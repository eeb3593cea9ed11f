-- ===== src/Policy/Lfu/Promise.antt =====
-- internal/policy/lfu.go keeps the contract of internal/policy/policy.go.
use llm_cache.Common.{
  arith, ◌≡◌, refl, ap, List, true, inl, inr, Option-cases, Str, str_key, Str-discrete, ite,
}
use llm_cache.Common.Dict.{
  Distinct, lookup, insert, contains, contains-keys, keys, keys-Once, lookup-insert, lookup-erase,
  insert-Distinct, erase-Distinct,
}
use llm_cache.Common.Word.{inc64}
use llm_cache.Policy.Interface.{Contract}
use llm_cache.Policy.Lfu
use llm_cache.Policy.Lfu.{LfuEntry, LfuPolicy, lfu}
use llm_cache.Policy.Lfu.Scan.{victim_over-Chosen, victim_over-none}

abbrev pub IsValid : LfuPolicy → Type 0
IsValid p = Distinct p.entries

abbrev pub tracked : LfuPolicy → List Str
tracked p = keys p.entries

module _ (id : Str) (p : LfuPolicy) (v : IsValid p) where
  on_hit-IsValid : IsValid (Lfu.on_hit id p)
  unfolding Lfu.on_hit
  on_hit-IsValid = elim (Option-cases (lookup id p.entries)) [
    | inl gone ↦ rw (gone, Lfu.on_hit) v
    | inr (x, here) ↦ rw (here, Lfu.on_hit) (insert-Distinct id _ p.entries v)
  ]

  on_insert-IsValid : IsValid (Lfu.on_insert id p)
  unfolding Lfu.on_insert
  on_insert-IsValid = elim (Option-cases (lookup id p.entries)) [
    | inl gone ↦ rw (gone, Lfu.on_insert) (insert-Distinct id _ p.entries v)
    | inr (x, here) ↦ rw (here, Lfu.on_insert) v
  ]

  contains-on_hit : (q : Str) → contains q (tracked (Lfu.on_hit id p)) ≡ contains q (tracked p)
  unfolding Lfu.on_hit
  contains-on_hit q = elim (Option-cases (lookup id p.entries)) [
    | inl gone ↦ rw (gone, Lfu.on_hit)
    | inr (x, here) ↦
        let x' : LfuEntry = record x { count = inc64 x.count } in
        rw (here, Lfu.on_hit)
          (ground (
            arith,
            contains-keys q p.entries,
            contains-keys q (insert id x' p.entries),
            lookup-insert id q x' p.entries,
          ))
  ]

  contains-on_insert :
      (q : Str)
      → contains q (tracked (Lfu.on_insert id p))
        ≡ ite (Str-discrete id q) true (contains q (tracked p))
  unfolding Lfu.on_insert
  contains-on_insert q = elim (Option-cases (lookup id p.entries)) [
    | inl gone ↦
        let x : LfuEntry = record { count = 1; order = p.next } in
        rw (gone, Lfu.on_insert)
          (ground (
            arith,
            contains-keys q p.entries,
            contains-keys q (insert id x p.entries),
            lookup-insert id q x p.entries,
          ))
    | inr (x, here) ↦ rw (here, Lfu.on_insert) (ground (arith, contains-keys q p.entries))
  ]

-- LFU tracks each id once; a hit changes no membership, an insert adds its id, a delete takes its
-- id away, a flush forgets all; the victim is tracked, and is missing only when nothing is.
pub lfu-Contract : Contract lfu IsValid tracked
unfolding lfu Lfu.victim Lfu.on_hit Lfu.on_insert Lfu.on_delete Lfu.flush
lfu-Contract = record {
  once = λ s v. keys-Once s.entries v;
  hit_valid = on_hit-IsValid;
  insert_valid = on_insert-IsValid;
  delete_valid = λ id s v. erase-Distinct id s.entries v;
  flush_valid = λ s v. tt;
  tracked_hit = λ id q s v. contains-on_hit id s v q;
  tracked_insert = λ id q s v. contains-on_insert id s v q;
  tracked_delete = λ id q s v. ground (
    arith,
    contains-keys q s.entries,
    contains-keys q (Lfu.on_delete id s).entries,
    lookup-erase id q s.entries,
  );
  tracked_flush = λ s v. refl;
  victim_tracked = λ s q v e.
      let (x, found, _) = victim_over-Chosen s.entries q v e in
      ground (arith, contains-keys q s.entries);
  victim_none = λ s v e. ap keys (victim_over-none s.entries e);
}
