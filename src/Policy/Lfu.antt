-- ===== src/Policy/Lfu.antt =====
-- internal/policy/lfu.go
pub mod Scan
pub mod Tally
pub mod Choice
pub mod Promise
use llm_cache.Common.{
  ℕ, List, [], ◌∷◌, Option, none, some, Bool, true, ◌&&◌, ◌||◌, Str, str_key, codes, if◌then◌else◌,
}
use llm_cache.Common.Dict.{Dict, lookup, insert, erase}
use llm_cache.Common.Word.{inc64, slt64, eq64}
use llm_cache.Policy.Interface.{EvictionPolicy}

pub record LfuEntry : Type 0 where
  pub count : ℕ  -- int
  pub order : ℕ  -- int64

pub record LfuPolicy : Type 0 where
  pub entries : Dict Str LfuEntry
  pub next : ℕ  -- int64

unfoldable pub new_lfu_policy : LfuPolicy
new_lfu_policy = record { entries = []; next = 0 }

unfoldable pub on_hit : Str → LfuPolicy → LfuPolicy
on_hit id p = elim (lookup id p.entries) [
  | none ↦ p
  | some entry ↦ record p {
    entries = insert id (record entry { count = inc64 entry.count }) p.entries;
  }
]

unfoldable pub on_insert : Str → LfuPolicy → LfuPolicy
on_insert id p = elim (lookup id p.entries) [
  | some _ ↦ p
  | none ↦ record p {
    entries = insert id (record { count = 1; order = p.next }) p.entries;
    next = inc64 p.next;
  }
]

unfoldable pub on_delete : Str → LfuPolicy → LfuPolicy
on_delete id p = record p { entries = erase id p.entries }

-- The test of the loop in `Victim`, where none stands for `!found`.
unfoldable pub precedes : LfuEntry → Option (Str × LfuEntry) → Bool
precedes entry none = true
precedes entry (some (_, victim)) =
    slt64 entry.count victim.count
    || eq64 entry.count victim.count && slt64 entry.order victim.order

-- The loop of `Victim` over the entries in the order in which `range` hands them out.
unfoldable pub scan : Option (Str × LfuEntry) → Dict Str LfuEntry → Option (Str × LfuEntry)
scan best [] = best
scan best ((id, entry) ∷ m) = scan (if precedes entry best then some (id, entry) else best) m

-- `Victim` when `range` goes through the map in the order of the list.
unfoldable pub victim_over : Dict Str LfuEntry → Option Str
victim_over range = elim (scan none range) [ none ↦ none | some (id, _) ↦ some id ]

unfoldable pub victim : LfuPolicy → Option Str
victim p = victim_over p.entries

unfoldable pub flush : LfuPolicy → LfuPolicy
flush p = record p { entries = []; next = 0 }

unfoldable pub lfu : EvictionPolicy LfuPolicy
unfolding on_hit on_insert on_delete victim flush
lfu = record {
  name = λ _. codes "lfu";
  on_hit = on_hit;
  on_insert = on_insert;
  on_delete = on_delete;
  victim = victim;
  flush = flush;
}
