-- ===== src/Examples/Policies.antt =====
-- The policies of internal/policy on short histories.
use llm_cache.Policy.Manager.{manager}
use llm_cache.Policy.Manager.Promise
use llm_cache.Policy.Interface.{Contract}
use llm_cache.Policy.Lru.Promise.{lru-Contract}
use llm_cache.Policy.Lru.{lru}
use llm_cache.Common.{
  ℕ, ◌<◌, ◌≤◌, ◌≡◌, ◌⊎◌, refl, List, [], ◌∷◌, some, Str, str_key, Str-discrete, codes, arith,
  length,
}
use llm_cache.Common.Dict.{Dict, lookup, erase, insert as dict_insert}
use llm_cache.Common.Word.{half64, rank, inc64}
use llm_cache.Policy.GoList
use llm_cache.Policy.Fifo
use llm_cache.Policy.Fifo.Arrival
use llm_cache.Policy.History.{last_use, inserted_at, uses}
use llm_cache.Policy.Interface.{Call, hit, insert, replay}
use llm_cache.Policy.Lfu
use llm_cache.Policy.Lfu.{LfuEntry, victim_over}
use llm_cache.Policy.Lfu.Choice
use llm_cache.Policy.Lfu.Tally
use llm_cache.Policy.Lfu.Tally.{SameMap}
use llm_cache.Policy.Lru
use llm_cache.Policy.Lru.Recency

abbrev a : Str
a = codes "a"

abbrev b : Str
b = codes "b"

-- `a` and `b` are inserted, and `a` is hit.
abbrev calls : List Call
calls = hit a ∷ insert b ∷ insert a ∷ []

lru-victim : Lru.victim (Recency.after calls) ≡ some b
unfolding Lru.victim Lru.on_hit Lru.on_insert Lru.lru Lru.new_lru_policy replay lookup dict_insert
    erase GoList.new_list GoList.push_front GoList.move_to_front GoList.back Str-discrete
lru-victim = refl

fifo-victim : Fifo.victim (Arrival.after calls) ≡ some a
unfolding Fifo.victim Fifo.on_hit Fifo.on_insert Fifo.fifo Fifo.new_fifo_policy replay lookup
    dict_insert GoList.new_list GoList.push_back GoList.front Str-discrete
fifo-victim = refl

lfu-victim : victim_over (Tally.after calls).entries ≡ some b
unfolding victim_over Lfu.scan Lfu.precedes Lfu.on_hit Lfu.on_insert Lfu.lfu Lfu.new_lfu_policy
    replay lookup dict_insert Str-discrete rank inc64
lfu-victim = refl

victim-last_use_example :
    (n : ℕ) × (last_use b calls ≡ some n) × ((q : Str) (t : ℕ) → last_use q calls ≡ some t → n ≤ t)
victim-last_use_example = Recency.victim-last_use calls b lru-victim

victim-inserted_at_example :
    (n : ℕ) × (inserted_at a calls ≡ some n)
    × ((q : Str) (t : ℕ) → inserted_at q calls ≡ some t → n ≤ t)
victim-inserted_at_example = Arrival.victim-inserted_at calls a fifo-victim

few : length calls < half64
few = omega arith

same : SameMap (Tally.after calls).entries (Tally.after calls).entries
same = ((Tally.after-Tallies calls few).distinct, λ q. refl)

victim-uses_example :
    (n t : ℕ) × (uses b calls ≡ some n)
    × (inserted_at b calls ≡ some t)
    × ((q : Str) (m u : ℕ)
        → uses q calls ≡ some m
        → inserted_at q calls ≡ some u
        → (n < m) ⊎ ((n ≡ m) × (t ≤ u)))
victim-uses_example = Choice.victim-uses calls (Tally.after calls).entries b few same lfu-victim

-- The same entries, in the other order.
abbrev swapped : Dict Str LfuEntry
swapped = (b, record { count = 1; order = 1 }) ∷ (a, record { count = 2; order = 0 }) ∷ []

swapped-SameMap : SameMap swapped (Tally.after calls).entries
unfolding Lfu.on_hit Lfu.on_insert Lfu.lfu Lfu.new_lfu_policy replay lookup dict_insert Str-discrete
    inc64
swapped-SameMap = ((refl, (refl, tt)), λ q. ground arith)

-- With another LRU as the policy from outside of the package.
manager-Contract_example :
    Contract (manager lru) (Promise.IsValid lru-Contract) (Promise.tracked lru-Contract)
manager-Contract_example = Promise.manager-Contract lru-Contract
