-- ===== src/Policy/Manager.antt =====
-- internal/policy/policy.go: the registered policies, and the manager in front of the active one.
-- The interface value that the manager holds is a case of `Active`: one of the policies of the package,
-- or any other, as the plugin platform puts there, which is a state of the type X with the functions
-- `other`. A call of a method picks the case's own.
pub mod Selection
pub mod Promise
use llm_cache.Common.{
  ◌≡◌, List, [], ◌∷◌, Option, none, some, Bool, Str, str_key, Str-discrete, codes, ite,
  if◌then◌else◌,
}
use llm_cache.Common.Result.{Result, ok, err}
use llm_cache.Plugin
use llm_cache.Plugin.{Registry, BuildError}
use llm_cache.Policy.Interface.{EvictionPolicy, Call}
use llm_cache.Policy.Fifo
use llm_cache.Policy.Fifo.{FifoPolicy, fifo}
use llm_cache.Policy.Lfu
use llm_cache.Policy.Lfu.{LfuPolicy, lfu}
use llm_cache.Policy.Lru
use llm_cache.Policy.Lru.{LruPolicy, lru}

abbrev pub policy_lru : Str
policy_lru = codes "lru"

abbrev pub policy_lfu : Str
policy_lfu = codes "lfu"

abbrev pub policy_fifo : Str
policy_fifo = codes "fifo"

pub data Active (X : Type 0) : Type 0 where
  is_lru : LruPolicy → Active X
  is_lfu : LfuPolicy → Active X
  is_fifo : FifoPolicy → Active X
  is_other : X → Active X

pub record Manager (X : Type 0) : Type 0 where
  pub policy : Active X

-- The part of the configuration that the package reads.
pub record PolicyConfig : Type 0 where
  pub policy : Str

unfoldable pub default_name : Str → Str
default_name name = ite (Str-discrete name []) policy_lru name

module _ {X : Type 0} where
  -- What the `init` functions of the package register.
  unfoldable pub policy_registry : Registry PolicyConfig (Active X)
  policy_registry =
      Plugin.register policy_fifo (λ _. ok (is_fifo Fifo.new_fifo_policy))
        (Plugin.register policy_lfu (λ _. ok (is_lfu Lfu.new_lfu_policy))
          (Plugin.register policy_lru (λ _. ok (is_lru Lru.new_lru_policy))
            (Plugin.new_registry (codes "eviction policy"))))

  unfoldable pub new_manager_with : Active X → Manager X
  new_manager_with p = record { policy = p }

  -- `Replace`: the manager with the next policy, and the policy before.
  unfoldable pub replace : Active X → Manager X → Manager X × Active X
  replace next m = (record m { policy = next }, m.policy)

  unfoldable pub new : PolicyConfig → Result BuildError (Manager X)
  unfolding new_manager_with default_name
  new cfg = elim (Plugin.build policy_registry (default_name cfg.policy) cfg) [
    | ok p ↦ ok (new_manager_with p)
    | err e ↦ err e
  ]

  unfoldable pub new_manager : Str → Result BuildError (Manager X)
  new_manager name = new (record { policy = name })

pub data SetError : Type 0 where
  invalid_policy : Str → List Str → SetError
  switching_not_supported : Str → SetError

module _ {X : Type 0} (other : EvictionPolicy X) where
  unfoldable pub name_of : Active X → Str
  name_of (is_lru p) = lru.name p
  name_of (is_lfu p) = lfu.name p
  name_of (is_fifo p) = fifo.name p
  name_of (is_other x) = other.name x

  unfoldable pub current : Manager X → Str
  unfolding name_of
  current m = name_of m.policy

  -- `Set` answers a request to change the policy, and changes nothing.
  unfoldable pub set_policy : Str → Manager X → Result SetError (Unit {0})
  set_policy name m =
      if Plugin.registered (policy_registry {X = X}) name
      then ite (Str-discrete name (current m)) (ok tt) (err (switching_not_supported name))
      else err (invalid_policy name (Plugin.names (policy_registry {X = X})))

  unfoldable pub act_hit : Str → Active X → Active X
  act_hit id (is_lru p) = is_lru (Lru.on_hit id p)
  act_hit id (is_lfu p) = is_lfu (Lfu.on_hit id p)
  act_hit id (is_fifo p) = is_fifo (Fifo.on_hit id p)
  act_hit id (is_other x) = is_other (other.on_hit id x)

  unfoldable pub act_insert : Str → Active X → Active X
  act_insert id (is_lru p) = is_lru (Lru.on_insert id p)
  act_insert id (is_lfu p) = is_lfu (Lfu.on_insert id p)
  act_insert id (is_fifo p) = is_fifo (Fifo.on_insert id p)
  act_insert id (is_other x) = is_other (other.on_insert id x)

  unfoldable pub act_delete : Str → Active X → Active X
  act_delete id (is_lru p) = is_lru (Lru.on_delete id p)
  act_delete id (is_lfu p) = is_lfu (Lfu.on_delete id p)
  act_delete id (is_fifo p) = is_fifo (Fifo.on_delete id p)
  act_delete id (is_other x) = is_other (other.on_delete id x)

  unfoldable pub act_victim : Active X → Option Str
  act_victim (is_lru p) = Lru.victim p
  act_victim (is_lfu p) = Lfu.victim p
  act_victim (is_fifo p) = Fifo.victim p
  act_victim (is_other x) = other.victim x

  unfoldable pub act_flush : Active X → Active X
  act_flush (is_lru p) = is_lru (Lru.flush p)
  act_flush (is_lfu p) = is_lfu (Lfu.flush p)
  act_flush (is_fifo p) = is_fifo (Fifo.flush p)
  act_flush (is_other x) = is_other (other.flush x)

  -- The manager's own methods hand every call to the policy that it holds.
  unfoldable pub manager_on_hit : Str → Manager X → Manager X
  manager_on_hit id m = record m { policy = act_hit id m.policy }

  unfoldable pub manager_on_insert : Str → Manager X → Manager X
  manager_on_insert id m = record m { policy = act_insert id m.policy }

  unfoldable pub manager_on_delete : Str → Manager X → Manager X
  manager_on_delete id m = record m { policy = act_delete id m.policy }

  unfoldable pub manager_victim : Manager X → Option Str
  manager_victim m = act_victim m.policy

  unfoldable pub manager_flush : Manager X → Manager X
  manager_flush m = record m { policy = act_flush m.policy }

  -- The manager as the eviction policy that the service holds.
  unfoldable pub manager : EvictionPolicy (Manager X)
  unfolding current manager_on_hit manager_on_insert manager_on_delete manager_victim manager_flush
  manager = record {
    name = current;
    on_hit = manager_on_hit;
    on_insert = manager_on_insert;
    on_delete = manager_on_delete;
    victim = manager_victim;
    flush = manager_flush;
  }
