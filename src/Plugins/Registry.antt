-- ===== src/Plugins/Registry.antt =====
-- internal/plugins/registry: record.go, and the store in memory of memory.go. A record is kept by
-- value, for the JSON that it is copied through; the fields that the modelled code does not read
-- are one, `rest`.
pub mod Records
pub mod Trail
use llm_cache.Common.{
  ℕ, ◌+◌, ◌-◌, List, [], ◌∷◌, ◌++◌, Option, none, some, Bool, true, false, ◌&&◌, ◌||◌, Str, str_key,
  Str-discrete, ite, if◌then◌else◌, ltb, leb, ◌==◌, length, drop, take, reverse,
}
use llm_cache.Common.Dict.{Dict, Key, lookup, insert, erase, values}
use llm_cache.Common.Ends.{last_of}
use llm_cache.Common.Float.{Float64}
use llm_cache.Common.Result.{Result, ok, err}
use llm_cache.Common.Sorting.{sort, str_less}
use llm_cache.Common.Word.{inc64}
use llm_cache.Plugins.{PluginType, State, text}

-- `err_not_found`, `err_exists` and `err_conflict`, and the error of a change that was refused.
pub data RegistryError : Type 0 where
  not_found exists conflict : RegistryError
  refused : Str → RegistryError

pub record Confirmations : Type 0 where
  pub embedder_compat : Str
  pub threshold : Option Float64
  pub persistence_compat : Str
  pub vector_compat : Str

pub record Record (X : Type 0) : Type 0 where
  pub id : Str
  pub kind : PluginType
  pub state : State
  pub state_detail : Str
  pub active : Bool
  pub previous_active_id : Str
  pub previous_threshold : Option Float64
  pub confirmations : Confirmations
  pub rev : ℕ  -- int64
  pub created_at : ℕ
  pub updated_at : ℕ
  pub rest : X

-- `plugin_id` is empty for an event of no plugin.
pub record Event : Type 0 where
  pub time : ℕ
  pub actor : Str
  pub action : Str
  pub plugin_id : Str
  pub kind : Str
  pub outcome : Str
  pub detail : Str

-- The slots of `active` go by their names.
pub record Memory (X : Type 0) : Type 0 where
  pub recs : Dict Str (Record X)
  pub selected : Dict Str Str
  pub events : List Event
  pub lines : Dict Str (List Str)

abbrev pub max_audit_events : ℕ
max_audit_events = 1000

abbrev pub max_log_lines : ℕ
max_log_lines = 500

abbrev pub max_log_line_len : ℕ
max_log_line_len = 2000

module _ {X : Type 0} where
  unfoldable pub new_memory : Memory X
  new_memory = record { recs = []; selected = []; events = []; lines = [] }

  unfoldable pub get : Str → Memory X → Result RegistryError (Record X)
  get id m = elim (lookup id m.recs) [ none ↦ err not_found | some r ↦ ok r ]

  -- The order of `sortRecords`.
  unfoldable pub older : Record X → Record X → Bool
  older a b =
      if a.created_at == b.created_at then str_less a.id b.id else ltb a.created_at b.created_at

  unfoldable pub list : Memory X → List (Record X)
  unfolding older
  list m = sort older (values m.recs)

  -- The caller's record gets its revision too.
  unfoldable pub create : Record X → Memory X → Result RegistryError (Record X) × Memory X
  create r m = elim (lookup r.id m.recs) [
    | some _ ↦ (err exists, m)
    | none ↦
        let c : Record X = record r { rev = 1 } in (ok c, record m { recs = insert r.id c m.recs })
  ]

  -- `change` is applied to the stored record, and `now` is the time of the call.
  unfoldable pub update :
      Str
      → (Record X → Result Str (Record X))
      → ℕ
      → Memory X
      → Result RegistryError (Record X) × Memory X
  update id change now m = elim (lookup id m.recs) [
    | none ↦ (err not_found, m)
    | some r ↦ elim (change r) [
      | err e ↦ (err (refused e), m)
      | ok r' ↦
          let c : Record X = record r' { rev = inc64 r'.rev; updated_at = now } in
          (ok c, record m { recs = insert id c m.recs })
    ]
  ]

  unfoldable pub delete : Str → Memory X → Option RegistryError × Memory X
  delete id m = elim (lookup id m.recs) [
    | none ↦ (some not_found, m)
    | some _ ↦ (none, record m { recs = erase id m.recs; lines = erase id m.lines })
  ]

  unfoldable pub set_active : PluginType → Str → Memory X → Memory X
  set_active slot id m = record m { selected = insert (text slot) id m.selected }

  unfoldable pub clear_active : PluginType → Memory X → Memory X
  clear_active slot m = record m { selected = erase (text slot) m.selected }

  unfoldable pub append_audit : Event → Memory X → Memory X
  append_audit e m = record m { events = last_of max_audit_events (m.events ++ e ∷ []) }

  unfoldable pub append_log : Str → Str → Memory X → Memory X
  append_log id line m =
      let old : List Str = elim (lookup id m.lines) [ none ↦ [] | some l ↦ l ] in
      let cut = if ltb max_log_line_len (length line) then take max_log_line_len line else line in
      record m { lines = insert id (last_of max_log_lines (old ++ cut ∷ [])) m.lines }

  unfoldable pub logs : Str → ℕ → Memory X → List Str
  logs id limit m =
      let l : List Str = elim (lookup id m.lines) [ none ↦ [] | some l ↦ l ] in
      if ltb 0 limit then last_of limit l else l

-- Whether `Audit` asks for an event.
unfoldable pub wanted : Str → Event → Bool
wanted id e = ite (Str-discrete id []) true (ite (Str-discrete e.plugin_id id) true false)

-- The loop of `Audit` over the events, the newest first, with the number found so far.
unfoldable pub matching : Str → ℕ → ℕ → List Event → List Event
matching id limit found [] = []
matching id limit found (e ∷ es) =
    let more = matching id limit (found + 1) es in
    let rest = matching id limit found es in
    if wanted id e then e ∷ (if ltb 0 limit && leb limit (found + 1) then [] else more) else rest

-- `limit` is not negative, and 0 stands for none.
unfoldable pub audit : {X : Type 0} → Str → ℕ → Memory X → List Event
audit id limit m = matching id limit 0 (reverse m.events)
