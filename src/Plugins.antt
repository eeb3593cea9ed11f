-- ===== src/Plugins.antt =====
-- internal/plugins/types.go: the types of plugins and the states of an installation. The named
-- strings are constructors, and `text` is the string of a type.
pub mod Types
pub mod Lifecycle
pub mod Registry
pub mod Slots
pub mod Switch
pub mod Replay
pub mod Migration
pub mod Activation
pub mod SwitchSlot
pub mod Dynamic
pub mod Pipeline
use llm_cache.Common.{
  ℕ, ◌≡◌, List, [], ◌∷◌, Option, none, some, Bool, true, false, ◌&&◌, Str, Str-discrete, codes, ite,
  if◌then◌else◌, ◌==◌,
}

pub data PluginType : Type 0 where
  llm embedder vector_store persistence queue policy : PluginType
  embedding_model vector_index similarity_metric : PluginType

unfoldable pub text : PluginType → Str
text llm = codes "llm"
text embedder = codes "embedder"
text vector_store = codes "vector-store"
text persistence = codes "persistence"
text queue = codes "queue"
text policy = codes "policy"
text embedding_model = codes "embedding-model"
text vector_index = codes "vector-index"
text similarity_metric = codes "similarity-metric"

unfoldable pub all_types : List PluginType
all_types =
    llm ∷ embedder ∷ vector_store ∷ persistence ∷ queue ∷ policy ∷ embedding_model ∷ vector_index
    ∷ similarity_metric ∷ []

-- The loop of `ParseType`.
unfoldable pub find_type : Str → List PluginType → Option PluginType
find_type s [] = none
find_type s (t ∷ ts) = ite (Str-discrete (text t) s) (some t) (find_type s ts)

unfoldable pub parse_type : Str → Option PluginType
parse_type s = find_type s all_types

unfoldable pub is_python : PluginType → Bool
is_python embedding_model = true
is_python vector_index = true
is_python similarity_metric = true
is_python t = false

-- The seam that a type is activated into.
unfoldable pub slot : PluginType → PluginType
slot embedding_model = embedder
slot vector_index = vector_store
slot similarity_metric = vector_store
slot t = t

pub data State : Type 0 where
  draft validating testing building scanning starting migrating checking activating : State
  verified active inactive failed rolling_back rolled_back : State

unfoldable pub in_progress : State → Bool
in_progress validating = true
in_progress testing = true
in_progress building = true
in_progress scanning = true
in_progress starting = true
in_progress migrating = true
in_progress checking = true
in_progress activating = true
in_progress rolling_back = true
in_progress s = false

unfoldable pub transitions : State → List State
transitions draft = validating ∷ failed ∷ []
transitions validating = building ∷ scanning ∷ starting ∷ testing ∷ failed ∷ []
transitions building = scanning ∷ failed ∷ []
transitions scanning = starting ∷ failed ∷ []
transitions starting = testing ∷ failed ∷ []
transitions testing = checking ∷ failed ∷ []
transitions checking = verified ∷ activating ∷ migrating ∷ failed ∷ []
transitions verified = migrating ∷ checking ∷ activating ∷ validating ∷ inactive ∷ failed ∷ []
transitions migrating = checking ∷ activating ∷ verified ∷ failed ∷ []
transitions activating = active ∷ verified ∷ failed ∷ []
transitions active = inactive ∷ rolling_back ∷ active ∷ []
transitions inactive = validating ∷ checking ∷ migrating ∷ activating ∷ failed ∷ verified ∷ []
transitions failed =
    validating ∷ checking ∷ migrating ∷ activating ∷ inactive ∷ verified ∷ failed ∷ []
transitions rolling_back = rolled_back ∷ active ∷ failed ∷ []
transitions rolled_back = validating ∷ checking ∷ migrating ∷ activating ∷ inactive ∷ verified ∷ []

-- A number for each state, to compare states by.
unfoldable pub index : State → ℕ
index draft = 0
index validating = 1
index testing = 2
index building = 3
index scanning = 4
index starting = 5
index migrating = 6
index checking = 7
index activating = 8
index verified = 9
index active = 10
index inactive = 11
index failed = 12
index rolling_back = 13
index rolled_back = 14

abbrev pub same : State → State → Bool
same s t = index s == index t

-- The loop of `ValidTransition`.
unfoldable pub one_of : State → List State → Bool
one_of to [] = false
one_of to (t ∷ ts) = if same t to then true else one_of to ts

unfoldable pub valid_transition : State → State → Bool
valid_transition from to =
    if same from to && in_progress from then true else one_of to (transitions from)
