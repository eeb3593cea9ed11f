-- ===== src/Plugins/Types.antt =====
-- internal/plugins/types.go: names and slots of the types.
use llm_cache.Common.{◌≡◌, refl, ◌↔◌, List, [], ◌∷◌, some, Str, Str-discrete, arith}
use llm_cache.Plugins.{
  PluginType, llm, embedder, vector_store, persistence, queue, policy, embedding_model,
  vector_index, similarity_metric, text, all_types, find_type, parse_type,
}

find_type-text :
    (s : Str) (ts : List PluginType) (t : PluginType) → find_type s ts ≡ some t → text t ≡ s
unfolding find_type
find_type-text s [] t e = cc
find_type-text s (u ∷ ts) t e = ground (arith, find_type-text s ts t)

pub parse_type_self : (t : PluginType) → parse_type (text t) ≡ some t
unfolding parse_type find_type all_types text Str-discrete
parse_type_self llm = refl
parse_type_self embedder = refl
parse_type_self vector_store = refl
parse_type_self persistence = refl
parse_type_self queue = refl
parse_type_self policy = refl
parse_type_self embedding_model = refl
parse_type_self vector_index = refl
parse_type_self similarity_metric = refl

-- A string parses as a type exactly when it is the type's name, for all nine types.
pub parse_type-text : (s : Str) (t : PluginType) → (parse_type s ≡ some t) ↔ (text t ≡ s)
unfolding parse_type
parse_type-text s t = (find_type-text s all_types t, λ e. rw (← e) (parse_type_self t))
