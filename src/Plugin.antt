-- ===== src/Plugin.antt =====
-- internal/plugin/registry.go: the generic registry of every seam.
use llm_cache.Common.{List, [], none, some, Bool, Str, str_key}
use llm_cache.Common.Dict.{Dict, lookup, insert, keys, has}
use llm_cache.Common.Result.{Result, ok, err}
use llm_cache.Common.Sorting.{sort, str_less}

-- The errors of `Build`: its own, and what the factory returned.
pub data BuildError : Type 0 where
  unknown : Str → Str → List Str → BuildError
  factory : Str → BuildError

module _ (C T : Type 0) where
  abbrev pub Factory : Type 0
  Factory = C → Result Str T

  pub record Registry : Type 0 where
    pub kind : Str
    pub entries : Dict Str Factory

module _ {C T : Type 0} where
  unfoldable pub new_registry : Str → Registry C T
  new_registry kind = record { kind = kind; entries = [] }

  unfoldable pub register : Str → Factory C T → Registry C T → Registry C T
  register name f r = record r { entries = insert name f r.entries }

  unfoldable pub registered : Registry C T → Str → Bool
  registered r name = has name r.entries

  unfoldable pub names : Registry C T → List Str
  names r = sort str_less (keys r.entries)

  unfoldable pub build : Registry C T → Str → C → Result BuildError T
  build r name cfg = elim (lookup name r.entries) [
    | none ↦ err (unknown r.kind name (names r))
    | some f ↦ elim (f cfg) [ ok t ↦ ok t | err e ↦ err (factory e) ]
  ]
