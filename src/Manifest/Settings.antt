-- ===== src/Manifest/Settings.antt =====
-- internal/plugins/manifest/manifest.go: the values that an administrator sets, against the
-- properties and the secrets that a manifest declares.
pub mod Coerced
pub mod Resolved
pub mod Declared
use llm_cache.Common.{
  ℕ, List, [], ◌∷◌, ◌++◌, Option, none, some, Bool, true, false, not, ◌&&◌, ◌||◌, Str, str_key,
  Str-discrete, codes, ite, if◌then◌else◌, ltb, length, map,
}
use llm_cache.Common.Dict.{Dict, lookup, insert, keys, contains}
use llm_cache.Common.Float.{Float64, float_lt, float_eq}
use llm_cache.Common.Int.{ℤ, pos, negsuc}
use llm_cache.Common.Result.{Result, ok, err}
use llm_cache.Common.Sorting.{sort, str_less}
use llm_cache.Orchestrator.Guard.{eq_str}
use llm_cache.Manifest.Document.{
  Value, Text, plain, null, boolean, integer, number, string, sequence, mapping, opaque,
}
use llm_cache.Manifest.Quantities.{Numbers}
use llm_cache.Manifest.Schema.{Property, SecretRef}

-- Where the text of an error shows values, they are its arguments.
abbrev pub wrong : {A : Type 0} → Str → Result Text A
wrong why = err (plain why)

unfoldable pub in_range : Property → Float64 → Option Text
in_range prop f =
    let above : Option Text = elim prop.max [
      | none ↦ none
      | some hi ↦
          if float_lt hi f
          then some (record { format = codes "must be at most %v"; arguments = number hi ∷ [] })
          else none
    ] in
    elim prop.min [
      | none ↦ above
      | some lo ↦
          if float_lt f lo
          then some (record { format = codes "must be at least %v"; arguments = number lo ∷ [] })
          else above
    ]

unfoldable pub one_of_strings : Str → List Str → Bool
one_of_strings s [] = false
one_of_strings s (e ∷ es) = if eq_str e s then true else one_of_strings s es

abbrev pub positive : Option ℤ → Bool
positive (some (pos n)) = ltb 0 n
positive d = false

-- A value that is not given, nil, or the empty string.
abbrev pub left_out : Option Value → Bool
left_out (some null) = true
left_out (some (string [])) = true
left_out none = true
left_out v = false

abbrev pub value_or_null : Option Value → Value
value_or_null none = null
value_or_null (some v) = v

abbrev pub is_null : Value → Bool
is_null null = true
is_null v = false

abbrev pub name_less : Str × Property → Str × Property → Bool
name_less a b = str_less a.0 b.0

-- The type assertions `v.(string)` and `v.(bool)`.
unfoldable pub as_string : Value → Option Str
as_string (string s) = some s
as_string v = none

unfoldable pub as_boolean : Value → Option Bool
as_boolean (boolean b) = some b
as_boolean v = none

-- The cases of `CoerceValue`, one for each type of a property.
unfoldable pub coerce_string : Value → Result Text Value
unfolding as_string
coerce_string v = elim (as_string v) [
  | none ↦ wrong (codes "must be a string")
  | some s ↦
      if ltb 4096 (length s) then wrong (codes "must be at most 4096 characters") else ok (string s)
]

unfoldable pub coerce_enum : Property → Value → Result Text Value
unfolding as_string one_of_strings
coerce_enum prop v = elim (as_string v) [
  | none ↦ wrong (codes "must be a string")
  | some s ↦
      if one_of_strings s prop.enum
      then ok (string s)
      else err (record { format = codes "must be one of %v"; arguments = map string prop.enum })
]

unfoldable pub coerce_boolean : Value → Result Text Value
unfolding as_boolean
coerce_boolean v = elim (as_boolean v) [
  | none ↦ wrong (codes "must be true or false")
  | some b ↦ ok (boolean b)
]

-- The loop over the keys of the values.
unfoldable pub unknown_keys : Dict Str Property → List Str → List Text
unknown_keys props [] = []
unknown_keys props (k ∷ ks) = elim (lookup k props) [
  | some _ ↦ unknown_keys props ks
  | none ↦
      record { format = codes "unknown configuration key %q"; arguments = string k ∷ [] }
      ∷ unknown_keys props ks
]

module _ (nums : Numbers) where
  unfoldable pub to_float : Value → Option Float64
  to_float (integer n) = some (nums.of_int n)
  to_float (number x) = some x
  to_float v = none

  unfoldable pub coerce_integer : Property → Value → Result Text Value
  unfolding to_float in_range
  coerce_integer prop v = elim (to_float v) [
    | none ↦ wrong (codes "must be an integer")
    | some f ↦
        if float_eq f (nums.of_int (nums.to_int f))
        then elim (in_range prop f) [ some e ↦ err e | none ↦ ok (integer (nums.to_int f)) ]
        else wrong (codes "must be an integer")
  ]

  unfoldable pub coerce_number : Property → Value → Result Text Value
  unfolding to_float in_range
  coerce_number prop v = elim (to_float v) [
    | none ↦ wrong (codes "must be a number")
    | some f ↦ elim (in_range prop f) [ some e ↦ err e | none ↦ ok (number f) ]
  ]

  unfoldable pub coerce_duration : Value → Result Text Value
  unfolding as_string
  coerce_duration v = elim (as_string v) [
    | none ↦ wrong (codes "must be a duration string such as 30s")
    | some s ↦
        if positive (nums.parse_duration s)
        then ok (string s)
        else wrong (codes "must be a positive duration such as 30s")
  ]

  unfoldable pub coerce_value : Property → Value → Result Text Value
  unfolding coerce_string coerce_enum coerce_boolean coerce_integer coerce_number coerce_duration
  coerce_value prop v =
      if eq_str prop.type (codes "string")
      then coerce_string v
      else if eq_str prop.type (codes "enum")
      then coerce_enum prop v
      else if eq_str prop.type (codes "boolean")
      then coerce_boolean v
      else if eq_str prop.type (codes "integer")
      then coerce_integer prop v
      else if eq_str prop.type (codes "number")
      then coerce_number prop v
      else if eq_str prop.type (codes "duration")
      then coerce_duration v
      else err (record { format = codes "unsupported type %q"; arguments = string prop.type ∷ [] })

  -- `cv, _ := CoerceValue(prop, prop.Default)`
  unfoldable pub coerced_default : Property → Value
  unfolding coerce_value
  coerced_default prop = elim (coerce_value prop prop.default) [ ok v ↦ v | err _ ↦ null ]

  -- One turn of the loop over the names: the value to store, if any, or the problem.
  unfoldable pub resolve_one : Str → Property → Option Value → Result Text (Option Value)
  unfolding coerced_default
  resolve_one n prop given =
      if left_out given
      then (if not (is_null prop.default)
          then ok (some (coerced_default prop))
          else if prop.required
          then err
              (record { format = codes "configuration %q is required"; arguments = string n ∷ [] })
          else ok none)
      else elim (coerce_value prop (value_or_null given)) [
        | ok v ↦ ok (some v)
        | err e ↦ err (record {
          format = codes "configuration %q %v";
          arguments = string n ∷ string e.format ∷ e.arguments;
        })
      ]

  unfoldable pub resolve_all :
      Dict Str Property → Dict Str Value → Dict Str Value → List Text → Dict Str Value × List Text
  unfolding resolve_one
  resolve_all [] values out problems = (out, problems)
  resolve_all ((n, prop) ∷ props) values out problems =
      elim (resolve_one n prop (lookup n values)) [
        | err e ↦ resolve_all props values out (problems ++ e ∷ [])
        | ok none ↦ resolve_all props values out problems
        | ok (some v) ↦ resolve_all props values (insert n v out) problems
      ]

  -- The properties in the order of their names; an error lists every problem.
  unfoldable pub resolve_config :
      Dict Str Property → Dict Str Value → Result (List Text) (Dict Str Value)
  unfolding resolve_all unknown_keys
  resolve_config props values =
      let (out, problems) =
        resolve_all (sort name_less props) values [] (unknown_keys props (keys values)) in
      elim problems [ [] ↦ ok out | p ∷ ps ↦ err (p ∷ ps) ]

-- `CheckSecrets`: the loop over the names, and that over the secrets.
unfoldable pub undeclared : List SecretRef → List Str → List Str
undeclared secrets [] = []
undeclared secrets (n ∷ ns) =
    if contains n (map (λ s. s.name) secrets)
    then undeclared secrets ns
    else (codes "secret \"" ++ n ++ codes "\" is not declared in the manifest")
      ∷ undeclared secrets ns

unfoldable pub missing : List SecretRef → List Str → List Str
missing [] names = []
missing (s ∷ ss) names =
    if s.required && not (contains s.name names)
    then (codes "secret \"" ++ s.name ++ codes "\" is required") ∷ missing ss names
    else missing ss names

-- The problems, where there are any.
unfoldable pub nil_if_empty : List Str → Option (List Str)
nil_if_empty [] = none
nil_if_empty (p ∷ ps) = some (p ∷ ps)

unfoldable pub check_secrets : List SecretRef → List Str → Option (List Str)
unfolding undeclared missing nil_if_empty
check_secrets secrets names =
    nil_if_empty (sort str_less (undeclared secrets names ++ missing secrets names))
