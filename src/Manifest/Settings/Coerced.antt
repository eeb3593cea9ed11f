-- ===== src/Manifest/Settings/Coerced.antt =====
-- internal/plugins/manifest/manifest.go: what `CoerceValue` returns.
use llm_cache.Common.{
  ◌≡◌, ◌≤◌, inl, inr, none, some, Bool, true, false, Str, Str-discrete, codes, ltb, length, arith,
  Bool-cases, Option-cases,
}
use llm_cache.Common.Float.{Float64, float_le, float_eq, is_nan}
use llm_cache.Common.Result.{ok}
use llm_cache.Manifest.Document.{Value, boolean, integer, number, string}
use llm_cache.Manifest.Quantities.{Numbers}
use llm_cache.Manifest.Schema.{Property}
use llm_cache.Manifest.Settings.{
  in_range, one_of_strings, to_float, coerce_string, coerce_enum, coerce_boolean, coerce_integer,
  coerce_number, coerce_duration, as_string, as_boolean, coerce_value, positive,
}

-- The bounds that are declared, if any, and are no NaN, hold in the order of floats.
pub record Within (prop : Property) (f : Float64) : Type 0 where
  pub at_least : (lo : Float64) → prop.min ≡ some lo → is_nan lo ≡ false → float_le lo f ≡ true
  pub at_most : (hi : Float64) → prop.max ≡ some hi → is_nan hi ≡ false → float_le f hi ≡ true

module _ (nums : Numbers) (prop : Property) where
  -- The values of a property, by the type that it declares.
  pub data HasType : Value → Type 0 where
    of_string : {s : Str} → prop.type ≡ codes "string" → length s ≤ 4096 → HasType (string s)
    of_enum :
        {s : Str}
        → prop.type ≡ codes "enum"
        → one_of_strings s prop.enum ≡ true
        → HasType (string s)
    of_boolean : {b : Bool} → prop.type ≡ codes "boolean" → HasType (boolean b)
    of_integer :
        (f : Float64)
        → prop.type ≡ codes "integer"
        → float_eq f (nums.of_int (nums.to_int f)) ≡ true
        → Within prop f
        → HasType (integer (nums.to_int f))
    of_number :
        {f : Float64}
        → prop.type ≡ codes "number"
        → (is_nan f ≡ false → Within prop f)
        → HasType (number f)
    of_duration :
        {s : Str}
        → prop.type ≡ codes "duration"
        → positive (nums.parse_duration s) ≡ true
        → HasType (string s)

  in_range-Within : (f : Float64) → in_range prop f ≡ none → is_nan f ≡ false → Within prop f
  unfolding in_range
  in_range-Within f h real = record {
    at_least = λ lo e plain. ground arith;
    at_most = λ hi e plain. elim (Option-cases prop.min) [
      | inl free ↦ ground arith
      | inr (lo, low) ↦ ground arith
    ];
  }

  whole_real : (f g : Float64) → float_eq f g ≡ true → is_nan f ≡ false
  whole_real f g e = elim (Bool-cases (is_nan f)) [
    | inr real ↦ real
    | inl odd ↦ absurd (ground arith)
  ]

  string-typed : (v w : Value) → prop.type ≡ codes "string" → coerce_string v ≡ ok w → HasType w
  unfolding coerce_string
  string-typed v w t e = elim (Option-cases (as_string v)) [
    | inl other ↦ absurd (ground arith)
    | inr (s, text) ↦ elim (Bool-cases (ltb 4096 (length s))) [
      | inl long ↦ absurd (ground arith)
      | inr short ↦
          let same : string s ≡ w = ground arith in rw (← same) (of_string t (ground arith))
    ]
  ]

  enum-typed : (v w : Value) → prop.type ≡ codes "enum" → coerce_enum prop v ≡ ok w → HasType w
  unfolding coerce_enum
  enum-typed v w t e = elim (Option-cases (as_string v)) [
    | inl other ↦ absurd (ground arith)
    | inr (s, text) ↦ elim (Bool-cases (one_of_strings s prop.enum)) [
      | inl listed ↦ let same : string s ≡ w = ground arith in rw (← same) (of_enum t listed)
      | inr unlisted ↦ absurd (ground arith)
    ]
  ]

  boolean-typed : (v w : Value) → prop.type ≡ codes "boolean" → coerce_boolean v ≡ ok w → HasType w
  unfolding coerce_boolean
  boolean-typed v w t e = elim (Option-cases (as_boolean v)) [
    | inl other ↦ absurd (ground arith)
    | inr (b, found) ↦ let same : boolean b ≡ w = ground arith in rw (← same) (of_boolean t)
  ]

  duration-typed :
      (v w : Value) → prop.type ≡ codes "duration" → coerce_duration nums v ≡ ok w → HasType w
  unfolding coerce_duration
  duration-typed v w t e = elim (Option-cases (as_string v)) [
    | inl other ↦ absurd (ground arith)
    | inr (s, text) ↦ elim (Bool-cases (positive (nums.parse_duration s))) [
      | inl lasts ↦ let same : string s ≡ w = ground arith in rw (← same) (of_duration t lasts)
      | inr instant ↦ absurd (ground arith)
    ]
  ]

  number-typed :
      (v w : Value) → prop.type ≡ codes "number" → coerce_number nums prop v ≡ ok w → HasType w
  unfolding coerce_number
  number-typed v w t e = elim (Option-cases (to_float nums v)) [
    | inl other ↦ absurd (ground arith)
    | inr (f, found) ↦ elim (Option-cases (in_range prop f)) [
      | inl inside ↦
          let same : number f ≡ w = ground arith in
          rw (← same) (of_number t (in_range-Within f inside))
      | inr (why, outside) ↦ absurd (ground arith)
    ]
  ]

  integer-typed :
      (v w : Value) → prop.type ≡ codes "integer" → coerce_integer nums prop v ≡ ok w → HasType w
  unfolding coerce_integer
  integer-typed v w t e = elim (Option-cases (to_float nums v)) [
    | inl other ↦ absurd (ground arith)
    | inr (f, found) ↦ elim (Bool-cases (float_eq f (nums.of_int (nums.to_int f)))) [
      | inr broken ↦ absurd (ground arith)
      | inl whole ↦ elim (Option-cases (in_range prop f)) [
        | inl inside ↦
            let same : integer (nums.to_int f) ≡ w = ground arith in
            rw (← same) (
              of_integer f t whole
                (in_range-Within f inside (whole_real f (nums.of_int (nums.to_int f)) whole)))
        | inr (why, outside) ↦ absurd (ground arith)
      ]
    ]
  ]

  -- What `coerce_value` returns without an error is of the type that the property declares: a string of at
  -- most 4096 bytes, a string of the enum, a duration that parses as a positive one, a boolean, a number
  -- that is a NaN or keeps the bounds, or the int64 of a number that equals the float of that int64, and so
  -- is no NaN, and keeps the bounds. The bounds are those that are declared and are no NaN.
  pub coerce_value-HasType : (v w : Value) → coerce_value nums prop v ≡ ok w → HasType w
  unfolding coerce_value
  coerce_value-HasType v w e = elim (Str-discrete prop.type (codes "string")) [
    | yes t ↦ string-typed v w t (ground arith)
    | no a ↦ elim (Str-discrete prop.type (codes "enum")) [
      | yes t ↦ enum-typed v w t (ground arith)
      | no b ↦ elim (Str-discrete prop.type (codes "boolean")) [
        | yes t ↦ boolean-typed v w t (ground arith)
        | no c ↦ elim (Str-discrete prop.type (codes "integer")) [
          | yes t ↦ integer-typed v w t (ground arith)
          | no d ↦ elim (Str-discrete prop.type (codes "number")) [
            | yes t ↦ number-typed v w t (ground arith)
            | no f ↦ elim (Str-discrete prop.type (codes "duration")) [
              | yes t ↦ duration-typed v w t (ground arith)
              | no g ↦ absurd (ground arith)
            ]
          ]
        ]
      ]
    ]
  ]
