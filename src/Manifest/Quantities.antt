-- ===== src/Manifest/Quantities.antt =====
-- internal/plugins/manifest/manifest.go: the sizes and the shares of a processor that a manifest asks
-- for. What the standard library computes with floats and durations is a parameter.
pub mod Sizes
use llm_cache.Common.{
  ℕ, ◌+◌, ◌-◌, ◌*◌, ◌%◌, List, [], ◌∷◌, Option, none, some, Bool, true, false, not, ◌&&◌, ◌||◌, Str,
  codes, Str-discrete, ite, if◌then◌else◌, ltb, leb, ◌==◌, reverse,
}
use llm_cache.Common.Float.{Float64, float_lt, float_le, is_nan, float_zero}
use llm_cache.Common.Int.{ℤ, pos, negsuc}
use llm_cache.Common.Result.{Result, ok, err}
use llm_cache.Common.Word.{half64, word64}
use llm_cache.Orchestrator.Guard.{cut_prefix, trim_space}
use llm_cache.Manifest.Document.{Value, Text, plain, string}
use llm_cache.Manifest.Patterns.{is_digit}

pub record Numbers : Type 0 where
  -- strconv.ParseFloat of 64 bits, without the error.
  pub parse_float : Str → Option Float64
  -- `x / y`, `float64(n)` of an int64, and `int64(x)`
  pub divide : Float64 → Float64 → Float64
  pub of_int : ℕ → Float64
  pub to_int : Float64 → ℕ
  -- time.ParseDuration in nanoseconds.
  pub parse_duration : Str → Option ℤ

-- 1000, 0.01 and 4
abbrev pub float_thousand : Float64
float_thousand = 0x408F_4000_0000_0000

abbrev pub float_hundredth : Float64
float_hundredth = 0x3F84_7AE1_47AE_147B

abbrev pub float_four : Float64
float_four = 0x4010_0000_0000_0000

-- strings.CutSuffix
unfoldable pub cut_suffix : Str → Str → Option Str
cut_suffix suffix s = elim (cut_prefix (reverse suffix) (reverse s)) [
  | none ↦ none
  | some r ↦ some (reverse r)
]

unfoldable pub parse_cpu : Numbers → Str → Result Text Float64
unfolding cut_suffix
parse_cpu nums text =
    let s = trim_space text in
    ite (Str-discrete s []) (err (plain (codes "cpu must not be empty"))) (
      let milli = cut_suffix (codes "m") s in
      let num : Str = elim milli [ none ↦ s | some n ↦ n ] in
      let invalid : Result Text Float64 = err (record {
        format = codes "invalid cpu %q (use e.g. 500m or 0.5)";
        arguments = string s ∷ [];
      }) in
      elim (nums.parse_float num) [
        | none ↦ invalid
        | some f ↦
            if float_le f float_zero || is_nan f
            then invalid
            else (let share : Float64 = elim milli [
              | none ↦ f
              | some _ ↦ nums.divide f float_thousand
            ] in
                if float_lt share float_hundredth
                then err
                    (record { format = codes "cpu %q is below 10m"; arguments = string s ∷ [] })
                else ok share)
      ])

-- The digits of a number, from the value of those before.
unfoldable pub value_of : ℕ → Str → Option ℕ
value_of n [] = some n
value_of n (c ∷ s) = if is_digit c then value_of (n * 10 + (c - 48)) s else none

-- A magnitude that an int64 can have.
abbrev pub in_int64 : Bool → ℕ → Option ℤ
in_int64 negative n =
    if negative
    then (if leb n half64 then some (if n == 0 then pos 0 else negsuc (n - 1)) else none)
    else if ltb n half64
    then some (pos n)
    else none

unfoldable pub unsigned : Bool → Str → Option ℤ
unfolding value_of
unsigned negative [] = none
unsigned negative (c ∷ s) = elim (value_of 0 (c ∷ s)) [ none ↦ none | some n ↦ in_int64 negative n ]

-- strconv.ParseInt in base 10, of 64 bits, without the error.
unfoldable pub parse_int : Str → Option ℤ
unfolding unsigned
parse_int [] = none
parse_int (c ∷ s) =
    if c == 45
    then unsigned true s
    else if c == 43
    then unsigned false s
    else unsigned false (c ∷ s)

abbrev pub units : List (Str × ℕ)
units =
    (codes "Ki", 1024)
    ∷ (codes "Mi", 1048576)
    ∷ (codes "Gi", 1073741824)
    ∷ (codes "K", 1000)
    ∷ (codes "M", 1000000)
    ∷ (codes "G", 1000000000)
    ∷ []

-- The loop over the units: what is in front of the unit, and the factor.
unfoldable pub find_unit : Str → List (Str × ℕ) → Str × ℕ
unfolding cut_suffix
find_unit s [] = (s, 1)
find_unit s ((suffix, mult) ∷ us) =
    let rest = find_unit s us in elim (cut_suffix suffix s) [ none ↦ rest | some num ↦ (num, mult) ]

-- 2 ^ 40
abbrev pub max_count : ℕ
max_count = 1099511627776

-- The product is that of two int64.
unfoldable pub parse_bytes : Str → Result Text ℕ
unfolding find_unit parse_int
parse_bytes text =
    let s = trim_space text in
    let (num, mult) = find_unit s units in
    let invalid : Result Text ℕ =
      err
        (record { format = codes "invalid size %q (use e.g. 256Mi)"; arguments = string s ∷ [] }) in
    elim (parse_int num) [
      | none ↦ invalid
      | some n ↦ elim n [
        | negsuc k ↦ invalid
        | pos k ↦ if k == 0 || ltb max_count k then invalid else ok ((k * mult) % word64)
      ]
    ]
