-- ===== src/Manifest/Parsing.antt =====
-- internal/plugins/manifest/manifest.go: `Parse` over a YAML decoder, which is a parameter.
use llm_cache.Common.{
  ℕ, ◌≡◌, ◌≢◌, refl, inl, inr, List, [], ◌∷◌, ◌++◌, none, some, Bool, true, false, Str, codes, map,
  if◌then◌else◌, ltb, length, arith, Bool-cases,
}
use llm_cache.Common.Int.{ℤ, pos}
use llm_cache.Common.Result.{Result, ok, err, Result-cases}
use llm_cache.Orchestrator.Guard.{before}
use llm_cache.Manifest.Document.{Value, Issue, issue, integer, scan_dangerous}
use llm_cache.Manifest.Quantities.{Numbers}
use llm_cache.Manifest.Schema.{Manifest, apply_defaults}
use llm_cache.Manifest.Schema.Defaults.{apply_defaults_settled}
use llm_cache.Manifest.Validation.{validate}
use llm_cache.Manifest.Validation.Accepted.{Accepted, validate-Accepted}

-- How decoding into a manifest fails: the messages of a type error, or another error.
pub data DecodeError : Type 0 where
  type_error : List Str → DecodeError
  other : Str → DecodeError

-- What decoding a second document ends with: a value, the end of the file, or another error.
pub data Second : Type 0 where
  another at_end broken : Second

-- The package yaml: a document as a generic value, as a manifest with no unknown field (an empty
-- document is the empty manifest), and the second document of the same decoder.
pub record Yaml : Type 0 where
  pub unmarshal : Str → Result Str Value
  pub decode : Str → Result DecodeError Manifest
  pub second : Str → Second

-- `err == nil` of the second call of Decode.
abbrev pub is_another : Second → Bool
is_another another = true
is_another s = false

-- 64 << 10
abbrev pub max_bytes : ℕ
max_bytes = 65536

-- The part of a text before the first line feed.
unfoldable pub first_line : Str → Str
first_line s = before 10 s

abbrev pub one_issue : Str → Result (List Issue) Manifest
one_issue message = err (issue [] message ∷ [])

unfoldable pub decode_issues : DecodeError → List Issue
unfolding first_line
decode_issues (type_error msgs) =
    map (λ msg. issue [] (codes "invalid manifest structure: " ++ msg)) msgs
decode_issues (other e) = issue [] (codes "invalid manifest structure: " ++ first_line e) ∷ []

-- The issues, where there are any, or what comes next.
unfoldable pub unless_issues :
    List Issue → Result (List Issue) Manifest → Result (List Issue) Manifest
unless_issues [] next = next
unless_issues (i ∷ is) next = err (i ∷ is)

unfoldable pub parse_document : Yaml → Numbers → Str → Result (List Issue) Manifest
unfolding decode_issues unless_issues
parse_document yaml nums bytes = elim (yaml.decode bytes) [
  | err e ↦ err (decode_issues e)
  | ok m ↦
      if is_another (yaml.second bytes)
      then one_issue (codes "manifest must contain exactly one YAML document")
      else unless_issues (validate nums (apply_defaults m)) (ok (apply_defaults m))
]

unfoldable pub parse : Yaml → Numbers → Str → Result (List Issue) Manifest
unfolding parse_document unless_issues
parse yaml nums [] = one_issue (codes "manifest is empty")
parse yaml nums (c ∷ bytes) =
    if ltb max_bytes (length (c ∷ bytes))
    then err (
        record {
          path = [];
          message = record {
            format = codes "manifest exceeds %d bytes";
            arguments = integer max_bytes ∷ [];
          };
        }
        ∷ [])
    else elim (yaml.unmarshal (c ∷ bytes)) [
      | err e ↦ one_issue (codes "not valid YAML: " ++ first_line e)
      | ok generic ↦
          unless_issues (scan_dangerous generic []) (parse_document yaml nums (c ∷ bytes))
    ]

-- 5 seconds, in nanoseconds, where the timeout does not parse.
unfoldable pub health_timeout : Numbers → Manifest → ℤ
health_timeout nums m = elim (nums.parse_duration m.spec.health.timeout) [
  | none ↦ pos 5_000_000_000
  | some d ↦ d
]

unless_issues-ok :
    (issues : List Issue) (next : Result (List Issue) Manifest) (m : Manifest)
    → unless_issues issues next ≡ ok m
    → (issues ≡ []) × (next ≡ ok m)
unfolding unless_issues
unless_issues-ok [] next m e = (refl, e)
unless_issues-ok (i ∷ is) next m e = cc

-- What a manifest that was parsed has gone through.
pub record Parsed (yaml : Yaml) (nums : Numbers) (bytes : Str) (m : Manifest) : Type 0 where
  pub document : Value
  pub decoded : yaml.unmarshal bytes ≡ ok document
  pub scanned : scan_dangerous document [] ≡ []
  pub single : yaml.second bytes ≢ another
  pub valid : validate nums m ≡ []
  pub accepted : Accepted m
  pub settled : apply_defaults m ≡ m

not_another : (s : Second) → is_another s ≡ false → s ≢ another
not_another another e same = absurd (ground arith)
not_another at_end e same = absurd (ground arith)
not_another broken e same = absurd (ground arith)

document-parsed :
    (yaml : Yaml) (nums : Numbers) (bytes : Str) (m : Manifest)
    → parse_document yaml nums bytes ≡ ok m
    → (yaml.second bytes ≢ another) × (validate nums m ≡ []) × Accepted m × (apply_defaults m ≡ m)
unfolding parse_document
document-parsed yaml nums bytes m e = elim (Result-cases (yaml.decode bytes)) [
  | inr (x, bad) ↦ absurd (ground arith)
  | inl (raw, good) ↦ elim (Bool-cases (is_another (yaml.second bytes))) [
    | inl more ↦ absurd (ground arith)
    | inr alone ↦
        let (valid, same) =
          unless_issues-ok (validate nums (apply_defaults raw)) (ok (apply_defaults raw)) m
            (ground arith) in
        let result : apply_defaults raw ≡ m = ground arith in
        rw (← result) (
          not_another (yaml.second bytes) alone,
          valid,
          validate-Accepted nums (apply_defaults raw) valid,
          apply_defaults_settled raw,
        )
  ]
]

-- A manifest is returned only for a file that is valid YAML and passes the scan for dangerous keys, and
-- after whose first document no other one decodes: the end of the file and a second document that is
-- malformed are both let through. `validate` has no issue with the manifest, so that it is accepted in the
-- sense of Validation/Accepted, and its defaults are filled in, so that filling them in once more changes
-- nothing.
pub parse-Parsed :
    (yaml : Yaml) (nums : Numbers) (bytes : Str) (m : Manifest)
    → parse yaml nums bytes ≡ ok m
    → Parsed yaml nums bytes m
unfolding parse
parse-Parsed yaml nums [] m e = cc
parse-Parsed yaml nums (c ∷ bytes) m e = elim (Bool-cases (ltb max_bytes (length (c ∷ bytes)))) [
  | inl long ↦ absurd (ground arith)
  | inr short ↦ elim (Result-cases (yaml.unmarshal (c ∷ bytes))) [
    | inr (x, bad) ↦ absurd (ground arith)
    | inl (document, good) ↦
        let (clean, rest) =
          unless_issues-ok (scan_dangerous document []) (parse_document yaml nums (c ∷ bytes)) m
            (ground arith) in
        let (alone, valid, accepted, settled) = document-parsed yaml nums (c ∷ bytes) m rest in
        record {
          document = document;
          decoded = good;
          scanned = clean;
          single = alone;
          valid = valid;
          accepted = accepted;
          settled = settled;
        }
  ]
]
