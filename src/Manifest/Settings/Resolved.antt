-- ===== src/Manifest/Settings/Resolved.antt =====
-- internal/plugins/manifest/manifest.go: the configuration that `ResolveConfig` makes.
use llm_cache.Common.{
  ◌≡◌, refl, ◌∙◌, inl, inr, List, [], ◌∷◌, ◌++◌, Option, none, some, true, false, Str, str_key,
  Str-discrete, arith, Bool-cases, Option-cases, List-cases, All,
}
use llm_cache.Common.Dict.{Dict, lookup, insert, keys, has, Distinct, lookup-insert}
use llm_cache.Common.Ordered.{lookup-sort, sort-Distinct}
use llm_cache.Common.Result.{ok, Result-cases}
use llm_cache.Common.Sorting.{sort}
use llm_cache.Manifest.Document.{Value, Text}
use llm_cache.Manifest.Quantities.{Numbers}
use llm_cache.Manifest.Schema.{Property}
use llm_cache.Manifest.Settings.{
  left_out, value_or_null, is_null, coerce_value, coerced_default, resolve_one, resolve_all,
  unknown_keys, name_less, resolve_config,
}

not_appended : {A : Type 0} (xs : List A) (x : A) → ¬ (xs ++ x ∷ [] ≡ [])
not_appended [] x e = cc
not_appended (y ∷ ys) x e = cc

abbrev stored : Str → Option Value → Dict Str Value → Dict Str Value
stored k none out = out
stored k (some v) out = insert k v out

stored-other :
    (k n : Str) (r : Option Value) (out : Dict Str Value)
    → ¬ (k ≡ n)
    → lookup n (stored k r out) ≡ lookup n out
stored-other k n none out other = refl
stored-other k n (some v) out other = ground (arith, lookup-insert k n v out)

stored-same :
    (k : Str) (r : Option Value) (out : Dict Str Value)
    → lookup k out ≡ none
    → lookup k (stored k r out) ≡ r
stored-same k none out free = free
stored-same k (some v) out free = ground (arith, lookup-insert k k v out)

not_here :
    {V : Type 0} (k n : Str) (v : V) (m : Dict Str V)
    → lookup n ((k, v) ∷ m) ≡ none
    → ¬ (k ≡ n) × (lookup n m ≡ none)
unfolding lookup
not_here k n v m h = elim (Str-discrete k n) [
  | yes same ↦ absurd (ground arith)
  | no other ↦ (other, ground arith)
]

module _ (nums : Numbers) where
  -- What a property with a value that was given, if one was, is set to.
  pub data Setting (prop : Property) (given : Option Value) : Option Value → Type 0 where
    chosen :
        {v : Value}
        → left_out given ≡ false
        → coerce_value nums prop (value_or_null given) ≡ ok v
        → Setting prop given (some v)
    defaulted :
        left_out given ≡ true
        → is_null prop.default ≡ false
        → Setting prop given (some (coerced_default nums prop))
    unset :
        left_out given ≡ true
        → is_null prop.default ≡ true
        → prop.required ≡ false
        → Setting prop given none

  resolve_one-Setting :
      (n : Str) (prop : Property) (given : Option Value) (r : Option Value)
      → resolve_one nums n prop given ≡ ok r
      → Setting prop given r
  unfolding resolve_one
  resolve_one-Setting n prop given r e = elim (Bool-cases (left_out given)) [
    | inl out ↦ elim (Bool-cases (is_null prop.default)) [
      | inr set ↦
          let same : some (coerced_default nums prop) ≡ r = ground arith in
          rw (← same) (defaulted out set)
      | inl free ↦ elim (Bool-cases prop.required) [
        | inl required ↦ absurd (ground arith)
        | inr optional ↦ let same : none ≡ r = ground arith in rw (← same) (unset out free optional)
      ]
    ]
    | inr given_one ↦ elim (Result-cases (coerce_value nums prop (value_or_null given))) [
      | inl (v, fine) ↦ let same : some v ≡ r = ground arith in rw (← same) (chosen given_one fine)
      | inr (x, bad) ↦ absurd (ground arith)
    ]
  ]

  module _ (values : Dict Str Value) where
    -- A problem is never taken back.
    resolve_all-clean :
        (props : Dict Str Property) (out out' : Dict Str Value) (problems : List Text)
        → resolve_all nums props values out problems ≡ (out', [])
        → problems ≡ []
    unfolding resolve_all
    resolve_all-clean [] out out' problems e = ground arith
    resolve_all-clean ((n, prop) ∷ props) out out' problems e =
        elim (Result-cases (resolve_one nums n prop (lookup n values))) [
          | inr (x, bad) ↦ absurd (
              not_appended problems x
                (resolve_all-clean props out out' (problems ++ x ∷ []) (ground arith)))
          | inl (r, fine) ↦ elim (Option-cases r) [
            | inl gone ↦ resolve_all-clean props out out' problems (ground arith)
            | inr (v, here) ↦ resolve_all-clean props (insert n v out) out' problems (ground arith)
          ]
        ]

    -- The first turn of a loop that ends without a problem.
    first_turn :
        (k : Str) (p : Property) (props : Dict Str Property) (out out' : Dict Str Value)
        (problems : List Text)
        → resolve_all nums ((k, p) ∷ props) values out problems ≡ (out', [])
        → (r : Option Value) × (resolve_one nums k p (lookup k values) ≡ ok r)
          × (resolve_all nums props values (stored k r out) problems ≡ (out', []))
    unfolding resolve_all
    first_turn k p props out out' problems e =
        elim (Result-cases (resolve_one nums k p (lookup k values))) [
          | inr (x, bad) ↦ absurd (
              not_appended problems x
                (resolve_all-clean props out out' (problems ++ x ∷ []) (ground arith)))
          | inl (r, fine) ↦ elim (Option-cases r) [
            | inl gone ↦ (r, fine, ground arith)
            | inr (v, here) ↦ (r, fine, ground arith)
          ]
        ]

    resolve_all-kept :
        (props : Dict Str Property) (out out' : Dict Str Value) (problems : List Text) (n : Str)
        → resolve_all nums props values out problems ≡ (out', [])
        → lookup n props ≡ none
        → lookup n out' ≡ lookup n out
    unfolding resolve_all
    resolve_all-kept [] out out' problems n e free = ground arith
    resolve_all-kept ((k, p) ∷ props) out out' problems n e free =
        let (r, fine, later) = first_turn k p props out out' problems e in
        let (other, rest) = not_here k n p props free in
        resolve_all-kept props (stored k r out) out' problems n later rest
        ∙ stored-other k n r out other

    resolve_all-set :
        (props : Dict Str Property) (out out' : Dict Str Value) (problems : List Text) (n : Str)
        (prop : Property)
        → Distinct props
        → resolve_all nums props values out problems ≡ (out', [])
        → lookup n props ≡ some prop
        → lookup n out ≡ none
        → Setting prop (lookup n values) (lookup n out')
    resolve_all-set [] out out' problems n prop d e here free = absurd (unfold lookup in cc here)
    resolve_all-set ((k, p) ∷ props) out out' problems n prop (fresh, d) e here free =
        let (r, fine, later) = first_turn k p props out out' problems e in
        elim (Str-discrete k n) [
          | yes same ↦
              let mine : p ≡ prop = unfold lookup in ground arith in
              let empty : lookup k out ≡ none = ground arith in
              let set : lookup k out' ≡ r =
                resolve_all-kept props (stored k r out) out' problems k later fresh
                ∙ stored-same k r out empty in
              rw (← same, set, ← mine) (resolve_one-Setting k p (lookup k values) r fine)
          | no other ↦
              resolve_all-set props (stored k r out) out' problems n prop d later
                (unfold lookup in ground arith) (stored-other k n r out other ∙ free)
        ]

    unknown_keys-empty :
        (props : Dict Str Property) (ks : List Str)
        → unknown_keys props ks ≡ []
        → All (λ k. has k props ≡ true) ks
    unfolding unknown_keys
    unknown_keys-empty props [] e = tt
    unknown_keys-empty props (k ∷ ks) e = elim (Option-cases (lookup k props)) [
      | inl unknown ↦ absurd (ground arith)
      | inr (p, known) ↦ (ground arith, unknown_keys-empty props ks (ground arith))
    ]

    -- A configuration that is made without an error has exactly the keys that it should: every value
    -- that was supplied is that of a declared property, nothing is set that is not declared, and each
    -- declared property is set to the value given for it, once coerced, or else (with no value, a nil
    -- or the empty string) to its default, or is left unset where it has none and is not required. The
    -- names of the properties differ, as the keys of a map do.
    pub resolve_config-Setting :
        (props : Dict Str Property) (out : Dict Str Value)
        → Distinct props
        → resolve_config nums props values ≡ ok out
        → All (λ k. has k props ≡ true) (keys values)
          × ((n : Str) → lookup n props ≡ none → lookup n out ≡ none)
          × ((n : Str) (prop : Property)
              → lookup n props ≡ some prop
              → Setting prop (lookup n values) (lookup n out))
    unfolding resolve_config
    resolve_config-Setting props out d e =
        let unknown : List Text = unknown_keys props (keys values) in
        let result : Dict Str Value × List Text =
          resolve_all nums (sort name_less props) values [] unknown in
        elim (List-cases result.1) [
          | inr (x, xs, bad) ↦ absurd (ground arith)
          | inl fine ↦
              let whole : result ≡ (out, []) = ground arith in
              (
                unknown_keys-empty props (keys values)
                    (resolve_all-clean (sort name_less props) [] out unknown whole),
                λ n free.
                    resolve_all-kept (sort name_less props) [] out unknown n whole
                      (lookup-sort name_less props n d ∙ free)
                    ∙ unfold lookup in refl,
                λ n prop here.
                    resolve_all-set (sort name_less props) [] out unknown n prop
                      (sort-Distinct name_less props d) whole
                      (lookup-sort name_less props n d ∙ here) (unfold lookup in refl),
              )
        ]
