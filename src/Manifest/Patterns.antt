-- ===== src/Manifest/Patterns.antt =====
-- internal/plugins/manifest/manifest.go: its regular expressions, each as a test, on ASCII strings.
use llm_cache.Common.{
  ℕ, zero, suc, List, [], ◌∷◌, Option, none, some, Bool, true, false, not, ◌&&◌, ◌||◌, Str, codes,
  if◌then◌else◌, leb, ◌==◌, length, head?, get_last?,
}
use llm_cache.Orchestrator.Guard.{cut_prefix, before}
use llm_cache.Orchestrator.Startup.{to_lower, contains_str}

abbrev pub is_lower : ℕ → Bool
is_lower c = leb 97 c && leb c 122

abbrev pub is_upper : ℕ → Bool
is_upper c = leb 65 c && leb c 90

abbrev pub is_digit : ℕ → Bool
is_digit c = leb 48 c && leb c 57

abbrev pub is_letter : ℕ → Bool
is_letter c = is_lower c || is_upper c

abbrev pub is_alnum : ℕ → Bool
is_alnum c = is_letter c || is_digit c

unfoldable pub all_in : (ℕ → Bool) → Str → Bool
all_in p [] = true
all_in p (c ∷ s) = p c && all_in p s

unfoldable pub first_in : (ℕ → Bool) → Option ℕ → Bool
first_in p none = false
first_in p (some c) = p c

-- ^[a-z0-9]([a-z0-9-]{0,61}[a-z0-9])?$
unfoldable pub name_re : Str → Bool
unfolding all_in first_in
name_re s =
    let alnum : ℕ → Bool = λ c. is_lower c || is_digit c in
    leb (length s) 63
    && first_in alnum (head? s)
    && first_in alnum (get_last? s)
    && all_in (λ c. alnum c || c == 45) s

-- ^A B{0,63}$, for two classes of bytes.
unfoldable pub identifier : (ℕ → Bool) → (ℕ → Bool) → Str → Bool
unfolding all_in
identifier first rest [] = false
identifier first rest (c ∷ s) = first c && leb (length s) 63 && all_in rest s

abbrev pub env_re : Str → Bool
env_re s = identifier is_upper (λ c. is_upper c || is_digit c || c == 95) s

abbrev pub prop_re : Str → Bool
prop_re s = identifier is_lower (λ c. is_alnum c || c == 95) s

abbrev pub py_mod_re : Str → Bool
py_mod_re s = identifier (λ c. is_letter c || c == 95) (λ c. is_alnum c || c == 95) s

abbrev pub backend_re : Str → Bool
backend_re s =
    identifier (λ c. is_lower c || is_digit c)
      (λ c. is_lower c || is_digit c || c == 46 || c == 95 || c == 45) s

-- strings.Split at a byte.
abbrev pub cons_head : ℕ → List Str → List Str
cons_head d [] = (d ∷ []) ∷ []
cons_head d (s ∷ ss) = (d ∷ s) ∷ ss

unfoldable pub split : ℕ → Str → List Str
split c [] = [] ∷ []
split c (d ∷ s) = if d == c then [] ∷ split c s else cons_head d (split c s)

-- What follows the first occurrence of a byte, if it occurs.
unfoldable pub after : ℕ → Str → Option Str
after c [] = none
after c (d ∷ s) = if d == c then some s else after c s

-- 0|[1-9]\d*
unfoldable pub numeric : Str → Bool
unfolding all_in
numeric [] = false
numeric (c ∷ []) = is_digit c
numeric (c ∷ d ∷ s) = leb 49 c && leb c 57 && all_in is_digit (d ∷ s)

unfoldable pub three_numeric : List Str → Bool
unfolding numeric
three_numeric (a ∷ b ∷ c ∷ []) = numeric a && numeric b && numeric c
three_numeric ss = false

-- [0-9A-Za-z-]+(\.[0-9A-Za-z-]+)*, of the parts between the dots.
unfoldable pub dotted : List Str → Bool
unfolding all_in
dotted [] = true
dotted ([] ∷ ss) = false
dotted ((c ∷ s) ∷ ss) = all_in (λ c. is_alnum c || c == 45) (c ∷ s) && dotted ss

unfoldable pub optional_dotted : Option Str → Bool
unfolding split dotted
optional_dotted none = true
optional_dotted (some s) = dotted (split 46 s)

-- A version has no '+' before that of the build, and no '-' before that of the pre-release.
unfoldable pub semver_re : Str → Bool
unfolding split after three_numeric optional_dotted
semver_re s =
    three_numeric (split 46 (before 45 (before 43 s)))
    && optional_dotted (after 45 (before 43 s))
    && optional_dotted (after 43 s)

-- The first n bytes exist and are of a class.
unfoldable pub at_least : ℕ → (ℕ → Bool) → Str → Bool
at_least zero p s = true
at_least (suc n) p [] = false
at_least (suc n) p (c ∷ s) = p c && at_least n p s

-- An expression that is tried at one position, and at all of them.
abbrev pub Pattern : Type 0
Pattern = Str → Bool

unfoldable pub search : Pattern → Str → Bool
search p [] = p []
search p (c ∷ s) = p (c ∷ s) || search p s

unfoldable pub followed : Str → Pattern → Pattern
followed lit p s = elim (cut_prefix lit s) [ none ↦ false | some t ↦ p t ]

unfoldable pub one_of_bytes : Str → Pattern → Pattern
one_of_bytes [] p s = false
one_of_bytes (b ∷ bs) p [] = false
one_of_bytes (b ∷ bs) p (c ∷ s) = if b == c then p s else one_of_bytes bs p (c ∷ s)

-- [A-Z ]*PRIVATE KEY-----
unfoldable pub private_key : Pattern
private_key [] = false
private_key (c ∷ s) = elim (cut_prefix (codes "PRIVATE KEY-----") (c ∷ s)) [
  | some _ ↦ true
  | none ↦ (is_upper c || c == 32) && private_key s
]

-- Tab, line feed, form feed, carriage return and space: \s
abbrev pub is_blank : ℕ → Bool
is_blank c = c == 9 || c == 10 || c == 12 || c == 13 || c == 32

-- \s+ and then the pattern, which starts with no blank.
unfoldable pub blanks : Pattern → Pattern
blanks p [] = false
blanks p (c ∷ s) = is_blank c && (p s || blanks p s)

-- [^...]+ up to the byte that ends it, and then the pattern.
unfoldable pub up_to : (ℕ → Bool) → ℕ → Bool → Pattern → Pattern
up_to class stop any p [] = false
up_to class stop any p (c ∷ s) =
    if c == stop then any && p s else class c && up_to class stop true p s

abbrev pub is_token : ℕ → Bool
is_token c = is_alnum c || c == 95 || c == 45

unfoldable pub secret_patterns : List Pattern
unfolding at_least followed one_of_bytes private_key blanks up_to to_lower
secret_patterns =
    followed (codes "sk-") (at_least 16 is_token)
    ∷ followed (codes "AIza") (at_least 20 is_token)
    ∷ followed (codes "gh")
        (one_of_bytes (codes "pousr") (followed (codes "_") (at_least 20 is_alnum)))
    ∷ followed (codes "github_pat_") (at_least 20 (λ c. is_alnum c || c == 95))
    ∷ followed (codes "AKIA") (at_least 16 (λ c. is_upper c || is_digit c))
    ∷ followed (codes "xox") (
        one_of_bytes (codes "baprs")
          (followed (codes "-") (at_least 10 (λ c. is_alnum c || c == 45))))
    ∷ followed (codes "-----BEGIN ") private_key
    ∷ (λ s.
        followed (codes "bearer")
          (blanks (
            at_least 16 (λ c.
              is_alnum c
              || c == 46
              || c == 95
              || c == 126
              || c == 43
              || c == 47
              || c == 61
              || c == 45)))
          (to_lower s))
    ∷ followed (codes "://") (
        up_to (λ c. not (c == 47 || is_blank c || c == 58 || c == 64)) 58 false
          (up_to (λ c. not (c == 47 || is_blank c || c == 64)) 64 false (λ s. true)))
    ∷ []

-- The loop over the patterns, with its break.
unfoldable pub any_found : List Pattern → Str → Bool
unfolding search
any_found [] s = false
any_found (p ∷ ps) s = if search p s then true else any_found ps s

abbrev pub secret_words : List Str
secret_words =
    codes "token"
    ∷ codes "secret"
    ∷ codes "password"
    ∷ codes "passwd"
    ∷ codes "api_key"
    ∷ codes "apikey"
    ∷ codes "credential"
    ∷ codes "private_key"
    ∷ codes "privatekey"
    ∷ []

unfoldable pub contains_word : List Str → Str → Bool
unfolding contains_str
contains_word [] s = false
contains_word (w ∷ ws) s = contains_str w s || contains_word ws s

-- `secretNameHint`
unfoldable pub secret_name_hint : Str → Bool
unfolding contains_word to_lower
secret_name_hint name = contains_word secret_words (to_lower name)
