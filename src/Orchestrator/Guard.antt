-- ===== src/Orchestrator/Guard.antt =====
-- internal/orchestrator/guard.go: the guard in front of the handlers. A header that is missing reads
-- as the empty string, and the time of a request is an argument.
pub mod Authorized
use llm_cache.Common.{
  ℕ, zero, suc, ◌+◌, ◌-◌, List, [], ◌∷◌, Option, none, some, Bool, true, false, ◌&&◌, ◌||◌, not,
  Str, Str-discrete, codes, ite, if◌then◌else◌, ◌==◌, take, drop, reverse, head?, length,
}
use llm_cache.Common.Int.{ℤ, pos, negsuc}
use llm_cache.Orchestrator.Limiter.{RateLimiter, new_rate_limiter, allow}

pub record Guard : Type 0 where
  pub admin_token : Str
  pub limiter : Option RateLimiter
  pub trust_proxy : Bool

pub record Request : Type 0 where
  pub method : Str
  pub path : Str
  pub authorization : Str
  pub forwarded_for : Str
  pub remote_addr : Str

-- The guard's own answers, 401 and 429, or what the handlers behind it answer.
pub data Answer : Type 0 where
  admin_token_required rate_limit_exceeded passed : Answer

abbrev pub eq_str : Str → Str → Bool
eq_str a b = ite (Str-discrete a b) true false

-- time.Minute
abbrev pub minute : ℕ
minute = 60_000_000_000

-- `none` stands for the handlers without a guard.
unfoldable pub new_guard : Str → ℤ → Bool → Option Guard
new_guard admin_token (pos (suc n)) trust_proxy = some (record {
  admin_token = admin_token;
  limiter = some (new_rate_limiter (suc n) minute);
  trust_proxy = trust_proxy;
})
new_guard admin_token rate trust_proxy =
    ite (Str-discrete admin_token []) none
      (some (record { admin_token = admin_token; limiter = none; trust_proxy = trust_proxy }))

-- strings.CutPrefix
unfoldable pub cut_prefix : Str → Str → Option Str
cut_prefix [] s = some s
cut_prefix (c ∷ p) [] = none
cut_prefix (c ∷ p) (d ∷ s) = if c == d then cut_prefix p s else none

-- The part of a string before a byte, or all of it: the first result of strings.Cut.
unfoldable pub before : ℕ → Str → Str
before c [] = []
before c (d ∷ s) = let rest = before c s in if d == c then [] else d ∷ rest

-- Tab, line feed, vertical tab, form feed, carriage return and space.
abbrev pub is_space : ℕ → Bool
is_space c = c == 9 || c == 10 || c == 11 || c == 12 || c == 13 || c == 32

unfoldable pub trim_left : Str → Str
trim_left [] = []
trim_left (c ∷ s) = let rest = trim_left s in if is_space c then rest else c ∷ s

-- strings.TrimSpace, of an ASCII string.
unfoldable pub trim_space : Str → Str
trim_space s = reverse (trim_left (reverse (trim_left s)))

-- strings.IndexByte
unfoldable pub index_byte : ℕ → Str → Option ℕ
index_byte c [] = none
index_byte c (d ∷ s) =
    let rest = index_byte c s in
    if d == c then some 0 else elim rest [ none ↦ none | some i ↦ some (i + 1) ]

unfoldable pub last_index : ℕ → Str → Option ℕ
last_index c [] = none
last_index c (d ∷ s) = elim (last_index c s) [
  | some i ↦ some (i + 1)
  | none ↦ if d == c then some 0 else none
]

-- The host of net.SplitHostPort, or none where it returns an error.
unfoldable pub split_host : Str → Option Str
split_host s =
    let outside : Str → Str → Str → Option Str = λ j k host. elim (index_byte 91 j) [
      | some _ ↦ none
      | none ↦ elim (index_byte 93 k) [ some _ ↦ none | none ↦ some host ]
    ] in
    elim (last_index 58 s) [
      | none ↦ none
      | some i ↦ elim (head? s) [
        | none ↦ none
        | some c ↦
            if c == 91
            then elim (index_byte 93 s) [
              | none ↦ none
              | some end ↦
                  if end + 1 == i
                  then outside (drop 1 s) (drop (end + 1) s) (take (end - 1) (drop 1 s))
                  else none
            ]
            else elim (index_byte 58 (take i s)) [ some _ ↦ none | none ↦ outside s s (take i s) ]
      ]
    ]

unfoldable pub client_ip : Guard → Request → Str
client_ip g r =
    let host : Str = elim (split_host r.remote_addr) [ none ↦ r.remote_addr | some h ↦ h ] in
    let first = trim_space (before 44 r.forwarded_for) in
    if g.trust_proxy && not (eq_str r.forwarded_for []) && not (eq_str first [])
    then first
    else host

unfoldable pub valid_token : Guard → Str → Bool
valid_token g header = elim (cut_prefix (codes "Bearer ") header) [
  | none ↦ false
  | some token ↦ eq_str token g.admin_token
]

-- The part behind the check of the token.
unfoldable pub serve_limited : Guard → ℕ → Request → Answer × Guard
serve_limited g now r = elim g.limiter [
  | none ↦ (passed, g)
  | some l ↦
      if eq_str r.method (codes "POST") && eq_str r.path (codes "/query")
      then (let (allowed, l') = allow (client_ip g r) now l in
          (if allowed then passed else rate_limit_exceeded, record g { limiter = some l' }))
      else (passed, g)
]

abbrev pub is_admin : Request → Bool
is_admin r =
    eq_str r.method (codes "POST")
    && (eq_str r.path (codes "/flush") || eq_str r.path (codes "/policy"))

unfoldable pub serve_http : Guard → ℕ → Request → Answer × Guard
unfolding serve_limited
serve_http g now r =
    if not (eq_str g.admin_token []) && is_admin r && not (valid_token g r.authorization)
    then (admin_token_required, g)
    else serve_limited g now r
