-- ===== src/Manifest/Paths.antt =====
-- internal/plugins/manifest/manifest.go: `checkRelPath`, over path.Clean of the standard library.
pub mod Inside
use llm_cache.Common.{
  ℕ, List, [], ◌∷◌, ◌++◌, Option, none, some, Bool, true, false, not, ◌&&◌, ◌||◌, Str, Str-discrete,
  codes, ite, if◌then◌else◌, ltb, ◌==◌, length, head?, reverse,
}
use llm_cache.Orchestrator.Guard.{cut_prefix, eq_str}
use llm_cache.Orchestrator.Startup.{contains_str}
use llm_cache.Manifest.Document.{Issue, issue}
use llm_cache.Manifest.Patterns.{is_letter, split}

-- strings.ContainsFunc
unfoldable pub any_in : (ℕ → Bool) → Str → Bool
any_in p [] = false
any_in p (c ∷ s) = p c || any_in p s

unfoldable pub has_prefix : Str → Str → Bool
has_prefix p s = elim (cut_prefix p s) [ none ↦ false | some _ ↦ true ]

-- The regular expression ^[A-Za-z]:
unfoldable pub has_drive : Str → Bool
has_drive (c ∷ d ∷ s) = is_letter c && d == 58
has_drive s = false

-- The elements that path.Clean keeps, the last one first, from those kept so far.
unfoldable pub clean_elements : Bool → List Str → List Str → List Str
clean_elements rooted kept [] = kept
clean_elements rooted kept (e ∷ es) = ite (Str-discrete e []) (clean_elements rooted kept es) (
    ite (Str-discrete e (codes ".")) (clean_elements rooted kept es) (
      ite (Str-discrete e (codes ".."))
        (elim kept [
          | [] ↦ clean_elements rooted (if rooted then [] else e ∷ []) es
          | k ∷ ks ↦ clean_elements rooted (ite (Str-discrete k (codes "..")) (e ∷ k ∷ ks) ks) es
        ])
        (clean_elements rooted (e ∷ kept) es)))

-- The elements with '/' between them.
unfoldable pub join : List Str → Str
join [] = []
join (e ∷ []) = e
join (e ∷ f ∷ es) = e ++ 47 ∷ join (f ∷ es)

unfoldable pub clean : Str → Str
unfolding clean_elements join split
clean p =
    let rooted = has_prefix (codes "/") p in
    let body = join (reverse (clean_elements rooted [] (split 47 p))) in
    if rooted then 47 ∷ body else ite (Str-discrete body []) (codes ".") body

-- Why a path is refused, if it is. '\' is 92.
unfoldable pub rel_path_problem : Str → Option Str
unfolding any_in has_prefix has_drive clean
rel_path_problem p = ite (Str-discrete p []) (some (codes "must not be empty")) (
    if ltb 200 (length p)
    then some (codes "too long")
    else if any_in (λ c. c == 92 || c == 0) p || any_in (λ c. ltb c 32) p
    then some (codes "contains invalid characters")
    else if has_prefix (codes "/") p || has_drive p
    then some (codes "must be relative to the repository root")
    else if has_prefix (codes "~") p
    then some (codes "must not start with '~'")
    else if eq_str (clean p) (codes "..")
        || has_prefix (codes "../") (clean p)
        || contains_str (codes "..") p
    then some (codes "must stay inside the repository (no '..')")
    else none)

unfoldable pub check_rel_path : Str → Str → List Issue
check_rel_path at p = elim (rel_path_problem p) [ none ↦ [] | some why ↦ issue at why ∷ [] ]
