-- ===== src/Manifest/Fields/Silent.antt =====
-- internal/plugins/manifest/manifest.go: a check that adds no issue.
use llm_cache.Common.{◌≡◌, refl, List, [], Bool, true, false, Str, str_key}
use llm_cache.Manifest.Document.{Value}
use llm_cache.Manifest.Fields.{issue_if, issue_with}

pub issue_if-none : (bad : Bool) (path message : Str) → issue_if bad path message ≡ [] → bad ≡ false
unfolding issue_if
issue_if-none true path message e = cc
issue_if-none false path message e = refl

pub issue_with-none :
    (bad : Bool) (path format : Str) (arguments : List Value)
    → issue_with bad path format arguments ≡ []
    → bad ≡ false
unfolding issue_with
issue_with-none true path format arguments e = cc
issue_with-none false path format arguments e = refl
