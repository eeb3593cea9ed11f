-- ===== src/Orchestrator/Guard/Authorized.antt =====
-- internal/orchestrator/guard.go: who may flush the cache and change the policy.
use llm_cache.Common.{
  ℕ, ◌≡◌, ◌≢◌, ◌↔◌, ◌⊎◌, ap, [], ◌∷◌, ◌++◌, some, true, false, Str, Str-discrete, codes, arith, inl,
  inr, Option-cases, Bool-cases,
}
use llm_cache.Orchestrator.Guard.{
  Guard, Request, admin_token_required, passed, eq_str, cut_prefix, valid_token, serve_limited,
  is_admin, serve_http,
}

cut_prefix-append : (p s t : Str) → (cut_prefix p s ≡ some t) ↔ (s ≡ p ++ t)
unfolding cut_prefix
cut_prefix-append [] s t = (λ e. cc, λ e. cc)
cut_prefix-append (c ∷ p) [] t = (λ e. cc, λ e. cc)
cut_prefix-append (c ∷ p) (d ∷ s) t =
    let ih = cut_prefix-append p s t in (λ e. ground (arith, ih.0), λ e. ground (arith, ih.1))

valid_token-bearer :
    (g : Guard) (header : Str)
    → (valid_token g header ≡ true) ↔ (header ≡ codes "Bearer " ++ g.admin_token)
unfolding valid_token
valid_token-bearer g header =
    let whole = cut_prefix-append (codes "Bearer ") header in
    elim (Option-cases (cut_prefix (codes "Bearer ") header)) [
      | inl other ↦
          (λ e. absurd (ground arith), λ e. absurd (ground (arith, (whole g.admin_token).1 e)))
      | inr (t, found) ↦ (
        λ e. (whole g.admin_token).0 (ground arith),
        λ e. ground (arith, (whole g.admin_token).1 e),
      )
    ]

not_query :
    (s : Str)
    → s ≡ codes "/query"
    → (eq_str s (codes "/flush") ≡ false) × (eq_str s (codes "/policy") ≡ false)
unfolding Str-discrete
not_query s e = (ap (λ l. eq_str l (codes "/flush")) e, ap (λ l. eq_str l (codes "/policy")) e)

serve_limited-admin :
    (g : Guard) (now : ℕ) (r : Request) → is_admin r ≡ true → serve_limited g now r ≡ (passed, g)
unfolding serve_limited
serve_limited-admin g now r admin = ground (arith, not_query r.path)

-- With an admin token set, a POST to /flush or /policy gets through to the handlers exactly when its
-- Authorization header is that token as a bearer token, and is answered with 401 otherwise; neither
-- counts for the rate limiter.
pub serve_http-admin :
    (g : Guard) (now : ℕ) (r : Request)
    → g.admin_token ≢ []
    → is_admin r ≡ true
    → ((r.authorization ≡ codes "Bearer " ++ g.admin_token) × (serve_http g now r ≡ (passed, g)))
      ⊎ ((r.authorization ≢ codes "Bearer " ++ g.admin_token)
          × (serve_http g now r ≡ (admin_token_required, g)))
unfolding serve_http
serve_http-admin g now r set admin =
    let bearer = valid_token-bearer g r.authorization in
    elim (Bool-cases (valid_token g r.authorization)) [
      | inl valid ↦ inl (bearer.0 valid, ground (arith, serve_limited-admin g now r admin))
      | inr invalid ↦ inr (λ e. ground (arith, bearer.1 e), ground arith)
    ]
