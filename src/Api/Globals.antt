-- ===== src/Api/Globals.antt =====
-- app/main.py: the globals of the module, the functions that get them, and the dependencies that are
-- built of them for a pipeline. The manager of tokens, the HTTP client and the archive are of types
-- that stay open; what Settings() makes of the environment is an argument.
use stock_tracker_data_colle.Base.{
  ℕ, ◌≡◌, refl, sym, ap, subst, ◌∙◌, Option, none, some, arith, inl, inr, Option-cases,
}
use stock_tracker_data_colle.Errors.{runtime_error}
use stock_tracker_data_colle.Exec.{
  Outcome, ok, raised, Exec, pure, lift, modify, ◌>>=◌, ◌>>◌, chain-ok, Outcome-cases,
}
use stock_tracker_data_colle.Config.{Settings}
use stock_tracker_data_colle.RateLimit.{RateLimiterRegistry, new_registry}

pub record Globals (A C R : Type 0) : Type 0 where
  pub settings : Option Settings
  pub rate_limiter : Option RateLimiterRegistry
  pub auth : Option A
  pub http_client : Option C
  pub raw_archive : Option R

-- VnstockListingDeps, VnstockCompanyDeps and VnstockMarketDataDeps
pub record Deps (A C R : Type 0) : Type 0 where
  pub settings : Settings
  pub rate_limiter : RateLimiterRegistry
  pub auth : A
  pub http_client : C
  pub archive : Option R

module _ {A C R : Type 0} (new_settings : Outcome Settings) (now : ℕ) where
  unfoldable pub get_settings : Exec (Globals A C R) Settings
  get_settings g = elim g.settings [
    | some settings ↦ (ok settings, g)
    | none ↦
        (do
          settings ← lift new_settings
          modify λ h. record h { settings = some settings }
          pure settings)
          g
  ]

  unfoldable pub get_rate_limiter : Exec (Globals A C R) RateLimiterRegistry
  get_rate_limiter g = elim g.rate_limiter [
    | some rate_limiter ↦ (ok rate_limiter, g)
    | none ↦
        (do
          settings ← get_settings
          rate_limiter ← lift (new_registry settings now)
          modify λ h. record h { rate_limiter = some rate_limiter }
          pure rate_limiter)
          g
  ]

  unfoldable pub get_auth : Exec (Globals A C R) A
  get_auth g = elim g.auth [
    | some auth ↦ (ok auth, g)
    | none ↦ (
      raised (
          runtime_error
            "Auth manager is not initialized; the application lifespan has not started"),
      g,
    )
  ]

  unfoldable pub get_http_client : Exec (Globals A C R) C
  get_http_client g = elim g.http_client [
    | some client ↦ (ok client, g)
    | none ↦ (
      raised (
          runtime_error "HTTP client is not initialized; the application lifespan has not started"),
      g,
    )
  ]

  -- _build_listing_deps, _build_company_deps, _build_market_data_deps
  unfoldable pub build_deps : Exec (Globals A C R) (Deps A C R)
  build_deps = do
    settings ← get_settings
    rate_limiter ← get_rate_limiter
    auth ← get_auth
    http_client ← get_http_client
    λ g. (
      ok (record {
        settings = settings;
        rate_limiter = rate_limiter;
        auth = auth;
        http_client = http_client;
        archive = g.raw_archive;
      }),
      g,
    )

  get_settings-held :
      (g after : Globals A C R) (settings : Settings)
      → get_settings g ≡ (ok settings, after)
      → (after.settings ≡ some settings)
        × (after.rate_limiter ≡ g.rate_limiter)
        × (after.auth ≡ g.auth)
        × (after.http_client ≡ g.http_client)
        × (after.raw_archive ≡ g.raw_archive)
  unfolding get_settings
  get_settings-held g after settings done = elim (Option-cases g.settings) [
    | inl absent ↦ ground (arith, done, absent, Outcome-cases new_settings)
    | inr (s, held) ↦ ground (arith, done, held)
  ]

  get_rate_limiter-held :
      (g after : Globals A C R) (settings : Settings) (limiter : RateLimiterRegistry)
      → g.settings ≡ some settings
      → get_rate_limiter g ≡ (ok limiter, after)
      → (after.rate_limiter ≡ some limiter)
        × (after.settings ≡ g.settings)
        × (after.auth ≡ g.auth)
        × (after.http_client ≡ g.http_client)
        × (after.raw_archive ≡ g.raw_archive)
  unfolding get_rate_limiter get_settings
  get_rate_limiter-held g after settings limiter known done = elim (Option-cases g.rate_limiter) [
    | inl absent ↦ ground (arith, done, absent, known, Outcome-cases (new_registry settings now))
    | inr (r, held) ↦ ground (arith, done, held)
  ]

  get_auth-held :
      (g after : Globals A C R) (auth : A)
      → get_auth g ≡ (ok auth, after)
      → (g.auth ≡ some auth) × (g ≡ after)
  unfolding get_auth
  get_auth-held g after auth done = elim (Option-cases g.auth) [
    | inl absent ↦ absurd (ground (arith, done, absent))
    | inr (a, held) ↦ (ground (arith, done, held), ground (arith, done, held))
  ]

  get_http_client-held :
      (g after : Globals A C R) (client : C)
      → get_http_client g ≡ (ok client, after)
      → (g.http_client ≡ some client) × (g ≡ after)
  unfolding get_http_client
  get_http_client-held g after client done = elim (Option-cases g.http_client) [
    | inl absent ↦ absurd (ground (arith, done, absent))
    | inr (c, held) ↦ (ground (arith, done, held), ground (arith, done, held))
  ]

  -- the globals that the dependencies are read from
  rebuilt :
      (g : Globals A C R) (deps : Deps A C R)
      → g.settings ≡ some deps.settings
      → g.rate_limiter ≡ some deps.rate_limiter
      → g.auth ≡ some deps.auth
      → g.http_client ≡ some deps.http_client
      → g.raw_archive ≡ deps.archive
      → build_deps g ≡ (ok deps, g)
  unfolding build_deps get_settings get_rate_limiter get_auth get_http_client
  rebuilt g deps settings limiter auth client archive =
      ground (arith, settings, limiter, auth, client, archive)

  -- Dependencies that were built once are built again of the same globals, with the same settings,
  -- rate limiter, manager, client and archive; and the globals stay as they are.
  pub build_deps-build_deps :
      (g after : Globals A C R) (deps : Deps A C R)
      → build_deps g ≡ (ok deps, after)
      → build_deps after ≡ (ok deps, after)
  unfolding build_deps
  build_deps-build_deps g after deps done =
      let (s, g1, got_settings, in_settings) = chain-ok get_settings _ g after deps done in
      let (r, g2, got_limiter, in_limiter) =
        chain-ok get_rate_limiter _ g1 after deps in_settings in
      let (a, g3, got_auth, in_auth) = chain-ok get_auth _ g2 after deps in_limiter in
      let (c, g4, got_client, made) = chain-ok get_http_client _ g3 after deps in_auth in
      let first = get_settings-held g g1 s got_settings in
      let second = get_rate_limiter-held g1 g2 s r first.0 got_limiter in
      let third = get_auth-held g2 g3 a got_auth in
      let fourth = get_http_client-held g3 g4 c got_client in
      let same : g4 ≡ g2 = sym (third.1 ∙ fourth.1) in
      let held : build_deps g4 ≡ (
        ok (record {
          settings = s;
          rate_limiter = r;
          auth = a;
          http_client = c;
          archive = g4.raw_archive;
        }),
        g4,
      ) =
        rebuilt g4 _ (ap (λ h. h.settings) same ∙ second.1 ∙ first.0)
          (ap (λ h. h.rate_limiter) same ∙ second.0) (ap (λ h. h.auth) same ∙ third.0)
          (ap (λ h. h.http_client) (sym fourth.1) ∙ fourth.0) refl in
      subst (λ p. build_deps p.1 ≡ p) made held
