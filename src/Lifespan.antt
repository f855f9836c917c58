-- ===== src/Lifespan.antt =====
-- app/main.py: the lifespan of the application, and readiness. What the constructors and the services
-- do is the fields of a record, and may raise; a global is a flag, which says that it is not None.
pub mod Release
use stock_tracker_data_colle.Base.{
  ℕ, String, Bool, true, false, not, ◌&&◌, List, [], ◌∷◌, if◌then◌else◌,
}
use stock_tracker_data_colle.Errors.{Exn, runtime_error, is_exception}
use stock_tracker_data_colle.Exec.{
  Outcome, ok, raised, Exec, pure, raise, modify, try_finally, try_except, ◌>>=◌, ◌>>◌,
}
use stock_tracker_data_colle.Config.{Settings}

-- What is pushed on the AsyncExitStack.
pub data Callback : Type 0 where
  close_client close_store unconfigure shutdown_jobs shutdown_scheduler : Callback

pub record Services (W : Type 0) : Type 0 where
  -- Settings(), RateLimiterRegistry(settings) and JobRegistry(settings.job_history_limit)
  pub new_settings : Exec W Settings
  pub new_limiter : Settings → Exec W (Unit {0})
  pub new_jobs : ℕ → Exec W (Unit {0})
  -- httpx.AsyncClient(timeout), entered
  pub open_client : ℕ → Exec W (Unit {0})
  pub new_auth : Settings → Exec W (Unit {0})
  pub connect_store : String → Exec W (Unit {0})
  pub recover_stale_runs : ℕ → Exec W (Unit {0})
  pub new_archive : Settings → Exec W (Unit {0})
  pub ensure_bucket : Exec W (Unit {0})
  pub new_scheduler : Settings → Exec W (Unit {0})
  -- scheduler.add_cron_job(job_id, …, hour, minute), and scheduler.start()
  pub add_cron_job : String → ℕ → ℕ → Exec W (Unit {0})
  pub start_scheduler : Exec W (Unit {0})
  -- the callbacks but the one of the engine, which only sets its attributes
  pub release : Callback → Exec W (Unit {0})
  -- http_client.is_closed, pipeline_store.ping() and raw_archive.ping()
  pub is_closed : W → Bool
  pub ping_store : Exec W (Unit {0})
  pub ping_archive : Exec W (Unit {0})

-- The globals of the module, the store of the engine, and the stack of the lifespan.
pub record Process (W : Type 0) : Type 0 where
  pub settings : Bool
  pub rate_limiter : Bool
  pub auth : Bool
  pub http_client : Bool
  pub scheduler : Bool
  pub pipeline_store : Bool
  pub raw_archive : Bool
  pub engine_store : Bool
  pub stack : List Callback
  pub world : W

module _ {W : Type 0} where
  abbrev pub on_service : {A : Type 0} → Exec W A → Exec (Process W) A
  on_service action p = let (r, world) = action p.world in (r, record p { world = world })

  abbrev pub push : Callback → Exec (Process W) (Unit {0})
  push callback = modify λ p. record p { stack = callback ∷ p.stack }

  abbrev pub when : Bool → Exec (Process W) (Unit {0}) → Exec (Process W) (Unit {0})
  when true action = action
  when false action = pure tt

  -- PipelineEngine.configure(_pipeline_store, …), and its callback
  abbrev pub configure : Exec (Process W) (Unit {0})
  configure =
      modify λ p. record p { engine_store = p.pipeline_store; stack = unconfigure ∷ p.stack }

  -- the `finally` of the lifespan
  abbrev pub reset : Exec (Process W) (Unit {0})
  reset = modify λ p. record p {
    settings = false;
    rate_limiter = false;
    auth = false;
    http_client = false;
    scheduler = false;
    pipeline_store = false;
    raw_archive = false;
  }

module _ {W : Type 0} (services : Services W) where
  unfoldable pub run_callback : Callback → Exec (Process W) (Unit {0})
  run_callback unconfigure = modify λ p. record p { engine_store = false }
  run_callback callback = on_service (services.release callback)

  -- The callbacks, the last one first: each runs, whatever the others raise, and what one raises
  -- replaces what was raised before.
  unfoldable pub unwind :
      List Callback → Outcome (Unit {0}) → Process W → Outcome (Unit {0}) × Process W
  unwind [] r p = (r, p)
  unwind (callback ∷ callbacks) r p =
      let (outcome, after) = run_callback callback p in
      unwind callbacks (elim outcome [ ok t ↦ r | raised e ↦ raised e ]) after

  -- async with AsyncExitStack() as stack
  unfoldable pub exit_stack : Exec (Process W) (Unit {0}) → Exec (Process W) (Unit {0})
  exit_stack body p =
      let (r, last) = body (record p { stack = [] }) in
      unwind last.stack r (record last { stack = [] })

  abbrev pub open_store : Settings → Exec (Process W) (Unit {0})
  open_store settings = do
    modify λ p. record p { pipeline_store = true }
    on_service (services.connect_store settings.control_database_url)
    push close_store
    on_service (services.recover_stale_runs settings.pipeline_stale_after_seconds)

  abbrev pub open_archive : Settings → Exec (Process W) (Unit {0})
  open_archive settings = do
    on_service (services.new_archive settings)
    modify λ p. record p { raw_archive = true }
    on_service services.ensure_bucket

  abbrev pub open_scheduler : Settings → Exec (Process W) (Unit {0})
  open_scheduler settings = do
    on_service (services.new_scheduler settings)
    modify λ p. record p { scheduler = true }
    on_service (
        services.add_cron_job "vnstock_listing" settings.scheduler_cron_hour
          settings.scheduler_cron_minute)
    on_service (
        services.add_cron_job "vnstock_company" settings.scheduler_company_cron_hour
          settings.scheduler_company_cron_minute)
    on_service (
        services.add_cron_job "vnstock_market_data" settings.scheduler_market_data_cron_hour
          settings.scheduler_market_data_cron_minute)
    on_service services.start_scheduler
    push shutdown_scheduler

  -- the block of the stack; `serve` is what the application does at the yield
  unfoldable pub serve_with : Settings → Exec W (Unit {0}) → Exec (Process W) (Unit {0})
  serve_with settings serve = do
    on_service (services.open_client settings.http_timeout_seconds)
    push close_client
    modify λ p. record p { http_client = true }
    on_service (services.new_auth settings)
    modify λ p. record p { auth = true }
    when settings.control_plane_enabled (open_store settings)
    configure
    push shutdown_jobs
    when settings.raw_archive_enabled (open_archive settings)
    when settings.scheduler_enabled (open_scheduler settings)
    on_service serve

  -- lifespan
  unfoldable pub lifespan : Exec W (Unit {0}) → Exec (Process W) (Unit {0})
  lifespan serve = do
    settings ← on_service services.new_settings
    modify λ p. record p { settings = true }
    on_service (services.new_limiter settings)
    modify λ p. record p { rate_limiter = true }
    on_service (services.new_jobs settings.job_history_limit)
    try_finally (exit_stack (serve_with settings serve)) reset

  -- one of the checks of readiness: none of it raises an Exception
  abbrev pub check : Bool → Exec W (Unit {0}) → Exec (Process W) Bool
  check is_set ping =
      try_except
        ((if is_set then on_service ping else raise (runtime_error "not initialized")) >> pure true)
        (λ exc. if is_exception exc then pure false else raise exc)

  abbrev pub check_if : Bool → Bool → Exec W (Unit {0}) → Exec (Process W) Bool
  check_if enabled is_set ping = if enabled then check is_set ping else pure true

  -- readiness: whether the status is 200, with the settings of the application
  unfoldable pub readiness : Settings → Exec (Process W) Bool
  readiness settings p =
      (do
        database ← check_if settings.control_plane_enabled p.pipeline_store services.ping_store
        archive ← check_if settings.raw_archive_enabled p.raw_archive services.ping_archive
        pure (p.auth && p.http_client && not (services.is_closed p.world) && database && archive))
        p
