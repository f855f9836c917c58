-- ===== src/Lifespan/Release.antt =====
-- What the lifespan leaves behind, whatever raises in it.
use stock_tracker_data_colle.Base.{◌≡◌, refl, Bool, true, false, not, ◌||◌, List, [], ◌∷◌, arith}
use stock_tracker_data_colle.Exec.{
  Outcome, ok, raised, Exec, modify, try_finally, continue, ◌>>=◌, ◌>>◌,
}
use stock_tracker_data_colle.Config.{Settings}
use stock_tracker_data_colle.Lifespan.{
  Callback, unconfigure, close_client, close_store, shutdown_jobs, shutdown_scheduler, Services,
  Process, on_service, push, when, configure, reset, run_callback, unwind, exit_stack, open_store,
  open_archive, open_scheduler, serve_with, lifespan,
}

abbrev pub has_unconfigure : List Callback → Bool
has_unconfigure [] = false
has_unconfigure (unconfigure ∷ callbacks) = true
has_unconfigure (_ ∷ callbacks) = has_unconfigure callbacks

module _ {W : Type 0} where
  -- An engine with a store has the callback that takes it away on the stack.
  abbrev pub is_held : Process W → Bool
  is_held p = not p.engine_store || has_unconfigure p.stack

-- An action that keeps a property, whether it returns or raises.
pub record Keeps {W A : Type 0} (P : Process W → Type 0) (action : Exec (Process W) A)
    : Type 0 where
  pub keeps : (p : Process W) → P p → P (action p).1

module _ {W : Type 0} {P : Process W → Type 0} where
  reached :
      {A B : Type 0} (k : A → Exec (Process W) B)
      → ((a : A) (s : Process W) → P s → P (k a s).1)
      → (r : Outcome A × Process W) → P r.1
      → P (continue r.0 k r.1).1
  reached k later (ok a, s) held = later a s held
  reached k later (raised e, s) held = held

  Keeps-bind :
      {A B : Type 0} {m : Exec (Process W) A} {k : A → Exec (Process W) B}
      → Keeps P m
      → ((a : A) → Keeps P (k a))
      → Keeps P (m >>= k)
  Keeps-bind {m = m} {k = k} first later = record {
    keeps = λ p h. reached k (λ a. (later a).keeps) (m p) (first.keeps p h);
  }

  Keeps-then :
      {B : Type 0} {m : Exec (Process W) (Unit {0})} {n : Exec (Process W) B}
      → Keeps P m
      → Keeps P n
      → Keeps P (m >> n)
  Keeps-then first later = Keeps-bind first (λ _. later)

  Keeps-modify :
      (f : Process W → Process W) → ((p : Process W) → P p → P (f p)) → Keeps P (modify f)
  Keeps-modify f kept = record { keeps = kept }

  Keeps-when :
      (b : Bool) {action : Exec (Process W) (Unit {0})} → Keeps P action → Keeps P (when b action)
  Keeps-when true kept = kept
  Keeps-when false kept = record { keeps = λ p h. h }

module _ {W : Type 0} where
  abbrev pub Held : Process W → Type 0
  Held p = is_held p ≡ true

  Keeps-service : {A : Type 0} (action : Exec W A) → Keeps Held (on_service action)
  Keeps-service action = record { keeps = λ p h. h }

  Keeps-push : (c : Callback) → Keeps {W = W} Held (push c)
  Keeps-push unconfigure = record { keeps = λ p h. ground arith }
  Keeps-push close_client = record { keeps = λ p h. h }
  Keeps-push close_store = record { keeps = λ p h. h }
  Keeps-push shutdown_jobs = record { keeps = λ p h. h }
  Keeps-push shutdown_scheduler = record { keeps = λ p h. h }

  Keeps-configure : Keeps {W = W} Held configure
  Keeps-configure = record { keeps = λ p h. ground arith }

module _ {W : Type 0} where
  -- The globals of the services are None, and the engine has no store.
  abbrev pub IsIdle : Process W → Type 0
  IsIdle p =
      (p.auth ≡ false)
      × (p.http_client ≡ false)
      × (p.scheduler ≡ false)
      × (p.pipeline_store ≡ false)
      × (p.raw_archive ≡ false)
      × (p.engine_store ≡ false)

module _ {W : Type 0} (services : Services W) (settings : Settings) where
  Keeps-open_store : Keeps Held (open_store services settings)
  Keeps-open_store =
      Keeps-then (Keeps-modify (λ p. record p { pipeline_store = true }) (λ p h. h)) (
        Keeps-then (Keeps-service (services.connect_store settings.control_database_url)) (
          Keeps-then (Keeps-push close_store)
            (Keeps-service (services.recover_stale_runs settings.pipeline_stale_after_seconds))))

  Keeps-open_archive : Keeps Held (open_archive services settings)
  Keeps-open_archive = Keeps-then (Keeps-service (services.new_archive settings)) (
      Keeps-then (Keeps-modify (λ p. record p { raw_archive = true }) (λ p h. h))
        (Keeps-service services.ensure_bucket))

  Keeps-open_scheduler : Keeps Held (open_scheduler services settings)
  Keeps-open_scheduler = Keeps-then (Keeps-service (services.new_scheduler settings)) (
      Keeps-then (Keeps-modify (λ p. record p { scheduler = true }) (λ p h. h)) (
        Keeps-then
          (Keeps-service (
            services.add_cron_job "vnstock_listing" settings.scheduler_cron_hour
              settings.scheduler_cron_minute))
          (Keeps-then
            (Keeps-service (
              services.add_cron_job "vnstock_company" settings.scheduler_company_cron_hour
                settings.scheduler_company_cron_minute))
            (Keeps-then
              (Keeps-service (
                services.add_cron_job "vnstock_market_data" settings.scheduler_market_data_cron_hour
                  settings.scheduler_market_data_cron_minute))
              (Keeps-then (Keeps-service services.start_scheduler)
                (Keeps-push shutdown_scheduler))))))

  Keeps-serve_with : (serve : Exec W (Unit {0})) → Keeps Held (serve_with services settings serve)
  unfolding serve_with
  Keeps-serve_with serve =
      Keeps-then (Keeps-service (services.open_client settings.http_timeout_seconds)) (
        Keeps-then (Keeps-push close_client) (
          Keeps-then (Keeps-modify (λ p. record p { http_client = true }) (λ p h. h)) (
            Keeps-then (Keeps-service (services.new_auth settings)) (
              Keeps-then (Keeps-modify (λ p. record p { auth = true }) (λ p h. h)) (
                Keeps-then (Keeps-when settings.control_plane_enabled Keeps-open_store) (
                  Keeps-then Keeps-configure (
                    Keeps-then (Keeps-push shutdown_jobs) (
                      Keeps-then (Keeps-when settings.raw_archive_enabled Keeps-open_archive) (
                        Keeps-then (Keeps-when settings.scheduler_enabled Keeps-open_scheduler)
                          (Keeps-service serve))))))))))

module _ {W : Type 0} (services : Services W) where
  -- After the callbacks of a stack that holds the store of the engine, the engine has none.
  unwind-engine_store :
      (callbacks : List Callback) (r : Outcome (Unit {0})) (p : Process W)
      → (not p.engine_store || has_unconfigure callbacks) ≡ true
      → (unwind services callbacks r p).1.engine_store ≡ false
  unfolding unwind run_callback
  unwind-engine_store [] r p held = ground (arith, held)
  unwind-engine_store (unconfigure ∷ callbacks) r p held =
      unwind-engine_store callbacks r (record p { engine_store = false }) refl
  unwind-engine_store (close_client ∷ callbacks) r p held =
      unwind-engine_store callbacks _ (record p { world = _ }) held
  unwind-engine_store (close_store ∷ callbacks) r p held =
      unwind-engine_store callbacks _ (record p { world = _ }) held
  unwind-engine_store (shutdown_jobs ∷ callbacks) r p held =
      unwind-engine_store callbacks _ (record p { world = _ }) held
  unwind-engine_store (shutdown_scheduler ∷ callbacks) r p held =
      unwind-engine_store callbacks _ (record p { world = _ }) held

  Idle-service : {A : Type 0} (action : Exec W A) → Keeps IsIdle (on_service action)
  Idle-service action = record { keeps = λ p h. h }

  -- The block of the stack and the `finally`.
  Idle-block :
      (settings : Settings) (serve : Exec W (Unit {0}))
      → Keeps IsIdle (try_finally (exit_stack services (serve_with services settings serve)) reset)
  unfolding exit_stack
  Idle-block settings serve = record {
    keeps = λ p (auth, client, scheduler, store, archive, engine).
        let held : is_held (record p { stack = [] }) ≡ true = rw engine refl in
        let (r, last) = serve_with services settings serve (record p { stack = [] }) in
        (
          refl,
          refl,
          refl,
          refl,
          refl,
          unwind-engine_store last.stack r (record last { stack = [] })
              ((Keeps-serve_with services settings serve).keeps (record p { stack = [] }) held),
        );
  }

  -- Whatever the services and the application raise, in the start, while it serves or in the end: a
  -- lifespan that begins without the globals of the services and without a store of the engine leaves
  -- the process so.
  pub lifespan-IsIdle :
      (serve : Exec W (Unit {0})) (p : Process W) → IsIdle p → IsIdle (lifespan services serve p).1
  unfolding lifespan
  lifespan-IsIdle serve p idle =
      let all : Keeps IsIdle (lifespan services serve) =
        Keeps-bind (Idle-service services.new_settings) λ settings.
          Keeps-then (Keeps-modify (λ q. record q { settings = true }) (λ q h. h)) (
            Keeps-then (Idle-service (services.new_limiter settings)) (
              Keeps-then (Keeps-modify (λ q. record q { rate_limiter = true }) (λ q h. h)) (
                Keeps-then (Idle-service (services.new_jobs settings.job_history_limit))
                  (Idle-block settings serve)))) in
      all.keeps p idle
