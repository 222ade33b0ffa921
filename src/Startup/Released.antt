-- ===== src/Startup/Released.antt =====
-- The start of the program closes what it has opened.
use e5renew.Prelude.{◌≡◌, refl, none, some, List, []}
use e5renew.Text.{codes}
use e5renew.Failure.{Result, ok, err}
use e5renew.Engine.{Engine, parse_engine, new_db_with_engine, new_session_store_for_engine}
use e5renew.Encryption.{new_encryption_service}
use e5renew.Prelude.Int.{pos}
use e5renew.CookiePolicy.{should_use_secure_cookie_for_redirect_url}
use e5renew.Settlement.{settle}
use e5renew.Startup.{
  Event, telemetry_started, telemetry_stopped, span_started, span_ended, metrics_created,
  database_opened, database_closed, cookies_configured, templates_parsed, i18n_loaded,
  authenticator_created, user_token_authenticator_created, encryption_created, routes_registered,
  scheduler_started, scheduler_stopped, listening, server_stopped, error_logged, Trace, Serving,
  fails, stopped, Environment, client_scope_job, user_mail_tokens_job, log_cleanup_job,
  new_job_scheduler, register_user_mail_tokens_job, register_log_cleanup_job, ended, served,
  scheduler_outcome, scheduling, with_sessions, with_database, with_span, run,
}
use e5renew.Startup.Deferred.{
  Resource, span, database, Open, after_event, emitted, Keeps, Keeps-then, IsNeutral, Keeps-emit,
  Keeps-recorded, Keeps-step, Keeps-adding, Keeps-creating, deferring_closes, Keeps-opening,
  Keeps-session_step,
}

module _ (env : Environment) where
  Keeps-new_job_scheduler : Keeps (new_job_scheduler env)
  unfolding new_job_scheduler register_user_mail_tokens_job register_log_cleanup_job
  Keeps-new_job_scheduler = Keeps-then (Keeps-creating env.new_scheduler) (
      Keeps-then (Keeps-adding client_scope_job (env.new_job client_scope_job)) (
        Keeps-then (Keeps-adding user_mail_tokens_job (env.new_job user_mail_tokens_job))
          (Keeps-adding (log_cleanup_job (pos 30)) (env.new_job (log_cleanup_job (pos 30))))))

  Keeps-outcome :
      (r : Result (Unit {0})) (trace : Trace) (open_ones : List Resource)
      → Open trace open_ones
      → Open (scheduler_outcome env (r, trace)).1 open_ones
  Keeps-outcome (ok done) trace open_ones h = h
  Keeps-outcome (err e) trace open_ones h =
      Keeps-recorded (some (codes "job_scheduler_initialization")) trace open_ones h

  Keeps-ended :
      (event : Event) (r : Result (Unit {0})) (trace : Trace) (open_ones : List Resource)
      → IsNeutral event
      → Open trace open_ones
      → Open (ended env event r trace) open_ones
  Keeps-ended event (ok done) trace open_ones neutral h =
      (Keeps-emit event neutral).keeps trace open_ones h
  Keeps-ended event (err e) trace open_ones neutral h =
      emitted (error_logged e) _ open_ones ((Keeps-emit event neutral).keeps trace open_ones h)

  Keeps-served : (s : Serving) → Keeps (served env s)
  Keeps-served (fails e) = record { keeps = λ trace open_ones h. h }
  Keeps-served (stopped server scheduler telemetry) = record {
    keeps = λ trace open_ones h.
        Keeps-ended telemetry_stopped telemetry _ open_ones (λ o. refl)
          (Keeps-ended scheduler_stopped scheduler _ open_ones (λ o. refl)
            (Keeps-ended server_stopped server trace open_ones (λ o. refl) h));
  }

  Keeps-scheduling : Keeps (scheduling env)
  unfolding scheduling
  Keeps-scheduling = record {
    keeps = λ trace open_ones h.
        Keeps-outcome (new_job_scheduler env trace).0 _ open_ones
          (Keeps-new_job_scheduler.keeps trace open_ones h);
  }

  Keeps-with_sessions : Keeps (with_sessions env)
  unfolding with_sessions
  Keeps-with_sessions =
      Keeps-then
        (Keeps-step (codes "templates") (some (codes "template_initialization")) templates_parsed
          env.templates (λ o. refl))
        (Keeps-then
          (Keeps-step (codes "i18n") (some (codes "i18n_initialization")) i18n_loaded env.i18n
            (λ o. refl))
          (Keeps-then
            (Keeps-step (codes "authenticator") (some (codes "authenticator_initialization"))
              authenticator_created env.authenticator (λ o. refl))
            (Keeps-then
              (Keeps-step (codes "user token authenticator")
                (some (codes "user_token_authenticator_initialization"))
                user_token_authenticator_created env.user_token_authenticator (λ o. refl))
              (Keeps-then
                (Keeps-step (codes "encryption service") none encryption_created
                  (new_encryption_service env.sum256 env.new_cipher env.new_gcm env.encryption_key)
                  (λ o. refl))
                (Keeps-then (Keeps-emit routes_registered (λ o. refl)) (
                  Keeps-then (Keeps-scheduling) (
                    Keeps-then (Keeps-emit scheduler_started (λ o. refl)) (
                      Keeps-then (Keeps-emit listening (λ o. refl))
                        (Keeps-served env.serving)))))))))

  Keeps-with_database : (engine : Engine) → Keeps (with_database env engine)
  unfolding with_database
  Keeps-with_database engine =
      Keeps-then
        (Keeps-emit
          (cookies_configured
            (should_use_secure_cookie_for_redirect_url env.fold env.url_scheme env.redirect_url))
          (λ o. refl))
        (Keeps-session_step (new_session_store_for_engine engine) Keeps-with_sessions)

  Keeps-with_span : Keeps (with_span env)
  unfolding with_span
  Keeps-with_span =
      Keeps-then (Keeps-step (codes "metrics") none metrics_created env.metrics (λ o. refl)) (
        Keeps-opening database database_opened database_closed
          (with_database env (parse_engine env.fold env.engine)) (codes "database connection")
          (some (codes "database_connection"))
          (new_db_with_engine env.open_driver (parse_engine env.fold env.engine) env.dsn)
          (λ o. refl) (λ o. refl) (Keeps-with_database (parse_engine env.fold env.engine)))

  Keeps-run : Keeps (run env)
  unfolding run
  Keeps-run =
      Keeps-then
        (Keeps-step (codes "OpenTelemetry") none telemetry_started env.telemetry (λ o. refl))
        (record {
          keeps = λ trace open_ones h.
              deferring_closes span span_ended (with_span env) (λ o. refl) Keeps-with_span _
                open_ones (emitted span_started trace open_ones h);
        })

-- However the start goes, and wherever it fails, the span, the database connection and the session
-- store that it has opened are closed in the reverse order when it ends, and nothing is closed that
-- is not open.
pub run_settles : (env : Environment) → settle after_event (some []) (run env []).1 ≡ some []
unfolding settle
run_settles env = (Keeps-run env).keeps [] [] refl
