-- ===== src/Startup/Outcome.antt =====
-- What the start comes to, by the outcomes of its steps.
use e5renew.Prelude.{drop, ◌≡◌, refl, none, some, [], ◌∷◌}
use e5renew.Text.{codes}
use e5renew.Failure.{emit, ◌>>◌}
use e5renew.Engine.{parse_engine, new_db_with_engine}
use e5renew.Startup.{
  telemetry_started, span_started, span_ended, metrics_created, database_opened, database_closed,
  sessions_stopped, cookies_configured, templates_parsed, i18n_loaded, authenticator_created,
  user_token_authenticator_created, encryption_created, routes_registered, Environment, step,
  scheduling, with_sessions, with_database, with_span, run,
}
use e5renew.CookiePolicy.{should_use_secure_cookie_for_redirect_url}
use e5renew.Startup.Steps.{
  first_failure, listened, reported, is_none, starts, Follows, Follows-emit, Follows-deferring,
  Follows-step, Follows-sessions,
}
use e5renew.Startup.Planned.{
  plan_of, encryption_service, jobs_outcome, started_jobs, Follows-scheduling,
}

module _ (env : Environment) where
  Follows-encryption :
      Follows
        (encryption_service env ∷ (codes "job scheduler", jobs_outcome env) ∷ [])
        (listened env.serving)
        (step (codes "encryption service") none encryption_created (encryption_service env).1
          >> (emit routes_registered >> (scheduling env >> started_jobs env)))
  Follows-encryption =
      Follows-step _ _ _ (Follows-emit _ _ _ (Follows-scheduling env) routes_registered refl)
        (codes "encryption service") none encryption_created (encryption_service env).1 refl

  Follows-with_sessions : Follows (drop 3 (plan_of env)) (listened env.serving) (with_sessions env)
  unfolding with_sessions started_jobs
  Follows-with_sessions =
      Follows-step _ _ _
        (Follows-step _ _ _
          (Follows-step _ _ _
            (Follows-step _ _ _ (Follows-encryption) (codes "user token authenticator")
              (some (codes "user_token_authenticator_initialization"))
              user_token_authenticator_created env.user_token_authenticator refl)
            (codes "authenticator") (some (codes "authenticator_initialization"))
            authenticator_created env.authenticator refl)
          (codes "i18n") (some (codes "i18n_initialization")) i18n_loaded env.i18n refl)
        (codes "templates") (some (codes "template_initialization")) templates_parsed env.templates
        refl

  Follows-with_database :
      Follows
        (drop 3 (plan_of env))
        (listened env.serving)
        (with_database env (parse_engine env.fold env.engine))
  unfolding with_database
  Follows-with_database =
      Follows-emit _ _ _
        (Follows-sessions _ _ _
          (Follows-deferring _ _ _ Follows-with_sessions sessions_stopped refl) env.fold env.engine)
        (cookies_configured
          (should_use_secure_cookie_for_redirect_url env.fold env.url_scheme env.redirect_url))
        refl

  Follows-run : Follows (plan_of env) (listened env.serving) (run env)
  unfolding run with_span
  Follows-run =
      Follows-step _ _ _
        (Follows-emit _ _ _
          (Follows-deferring _ _ _
            (Follows-step _ _ _
              (Follows-step _ _ _
                (Follows-deferring _ _ _ Follows-with_database database_closed refl)
                (codes "database connection") (some (codes "database_connection")) database_opened
                (new_db_with_engine env.open_driver (parse_engine env.fold env.engine) env.dsn)
                refl)
              (codes "metrics") none metrics_created env.metrics refl)
            span_ended refl)
          span_started refl)
        (codes "OpenTelemetry") none telemetry_started env.telemetry refl

-- The program ends with the error of the first of the listed steps that fails, wrapped in what it
-- fails to initialize, and then has not started the scheduler; if no step fails it has started the
-- scheduler, and ends with the error of the listening, or with none if a signal stops it, whatever
-- the shutdown comes to. Opening the session store never fails.
pub run_lem :
    (env : Environment)
    → ((run env []).0 ≡ reported (first_failure (plan_of env)) (listened env.serving))
      × (starts (run env []).1 ≡ is_none (first_failure (plan_of env)))
unfolding starts
run_lem env = ((Follows-run env).result [], (Follows-run env).started [])
