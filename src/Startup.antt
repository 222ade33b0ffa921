-- ===== src/Startup.antt =====
-- cmd/run.go: the start of the program, the jobs that it schedules, and its end. What the steps do
-- to the outside world is a list of events, the last one at the end.
pub mod Deferred
pub mod Released
pub mod Steps
pub mod Planned
pub mod Outcome
pub mod Shutdown
pub mod Termination
use e5renew.Prelude.{ℕ, ◌*◌, String, Bool, Option, none, some, List, [], ◌∷◌, ◌++◌}
use e5renew.Prelude.Int.{ℤ, pos}
use e5renew.Text.{Bytes, codes, is_empty}
use e5renew.Failure.{
  Error, wrap, other, Result, ok, err, Exec, emit, deferring, pure, fail, ◌>>=◌, ◌>>◌,
}
use e5renew.Engine.{
  Engine, SessionStore, parse_engine, new_db_with_engine, new_session_store_for_engine,
}
use e5renew.Encryption.{new_encryption_service}
use e5renew.CookiePolicy.{should_use_secure_cookie_for_redirect_url}
use e5renew.Prelude.{if◌then◌else◌}

-- gocron's job definitions; durations are in nanoseconds.
pub data Schedule : Type 0 where
  random_between : ℕ → ℕ → Schedule
  every : ℕ → Schedule
  daily_at : ℕ → ℕ → ℕ → Schedule

pub data Task : Type 0 where
  get_users_and_messages_client_scope : Task
  process_user_mail_tokens : Task
  log_cleanup : ℤ → Task

pub record Job : Type 0 where
  pub name : Bytes
  pub schedule : Schedule
  pub task : Task
  pub tags : List Bytes

pub data Event : Type 0 where
  telemetry_started telemetry_stopped span_started span_ended metrics_created : Event
  database_opened database_closed sessions_stopped : Event
  sessions_opened : SessionStore → Event
  cookies_configured : Bool → Event
  templates_parsed i18n_loaded authenticator_created user_token_authenticator_created : Event
  encryption_created routes_registered : Event
  scheduler_created scheduler_started scheduler_stopped : Event
  job_added : Job → Event
  listening server_stopped : Event
  error_recorded : Bytes → Event
  error_logged : Error → Event

abbrev pub Trace : Type 0
Trace = List Event

-- How the listening ends: it fails, or a signal stops it, with the outcomes of the shutdown of the
-- server, of the scheduler and of the telemetry.
pub data Serving : Type 0 where
  fails : Error → Serving
  stopped : Result (Unit {0}) → Result (Unit {0}) → Result (Unit {0}) → Serving

-- The configuration, and the outcomes of the libraries and of what is modelled elsewhere
pub record Environment : Type 0 where
  pub fold : Bytes → Bytes
  pub url_scheme : Bytes → Option Bytes
  pub engine : Bytes
  pub dsn : Bytes
  pub redirect_url : Bytes
  pub encryption_key : Bytes
  pub telemetry : Result (Unit {0})
  pub metrics : Result (Unit {0})
  pub open_driver : Bytes → Bytes → Result (Unit {0})
  pub templates : Result (Unit {0})
  pub i18n : Result (Unit {0})
  pub authenticator : Result (Unit {0})
  pub user_token_authenticator : Result (Unit {0})
  pub sum256 : Bytes → Bytes
  pub new_cipher : Bytes → Result (Unit {0})
  pub new_gcm : Unit {0} → Result (Unit {0})
  pub new_scheduler : Result (Unit {0})
  pub new_job : Job → Result (Unit {0})
  pub serving : Serving

abbrev pub recorded : Option Bytes → Trace → Trace
recorded none trace = trace
recorded (some kind) trace = trace ++ error_recorded kind ∷ []

-- A step: what it opens on success; on failure the metric that it records and the error of Run
unfoldable pub step : Bytes → Option Bytes → Event → Result (Unit {0}) → Exec Trace (Unit {0})
step what kind event (ok done) trace = (ok tt, trace ++ event ∷ [])
step what kind event (err e) trace =
    (err (wrap (codes "failed to initialize " ++ what) e), recorded kind trace)

abbrev pub session_step : Result SessionStore → Exec Trace (Unit {0})
unfolding step
session_step (ok store) trace = (ok tt, trace ++ sessions_opened store ∷ [])
session_step (err e) trace = (
  err (wrap (codes "failed to initialize session store") e),
  recorded (some (codes "session_store")) trace,
)

abbrev pub minute : ℕ
minute = 60_000_000_000

abbrev pub client_scope_job : Job
client_scope_job = record {
  name = codes "e5_renewal_client_scope";
  schedule = random_between (60 * minute) (120 * minute);
  task = get_users_and_messages_client_scope;
  tags = codes "e5_renewal" ∷ codes "graph_api" ∷ codes "client_scope" ∷ [];
}

abbrev pub user_mail_tokens_job : Job
user_mail_tokens_job = record {
  name = codes "process_user_mail_tokens";
  schedule = every (30 * minute);
  task = process_user_mail_tokens;
  tags = codes "mail" ∷ codes "user_tokens" ∷ codes "e5_activity" ∷ [];
}

abbrev pub log_cleanup_job : ℤ → Job
log_cleanup_job days = record {
  name = codes "log_cleanup";
  schedule = daily_at 2 0 0;
  task = log_cleanup days;
  tags = codes "maintenance" ∷ codes "cleanup" ∷ codes "database" ∷ [];
}

abbrev pub adding : Job → Result (Unit {0}) → Exec Trace (Unit {0})
adding job (ok done) = emit (job_added job)
adding job (err e) = fail e

abbrev pub creating_scheduler : Result (Unit {0}) → Exec Trace (Unit {0})
creating_scheduler (ok done) = emit scheduler_created
creating_scheduler (err e) = fail e

module _ (env : Environment) where
  unfoldable pub register_user_mail_tokens_job : Exec Trace (Unit {0})
  register_user_mail_tokens_job = adding user_mail_tokens_job (env.new_job user_mail_tokens_job)

  unfoldable pub register_log_cleanup_job : ℤ → Exec Trace (Unit {0})
  register_log_cleanup_job days = adding (log_cleanup_job days) (env.new_job (log_cleanup_job days))

  unfoldable pub new_job_scheduler : Exec Trace (Unit {0})
  unfolding register_user_mail_tokens_job register_log_cleanup_job
  new_job_scheduler = do
    creating_scheduler env.new_scheduler
    adding client_scope_job (env.new_job client_scope_job)
    register_user_mail_tokens_job
    register_log_cleanup_job (pos 30)

  -- An error of the shutdown is logged, and the shutdown goes on.
  abbrev pub ended : Event → Result (Unit {0}) → Trace → Trace
  ended event (ok done) trace = trace ++ event ∷ []
  ended event (err e) trace = (trace ++ event ∷ []) ++ error_logged e ∷ []

  abbrev pub served : Serving → Exec Trace (Unit {0})
  served (fails e) trace = (err (wrap (codes "server failed to start") e), trace)
  served (stopped server scheduler telemetry) trace = (
    ok tt,
    ended telemetry_stopped telemetry
        (ended scheduler_stopped scheduler (ended server_stopped server trace)),
  )

  -- The error of newJobScheduler is wrapped like that of the other steps.
  abbrev pub scheduler_outcome : Result (Unit {0}) × Trace → Result (Unit {0}) × Trace
  scheduler_outcome (ok done, trace) = (ok tt, trace)
  scheduler_outcome (err e, trace) = (
    err (wrap (codes "failed to initialize job scheduler") e),
    recorded (some (codes "job_scheduler_initialization")) trace,
  )

  abbrev pub scheduling : Exec Trace (Unit {0})
  unfolding new_job_scheduler
  scheduling trace = scheduler_outcome (new_job_scheduler trace)

  -- Behind the opening of the session store
  unfoldable pub with_sessions : Exec Trace (Unit {0})
  unfolding step scheduling new_encryption_service
  with_sessions = do
    step (codes "templates") (some (codes "template_initialization")) templates_parsed env.templates
    step (codes "i18n") (some (codes "i18n_initialization")) i18n_loaded env.i18n
    step (codes "authenticator") (some (codes "authenticator_initialization")) authenticator_created
        env.authenticator
    step (codes "user token authenticator") (some (codes "user_token_authenticator_initialization"))
        user_token_authenticator_created env.user_token_authenticator
    step (codes "encryption service") none encryption_created
        (new_encryption_service env.sum256 env.new_cipher env.new_gcm env.encryption_key)
    emit routes_registered
    scheduling
    emit scheduler_started
    emit listening
    served env.serving

  unfoldable pub with_database : Engine → Exec Trace (Unit {0})
  unfolding with_sessions session_step should_use_secure_cookie_for_redirect_url
      new_session_store_for_engine
  with_database engine = do
    emit (
        cookies_configured
          (should_use_secure_cookie_for_redirect_url env.fold env.url_scheme env.redirect_url))
    session_step (new_session_store_for_engine engine)
    deferring sessions_stopped with_sessions

  unfoldable pub with_span : Exec Trace (Unit {0})
  unfolding with_database step parse_engine new_db_with_engine
  with_span = do
    step (codes "metrics") none metrics_created env.metrics
    step (codes "database connection") (some (codes "database_connection")) database_opened
        (new_db_with_engine env.open_driver (parse_engine env.fold env.engine) env.dsn)
    deferring database_closed (with_database (parse_engine env.fold env.engine))

  unfoldable pub run : Exec Trace (Unit {0})
  unfolding with_span step
  run = do
    step (codes "OpenTelemetry") none telemetry_started env.telemetry
    emit span_started
    deferring span_ended with_span
