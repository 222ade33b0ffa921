-- ===== src/Examples/OfStartup.antt =====
-- The stores of both engines, the start and the end of the program, its migrations and the page of
-- the user.
use e5renew.Prelude.{◌≡◌, refl, true, false, none, some, List, [], ◌∷◌, ◌≤◌, arith}
use e5renew.Text.{codes, bytes_eq}
use e5renew.Failure.{other, ok, err, is_ok}
use e5renew.Database.{CreateUserTokensParams}
use e5renew.Engine.{mysql, postgres}
use e5renew.Sql.{interrupted}
use e5renew.Settlement.{settle}
use e5renew.Mysql.Encoding.{Contents}
use e5renew.Stores.{new_stores, repository_stores}
use e5renew.Stores.Alternation
use e5renew.Stores.Alternation.{Call, SameReplies, new_stores-SameReplies}
use e5renew.Startup.{Environment, stopped, run}
use e5renew.Startup.Deferred.{after_event}
use e5renew.Startup.Released.{run_settles}
use e5renew.Startup.Steps.{first_failure, listened, reported, is_none, starts}
use e5renew.Startup.Planned.{plan_of}
use e5renew.Startup.Outcome.{run_lem}
use e5renew.Startup.Shutdown.{
  Process, Run, begin, then_step, signal, notice, close_listeners, drained, scheduler_stopped,
  telemetry_stopped, cancel, server_closed, wake, returned, finished,
}
use e5renew.Startup.Termination.{Outlook, shutdown_ends}
use e5renew.Migrate.{MigrateEnvironment, down_command, applied, version, run_command, get_migrator}
use e5renew.Migrate.Directory.{Directories, migrations_path}
use e5renew.Migrate.Candidates.{Chosen, migrations_path-Chosen}
use e5renew.Migrate.Connections.{connections_after, run_command_settles}
use e5renew.Migrate.Rollback.{asked, DoesAsAsked, run_command-DoesAsAsked}
use e5renew.Tokens.{effective_expiry, save_user_token}
use e5renew.Session.{Session, empty_session}
use e5renew.Home.Pages.{shown, user_page}
use e5renew.Home.Granted.{user_page-save_user_token}
use e5renew.Examples.Data.{bytewise, ann, gcm, token, nonces, db, can, info}

abbrev session : Session
session = record empty_session {
  user = some (codes "id");
  token = some token;
  claims = some (record { name = []; preferred_username = []; email = ann });
}

user_page-save_user_token_example :
    (user_page gcm bytewise info
      (ok tt)
      true
      session
      (save_user_token gcm bytewise 5 nonces ann token db).1).0
    ≡ shown (record {
      user = codes "id";
      claims = record { name = []; preferred_username = []; email = ann };
      token = token;
      has_user_token = true;
      user_token_expiry = some (effective_expiry 5 token);
    })
user_page-save_user_token_example =
    user_page-save_user_token gcm bytewise db tt 5 nonces ann token can info session (codes "id")
      (record { name = []; preferred_username = []; email = ann }) token refl refl refl refl

abbrev params : CreateUserTokensParams
params = record {
  user_id = ann;
  access_token = codes "at";
  refresh_token = codes "rt";
  expiry = 63_900_000_000_000_000_000;
  token_type = codes "Bearer";
}

abbrev contents : Contents
contents = record {
  user_tokens = [];
  api_logs = [];
  next_token_id = 1;
  next_log_id = 1;
  faults = none ∷ some (interrupted 0 (other (codes "connection lost"))) ∷ [];
}

abbrev calls : List Call
calls =
    Alternation.create_user_tokens params
    ∷ Alternation.list_user_tokens
    ∷ Alternation.get_user_token ann
    ∷ []

new_stores-SameReplies_example :
    SameReplies (new_stores mysql bytewise) (new_stores postgres bytewise) calls contents
    × SameReplies
        (repository_stores mysql bytewise)
        (repository_stores postgres bytewise)
        calls
        contents
new_stores-SameReplies_example =
    new_stores-SameReplies bytewise calls contents
      ((refl, omega arith, omega arith), (tt, (tt, tt)))

-- The third of the steps that open something fails: there is no encryption key.
abbrev environment : Environment
environment = record {
  fold = λ s. s;
  url_scheme = λ s. some (codes "https");
  engine = codes " PG ";
  dsn = codes "postgres://db";
  redirect_url = codes "https://e5.example/oauth2/callback";
  encryption_key = [];
  telemetry = ok tt;
  metrics = ok tt;
  open_driver = λ driver dsn. ok tt;
  templates = ok tt;
  i18n = ok tt;
  authenticator = ok tt;
  user_token_authenticator = ok tt;
  sum256 = λ s. s;
  new_cipher = λ s. ok tt;
  new_gcm = λ s. ok tt;
  new_scheduler = ok tt;
  new_job = λ job. ok tt;
  serving = stopped (ok tt) (ok tt) (ok tt);
}

run_settles_example : settle after_event (some []) (run environment []).1 ≡ some []
run_settles_example = run_settles environment

run_lem_example :
    ((run environment []).0
      ≡ reported (first_failure (plan_of environment)) (listened environment.serving))
    × (starts (run environment []).1 ≡ is_none (first_failure (plan_of environment)))
run_lem_example = run_lem environment

abbrev ended : Process
ended = record {
  main = returned none;
  stopper = finished;
  signalled = true;
  listeners_closed = true;
  context_done = true;
}

-- The signal, the seven steps behind it, and the return
shut_down : Run 9 ended
shut_down =
    then_step
      (then_step
        (then_step
          (then_step
            (then_step
              (then_step
                (then_step (then_step (then_step begin (signal refl refl)) (notice refl refl refl))
                  (close_listeners refl refl))
                (server_closed refl refl))
              (drained refl refl))
            (scheduler_stopped refl refl))
          (telemetry_stopped refl refl))
        (cancel refl refl))
      (wake refl refl)

shutdown_ends_example : (9 ≤ 9) × Outlook ended
shutdown_ends_example = shutdown_ends shut_down

abbrev directories : Directories
directories = record {
  configured = codes "  ";
  env_dir = [];
  executable = some (codes "/opt/e5renew/bin/e5renew");
  working_directory = some (codes "/srv/../work");
  caller = none;
  absolute = λ s. none;
  is_directory = bytes_eq (codes "/work/migrations/postgres");
}

migrations_path-Chosen_example :
    Chosen directories (codes "postgres") (migrations_path directories postgres)
migrations_path-Chosen_example = migrations_path-Chosen directories postgres

abbrev migrations : MigrateEnvironment
migrations = record {
  fold = λ s. s;
  dsn = codes "postgres://db";
  engine = codes "pg";
  directories = directories;
  open_driver = λ driver dsn. ok tt;
  new_mysql_driver = err (other (codes "not reachable"));
  new_postgres_driver = ok tt;
  new_migrator = λ source driver. ok tt;
  up = applied;
  steps = λ n. applied;
  version = version 3 false;
  force = λ n. ok tt;
  atoi_error = λ s. other (codes "invalid syntax");
}

run_command_settles_example :
    settle connections_after
      (some 0)
      (run_command migrations (down_command (some (codes "2"))) []).1
    ≡ some 0
run_command_settles_example = run_command_settles migrations (down_command (some (codes "2")))

run_command-DoesAsAsked_example :
    DoesAsAsked
      (asked migrations (down_command (some (codes "2"))))
      (is_ok (get_migrator migrations []).0)
      (run_command migrations (down_command (some (codes "2"))) [])
run_command-DoesAsAsked_example =
    run_command-DoesAsAsked migrations (down_command (some (codes "2")))
