-- ===== src/Migrate.antt =====
-- cmd/migrate.go and cmd/migrate_helpers.go: the commands that migrate the schema. golang-migrate,
-- the drivers and the file system are parameters; what the commands do is a list of events.
pub mod FilePath
pub mod Directory
pub mod Candidates
pub mod Connections
pub mod Rollback
use e5renew.Prelude.{
  ℕ, ◌+◌, Bool, true, false, Option, none, some, List, [], ◌∷◌, ◌++◌, ltb, if◌then◌else◌,
}
use e5renew.Prelude.Int.{ℤ, pos, negsuc, neg}
use e5renew.Text.{Bytes, codes, is_empty, trim_space, decimal}
use e5renew.Failure.{Error, wrap, other, Result, ok, err, Exec, emit, deferring, fail, ◌>>=◌, ◌>>◌}
use e5renew.Engine.{Engine, mysql, postgres, unknown, engine_text, parse_engine, new_db_with_engine}
use e5renew.Logs.{atoi}
use Directory.{Directories, migrations_path}

-- What a command does, in its order. The three calls of the migrator are recorded whatever they answer.
pub data MigrateEvent : Type 0 where
  database_opened database_closed migrator_closed : MigrateEvent
  migrator_opened : Bytes → Bytes → MigrateEvent
  up_called : MigrateEvent
  steps_called : ℤ → MigrateEvent
  force_called : ℤ → MigrateEvent
  printed : Bytes → MigrateEvent

-- What m.Up and m.Steps answer; `no_change` is migrate.ErrNoChange.
pub data Applied : Type 0 where
  applied : Applied
  no_change : Applied
  failed : Error → Applied

-- What m.Version answers; `nil_version` is migrate.ErrNilVersion.
pub data Version : Type 0 where
  version : ℕ → Bool → Version
  nil_version : Version
  unreadable : Error → Version

pub record MigrateEnvironment : Type 0 where
  pub fold : Bytes → Bytes
  pub dsn : Bytes
  pub engine : Bytes
  pub directories : Directories
  pub open_driver : Bytes → Bytes → Result (Unit {0})
  pub new_mysql_driver : Result (Unit {0})
  pub new_postgres_driver : Result (Unit {0})
  pub new_migrator : Bytes → Bytes → Result (Unit {0})
  pub up : Applied
  pub steps : ℤ → Applied
  pub version : Version
  pub force : ℤ → Result (Unit {0})
  pub atoi_error : Bytes → Error

abbrev pub Migration : Type 0
Migration = Exec (List MigrateEvent) (Unit {0})

abbrev connected : Result (Unit {0}) → Migration
connected (ok done) = emit database_opened
connected (err e) = fail (wrap (codes "failed to connect to database") e)

-- if err != nil { sqlDB.Close(); return … }
abbrev or_close : Bytes → Result (Unit {0}) → Migration
or_close what (ok done) trace = (ok tt, trace)
or_close what (err e) trace = (err (wrap what e), trace ++ database_closed ∷ [])

abbrev pub driver_of : Engine → Bytes
driver_of postgres = codes "postgres"
driver_of _ = codes "mysql"

abbrev migrator_made : Bytes → Bytes → Result (Unit {0}) → Migration
migrator_made source driver (ok done) trace = (ok tt, trace ++ migrator_opened source driver ∷ [])
migrator_made source driver (err e) trace =
    (err (wrap (codes "failed to create migrator") e), trace ++ database_closed ∷ [])

abbrev pub dirty_text : Bool → Bytes
dirty_text true = codes " (dirty)"
dirty_text false = []

-- %d of an int
abbrev pub int_text : ℤ → Bytes
unfolding decimal
int_text (pos n) = decimal n
int_text (negsuc n) = b'-' ∷ decimal (n + 1)

module _ (env : MigrateEnvironment) where
  abbrev pub the_engine : Engine
  unfolding parse_engine
  the_engine = parse_engine env.fold env.engine

  -- The driver, as getMigrator chooses it
  unfoldable pub new_driver : Engine → Migration
  new_driver postgres =
      or_close (codes "failed to create PostgreSQL driver") env.new_postgres_driver
  new_driver _ = or_close (codes "failed to create MySQL driver") env.new_mysql_driver

  abbrev pub source_of : Engine → Bytes
  unfolding migrations_path
  source_of engine = codes "file://" ++ migrations_path env.directories engine

  unfoldable pub get_migrator : Migration
  unfolding new_db_with_engine new_driver source_of the_engine
  get_migrator = if is_empty env.dsn then fail (other (codes "database DSN not configured")) else do
    connected (new_db_with_engine env.open_driver the_engine env.dsn)
    new_driver the_engine
    migrator_made (source_of the_engine) (driver_of the_engine)
        (env.new_migrator (source_of the_engine) (driver_of the_engine))

  -- m, err := getMigrator(); …; defer m.Close()
  abbrev pub with_migrator : Migration → Migration
  unfolding get_migrator
  with_migrator m = get_migrator >> deferring migrator_closed m

  abbrev pub unless_failed : Bytes → Applied → Bytes → Migration
  unless_failed what applied message = emit (printed message)
  unless_failed what no_change message = emit (printed message)
  unless_failed what (failed e) message = fail (wrap what e)

  unfoldable pub migrate_up : Migration
  unfolding with_migrator
  migrate_up = with_migrator (
      emit up_called
      >> unless_failed (codes "migration failed") env.up
          (codes "All migrations applied successfully"))

  abbrev pub rolled_back : ℕ → Bytes
  unfolding decimal
  rolled_back n = codes "Rolled back " ++ (decimal n ++ codes " migration(s) successfully")

  abbrev pub roll_back : ℕ → Migration
  unfolding rolled_back with_migrator
  roll_back n = with_migrator (
      emit (steps_called (neg n))
      >> unless_failed (codes "rollback failed") (env.steps (neg n)) (rolled_back n))

  -- The steps, from what Atoi makes of the argument
  abbrev pub steps_back : Bytes → Option ℤ → Migration
  unfolding roll_back
  steps_back arg none = fail (wrap (codes "invalid steps argument") (env.atoi_error arg))
  steps_back arg (some (negsuc n)) = fail (other (codes "steps must be positive"))
  steps_back arg (some (pos n)) =
      if ltb n 1 then fail (other (codes "steps must be positive")) else roll_back n

  -- `migrate down`, with at most one argument
  unfoldable pub migrate_down : Option Bytes → Migration
  unfolding steps_back atoi
  migrate_down none = roll_back 1
  migrate_down (some arg) = steps_back arg (atoi arg)

  abbrev shown_status : Version → Migration
  unfolding decimal
  shown_status (version n true) =
      emit (printed (codes "Current migration version: " ++ decimal n))
      >> emit (printed (codes "Status: DIRTY (migration failed)"))
  shown_status (version n false) =
      emit (printed (codes "Current migration version: " ++ decimal n))
      >> emit (printed (codes "Status: OK"))
  shown_status nil_version = emit (printed (codes "No migrations have been applied"))
  shown_status (unreadable e) = fail (wrap (codes "failed to get migration status") e)

  unfoldable pub migrate_status : Migration
  unfolding with_migrator shown_status
  migrate_status = with_migrator (shown_status env.version)

  abbrev pub forced_to : ℤ → Result (Unit {0}) → Migration
  forced_to n (ok done) = emit (printed (codes "Forced migration version to " ++ int_text n))
  forced_to n (err e) = fail (wrap (codes "failed to force migration version") e)

  abbrev pub force_version : Bytes → Option ℤ → Migration
  unfolding with_migrator int_text
  force_version arg none = fail (wrap (codes "invalid version argument") (env.atoi_error arg))
  force_version arg (some n) = with_migrator (emit (force_called n) >> forced_to n (env.force n))

  -- `migrate force`, with its one argument
  unfoldable pub migrate_force : Bytes → Migration
  unfolding force_version atoi
  migrate_force arg = force_version arg (atoi arg)

  abbrev shown_version : Version → Migration
  unfolding decimal
  shown_version (version n dirty) =
      emit (printed (codes "Version: " ++ (decimal n ++ dirty_text dirty)))
  shown_version nil_version = emit (printed (codes "No version"))
  shown_version (unreadable e) = fail (wrap (codes "failed to get version") e)

  unfoldable pub migrate_version : Migration
  unfolding with_migrator shown_version
  migrate_version = with_migrator (shown_version env.version)

-- The commands below `migrate`, with the arguments that their `Args` let through
pub data Command : Type 0 where
  up_command : Command
  down_command : Option Bytes → Command
  status_command : Command
  force_command : Bytes → Command
  version_command : Command

unfoldable pub run_command : MigrateEnvironment → Command → Migration
unfolding migrate_up migrate_down migrate_status migrate_force migrate_version
run_command env up_command = migrate_up env
run_command env (down_command arg) = migrate_down env arg
run_command env status_command = migrate_status env
run_command env (force_command arg) = migrate_force env arg
run_command env version_command = migrate_version env
