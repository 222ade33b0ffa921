-- ===== src/Migrate/Connections.antt =====
-- Every command of cmd/migrate.go closes the database connection that it opens.
use e5renew.Prelude.{
  ℕ, zero, suc, ◌≡◌, refl, inl, inr, true, false, Option, none, some, List, [], ◌∷◌, ◌++◌,
  Bool-cases, ltb,
}
use e5renew.Prelude.Int.{ℤ, pos, negsuc, neg}
use e5renew.Text.{Bytes, codes, is_empty}
use e5renew.Failure.{Error, wrap, Result, ok, err, emit, deferring, fail, ◌>>◌}
use e5renew.Engine.{Engine, mysql, postgres, unknown}
use e5renew.Logs.{atoi}
use e5renew.Settlement
use e5renew.Settlement.{settle, Leaves}
use e5renew.Migrate.{
  Command, up_command, down_command, status_command, force_command, version_command, run_command,
  MigrateEvent, database_opened, database_closed, migrator_opened, migrator_closed, up_called,
  steps_called, force_called, printed, Applied, applied, no_change, failed, Version, version,
  nil_version, unreadable, MigrateEnvironment, Migration, connected, or_close, migrator_made,
  new_driver, get_migrator, with_migrator, unless_failed, migrate_up, roll_back, rolled_back,
  steps_back, migrate_down, shown_status, migrate_status, forced_to, force_version, migrate_force,
  shown_version, migrate_version,
}

abbrev one_less : ℕ → Option ℕ
one_less zero = none
one_less (suc n) = some n

-- The open connections behind an event. Closing the migrator closes its connection.
abbrev pub connections_after : MigrateEvent → ℕ → Option ℕ
connections_after database_opened n = some (suc n)
connections_after database_closed n = one_less n
connections_after migrator_closed n = one_less n
connections_after _ n = some n

abbrev LeavesOpen : List MigrateEvent → ℕ → Type 0
LeavesOpen trace n = Leaves connections_after 0 trace n

abbrev Keeps : Migration → Type 0
Keeps m = Settlement.Keeps connections_after 0 m

abbrev one_more : Result (Unit {0}) → ℕ → ℕ
one_more (ok done) n = suc n
one_more (err e) n = n

-- What opens a connection just if it succeeds
record Opens (m : Migration) : Type 0 where
  opens :
      (trace : List MigrateEvent) (n : ℕ)
      → LeavesOpen trace n
      → LeavesOpen (m trace).1 (one_more (m trace).0 n)

happened :
    (event : MigrateEvent) (trace : List MigrateEvent) (n : ℕ)
    → LeavesOpen trace n
    → settle connections_after (some 0) (trace ++ event ∷ []) ≡ connections_after event n
happened = Settlement.emitted connections_after 0

Keeps-fail : (e : Error) → Keeps (fail e)
Keeps-fail e = record { keeps = λ trace n h. h }

opened_by :
    (r driver made : Result (Unit {0})) (what source name : Bytes)
    → Opens (connected r >> (or_close what driver >> migrator_made source name made))
opened_by (err e) driver made what source name = record { opens = λ trace n h. h }
opened_by (ok done) (err e) made what source name = record {
  opens = λ trace n h.
      happened database_closed (trace ++ database_opened ∷ []) (suc n)
        (happened database_opened trace n h);
}
opened_by (ok done) (ok driver) (err e) what source name = record {
  opens = λ trace n h.
      happened database_closed (trace ++ database_opened ∷ []) (suc n)
        (happened database_opened trace n h);
}
opened_by (ok done) (ok driver) (ok made) what source name = record {
  opens = λ trace n h.
      happened (migrator_opened source name) (trace ++ database_opened ∷ []) (suc n)
        (happened database_opened trace n h);
}

module _ (env : MigrateEnvironment) where
  by_engine :
      (engine : Engine) (r made : Result (Unit {0})) (source name : Bytes)
      → Opens (connected r >> (new_driver env engine >> migrator_made source name made))
  unfolding new_driver
  by_engine postgres r made source name =
      opened_by r env.new_postgres_driver made (codes "failed to create PostgreSQL driver") source
        name
  by_engine mysql r made source name =
      opened_by r env.new_mysql_driver made (codes "failed to create MySQL driver") source name
  by_engine (unknown other_name) r made source name =
      opened_by r env.new_mysql_driver made (codes "failed to create MySQL driver") source name

  get_migrator-Opens : Opens (get_migrator env)
  unfolding get_migrator
  get_migrator-Opens = elim (Bool-cases (is_empty env.dsn)) [
    | inl no_dsn ↦ rw no_dsn (record { opens = λ trace n h. h })
    | inr dsn ↦ rw dsn (by_engine _ _ _ _ _)
  ]

  behind_opening :
      (r : Result (Unit {0})) (t before : List MigrateEvent) (m : Migration) (n : ℕ)
      → Keeps m
      → LeavesOpen t (one_more r n)
      → LeavesOpen (((λ _. (r, t)) >> deferring migrator_closed m) before).1 n
  behind_opening (err e) t before m n km h = h
  behind_opening (ok done) t before m n km h =
      Settlement.deferring_closes connections_after 0 suc migrator_closed m (λ n. refl) km t n h

  Keeps-with_migrator : (m : Migration) → Keeps m → Keeps (with_migrator env m)
  unfolding with_migrator
  Keeps-with_migrator m km = record {
    keeps = λ trace n h.
        behind_opening (get_migrator env trace).0 (get_migrator env trace).1 trace m n km
          (get_migrator-Opens.opens trace n h);
  }

  Keeps-printed : (text : Bytes) → Keeps (emit (printed text))
  Keeps-printed text = Settlement.Keeps-emit connections_after 0 (printed text) (λ n. refl)

  Keeps-unless_failed :
      (what : Bytes) (r : Applied) (message : Bytes) → Keeps (unless_failed env what r message)
  Keeps-unless_failed what applied message = Keeps-printed message
  Keeps-unless_failed what no_change message = Keeps-printed message
  Keeps-unless_failed what (failed e) message = Keeps-fail (wrap what e)

  Keeps-forced_to : (n : ℤ) (r : Result (Unit {0})) → Keeps (forced_to env n r)
  Keeps-forced_to n (ok done) = Keeps-printed _
  Keeps-forced_to n (err e) = Keeps-fail _

  Keeps-roll_back : (n : ℕ) → Keeps (roll_back env n)
  unfolding roll_back
  Keeps-roll_back n = Keeps-with_migrator _ (
      Settlement.Keeps-then connections_after 0
        (Settlement.Keeps-emit connections_after 0 (steps_called (neg n)) (λ n. refl))
        (Keeps-unless_failed (codes "rollback failed") (env.steps (neg n)) (rolled_back env n)))

  Keeps-steps_back : (arg : Bytes) (steps : Option ℤ) → Keeps (steps_back env arg steps)
  unfolding steps_back
  Keeps-steps_back arg none = Keeps-fail _
  Keeps-steps_back arg (some (negsuc n)) = Keeps-fail _
  Keeps-steps_back arg (some (pos n)) = elim (Bool-cases (ltb n 1)) [
    | inl few ↦ rw few (Keeps-fail _)
    | inr enough ↦ rw enough (Keeps-roll_back n)
  ]

  Keeps-force_version : (arg : Bytes) (n : Option ℤ) → Keeps (force_version env arg n)
  unfolding force_version
  Keeps-force_version arg none = Keeps-fail _
  Keeps-force_version arg (some n) = Keeps-with_migrator _ (
      Settlement.Keeps-then connections_after 0
        (Settlement.Keeps-emit connections_after 0 (force_called n) (λ n. refl))
        (Keeps-forced_to n (env.force n)))

  Keeps-shown_status : (v : Version) → Keeps (shown_status env v)
  unfolding shown_status
  Keeps-shown_status (version n true) =
      Settlement.Keeps-then connections_after 0 (Keeps-printed _) (Keeps-printed _)
  Keeps-shown_status (version n false) =
      Settlement.Keeps-then connections_after 0 (Keeps-printed _) (Keeps-printed _)
  Keeps-shown_status nil_version = Keeps-printed _
  Keeps-shown_status (unreadable e) = Keeps-fail _

  Keeps-shown_version : (v : Version) → Keeps (shown_version env v)
  unfolding shown_version
  Keeps-shown_version (version n dirty) = Keeps-printed _
  Keeps-shown_version nil_version = Keeps-printed _
  Keeps-shown_version (unreadable e) = Keeps-fail _

  Keeps-run_command : (command : Command) → Keeps (run_command env command)
  unfolding run_command migrate_up migrate_down migrate_status migrate_force migrate_version
  Keeps-run_command up_command = Keeps-with_migrator _ (
      Settlement.Keeps-then connections_after 0
        (Settlement.Keeps-emit connections_after 0 up_called (λ n. refl))
        (Keeps-unless_failed (codes "migration failed") env.up
          (codes "All migrations applied successfully")))
  Keeps-run_command (down_command none) = Keeps-roll_back 1
  Keeps-run_command (down_command (some arg)) = Keeps-steps_back arg (atoi arg)
  Keeps-run_command status_command = Keeps-with_migrator _ (Keeps-shown_status env.version)
  Keeps-run_command (force_command arg) = Keeps-force_version arg (atoi arg)
  Keeps-run_command version_command = Keeps-with_migrator _ (Keeps-shown_version env.version)

-- Whatever the configuration, the arguments and the outcomes of the database are, and on every path
-- of failure, each command of `migrate` has closed the connection that it has opened when it ends,
-- and closes none that is not open.
pub run_command_settles :
    (env : MigrateEnvironment) (command : Command)
    → settle connections_after (some 0) (run_command env command []).1 ≡ some 0
unfolding settle
run_command_settles env command = (Keeps-run_command env command).keeps [] 0 refl
