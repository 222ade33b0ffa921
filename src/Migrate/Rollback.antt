-- ===== src/Migrate/Rollback.antt =====
-- What the commands of cmd/migrate.go ask of the migrator, and when they succeed.
use e5renew.Prelude.{
  ◌&&◌, subst, ℕ, zero, suc, ◌≡◌, refl, sym, ap, ◌∙◌, inl, inr, Bool, true, false, Option, none,
  some, List, [], ◌∷◌, ◌++◌, arith, Bool-cases, ltb, if◌then◌else◌, append_assoc, append-nil,
}
use e5renew.Prelude.Int.{ℤ, pos, negsuc, neg}
use e5renew.Text.{Bytes, codes, is_empty}
use e5renew.Failure.{Error, wrap, Result, ok, err, is_ok, emit, deferring, fail, ◌>>◌}
use e5renew.Engine.{Engine, mysql, postgres, unknown}
use e5renew.Logs.{atoi}
use e5renew.Migrate.{
  MigrateEvent, database_opened, database_closed, migrator_opened, migrator_closed, up_called,
  steps_called, force_called, printed, Applied, applied, no_change, failed, Version, version,
  nil_version, unreadable, MigrateEnvironment, Migration, connected, or_close, migrator_made,
  new_driver, get_migrator, with_migrator, unless_failed, migrate_up, roll_back, rolled_back,
  steps_back, migrate_down, shown_status, migrate_status, forced_to, force_version, migrate_force,
  shown_version, migrate_version, Command, up_command, down_command, status_command, force_command,
  version_command, run_command,
}

-- The event, if it is a call that may change the schema or its recorded version
abbrev call_of : MigrateEvent → List MigrateEvent
call_of up_called = up_called ∷ []
call_of (steps_called z) = steps_called z ∷ []
call_of (force_called z) = force_called z ∷ []
call_of _ = []

unfoldable pub calls : List MigrateEvent → List MigrateEvent
calls [] = []
calls (event ∷ trace) = call_of event ++ calls trace

calls-snoc :
    (trace : List MigrateEvent) (event : MigrateEvent)
    → calls (trace ++ event ∷ []) ≡ calls trace ++ call_of event
unfolding calls
calls-snoc [] event = append-nil (call_of event)
calls-snoc (e ∷ trace) event =
    ap (λ r. call_of e ++ r) (calls-snoc trace event)
    ∙ sym (append_assoc (call_of e) (calls trace) (call_of event))

-- Whether an answer of the migrator is a good one; that there is nothing to do is.
abbrev is_good : Applied → Bool
is_good applied = true
is_good no_change = true
is_good (failed e) = false

abbrev is_readable : Version → Bool
is_readable (version n dirty) = true
is_readable nil_version = true
is_readable (unreadable e) = false

-- What a command asks of the migrator, and whether that answers well; `none` if the argument of the
-- command is refused.
abbrev pub Asked : Type 0
Asked = Option (List MigrateEvent × Bool)

module _ (env : MigrateEnvironment) where
  abbrev positive_steps : Option ℤ → Asked
  positive_steps (some (pos (suc n))) =
      some (steps_called (negsuc n) ∷ [], is_good (env.steps (negsuc n)))
  positive_steps _ = none

  abbrev forced_version : Option ℤ → Asked
  forced_version none = none
  forced_version (some z) = some (force_called z ∷ [], is_ok (env.force z))

  abbrev pub asked : Command → Asked
  unfolding atoi
  asked up_command = some (up_called ∷ [], is_good env.up)
  asked (down_command none) = some (steps_called (negsuc 0) ∷ [], is_good (env.steps (negsuc 0)))
  asked (down_command (some arg)) = positive_steps (atoi arg)
  asked status_command = some ([], is_readable env.version)
  asked (force_command arg) = forced_version (atoi arg)
  asked version_command = some ([], is_readable env.version)

-- The outcome: the calls that were asked for and success if they answer well; without a migrator no
-- call and no success; and with a bad argument not even a connection.
abbrev pub DoesAsAsked : Asked → Bool → Result (Unit {0}) × List MigrateEvent → Type 0
DoesAsAsked none has_migrator (r, trace) = (is_ok r ≡ false) × (trace ≡ [])
DoesAsAsked (some (cs, good)) has_migrator (r, trace) =
    (calls trace ≡ (if has_migrator then cs else [])) × (is_ok r ≡ (has_migrator && good))

record Does (cs : List MigrateEvent) (good : Bool) (m : Migration) : Type 0 where
  does : (trace : List MigrateEvent) → calls (m trace).1 ≡ calls trace ++ cs
  succeeds : (trace : List MigrateEvent) → is_ok (m trace).0 ≡ good

quiet :
    (event : MigrateEvent)
    → call_of event ≡ []
    → (trace : List MigrateEvent) → calls (trace ++ event ∷ []) ≡ calls trace
quiet event e trace =
    calls-snoc trace event ∙ ap (λ c. calls trace ++ c) e ∙ append-nil (calls trace)

Does-quiet : (event : MigrateEvent) → call_of event ≡ [] → Does [] true (emit event)
Does-quiet event e = record {
  does = λ trace. quiet event e trace ∙ sym (append-nil (calls trace));
  succeeds = λ trace. refl;
}

Does-fail : (e : Error) → Does [] false (fail e)
Does-fail e = record { does = λ trace. sym (append-nil (calls trace)); succeeds = λ trace. refl }

Does-emit :
    (event : MigrateEvent) {cs : List MigrateEvent} {good : Bool} (m : Migration)
    → Does cs good m
    → Does (call_of event ++ cs) good (emit event >> m)
Does-emit event {cs} m d = record {
  does = λ trace.
      d.does (trace ++ event ∷ [])
      ∙ ap (λ c. c ++ cs) (calls-snoc trace event)
      ∙ append_assoc (calls trace) (call_of event) cs;
  succeeds = λ trace. d.succeeds (trace ++ event ∷ []);
}

unchanged_by :
    (r driver made : Result (Unit {0})) (what source name : Bytes) (trace : List MigrateEvent)
    → calls ((connected r >> (or_close what driver >> migrator_made source name made)) trace).1
      ≡ calls trace
unchanged_by (err e) driver made what source name trace = refl
unchanged_by (ok done) (err e) made what source name trace =
    quiet database_closed refl _ ∙ quiet database_opened refl trace
unchanged_by (ok done) (ok driver) (err e) what source name trace =
    quiet database_closed refl _ ∙ quiet database_opened refl trace
unchanged_by (ok done) (ok driver) (ok made) what source name trace =
    quiet (migrator_opened source name) refl _ ∙ quiet database_opened refl trace

module _ (env : MigrateEnvironment) where
  by_engine :
      (engine : Engine) (r made : Result (Unit {0})) (source name : Bytes)
      (trace : List MigrateEvent)
      → calls ((connected r >> (new_driver env engine >> migrator_made source name made)) trace).1
        ≡ calls trace
  unfolding new_driver
  by_engine postgres r made source name = unchanged_by r env.new_postgres_driver made _ source name
  by_engine mysql r made source name = unchanged_by r env.new_mysql_driver made _ source name
  by_engine (unknown n) r made source name = unchanged_by r env.new_mysql_driver made _ source name

  calls-get_migrator : calls (get_migrator env []).1 ≡ []
  unfolding get_migrator calls
  calls-get_migrator = elim (Bool-cases (is_empty env.dsn)) [
    | inl no_dsn ↦ rw no_dsn refl
    | inr dsn ↦ rw dsn (by_engine _ _ _ _ _ [])
  ]

  abbrev has_migrator : Bool
  has_migrator = is_ok (get_migrator env []).0

  behind_migrator :
      (r : Result (Unit {0})) (t before cs : List MigrateEvent) (good : Bool) (m : Migration)
      → calls t ≡ []
      → Does cs good m
      → DoesAsAsked
          (some (cs, good))
          (is_ok r)
          (((λ _. (r, t)) >> deferring migrator_closed m) before)
  behind_migrator (err e) t before cs good m none_yet d = (none_yet, refl)
  behind_migrator (ok done) t before cs good m none_yet d =
      (quiet migrator_closed refl (m t).1 ∙ d.does t ∙ ap (λ c. c ++ cs) none_yet, d.succeeds t)

  with_migrator-DoesAsAsked :
      (cs : List MigrateEvent) (good : Bool) (m : Migration)
      → Does cs good m
      → DoesAsAsked (some (cs, good)) has_migrator (with_migrator env m [])
  unfolding with_migrator
  with_migrator-DoesAsAsked cs good m d =
      behind_migrator (get_migrator env []).0 (get_migrator env []).1 [] cs good m
        calls-get_migrator d

  Does-printed : (text : Bytes) → Does [] true (emit (printed text))
  Does-printed text = Does-quiet (printed text) refl

  Does-unless_failed :
      (what : Bytes) (r : Applied) (message : Bytes)
      → Does [] (is_good r) (unless_failed env what r message)
  Does-unless_failed what applied message = Does-printed message
  Does-unless_failed what no_change message = Does-printed message
  Does-unless_failed what (failed e) message = Does-fail (wrap what e)

  Does-forced_to : (n : ℤ) (r : Result (Unit {0})) → Does [] (is_ok r) (forced_to env n r)
  Does-forced_to n (ok done) = Does-printed _
  Does-forced_to n (err e) = Does-fail _

  roll_back-DoesAsAsked :
      (n : ℕ)
      → DoesAsAsked
          (some (steps_called (negsuc n) ∷ [], is_good (env.steps (negsuc n))))
          has_migrator
          (roll_back env (suc n) [])
  unfolding roll_back
  roll_back-DoesAsAsked n =
      let same : neg (suc n) ≡ negsuc n = ground arith in
      subst
        (λ z.
          DoesAsAsked (some (steps_called z ∷ [], is_good (env.steps z))) has_migrator
            (roll_back env (suc n) []))
        same
        (with_migrator-DoesAsAsked _ _ _ (
          Does-emit (steps_called (neg (suc n))) _ (
            Does-unless_failed (codes "rollback failed") (env.steps (neg (suc n)))
              (rolled_back env (suc n)))))

  steps_back-DoesAsAsked :
      (arg : Bytes) (steps : Option ℤ)
      → DoesAsAsked (positive_steps env steps) has_migrator (steps_back env arg steps [])
  unfolding steps_back
  steps_back-DoesAsAsked arg none = (refl, refl)
  steps_back-DoesAsAsked arg (some (negsuc n)) = (refl, refl)
  steps_back-DoesAsAsked arg (some (pos zero)) = (refl, refl)
  steps_back-DoesAsAsked arg (some (pos (suc n))) =
      let enough : ltb (suc n) 1 ≡ false = ground arith in rw enough (roll_back-DoesAsAsked n)

  force_version-DoesAsAsked :
      (arg : Bytes) (version : Option ℤ)
      → DoesAsAsked (forced_version env version) has_migrator (force_version env arg version [])
  unfolding force_version
  force_version-DoesAsAsked arg none = (refl, refl)
  force_version-DoesAsAsked arg (some z) =
      with_migrator-DoesAsAsked _ _ _
        (Does-emit (force_called z) _ (Does-forced_to z (env.force z)))

  Does-shown_status : (v : Version) → Does [] (is_readable v) (shown_status env v)
  unfolding shown_status
  Does-shown_status (version n true) = Does-emit (printed _) _ (Does-printed _)
  Does-shown_status (version n false) = Does-emit (printed _) _ (Does-printed _)
  Does-shown_status nil_version = Does-printed _
  Does-shown_status (unreadable e) = Does-fail _

  Does-shown_version : (v : Version) → Does [] (is_readable v) (shown_version env v)
  unfolding shown_version
  Does-shown_version (version n dirty) = Does-printed _
  Does-shown_version nil_version = Does-printed _
  Does-shown_version (unreadable e) = Does-fail _

-- Each command of `migrate` calls the migrator by what it is asked for, once, if one can be opened,
-- and else not at all: `up` calls Up, `down` calls Steps with the negated number of its argument,
-- which is positive (1 without one), `force` calls Force with the version of its argument, and the two
-- commands that report call none of them. It succeeds just if the migrator can be opened and answers
-- without an error, where it is no error that nothing has to be changed or that there is no version
-- yet. A command whose argument is not such a number fails before it opens anything.
pub run_command-DoesAsAsked :
    (env : MigrateEnvironment) (command : Command)
    → DoesAsAsked (asked env command) (is_ok (get_migrator env []).0) (run_command env command [])
unfolding run_command migrate_up migrate_down migrate_status migrate_force migrate_version asked
run_command-DoesAsAsked env up_command = with_migrator-DoesAsAsked env _ _ _ (
    Does-emit up_called _ (
      Does-unless_failed env (codes "migration failed") env.up
        (codes "All migrations applied successfully")))
run_command-DoesAsAsked env (down_command none) = roll_back-DoesAsAsked env 0
run_command-DoesAsAsked env (down_command (some arg)) = steps_back-DoesAsAsked env arg (atoi arg)
run_command-DoesAsAsked env status_command =
    with_migrator-DoesAsAsked env _ _ _ (Does-shown_status env env.version)
run_command-DoesAsAsked env (force_command arg) = force_version-DoesAsAsked env arg (atoi arg)
run_command-DoesAsAsked env version_command =
    with_migrator-DoesAsAsked env _ _ _ (Does-shown_version env env.version)
