-- ===== src/Startup/Planned.antt =====
-- The steps of the start, in their order, and the scheduling of the jobs as the last of them.
use e5renew.Prelude.{◌≡◌, refl, sym, ap, ◌∙◌, false, ◌||◌, Option, some, [], ◌∷◌, ◌++◌}
use e5renew.Prelude.Int.{pos}
use e5renew.Text.{Bytes, codes}
use e5renew.Failure.{Error, Result, ok, err, Exec, emit, ◌>>◌}
use e5renew.Engine.{parse_engine, new_db_with_engine}
use e5renew.Encryption.{new_encryption_service}
use e5renew.Startup.{
  Event, telemetry_stopped, scheduler_created, scheduler_started, scheduler_stopped, job_added,
  listening, server_stopped, error_logged, Trace, Serving, fails, stopped, Environment, adding,
  creating_scheduler, client_scope_job, user_mail_tokens_job, log_cleanup_job, new_job_scheduler,
  register_user_mail_tokens_job, register_log_cleanup_job, ended, served, scheduler_outcome,
  scheduling,
}
use e5renew.Startup.Steps.{
  Plan, first_failure, first_error, listened, reported, is_none, starts, is_start, starts-snoc,
  starts-other, starts-recorded, or-false, Follows,
}

module _ (env : Environment) where
  abbrev pub jobs_outcome : Result (Unit {0})
  jobs_outcome = first_error (
      env.new_scheduler
      ∷ env.new_job client_scope_job
      ∷ env.new_job user_mail_tokens_job
      ∷ env.new_job (log_cleanup_job (pos 30))
      ∷ [])

  abbrev pub encryption_service : Bytes × Result (Unit {0})
  encryption_service = (
    codes "encryption service",
    new_encryption_service env.sum256 env.new_cipher env.new_gcm env.encryption_key,
  )

  -- The steps of the start, in their order. Opening the session store cannot fail.
  abbrev pub plan_of : Plan
  plan_of =
      (codes "OpenTelemetry", env.telemetry)
      ∷ (codes "metrics", env.metrics)
      ∷ (
        codes "database connection",
        new_db_with_engine env.open_driver (parse_engine env.fold env.engine) env.dsn,
      )
      ∷ (codes "templates", env.templates)
      ∷ (codes "i18n", env.i18n)
      ∷ (codes "authenticator", env.authenticator)
      ∷ (codes "user token authenticator", env.user_token_authenticator)
      ∷ encryption_service
      ∷ (codes "job scheduler", jobs_outcome)
      ∷ []

  -- The jobs are added in their order, until one cannot be.
  scheduled :
      Result (Unit {0})
      → Result (Unit {0})
      → Result (Unit {0})
      → Result (Unit {0})
      → Exec Trace (Unit {0})
  scheduled r calls mails cleanup = do
    creating_scheduler r
    adding client_scope_job calls
    adding user_mail_tokens_job mails
    adding (log_cleanup_job (pos 30)) cleanup

  scheduled_lem :
      (r calls mails cleanup : Result (Unit {0})) (trace : Trace)
      → ((scheduled r calls mails cleanup trace).0 ≡ first_error (r ∷ calls ∷ mails ∷ cleanup ∷ []))
        × (starts (scheduled r calls mails cleanup trace).1 ≡ starts trace)
  unfolding scheduled
  scheduled_lem (err e) calls mails cleanup trace = (refl, refl)
  scheduled_lem (ok done) (err e) mails cleanup trace =
      (refl, starts-other trace scheduler_created refl)
  scheduled_lem (ok done) (ok calls) (err e) cleanup trace = (
    refl,
    starts-other _ (job_added client_scope_job) refl ∙ starts-other trace scheduler_created refl,
  )
  scheduled_lem (ok done) (ok calls) (ok mails) cleanup trace = (
    cleaned cleanup,
    quiet cleanup
        ∙ starts-other _ (job_added user_mail_tokens_job) refl
        ∙ starts-other _ (job_added client_scope_job) refl
        ∙ starts-other trace scheduler_created refl,
  )
    where
      behind : Trace
      behind =
          ((trace ++ scheduler_created ∷ []) ++ job_added client_scope_job ∷ [])
          ++ job_added user_mail_tokens_job ∷ []

      cleaned :
          (r : Result (Unit {0}))
          → (adding (log_cleanup_job (pos 30)) r behind).0 ≡ first_error (r ∷ [])
      cleaned (ok done) = refl
      cleaned (err e) = refl

      quiet :
          (r : Result (Unit {0}))
          → starts (adding (log_cleanup_job (pos 30)) r behind).1 ≡ starts behind
      quiet (ok done) = starts-other behind (job_added (log_cleanup_job (pos 30))) refl
      quiet (err e) = refl

  unfoldable pub started_jobs : Exec Trace (Unit {0})
  started_jobs = emit scheduler_started >> (emit listening >> served env env.serving)

  starts-ended :
      (event : Event) (r : Result (Unit {0})) (trace : Trace)
      → is_start event ≡ false
      → starts (ended env event r trace) ≡ starts trace
  starts-ended event (ok done) trace other = starts-other trace event other
  starts-ended event (err e) trace other =
      starts-other _ (error_logged e) refl ∙ starts-other trace event other

  served_lem :
      (s : Serving) (trace : Trace)
      → ((served env s trace).0 ≡ listened s) × (starts (served env s trace).1 ≡ starts trace)
  served_lem (fails e) trace = (refl, refl)
  served_lem (stopped server scheduler telemetry) trace = (
    refl,
    starts-ended telemetry_stopped telemetry _ refl
        ∙ starts-ended scheduler_stopped scheduler _ refl
        ∙ starts-ended server_stopped server trace refl,
  )

  Follows-started_jobs : Follows [] (listened env.serving) started_jobs
  unfolding started_jobs
  Follows-started_jobs = record {
    result = λ trace. (served_lem env.serving _).0;
    started = λ trace.
        (served_lem env.serving _).1
        ∙ starts-other (trace ++ scheduler_started ∷ []) listening refl
        ∙ starts-snoc trace scheduler_started;
  }

  -- Behind the scheduler's outcome
  behind_scheduler :
      (r : Result (Unit {0})) (t trace : Trace)
      → ((((λ _. scheduler_outcome env (r, t)) >> started_jobs) trace).0
          ≡ reported (first_failure ((codes "job scheduler", r) ∷ [])) (listened env.serving))
        × (starts (((λ _. scheduler_outcome env (r, t)) >> started_jobs) trace).1
            ≡ (starts t || is_none (first_failure ((codes "job scheduler", r) ∷ []))))
  behind_scheduler (ok done) t trace =
      (Follows-started_jobs.result t, Follows-started_jobs.started t)
  behind_scheduler (err e) t trace = (
    refl,
    starts-recorded (some (codes "job_scheduler_initialization")) t ∙ sym (or-false (starts t)),
  )

  abbrev made : Trace → Result (Unit {0}) × Trace
  made trace = new_job_scheduler env trace

  made_lem :
      (trace : Trace) → ((made trace).0 ≡ jobs_outcome) × (starts (made trace).1 ≡ starts trace)
  unfolding new_job_scheduler register_user_mail_tokens_job register_log_cleanup_job scheduled
  made_lem trace = scheduled_lem env.new_scheduler _ _ _ trace

  abbrev js : Result (Unit {0}) → Option Error
  js r = first_failure ((codes "job scheduler", r) ∷ [])

  pub Follows-scheduling :
      Follows
        ((codes "job scheduler", jobs_outcome) ∷ [])
        (listened env.serving)
        (scheduling env >> started_jobs)
  unfolding scheduling
  Follows-scheduling = record {
    result = λ trace.
        (behind_scheduler (made trace).0 (made trace).1 trace).0
        ∙ ap (λ r. reported (js r) (listened env.serving)) (made_lem trace).0;
    started = λ trace.
        (behind_scheduler (made trace).0 (made trace).1 trace).1
        ∙ ap (λ b. b || is_none (js (made trace).0)) (made_lem trace).1
        ∙ ap (λ r. starts trace || is_none (js r)) (made_lem trace).0;
  }
