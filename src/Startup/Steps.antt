-- ===== src/Startup/Steps.antt =====
-- The error of the start is that of its first step that fails, and then no job is scheduled.
use e5renew.Prelude.{
  ◌≡◌, refl, sym, ap, ◌∙◌, subst, arith, Bool, true, false, ◌||◌, Option, none, some, List, [], ◌∷◌,
  ◌++◌,
}
use e5renew.Text.{Bytes, codes}
use e5renew.Failure.{Error, wrap, Result, ok, err, Exec, emit, deferring, ◌>>◌}
use e5renew.Engine.{SessionStore, parse_engine, new_session_store_for_engine}
use e5renew.Engine.Choice.{session_store_opens}
use e5renew.Startup.{
  Event, sessions_opened, scheduler_started, error_recorded, Trace, Serving, fails, stopped,
  recorded, step, session_step,
}

abbrev pub Plan : Type 0
Plan = List (Bytes × Result (Unit {0}))

-- The error of the first step that fails
abbrev pub first_failure : Plan → Option Error
first_failure [] = none
first_failure ((what, ok done) ∷ plan) = first_failure plan
first_failure ((what, err e) ∷ plan) = some (wrap (codes "failed to initialize " ++ what) e)

abbrev pub first_error : List (Result (Unit {0})) → Result (Unit {0})
first_error [] = ok tt
first_error (ok done ∷ rs) = first_error rs
first_error (err e ∷ rs) = err e

-- How the listening ends, as Run reports it
abbrev pub listened : Serving → Result (Unit {0})
listened (fails e) = err (wrap (codes "server failed to start") e)
listened (stopped server scheduler telemetry) = ok tt

abbrev pub reported : Option Error → Result (Unit {0}) → Result (Unit {0})
reported none r = r
reported (some e) r = err e

abbrev pub is_none : Option Error → Bool
is_none none = true
is_none (some e) = false

abbrev pub is_start : Event → Bool
is_start scheduler_started = true
is_start _ = false

-- Whether the scheduler has been started
unfoldable pub starts : Trace → Bool
starts [] = false
starts (event ∷ trace) = is_start event || starts trace

pub or-false : (b : Bool) → (b || false) ≡ b
or-false true = refl
or-false false = refl

pub starts-snoc :
    (trace : Trace) (event : Event)
    → starts (trace ++ event ∷ []) ≡ (starts trace || is_start event)
unfolding starts
starts-snoc [] event = or-false (is_start event)
starts-snoc (e ∷ trace) event = ground (arith, starts-snoc trace event)

pub starts-other :
    (trace : Trace) (event : Event)
    → is_start event ≡ false
    → starts (trace ++ event ∷ []) ≡ starts trace
starts-other trace event other =
    starts-snoc trace event ∙ ap (λ b. starts trace || b) other ∙ or-false (starts trace)

pub starts-recorded :
    (kind : Option Bytes) (trace : Trace) → starts (recorded kind trace) ≡ starts trace
starts-recorded none trace = refl
starts-recorded (some kind) trace = starts-other trace (error_recorded kind) refl

-- What fails with the plan, and else ends with `final`; and starts the scheduler just if no step of
-- the plan fails.
pub record Follows (plan : Plan) (final : Result (Unit {0})) (m : Exec Trace (Unit {0}))
    : Type 0 where
  pub result : (trace : Trace) → (m trace).0 ≡ reported (first_failure plan) final
  pub started :
      (trace : Trace) → starts (m trace).1 ≡ (starts trace || is_none (first_failure plan))

module _ (plan : Plan) (final : Result (Unit {0})) (m : Exec Trace (Unit {0}))
    (follows : Follows plan final m) where
  started_behind :
      (event : Event) (trace : Trace)
      → is_start event ≡ false
      → starts (m (trace ++ event ∷ [])).1 ≡ (starts trace || is_none (first_failure plan))
  started_behind event trace other =
      follows.started (trace ++ event ∷ [])
      ∙ ap (λ b. b || is_none (first_failure plan)) (starts-other trace event other)

  pub Follows-emit : (event : Event) → is_start event ≡ false → Follows plan final (emit event >> m)
  Follows-emit event other = record {
    result = λ trace. follows.result (trace ++ event ∷ []);
    started = λ trace. started_behind event trace other;
  }

  pub Follows-deferring :
      (event : Event) → is_start event ≡ false → Follows plan final (deferring event m)
  Follows-deferring event other = record {
    result = follows.result;
    started = λ trace. starts-other (m trace).1 event other ∙ follows.started trace;
  }

  pub Follows-step :
      (what : Bytes) (kind : Option Bytes) (event : Event) (r : Result (Unit {0}))
      → is_start event ≡ false
      → Follows ((what, r) ∷ plan) final (step what kind event r >> m)
  unfolding step
  Follows-step what kind event (ok done) other = record {
    result = λ trace. follows.result (trace ++ event ∷ []);
    started = λ trace. started_behind event trace other;
  }
  Follows-step what kind event (err e) other = record {
    result = λ trace. refl;
    started = λ trace. starts-recorded kind trace ∙ sym (or-false (starts trace));
  }

  Follows-session_step : (store : SessionStore) → Follows plan final (session_step (ok store) >> m)
  unfolding session_step
  Follows-session_step store = record {
    result = λ trace. follows.result (trace ++ sessions_opened store ∷ []);
    started = λ trace. started_behind (sessions_opened store) trace refl;
  }

  pub Follows-sessions :
      (fold : Bytes → Bytes) (value : Bytes)
      → Follows plan final
          (session_step (new_session_store_for_engine (parse_engine fold value)) >> m)
  Follows-sessions fold value =
      let opened = session_store_opens fold value in
      subst (λ r. Follows plan final (session_step r >> m)) (sym (opened.1))
        (Follows-session_step opened.0)
