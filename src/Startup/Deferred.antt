-- ===== src/Startup/Deferred.antt =====
-- The resources of the start are closed again, in the reverse order.
use e5renew.Prelude.{◌≡◌, refl, ◌∙◌, Option, none, some, List, [], ◌∷◌, ◌++◌}
use e5renew.Text.{Bytes, codes}
use e5renew.Failure.{Result, ok, err, Exec, emit, deferring, ◌>>◌}
use e5renew.Engine.{SessionStore}
use e5renew.Settlement
use e5renew.Settlement.{settle, Leaves}
use e5renew.Startup.{
  Job, Event, span_started, span_ended, database_opened, database_closed, sessions_stopped,
  sessions_opened, scheduler_created, job_added, error_recorded, Trace, recorded, step,
  session_step, adding, creating_scheduler,
}

pub data Resource : Type 0 where
  span database sessions : Resource

-- The open resources, the last one first, behind an event; `none` if it closes another than that.
abbrev closing : Resource → List Resource → Option (List Resource)
closing span (span ∷ open_ones) = some open_ones
closing database (database ∷ open_ones) = some open_ones
closing sessions (sessions ∷ open_ones) = some open_ones
closing _ _ = none

abbrev pub after_event : Event → List Resource → Option (List Resource)
after_event span_started open_ones = some (span ∷ open_ones)
after_event database_opened open_ones = some (database ∷ open_ones)
after_event (sessions_opened store) open_ones = some (sessions ∷ open_ones)
after_event span_ended open_ones = closing span open_ones
after_event database_closed open_ones = closing database open_ones
after_event sessions_stopped open_ones = closing sessions open_ones
after_event _ open_ones = some open_ones

abbrev pub Open : Trace → List Resource → Type 0
Open trace open_ones = Leaves after_event [] trace open_ones

abbrev pub Keeps : Exec Trace (Unit {0}) → Type 0
Keeps m = Settlement.Keeps after_event [] m

pub emitted :
    (event : Event) (trace : Trace) (open_ones : List Resource)
    → Open trace open_ones
    → settle after_event (some []) (trace ++ event ∷ []) ≡ after_event event open_ones
emitted = Settlement.emitted after_event []

pub Keeps-then : {m n : Exec Trace (Unit {0})} → Keeps m → Keeps n → Keeps (m >> n)
Keeps-then km kn = Settlement.Keeps-then after_event [] km kn

abbrev pub IsNeutral : Event → Type 0
IsNeutral event = Settlement.IsNeutral after_event event

pub Keeps-emit : (event : Event) → IsNeutral event → Keeps (emit event)
Keeps-emit event neutral = Settlement.Keeps-emit after_event [] event neutral

pub Keeps-recorded :
    (kind : Option Bytes) (trace : Trace) (open_ones : List Resource)
    → Open trace open_ones
    → Open (recorded kind trace) open_ones
Keeps-recorded none trace open_ones h = h
Keeps-recorded (some kind) trace open_ones h = emitted (error_recorded kind) trace open_ones h

pub Keeps-step :
    (what : Bytes) (kind : Option Bytes) (event : Event) (r : Result (Unit {0}))
    → IsNeutral event
    → Keeps (step what kind event r)
unfolding step
Keeps-step what kind event (ok done) neutral = Keeps-emit event neutral
Keeps-step what kind event (err e) neutral = record { keeps = Keeps-recorded kind }

pub Keeps-adding : (job : Job) (r : Result (Unit {0})) → Keeps (adding job r)
Keeps-adding job (ok done) = Keeps-emit (job_added job) (λ o. refl)
Keeps-adding job (err e) = record { keeps = λ trace open_ones h. h }

pub Keeps-creating : (r : Result (Unit {0})) → Keeps (creating_scheduler r)
Keeps-creating (ok done) = Keeps-emit scheduler_created (λ o. refl)
Keeps-creating (err e) = record { keeps = λ trace open_ones h. h }

pub deferring_closes :
    (r : Resource) (event : Event) (m : Exec Trace (Unit {0}))
    → ((open_ones : List Resource) → after_event event (r ∷ open_ones) ≡ some open_ones)
    → Keeps m
    → (trace : Trace) (open_ones : List Resource) → Open trace (r ∷ open_ones)
    → Open (deferring event m trace).1 open_ones
deferring_closes r event m closes km trace open_ones h =
    Settlement.deferring_closes after_event [] (λ o. r ∷ o) event m closes km trace open_ones h

-- A step that opens something, what is done with it, and its deferred closing
pub Keeps-opening :
    (r : Resource) (opens closes : Event) (m : Exec Trace (Unit {0})) (what : Bytes)
    (kind : Option Bytes) (outcome : Result (Unit {0}))
    → ((open_ones : List Resource) → after_event opens open_ones ≡ some (r ∷ open_ones))
    → ((open_ones : List Resource) → after_event closes (r ∷ open_ones) ≡ some open_ones)
    → Keeps m
    → Keeps (step what kind opens outcome >> deferring closes m)
unfolding step
Keeps-opening r opens closes m what kind (ok done) opened closed km = record {
  keeps = λ trace open_ones h.
      deferring_closes r closes m closed km _ open_ones
        (emitted opens trace open_ones h ∙ opened open_ones);
}
Keeps-opening r opens closes m what kind (err e) opened closed km = record {
  keeps = Keeps-recorded kind;
}

pub Keeps-session_step :
    {m : Exec Trace (Unit {0})} (outcome : Result SessionStore)
    → Keeps m
    → Keeps (session_step outcome >> deferring sessions_stopped m)
unfolding session_step
Keeps-session_step {m} (ok store) km = record {
  keeps = λ trace open_ones h.
      deferring_closes sessions sessions_stopped m (λ o. refl) km _ open_ones
        (emitted (sessions_opened store) trace open_ones h);
}
Keeps-session_step (err e) km = record { keeps = Keeps-recorded (some (codes "session_store")) }
