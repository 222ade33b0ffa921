-- ===== src/Startup/Termination.antt =====
-- The end of the program comes, once it is asked for, and comes in order.
use e5renew.Prelude.{
  ℕ, ◌+◌, ◌≤◌, ◌<◌, ◌≡◌, refl, sym, ap, ◌∙◌, subst, Bool, true, false, arith, none, some,
}
use e5renew.Failure.{Error}
use e5renew.Startup.Shutdown.{
  Main, serving, awaiting, returned, Stopper, idle, closing, draining, stopping_scheduler,
  stopping_telemetry, cancelling, finished, Process, runs, Step, signal, notice, close_listeners,
  drained, scheduler_stopped, telemetry_stopped, cancel, listen_failed, server_closed, wake, Run,
  begin, then_step,
}

abbrev main_left : Main → ℕ
main_left serving = 2
main_left awaiting = 1
main_left (returned e) = 0

abbrev stopper_left : Stopper → ℕ
stopper_left idle = 6
stopper_left closing = 5
stopper_left draining = 4
stopper_left stopping_scheduler = 3
stopper_left stopping_telemetry = 2
stopper_left cancelling = 1
stopper_left finished = 0

abbrev signals_left : Bool → ℕ
signals_left true = 0
signals_left false = 1

-- No more steps than these are left.
abbrev left : Process → ℕ
left p = main_left p.main + stopper_left p.stopper + signals_left p.signalled

Step-left : {p q : Process} → Step p q → left q < left p
Step-left (signal r h) = ground arith
Step-left (notice r h i) = ground arith
Step-left (close_listeners r h) = ground arith
Step-left (drained r h) = ground arith
Step-left (scheduler_stopped r h) = ground arith
Step-left (telemetry_stopped r h) = ground arith
Step-left (cancel r h) = ground arith
Step-left (listen_failed e r h) = ground arith
Step-left (server_closed r h) = ground arith
Step-left (wake r h) = ground arith

Run-left : {n : ℕ} {p : Process} → Run n p → n + left p ≤ 9
Run-left begin = omega arith
Run-left (then_step r s) = omega (arith, Run-left r, Step-left s)

abbrev past_closing : Stopper → Bool
past_closing idle = false
past_closing closing = false
past_closing _ = true

abbrev is_finished : Stopper → Bool
is_finished finished = true
is_finished _ = false

abbrev is_idle : Stopper → Bool
is_idle idle = true
is_idle _ = false

-- What the main goroutine has waited for: the closing of the listeners, and the cancelling
abbrev Waited : Main → Bool → Bool → Type 0
Waited serving listeners_closed context_done = Unit
Waited awaiting listeners_closed context_done = listeners_closed ≡ true
Waited (returned none) listeners_closed context_done = context_done ≡ true
Waited (returned (some e)) listeners_closed context_done = Unit

Waited-closed : (m : Main) (c d : Bool) → Waited m c d → Waited m true d
Waited-closed serving c d h = tt
Waited-closed awaiting c d h = refl
Waited-closed (returned none) c d h = h
Waited-closed (returned (some e)) c d h = tt

Waited-done : (m : Main) (c d : Bool) → Waited m c d → Waited m c true
Waited-done serving c d h = tt
Waited-done awaiting c d h = h
Waited-done (returned none) c d h = refl
Waited-done (returned (some e)) c d h = tt

record IsConsistent (p : Process) : Type 0 where
  closed : p.listeners_closed ≡ past_closing p.stopper
  done : p.context_done ≡ is_finished p.stopper
  asked : is_idle p.stopper ≡ false → p.signalled ≡ true
  waited : Waited p.main p.listeners_closed p.context_done

-- The stopper goes on from `from`, where it has noticed the signal.
moved :
    {p : Process} (from to : Stopper)
    → p.stopper ≡ from
    → is_idle from ≡ false
    → past_closing from ≡ past_closing to
    → is_finished from ≡ is_finished to
    → IsConsistent p
    → IsConsistent (record p { stopper = to })
moved from to at busy closes finishes c = record {
  closed = c.closed ∙ ap past_closing at ∙ closes;
  done = c.done ∙ ap is_finished at ∙ finishes;
  asked = λ _. c.asked (ap is_idle at ∙ busy);
  waited = c.waited;
}

Step-IsConsistent : {p q : Process} → Step p q → IsConsistent p → IsConsistent q
Step-IsConsistent (signal r h) c = record {
  closed = c.closed;
  done = c.done;
  asked = λ _. refl;
  waited = c.waited;
}
Step-IsConsistent (notice r h i) c = record {
  closed = c.closed ∙ ap past_closing i;
  done = c.done ∙ ap is_finished i;
  asked = λ _. h;
  waited = c.waited;
}
Step-IsConsistent (close_listeners {p} r at) c = record {
  closed = refl;
  done = c.done ∙ ap is_finished at;
  asked = λ _. c.asked (ap is_idle at);
  waited = Waited-closed p.main p.listeners_closed p.context_done c.waited;
}
Step-IsConsistent (drained r at) c = moved draining stopping_scheduler at refl refl refl c
Step-IsConsistent (scheduler_stopped r at) c =
    moved stopping_scheduler stopping_telemetry at refl refl refl c
Step-IsConsistent (telemetry_stopped r at) c =
    moved stopping_telemetry cancelling at refl refl refl c
Step-IsConsistent (cancel {p} r at) c = record {
  closed = c.closed ∙ ap past_closing at;
  done = refl;
  asked = λ _. c.asked (ap is_idle at);
  waited = Waited-done p.main p.listeners_closed p.context_done c.waited;
}
Step-IsConsistent (listen_failed e r h) c = record {
  closed = c.closed;
  done = c.done;
  asked = c.asked;
  waited = tt;
}
Step-IsConsistent (server_closed r h) c = record {
  closed = c.closed;
  done = c.done;
  asked = c.asked;
  waited = h;
}
Step-IsConsistent (wake r h) c = record {
  closed = c.closed;
  done = c.done;
  asked = c.asked;
  waited = h;
}

Run-IsConsistent : {n : ℕ} {p : Process} → Run n p → IsConsistent p
Run-IsConsistent begin = record { closed = refl; done = refl; asked = λ busy. cc; waited = tt }
Run-IsConsistent (then_step r s) = Step-IsConsistent s (Run-IsConsistent r)

-- Where the program stands
pub data Outlook (p : Process) : Type 0 where
  waiting : p.main ≡ serving → p.signalled ≡ false → Outlook p
  going_on : {q : Process} → p.signalled ≡ true → Step p q → Outlook p
  failed : {e : Error} → p.main ≡ returned (some e) → Outlook p
  shut_down : p.main ≡ returned none → p.stopper ≡ finished → p.signalled ≡ true → Outlook p

-- The stopper, or the main goroutine behind it, goes on.
goes_on :
    {p : Process} (s : Stopper) (m : Main)
    → p.stopper ≡ s
    → p.main ≡ m
    → p.signalled ≡ true
    → IsConsistent p
    → runs p.main ≡ true
    → Outlook p
goes_on idle m at main set c r = going_on set (notice r set at)
goes_on closing m at main set c r = going_on set (close_listeners r at)
goes_on draining m at main set c r = going_on set (drained r at)
goes_on stopping_scheduler m at main set c r = going_on set (scheduler_stopped r at)
goes_on stopping_telemetry m at main set c r = going_on set (telemetry_stopped r at)
goes_on cancelling m at main set c r = going_on set (cancel r at)
goes_on finished serving at main set c r =
    going_on set (server_closed main (c.closed ∙ ap past_closing at))
goes_on finished awaiting at main set c r = going_on set (wake main (c.done ∙ ap is_finished at))
goes_on finished (returned e) at main set c r = ground arith

finished_of : (s : Stopper) → is_finished s ≡ true → s ≡ finished
finished_of finished h = refl
finished_of idle h = cc
finished_of closing h = cc
finished_of draining h = cc
finished_of stopping_scheduler h = cc
finished_of stopping_telemetry h = cc
finished_of cancelling h = cc

ends_behind :
    {p : Process}
    → IsConsistent p
    → p.main ≡ returned none
    → (p.stopper ≡ finished) × (p.signalled ≡ true)
ends_behind {p} c e = (at, c.asked (ap is_idle at))
  where
    cancelled : p.context_done ≡ true
    cancelled = subst (λ m. Waited m p.listeners_closed p.context_done) e c.waited

    at : p.stopper ≡ finished
    at = finished_of p.stopper (sym c.done ∙ cancelled)

busy_of : (s : Stopper) → past_closing s ≡ true → is_idle s ≡ false
busy_of idle h = cc
busy_of closing h = refl
busy_of draining h = refl
busy_of stopping_scheduler h = refl
busy_of stopping_telemetry h = refl
busy_of cancelling h = refl
busy_of finished h = refl

-- The main goroutine awaits the other only behind a signal.
asked_of : {p : Process} → IsConsistent p → p.main ≡ awaiting → p.signalled ≡ true
asked_of {p} c e = c.asked (busy_of p.stopper (sym c.closed ∙ closed_by))
  where
    closed_by : p.listeners_closed ≡ true
    closed_by = subst (λ m. Waited m p.listeners_closed p.context_done) e c.waited

outlook_of :
    {p : Process} (m : Main) (signalled : Bool)
    → p.main ≡ m
    → p.signalled ≡ signalled
    → IsConsistent p
    → Outlook p
outlook_of {p} serving false main set c = waiting main set
outlook_of {p} serving true main set c = goes_on p.stopper serving refl main set c (ap runs main)
outlook_of {p} awaiting signalled main set c =
    goes_on p.stopper awaiting refl main (asked_of c main) c (ap runs main)
outlook_of (returned (some e)) signalled main set c = failed main
outlook_of (returned none) signalled main set c =
    shut_down main (ends_behind c main).0 (ends_behind c main).1

-- From the start of the listening, in whatever order the signal, the failure of the listening and the
-- steps of the two goroutines come, the program has taken at most 9 steps; and it waits for a signal
-- while it listens, or has a signal and can go on, or has returned the error of the listening, or has
-- returned without an error, which is only behind a signal and the shutdown of the server, of the
-- scheduler and of the telemetry.
pub shutdown_ends : {n : ℕ} {p : Process} → Run n p → (n ≤ 9) × Outlook p
shutdown_ends {n} {p} run =
    (omega (arith, Run-left run), outlook_of p.main p.signalled refl refl (Run-IsConsistent run))
