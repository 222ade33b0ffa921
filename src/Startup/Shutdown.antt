-- ===== src/Startup/Shutdown.antt =====
-- The end of Run in cmd/run.go: the goroutine that waits for a signal, and the main one, which
-- listens and then waits for the other, as steps that may happen in any order.
use e5renew.Prelude.{ℕ, suc, ◌≡◌, Bool, true, false, Option, none, some}
use e5renew.Failure.{Error}

-- ListenAndServe; `<-serverCtx.Done()`; and the return from Run, with its error
pub data Main : Type 0 where
  serving : Main
  awaiting : Main
  returned : Option Error → Main

-- `<-sig`; in server.Shutdown, before and behind the closing of the listeners; s.Shutdown;
-- otelProvider.Shutdown; serverStopCtx; the end of the goroutine
pub data Stopper : Type 0 where
  idle : Stopper
  closing : Stopper
  draining : Stopper
  stopping_scheduler : Stopper
  stopping_telemetry : Stopper
  cancelling : Stopper
  finished : Stopper

pub record Process : Type 0 where
  pub main : Main
  pub stopper : Stopper
  pub signalled : Bool
  pub listeners_closed : Bool
  pub context_done : Bool

abbrev pub started : Process
started = record {
  main = serving;
  stopper = idle;
  signalled = false;
  listeners_closed = false;
  context_done = false;
}

abbrev pub runs : Main → Bool
runs (returned e) = false
runs _ = true

-- One step of either goroutine, or a signal. When the main one has returned, the process ends. An
-- error of one of the shutdowns is logged and changes no step.
pub data Step : Process → Process → Type 0 where
  signal :
      {p : Process}
      → runs p.main ≡ true
      → p.signalled ≡ false
      → Step p (record p { signalled = true })
  notice :
      {p : Process}
      → runs p.main ≡ true
      → p.signalled ≡ true
      → p.stopper ≡ idle
      → Step p (record p { stopper = closing })
  close_listeners :
      {p : Process}
      → runs p.main ≡ true
      → p.stopper ≡ closing
      → Step p (record p { stopper = draining; listeners_closed = true })
  drained :
      {p : Process}
      → runs p.main ≡ true
      → p.stopper ≡ draining
      → Step p (record p { stopper = stopping_scheduler })
  scheduler_stopped :
      {p : Process}
      → runs p.main ≡ true
      → p.stopper ≡ stopping_scheduler
      → Step p (record p { stopper = stopping_telemetry })
  telemetry_stopped :
      {p : Process}
      → runs p.main ≡ true
      → p.stopper ≡ stopping_telemetry
      → Step p (record p { stopper = cancelling })
  cancel :
      {p : Process}
      → runs p.main ≡ true
      → p.stopper ≡ cancelling
      → Step p (record p { stopper = finished; context_done = true })
  listen_failed :
      {p : Process} (e : Error)
      → p.main ≡ serving
      → p.listeners_closed ≡ false
      → Step p (record p { main = returned (some e) })
  server_closed :
      {p : Process}
      → p.main ≡ serving
      → p.listeners_closed ≡ true
      → Step p (record p { main = awaiting })
  wake :
      {p : Process}
      → p.main ≡ awaiting
      → p.context_done ≡ true
      → Step p (record p { main = returned none })

-- Some number of steps from the start
pub data Run : ℕ → Process → Type 0 where
  begin : Run 0 started
  then_step : {n : ℕ} {p q : Process} → Run n p → Step p q → Run (suc n) q
