-- ===== src/Telemetry/Requests.antt =====
-- internal/telemetry/middleware.go: HTTPMiddleware around the handlers of requests that are served at
-- the same time, as steps of a server in any order.
use e5renew.Prelude.{ℕ, ◌+◌, ◌≡◌, Bool, true, false, List, [], ◌∷◌, ◌++◌, leb, if◌then◌else◌}
use e5renew.Prelude.Int.{ℤ, pos, negsuc}
use e5renew.Text.{Bytes}
use e5renew.Telemetry.{
  Instrument, http_active_requests, http_request_count, error_count, Measurement, Measured,
  record_http_request, record_http_active_request, record_error,
}

-- A request that is served: the status that responseWriter has captured, 200 to begin with, and
-- whether the handler has returned and its request is recorded
pub record Served : Type 0 where
  pub method : Bytes
  pub path : Bytes
  pub status_code : ℕ
  pub recorded : Bool

pub record Server : Type 0 where
  pub served : List Served
  pub measured : Measured
  pub begun : ℕ

abbrev pub new_server : Server
new_server = record { served = []; measured = []; begun = 0 }

-- What the middleware records once a handler has returned
unfoldable pub record_response : Served → ℕ → Measured → Measured
unfolding record_http_request record_error
record_response r duration m =
    let m' = record_http_request r.method r.path r.status_code duration m in
    if leb 400 r.status_code
    then if leb 500 r.status_code
      then record_error "http_server_error" m'
      else record_error "http_client_error" m'
    else m'

-- A request comes in; its handler calls WriteHeader; the handler returns; and the deferred call ends
-- it, behind that or when the handler panics.
pub data Step : Server → Server → Type 0 where
  begin :
      {s : Server} (method path : Bytes)
      → Step s (record {
        served =
            record { method = method; path = path; status_code = 200; recorded = false } ∷ s.served;
        measured = record_http_active_request (pos 1) s.measured;
        begun = s.begun + 1;
      })
  write_header :
      {s : Server} (before behind : List Served) (r : Served) (code : ℕ)
      → s.served ≡ before ++ r ∷ behind
      → r.recorded ≡ false
      → Step s (record s { served = before ++ record r { status_code = code } ∷ behind })
  respond :
      {s : Server} (before behind : List Served) (r : Served) (duration : ℕ)
      → s.served ≡ before ++ r ∷ behind
      → r.recorded ≡ false
      → Step s (record s {
        served = before ++ record r { recorded = true } ∷ behind;
        measured = record_response r duration s.measured;
      })
  leave :
      {s : Server} (before behind : List Served) (r : Served)
      → s.served ≡ before ++ r ∷ behind
      → Step s (record s {
        served = before ++ behind;
        measured = record_http_active_request (negsuc 0) s.measured;
      })

pub data Reachable : Server → Type 0 where
  fresh : Reachable new_server
  onwards : {s s' : Server} → Reachable s → Step s s' → Reachable s'

-- How often the gauge of active requests has been raised and lowered
abbrev pub raise : Instrument → ℤ → ℕ
raise http_active_requests (pos n) = n
raise _ _ = 0

abbrev pub lower : Instrument → ℤ → ℕ
lower http_active_requests (negsuc n) = n + 1
lower _ _ = 0

abbrev pub request : Instrument → ℕ
request http_request_count = 1
request _ = 0

abbrev pub error : Instrument → ℕ
error error_count = 1
error _ = 0

abbrev pub sum_of : (Measurement → ℕ) → Measured → ℕ
sum_of f [] = 0
sum_of f (x ∷ m) = f x + sum_of f m

abbrev pub raised : Measured → ℕ
raised = sum_of (λ x. raise x.instrument x.amount)

abbrev pub lowered : Measured → ℕ
lowered = sum_of (λ x. lower x.instrument x.amount)

abbrev pub requests : Measured → ℕ
requests = sum_of (λ x. request x.instrument)

abbrev pub errors : Measured → ℕ
errors = sum_of (λ x. error x.instrument)

-- How many of the requests that are served are recorded already
abbrev pub recorded_of : List Served → ℕ
recorded_of [] = 0
recorded_of (r ∷ rs) = (if r.recorded then 1 else 0) + recorded_of rs
