-- ===== src/Telemetry.antt =====
-- internal/telemetry/metrics.go: the instruments that NewMetrics creates, and what the functions
-- that record measurements add to them. The meter of OpenTelemetry is a parameter; durations are in
-- nanoseconds.
pub mod Requests
pub mod Sums
pub mod Balance
use e5renew.Prelude.{ℕ, ◌/◌, String, Bool, true, false, List, [], ◌∷◌, ◌++◌, if◌then◌else◌}
use e5renew.Prelude.Int.{ℤ, pos}
use e5renew.Text.{Bytes, codes, bytes_eq, decimal}
use e5renew.Failure.{Result, ok, err, wrap}

-- The fields of Metrics, in the order in which NewMetrics fills them
pub data Instrument : Type 0 where
  http_request_duration http_request_count http_active_requests : Instrument
  auth_attempts auth_success auth_failures session_created session_destroyed : Instrument
  db_connections db_query_duration db_query_count db_connection_errors : Instrument
  job_executions job_duration job_failures graph_api_requests graph_api_errors : Instrument
  app_start_time config_reloads error_count : Instrument

abbrev pub instrument_name : Instrument → Bytes
instrument_name http_request_duration = codes "http_request_duration_seconds"
instrument_name http_request_count = codes "http_requests_total"
instrument_name http_active_requests = codes "http_active_requests"
instrument_name auth_attempts = codes "auth_attempts_total"
instrument_name auth_success = codes "auth_success_total"
instrument_name auth_failures = codes "auth_failures_total"
instrument_name session_created = codes "sessions_created_total"
instrument_name session_destroyed = codes "sessions_destroyed_total"
instrument_name db_connections = codes "database_connections_active"
instrument_name db_query_duration = codes "database_query_duration_seconds"
instrument_name db_query_count = codes "database_queries_total"
instrument_name db_connection_errors = codes "database_connection_errors_total"
instrument_name job_executions = codes "job_executions_total"
instrument_name job_duration = codes "job_duration_seconds"
instrument_name job_failures = codes "job_failures_total"
instrument_name graph_api_requests = codes "graph_api_requests_total"
instrument_name graph_api_errors = codes "graph_api_errors_total"
instrument_name app_start_time = codes "app_start_time_seconds"
instrument_name config_reloads = codes "config_reloads_total"
instrument_name error_count = codes "errors_total"

abbrev pub instruments : List Instrument
instruments =
    http_request_duration ∷ http_request_count ∷ http_active_requests ∷ auth_attempts ∷ auth_success
    ∷ auth_failures ∷ session_created ∷ session_destroyed ∷ db_connections ∷ db_query_duration
    ∷ db_query_count ∷ db_connection_errors ∷ job_executions ∷ job_duration ∷ job_failures
    ∷ graph_api_requests ∷ graph_api_errors ∷ app_start_time ∷ config_reloads ∷ error_count ∷ []

pub data Attribute : Type 0 where
  text : String → Bytes → Attribute
  number : String → ℕ → Attribute
  flag : String → Bool → Attribute

pub record Measurement : Type 0 where
  pub instrument : Instrument
  pub amount : ℤ
  pub attributes : List Attribute

-- What has been measured so far
abbrev pub Measured : Type 0
Measured = List Measurement

abbrev pub measure : Instrument → ℤ → List Attribute → Measured → Measured
measure instrument amount attributes m =
    m ++ record { instrument = instrument; amount = amount; attributes = attributes } ∷ []

-- One instrument after the other, up to the first that cannot be created
unfoldable pub create_instruments :
    (Instrument → Result (Unit {0})) → List Instrument → Result (Unit {0})
create_instruments create [] = ok tt
create_instruments create (i ∷ is) = elim (create i) [
  | ok done ↦ create_instruments create is
  | err e ↦ err (wrap (codes "failed to create " ++ (instrument_name i ++ codes " metric")) e)
]

unfoldable pub new_metrics : (Instrument → Result (Unit {0})) → ℕ → Result Measured
unfolding create_instruments
new_metrics create start_time = elim (create_instruments create instruments) [
  | ok done ↦ ok (measure app_start_time (pos start_time) [] [])
  | err e ↦ err e
]

unfoldable pub record_http_request : Bytes → Bytes → ℕ → ℕ → Measured → Measured
unfolding decimal
record_http_request method path status_code duration m =
    let attributes =
      text "method" method
      ∷ text "path" path
      ∷ number "status_code" status_code
      ∷ text "status_class" (decimal (status_code / 100) ++ codes "xx")
      ∷ [] in
    measure http_request_count (pos 1) attributes
      (measure http_request_duration (pos duration) attributes m)

unfoldable pub record_http_active_request : ℤ → Measured → Measured
record_http_active_request delta m = measure http_active_requests delta [] m

unfoldable pub record_error : String → Measured → Measured
record_error error_type m =
    measure error_count (pos 1) (text "error_type" (codes error_type) ∷ []) m

unfoldable pub record_db_connection : ℤ → Measured → Measured
record_db_connection delta m = measure db_connections delta [] m

unfoldable pub record_db_connection_error : Measured → Measured
record_db_connection_error m = measure db_connection_errors (pos 1) [] m

unfoldable pub record_config_reload : Measured → Measured
record_config_reload m = measure config_reloads (pos 1) [] m

abbrev pub outcome_of : Bool → Instrument
outcome_of true = auth_success
outcome_of false = auth_failures

unfoldable pub record_auth_attempt : Bool → Bytes → Measured → Measured
record_auth_attempt success provider m =
    let attributes = text "provider" provider ∷ [] in
    measure (outcome_of success) (pos 1) attributes (measure auth_attempts (pos 1) attributes m)

unfoldable pub record_session_event : Bytes → Measured → Measured
unfolding bytes_eq
record_session_event event m =
    if bytes_eq event (codes "created")
    then measure session_created (pos 1) (text "event" event ∷ []) m
    else if bytes_eq event (codes "destroyed")
    then measure session_destroyed (pos 1) (text "event" event ∷ []) m
    else m

unfoldable pub record_db_query : Bytes → Bool → ℕ → Measured → Measured
record_db_query operation success duration m =
    let attributes = text "operation" operation ∷ flag "success" success ∷ [] in
    measure db_query_count (pos 1) attributes
      (measure db_query_duration (pos duration) attributes m)

-- The count of the failures behind a measurement of what has failed
abbrev pub unless : Bool → Instrument → List Attribute → Measured → Measured
unless success failures attributes m = if success then m else measure failures (pos 1) attributes m

unfoldable pub record_job_execution : Bytes → Bool → ℕ → Measured → Measured
record_job_execution job_name success duration m =
    let attributes = text "job_name" job_name ∷ flag "success" success ∷ [] in
    unless success job_failures attributes
      (measure job_duration (pos duration) attributes (measure job_executions (pos 1) attributes m))

unfoldable pub record_graph_api_request : Bytes → Bool → Measured → Measured
record_graph_api_request operation success m =
    let attributes = text "operation" operation ∷ flag "success" success ∷ [] in
    unless success graph_api_errors attributes (measure graph_api_requests (pos 1) attributes m)
