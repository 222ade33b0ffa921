-- ===== src/ApiLog.antt =====
-- internal/services/apilog.go: the log of calls to Microsoft Graph, and
-- internal/repository/apilog.go, through which it reaches the api_logs table.
pub mod Records
pub mod Reports
use e5renew.Prelude.{ℕ, Bool, Option, some, List, []}
use e5renew.Prelude.Int.{ℤ, pos, negsuc, to_int32}
use e5renew.Text.{codes, Bytes}
use e5renew.Failure.{Error, Result, ok, err, Exec, pure, wrapping, ◌>>=◌}
use e5renew.Database
use e5renew.Database.{Db, Collation, ApiLog, CreateApiLogParams}
use e5renew.Database.Stats
use e5renew.Engine.{Engine}
use e5renew.Database.Stats.{Any, nil, int32, int64, GetApiLogStatsRow, GetApiLogStatsByEndpointRow}

-- middleware.APILogEntry and services.APILogEntry, which have the same fields.
pub record ApiLogEntry : Type 0 where
  pub user_id : Option Bytes
  pub api_endpoint : Bytes
  pub http_method : Bytes
  pub http_status_code : ℤ
  pub request_time : ℕ
  pub response_time : ℕ
  pub duration_ms : ℤ
  pub request_size : ℤ
  pub response_size : ℤ
  pub error_message : Option Bytes
  pub job_type : Bytes
  pub success : Bool

-- repository.CreateAPILog
unfoldable pub create_api_log : CreateApiLogParams → Exec Db (Unit {0})
create_api_log entry = Database.create_api_log entry

unfoldable pub log_params : ApiLogEntry → CreateApiLogParams
unfolding to_int32
log_params entry = record {
  user_id = entry.user_id;
  api_endpoint = entry.api_endpoint;
  http_method = entry.http_method;
  http_status_code = to_int32 entry.http_status_code;
  request_time = entry.request_time;
  response_time = entry.response_time;
  duration_ms = to_int32 entry.duration_ms;
  request_size = some (to_int32 entry.request_size);
  response_size = some (to_int32 entry.response_size);
  error_message = entry.error_message;
  job_type = entry.job_type;
  success = entry.success;
}

-- LogAPICall, with logAPICallInternal
unfoldable pub log_api_call : ApiLogEntry → Exec Db (Unit {0})
unfolding log_params create_api_log
log_api_call entry = wrapping (codes "failed to log API call") (create_api_log (log_params entry))

-- LogAPICall's counterpart for reading: the repository passes the arguments on, and toRepoLogs and
-- toDBLogs copy every field.
unfoldable pub get_api_logs : ℤ → ℤ → Exec Db (List ApiLog)
get_api_logs limit offset =
    wrapping (codes "failed to get API logs") (Database.get_api_logs limit offset)

unfoldable pub get_api_logs_by_time_range : ℕ → ℕ → ℤ → ℤ → Exec Db (List ApiLog)
get_api_logs_by_time_range start end limit offset =
    wrapping (codes "failed to get API logs by time range")
      (Database.get_api_logs_by_time_range start end limit offset)

-- The zero value of an int32 where the type assertion does not hold.
abbrev as_int32 : Any → ℤ
as_int32 (int32 z) = z
as_int32 (int64 z) = pos 0
as_int32 nil = pos 0

pub record ApiLogStats : Type 0 where
  pub total_requests : ℕ
  pub successful_requests : ℕ
  pub failed_requests : ℕ
  pub min_duration_ms : ℤ
  pub max_duration_ms : ℤ

abbrev to_stats : GetApiLogStatsRow → ApiLogStats
to_stats row = record {
  total_requests = row.total_requests;
  successful_requests = row.successful_requests;
  failed_requests = row.failed_requests;
  min_duration_ms = as_int32 row.min_duration_ms;
  max_duration_ms = as_int32 row.max_duration_ms;
}

unfoldable pub get_api_log_stats : Engine → ℕ → ℕ → Exec Db ApiLogStats
get_api_log_stats engine start end = do
  row ← wrapping (codes "failed to get API log stats") (Stats.get_api_log_stats engine start end)
  pure (to_stats row)

unfoldable pub delete_old_api_logs : ℕ → Exec Db (Unit {0})
delete_old_api_logs before =
    wrapping (codes "failed to delete old API logs") (Database.delete_old_api_logs before)

module _ (c : Collation) where
  unfoldable pub get_api_logs_by_user : Bytes → ℤ → ℤ → Exec Db (List ApiLog)
  get_api_logs_by_user user_id limit offset =
      wrapping (codes "failed to get API logs by user")
        (Database.get_api_logs_by_user c (some user_id) limit offset)

  unfoldable pub get_api_logs_by_job_type : Bytes → ℤ → ℤ → Exec Db (List ApiLog)
  get_api_logs_by_job_type job_type limit offset =
      wrapping (codes "failed to get API logs by job type")
        (Database.get_api_logs_by_job_type c job_type limit offset)

  unfoldable pub get_api_log_stats_by_endpoint : ℕ → ℕ → Exec Db (List GetApiLogStatsByEndpointRow)
  get_api_log_stats_by_endpoint start end =
      wrapping (codes "failed to get API log stats by endpoint")
        (Stats.get_api_log_stats_by_endpoint c start end)
