-- ===== src/ApiLog/Records.antt =====
-- What a logged call leaves in the table, and what the log's queries give back.
use e5renew.Prelude.{ℕ, ◌≡◌, refl, ap, Bool, true, some, List, [], ◌∷◌, ◌++◌}
use e5renew.Prelude.Int.{pos, to_int32}
use e5renew.Text.{codes, Bytes}
use e5renew.Failure.{Error, wrap, Result, ok, err, wrapping}
use e5renew.Database
use e5renew.Database.{
  Db, Collation, ApiLog, CreateApiLogParams, outcome, behind, user_is, select_logs,
}
use e5renew.Database.Statements.{IsHealthy, behind-IsHealthy}
use e5renew.Database.Pages.{
  IsPageOf, log_row, select_logs-IsPageOf, create_api_log_healthy, create_api_log_faulty,
}
use e5renew.Database.Stats.{in_range}
use e5renew.ApiLog.{
  ApiLogEntry, create_api_log, log_params, log_api_call, get_api_logs, get_api_logs_by_time_range,
  get_api_logs_by_user, get_api_logs_by_job_type,
}

-- The four numbers of an entry fit into an int32.
abbrev pub FitsInt32 : ApiLogEntry → Type 0
FitsInt32 entry =
    (to_int32 entry.http_status_code ≡ entry.http_status_code)
    × (to_int32 entry.duration_ms ≡ entry.duration_ms)
    × (to_int32 entry.request_size ≡ entry.request_size)
    × (to_int32 entry.response_size ≡ entry.response_size)

-- The row has the fields of the entry.
abbrev pub IsRowOf : ApiLogEntry → ApiLog → Type 0
IsRowOf entry row =
    (row.user_id ≡ entry.user_id)
    × (row.api_endpoint ≡ entry.api_endpoint)
    × (row.http_method ≡ entry.http_method)
    × (row.http_status_code ≡ entry.http_status_code)
    × (row.request_time ≡ entry.request_time)
    × (row.response_time ≡ entry.response_time)
    × (row.duration_ms ≡ entry.duration_ms)
    × (row.request_size ≡ some entry.request_size)
    × (row.response_size ≡ some entry.response_size)
    × (row.error_message ≡ entry.error_message)
    × (row.job_type ≡ entry.job_type)
    × (row.success ≡ entry.success)

-- Where the statement does not fail and the numbers fit, the call is stored as one more row with
-- the fields of the entry, behind the rows there were; where it fails, the error is given back, the
-- message in front, and the rows stay as they were.
pub log_api_call_lem :
    (entry : ApiLogEntry) (db : Db)
    → (IsHealthy db
        → FitsInt32 entry
        → (row : ApiLog) × IsRowOf entry row
          × ((log_api_call entry db).0 ≡ ok tt)
          × ((log_api_call entry db).1.api_logs ≡ db.api_logs ++ (row ∷ [])))
      × ((e : Error)
          → outcome db.faults ≡ err e
          → log_api_call entry db ≡ (err (wrap (codes "failed to log API call") e), behind db))
unfolding log_api_call create_api_log log_params
log_api_call_lem entry db = (
  (λ h fits. (
    log_row db.next_log_id (log_params entry),
    (
      refl,
      refl,
      refl,
      fits.0,
      refl,
      refl,
      fits.1,
      ap some fits.2,
      ap some fits.3,
      refl,
      refl,
      refl,
    ),
    rw (create_api_log_healthy (log_params entry) db h) refl,
    rw (create_api_log_healthy (log_params entry) db h) refl,
  )),
  λ e h. rw (create_api_log_faulty (log_params entry) db e h) refl,
)

pub log_api_call-IsHealthy :
    (entry : ApiLogEntry) (db : Db) → IsHealthy db → IsHealthy (log_api_call entry db).1
unfolding log_api_call create_api_log
log_api_call-IsHealthy entry db h =
    rw (create_api_log_healthy (log_params entry) db h) (behind-IsHealthy db h)

wrapped_page :
    (prefix : Bytes) (p : ApiLog → Bool) (limit offset : ℕ) (db : Db)
    → (r : Result (List ApiLog) × Db) → IsPageOf p limit offset db r
    → IsPageOf p limit offset db (wrapping prefix (λ _. r) db)
wrapped_page prefix p limit offset db (r, db') (rows, is_ok, page, same) =
    rw is_ok (rows, refl, page, same)

paged :
    (prefix : Bytes) (p : ApiLog → Bool) (limit offset : ℕ) (db : Db)
    → IsHealthy db
    → IsPageOf p limit offset db (wrapping prefix (select_logs p (pos limit) (pos offset)) db)
paged prefix p limit offset db h =
    wrapped_page prefix p limit offset db (select_logs p (pos limit) (pos offset) db)
      (select_logs-IsPageOf p limit offset db h)

-- Each of the four queries gives back, where its statement does not fail and limit and offset are
-- not negative, a page of the rows that match, the newest first, and changes no row.
pub get_api_logs-IsPageOf :
    (c : Collation) (start end : ℕ) (user job_type : Bytes) (limit offset : ℕ) (db : Db)
    → IsHealthy db
    → IsPageOf (λ l. true) limit offset db (get_api_logs (pos limit) (pos offset) db)
      × IsPageOf
          (in_range start end)
          limit
          offset
          db
          (get_api_logs_by_time_range start end (pos limit) (pos offset) db)
      × IsPageOf
          (λ l. user_is c l.user_id (some user))
          limit
          offset
          db
          (get_api_logs_by_user c user (pos limit) (pos offset) db)
      × IsPageOf
          (λ l. c.same l.job_type job_type)
          limit
          offset
          db
          (get_api_logs_by_job_type c job_type (pos limit) (pos offset) db)
unfolding get_api_logs get_api_logs_by_time_range get_api_logs_by_user get_api_logs_by_job_type
    Database.get_api_logs Database.get_api_logs_by_time_range Database.get_api_logs_by_user
    Database.get_api_logs_by_job_type
get_api_logs-IsPageOf c start end user job_type limit offset db h = (
  paged (codes "failed to get API logs") (λ l. true) limit offset db h,
  paged (codes "failed to get API logs by time range") (in_range start end) limit offset db h,
  paged (codes "failed to get API logs by user") (λ l. user_is c l.user_id (some user)) limit offset
      db h,
  paged (codes "failed to get API logs by job type") (λ l. c.same l.job_type job_type) limit offset
      db h,
)
