-- ===== src/Database/Pages.antt =====
-- The queries of api_logs: their filter, their order and their page.
use e5renew.Prelude.{
  ℕ, ◌+◌, ◌≡◌, refl, Bool, true, false, not, List, [], ◌∷◌, ◌++◌, arith, ltb, take, drop,
}
use mathlib.Core.List.{Perm}
use e5renew.Prelude.Int.{pos}
use e5renew.Failure.{Error, Result, ok, err}
use e5renew.Database.{
  Db, ApiLog, CreateApiLogParams, outcome, behind, send, keep, order_by, page_of, newest_first,
  select_logs, create_api_log, delete_old_api_logs,
}
use e5renew.Database.Order.{Ordered, order_by-perm, order_by-Ordered}
use e5renew.Database.Statements.{IsHealthy, outcome_healthy}

-- `rows` are the rows of `logs` with `p`, the newest first, from number `offset` on, and at most
-- `limit`; the order of rows with the same time is left open.
abbrev pub IsPage : (ApiLog → Bool) → ℕ → ℕ → List ApiLog → List ApiLog → Type 0
IsPage p limit offset logs rows =
    (sorted : List ApiLog) × Perm sorted (keep p logs)
    × Ordered newest_first sorted
    × (rows ≡ take limit (drop offset sorted))

newest_first_total : (a b : ApiLog) → newest_first a b ≡ false → newest_first b a ≡ true
newest_first_total a b h = ground (arith, h)

abbrev pub IsPageOf : (ApiLog → Bool) → ℕ → ℕ → Db → Result (List ApiLog) × Db → Type 0
IsPageOf p limit offset db (r, db') =
    (rows : List ApiLog) × (r ≡ ok rows)
    × IsPage p limit offset db.api_logs rows
    × (db' ≡ behind db)

pub select_logs-IsPageOf :
    (p : ApiLog → Bool) (limit offset : ℕ) (db : Db)
    → IsHealthy db
    → IsPageOf p limit offset db (select_logs p (pos limit) (pos offset) db)
unfolding select_logs send page_of
select_logs-IsPageOf p limit offset db h = rw (outcome_healthy db.faults h) (
  take limit (drop offset (order_by newest_first (keep p db.api_logs))),
  refl,
  (
    order_by newest_first (keep p db.api_logs),
    order_by-perm newest_first _,
    order_by-Ordered newest_first newest_first_total (keep p db.api_logs),
    refl,
  ),
  refl,
)

-- A statement that fails gives its error and changes nothing.
pub create_api_log_faulty :
    (arg : CreateApiLogParams) (db : Db) (e : Error)
    → outcome db.faults ≡ err e
    → create_api_log arg db ≡ (err e, behind db)
unfolding create_api_log send
create_api_log_faulty arg db e h = rw h

abbrev pub log_row : ℕ → CreateApiLogParams → ApiLog
log_row id arg = record {
  id = id;
  user_id = arg.user_id;
  api_endpoint = arg.api_endpoint;
  http_method = arg.http_method;
  http_status_code = arg.http_status_code;
  request_time = arg.request_time;
  response_time = arg.response_time;
  duration_ms = arg.duration_ms;
  request_size = arg.request_size;
  response_size = arg.response_size;
  error_message = arg.error_message;
  job_type = arg.job_type;
  success = arg.success;
}

pub create_api_log_healthy :
    (arg : CreateApiLogParams) (db : Db)
    → IsHealthy db
    → create_api_log arg db ≡ (
      ok tt,
      record (behind db) {
        api_logs = db.api_logs ++ (log_row db.next_log_id arg ∷ []);
        next_log_id = db.next_log_id + 1;
      },
    )
unfolding create_api_log send
create_api_log_healthy arg db h = rw (outcome_healthy db.faults h)

pub delete_old_api_logs_healthy :
    (before : ℕ) (db : Db)
    → IsHealthy db
    → delete_old_api_logs before db ≡ (
      ok tt,
      record (behind db) {
        api_logs = keep (λ (l : ApiLog). not (ltb l.request_time before)) db.api_logs;
      },
    )
unfolding delete_old_api_logs send
delete_old_api_logs_healthy before db h = rw (outcome_healthy db.faults h)
