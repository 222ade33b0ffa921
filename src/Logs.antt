-- ===== src/Logs.antt =====
-- internal/controller/logs.go: the pages of the log.
use e5renew.Prelude.{
  ℕ, ◌+◌, ◌-◌, ◌*◌, not, ◌&&◌, Option, none, some, List, [], ◌∷◌, ltb, leb, ◌==◌, if◌then◌else◌,
}
use e5renew.Prelude.Int.{ℤ, pos, negsuc, neg, to_int32}
use e5renew.Text.{Bytes, codes, is_empty, bytes_eq}
use e5renew.Failure.{Error, Result, ok, err}
use e5renew.Database.{Db, Collation, ApiLog}
use e5renew.Engine.{Engine}
use e5renew.Database.Stats.{GetApiLogStatsByEndpointRow}
use e5renew.ApiLog.{
  ApiLogStats, get_api_logs_by_time_range, get_api_logs_by_user, get_api_logs_by_job_type,
  get_api_log_stats, get_api_log_stats_by_endpoint,
}
use e5renew.Authorization.{Site, is_there}
pub mod Paging
pub mod Number
pub mod Ranges

-- strconv.Atoi: an optional sign and decimal digits, within an int64
digits : ℕ → Bytes → Option ℕ
digits n [] = some n
digits n (c ∷ s) =
    let rest = digits (n * 10 + (c - b'0')) s in if leb b'0' c && leb c b'9' then rest else none

unsigned : Bytes → Option ℕ
unfolding digits
unsigned [] = none
unsigned (c ∷ s) = digits 0 (c ∷ s)

within : ℕ → (ℕ → ℤ) → Option ℕ → Option ℤ
within limit sign none = none
within limit sign (some n) = if leb n limit then some (sign n) else none

unfoldable pub atoi : Bytes → Option ℤ
unfolding unsigned within
atoi [] = none
atoi (c ∷ s) =
    if c == b'-'
    then within 0x8000_0000_0000_0000 neg (unsigned s)
    else if c == b'+'
    then within 0x7fff_ffff_ffff_ffff pos (unsigned s)
    else within 0x7fff_ffff_ffff_ffff pos (unsigned (c ∷ s))

positive_or_1 : Option ℤ → ℕ
positive_or_1 none = 1
positive_or_1 (some (negsuc n)) = 1
positive_or_1 (some (pos n)) = if ltb 0 n then n else 1

-- The number of the page, from the parameter `page`
unfoldable pub page_number : Bytes → ℕ
unfolding positive_or_1 atoi
page_number page = positive_or_1 (atoi page)

-- int32((page - 1) * int(limit)). The product of two ints wraps at 64 bits, which leaves the low 32
-- bits as they are.
unfoldable pub offset_of : ℕ → ℤ
unfolding to_int32
offset_of page = to_int32 (pos ((page - 1) * 50))

abbrev hour : ℕ
hour = 3_600_000_000_000

-- The start of the time range, from the parameter `time_range`
unfoldable pub start_time : Bytes → ℕ → ℕ
start_time time_range end =
    if bytes_eq time_range (codes "1h")
    then end - hour
    else if bytes_eq time_range (codes "6h")
    then end - 6 * hour
    else if bytes_eq time_range (codes "24h")
    then end - 24 * hour
    else if bytes_eq time_range (codes "7d")
    then end - 168 * hour
    else if bytes_eq time_range (codes "30d")
    then end - 720 * hour
    else end - 24 * hour

pub record LogsRequest : Type 0 where
  pub page : Bytes
  pub job_type : Bytes
  pub user_id : Bytes
  pub time_range : Bytes

-- The data of the template, less the texts of the request and the floating-point rates.
pub record LogsPage : Type 0 where
  pub logs : List ApiLog
  pub stats : Option ApiLogStats
  pub endpoint_stats : List GetApiLogStatsByEndpointRow
  pub current_page : ℕ

pub data LogsReply : Type 0 where
  to_login : LogsReply
  server_error : LogsReply
  rendered : LogsPage → LogsReply

abbrev optional {ℓ} : {A : Type ℓ} → Result A → Option A
optional (ok a) = some a
optional (err e) = none

abbrev listed {ℓ} : {A : Type ℓ} → Result (List A) → List A
listed (ok rows) = rows
listed (err e) = []

abbrev pub unless_failed : Result (Unit {0}) → LogsPage → LogsReply
unless_failed (ok done) page = rendered page
unless_failed (err e) page = server_error

module _ (engine : Engine) (c : Collation) where
  -- The switch over the filters, of which the first that is given counts
  unfoldable pub get_logs : LogsRequest → ℕ → Db → Result (List ApiLog) × Db
  unfolding page_number offset_of start_time
  get_logs r now db =
      let offset = offset_of (page_number r.page) in
      if not (is_empty r.job_type)
      then get_api_logs_by_job_type c r.job_type (pos 50) offset db
      else if not (is_empty r.user_id)
      then get_api_logs_by_user c r.user_id (pos 50) offset db
      else get_api_logs_by_time_range (start_time r.time_range now) now (pos 50) offset db

  -- Index behind the query of the entries, for the outcome of the rendering: an error of the
  -- statistics leaves them out, and one of the template is answered like one of the query.
  unfoldable pub with_logs :
      LogsRequest → ℕ → Result (Unit {0}) → Result (List ApiLog) → Db → LogsReply × Db
  unfolding page_number start_time
  with_logs r now render (err e) db = (server_error, db)
  with_logs r now render (ok logs) db =
      let (stats, db1) = get_api_log_stats engine (start_time r.time_range now) now db in
      let (endpoints, db2) =
        get_api_log_stats_by_endpoint c (start_time r.time_range now) now db1 in
      (
        unless_failed render (record {
          logs = logs;
          stats = optional stats;
          endpoint_stats = listed endpoints;
          current_page = page_number r.page;
        }),
        db2,
      )

  unfoldable pub shown :
      LogsRequest → ℕ → Result (Unit {0}) → Result (List ApiLog) × Db → LogsReply × Db
  unfolding with_logs
  shown r now render (logs, db) = with_logs r now render logs db

  -- Index
  unfoldable pub index : LogsRequest → ℕ → Result (Unit {0}) → Site → LogsReply × Db
  unfolding shown get_logs
  index r now render site =
      if is_there site.session.user
      then shown r now render (get_logs r now site.db)
      else (to_login, site.db)
