-- ===== src/Database.antt =====
-- The tables of migrations/*/ and the statements of sql/query.sql, as
-- internal/db/postgres/query.postgres.sql.go runs them.
pub mod Order
pub mod Pages
pub mod Stats
pub mod Statements
pub mod Lookup
use e5renew.Prelude.{
  ℕ, ◌+◌, ◌≡◌, Bool, true, false, not, ◌&&◌, Option, none, some, List, [], ◌∷◌, ◌++◌, map, ltb, leb,
  if◌then◌else◌,
}
use mathlib.Core.List.{tail}
use e5renew.Text.{Bytes, codes}
use e5renew.Failure.{Error, no_rows, other, Result, ok, err, Exec, pure, fail, ◌>>=◌, ◌>>◌}
use e5renew.Prelude.Int.{ℤ, pos, negsuc}
unfoldable pub use e5renew.Rows.{keep, insert_by, order_by, page_of}

pub record UserToken : Type 0 where
  pub id : ℕ
  pub user_id : Bytes
  pub access_token : Bytes
  pub refresh_token : Bytes
  pub expiry : ℕ
  pub token_type : Bytes

pub record CreateUserTokensParams : Type 0 where
  pub user_id : Bytes
  pub access_token : Bytes
  pub refresh_token : Bytes
  pub expiry : ℕ
  pub token_type : Bytes

-- `none` for a NULL; times are nanoseconds since Go's zero time.
pub record CreateApiLogParams : Type 0 where
  pub user_id : Option Bytes
  pub api_endpoint : Bytes
  pub http_method : Bytes
  pub http_status_code : ℤ
  pub request_time : ℕ
  pub response_time : ℕ
  pub duration_ms : ℤ
  pub request_size : Option ℤ
  pub response_size : Option ℤ
  pub error_message : Option Bytes
  pub job_type : Bytes
  pub success : Bool

pub record ApiLog : Type 0 where
  pub id : ℕ
  pub user_id : Option Bytes
  pub api_endpoint : Bytes
  pub http_method : Bytes
  pub http_status_code : ℤ
  pub request_time : ℕ
  pub response_time : ℕ
  pub duration_ms : ℤ
  pub request_size : Option ℤ
  pub response_size : Option ℤ
  pub error_message : Option Bytes
  pub job_type : Bytes
  pub success : Bool

-- `faults` tells of each coming statement whether it fails, and with which error; a statement that
-- fails has no effect, and once the list is used up none fails.
pub record Db : Type 0 where
  pub user_tokens : List UserToken
  pub api_logs : List ApiLog
  pub next_token_id : ℕ
  pub next_log_id : ℕ
  pub faults : List (Option Error)

-- How the engine compares and orders text: `same` is its `=` on a column, `before` its `ORDER BY`.
pub record Collation : Type 0 where
  pub same : Bytes → Bytes → Bool
  pub before : Bytes → Bytes → Bool
  pub same_refl : (s : Bytes) → same s s ≡ true
  pub same_sym : (s t : Bytes) → same s t ≡ true → same t s ≡ true
  pub same_trans : (s t u : Bytes) → same s t ≡ true → same t u ≡ true → same s u ≡ true

-- The sending of one statement, behind which the statement's effect stands: its outcome, and the
-- state in which its entry in the list of faults is used up.
unfoldable pub outcome : List (Option Error) → Result (Unit {0})
outcome [] = ok tt
outcome (none ∷ faults) = ok tt
outcome (some e ∷ faults) = err e

abbrev pub behind : Db → Db
behind db = record db { faults = tail db.faults }

unfoldable pub send : Exec Db (Unit {0})
unfolding outcome
send db = (outcome db.faults, behind db)

abbrev pub newest_first : ApiLog → ApiLog → Bool
newest_first a b = leb b.request_time a.request_time

unfoldable pub select_logs : (ApiLog → Bool) → ℤ → ℤ → Exec Db (List ApiLog)
unfolding send keep order_by page_of
select_logs p limit offset = do
  send
  λ db. (page_of limit offset (order_by newest_first (keep p db.api_logs)), db)

-- The rows that the INSERT statements store
abbrev pub log_of : ℕ → CreateApiLogParams → ApiLog
log_of id arg = record {
  id = id;
  user_id = arg.user_id;
  api_endpoint = arg.api_endpoint;
  http_method = arg.http_method;
  http_status_code = arg.http_status_code;
  request_time = arg.request_time;
  response_time = arg.response_time;
  duration_ms = arg.duration_ms;
  request_size = arg.request_size;
  response_size = arg.response_size;
  error_message = arg.error_message;
  job_type = arg.job_type;
  success = arg.success;
}

abbrev pub row_of : ℕ → CreateUserTokensParams → UserToken
row_of id arg = record {
  id = id;
  user_id = arg.user_id;
  access_token = arg.access_token;
  refresh_token = arg.refresh_token;
  expiry = arg.expiry;
  token_type = arg.token_type;
}

-- The row that the UPDATE leaves of a row of the user
abbrev pub token_with : CreateUserTokensParams → UserToken → UserToken
token_with arg t = record t {
  access_token = arg.access_token;
  refresh_token = arg.refresh_token;
  expiry = arg.expiry;
  token_type = arg.token_type;
}

unfoldable pub create_api_log : CreateApiLogParams → Exec Db (Unit {0})
unfolding send
create_api_log arg = do
  send
  λ db. (
    ok tt,
    record db {
      api_logs = db.api_logs ++ log_of db.next_log_id arg ∷ [];
      next_log_id = db.next_log_id + 1;
    },
  )

unfoldable pub delete_old_api_logs : ℕ → Exec Db (Unit {0})
unfolding send keep
delete_old_api_logs before = do
  send
  λ db. (
    ok tt,
    record db { api_logs = keep (λ (l : ApiLog). not (ltb l.request_time before)) db.api_logs },
  )

unfoldable pub get_api_logs : ℤ → ℤ → Exec Db (List ApiLog)
unfolding select_logs
get_api_logs limit offset = select_logs (λ l. true) limit offset

unfoldable pub get_api_logs_by_time_range : ℕ → ℕ → ℤ → ℤ → Exec Db (List ApiLog)
unfolding select_logs
get_api_logs_by_time_range start end limit offset =
    select_logs (λ l. leb start l.request_time && leb l.request_time end) limit offset

unfoldable pub or_no_rows : Option UserToken → Result UserToken
or_no_rows none = err no_rows
or_no_rows (some t) = ok t

module _ (c : Collation) where
  unfoldable pub get_api_logs_by_job_type : Bytes → ℤ → ℤ → Exec Db (List ApiLog)
  unfolding select_logs
  get_api_logs_by_job_type job_type limit offset =
      select_logs (λ l. c.same l.job_type job_type) limit offset

  -- A comparison with NULL is never true.
  abbrev pub user_is : Option Bytes → Option Bytes → Bool
  user_is (some u) (some v) = c.same u v
  user_is _ _ = false

  unfoldable pub get_api_logs_by_user : Option Bytes → ℤ → ℤ → Exec Db (List ApiLog)
  unfolding select_logs
  get_api_logs_by_user user_id limit offset =
      select_logs (λ l. user_is l.user_id user_id) limit offset

  unfoldable pub find_token : Bytes → List UserToken → Option UserToken
  find_token user_id [] = none
  find_token user_id (t ∷ ts) =
      let rest = find_token user_id ts in if c.same t.user_id user_id then some t else rest

  -- LIMIT 1 takes the first row in the order of insertion, which no ORDER BY asks for.
  unfoldable pub get_user_token : Bytes → Exec Db UserToken
  unfolding send find_token or_no_rows
  get_user_token user_id = do send; λ db. (or_no_rows (find_token user_id db.user_tokens), db)

  unfoldable pub list_user_tokens : Exec Db (List UserToken)
  unfolding send order_by
  list_user_tokens = do
    send
    λ db. (ok (order_by (λ (a b : UserToken). c.before a.user_id b.user_id) db.user_tokens), db)

  unfoldable pub create_user_tokens : CreateUserTokensParams → Exec Db (Unit {0})
  unfolding send
  create_user_tokens arg = do
    send
    λ db. (
      ok tt,
      record db {
        user_tokens = db.user_tokens ++ row_of db.next_token_id arg ∷ [];
        next_token_id = db.next_token_id + 1;
      },
    )

  unfoldable pub set_token : CreateUserTokensParams → UserToken → UserToken
  set_token arg t = if c.same t.user_id arg.user_id then token_with arg t else t

  -- An UPDATE that matches no row is no error.
  unfoldable pub update_user_tokens : CreateUserTokensParams → Exec Db (Unit {0})
  unfolding send set_token
  update_user_tokens arg = do
    send
    λ db. (ok tt, record db { user_tokens = map (set_token arg) db.user_tokens })

  unfoldable pub delete_user_tokens : Bytes → Exec Db (Unit {0})
  unfolding send keep
  delete_user_tokens user_id = do
    send
    λ db. (
      ok tt,
      record db {
        user_tokens = keep (λ (t : UserToken). not (c.same t.user_id user_id)) db.user_tokens;
      },
    )
