-- ===== src/Mysql.antt =====
-- internal/db/mysql/query.sql.go, without the two statements of statistics: each statement with the
-- arguments that its function sends, and the columns that it scans, in their order.
pub mod Scans
pub mod Encoding
pub mod Answers
pub mod Refinement
pub mod Queries
use e5renew.Prelude.{ℕ, Option, none, some, List, [], ◌∷◌}
use e5renew.Prelude.Int.{ℤ}
use e5renew.Text.{Bytes}
use e5renew.Failure.{Result, ok, err, Exec, pure, lift, ◌>>=◌, ◌>>◌}
use e5renew.Database.{Collation, UserToken, ApiLog, CreateUserTokensParams, CreateApiLogParams}
use e5renew.Sql.{
  Column, Value, null, int, text, time, boolean, user_tokens, api_logs, Conditions, equal, at_least,
  at_most, less, unordered, ascending, descending, Limit, unlimited, one, placeholders, Statement,
  insert, update, delete, Select, Tables, exec_context,
}
use e5renew.Sql.Cells.{
  Scanner, text_cell, int_cell, id_cell, time_cell, bool_cell, null_text_cell, null_int_cell,
  end_of_row, query_context, query_row, collect,
}

-- The arguments of type sql.NullString and sql.NullInt32
abbrev pub null_text : Option Bytes → Value
null_text none = null
null_text (some s) = text s

abbrev pub null_int : Option ℤ → Value
null_int none = null
null_int (some z) = int z

abbrev pub log_columns : List Column
log_columns =
    Column.user_id ∷ Column.api_endpoint ∷ Column.http_method ∷ Column.http_status_code
    ∷ Column.request_time ∷ Column.response_time ∷ Column.duration_ms ∷ Column.request_size
    ∷ Column.response_size ∷ Column.error_message ∷ Column.job_type ∷ Column.success ∷ []

abbrev pub token_columns : List Column
token_columns =
    Column.user_id ∷ Column.access_token ∷ Column.refresh_token ∷ Column.expiry ∷ Column.token_type
    ∷ []

abbrev pub set_columns : List Column
set_columns = Column.access_token ∷ Column.refresh_token ∷ Column.expiry ∷ Column.token_type ∷ []

abbrev pub of_user : Conditions
of_user = (Column.user_id, equal) ∷ []

-- createAPILog and the other statements that change a table
abbrev pub create_api_log_sql : Statement
create_api_log_sql = insert api_logs log_columns

abbrev pub delete_old_api_logs_sql : Statement
delete_old_api_logs_sql = delete api_logs ((Column.request_time, less) ∷ [])

abbrev pub create_user_tokens_sql : Statement
create_user_tokens_sql = insert user_tokens token_columns

abbrev pub delete_user_tokens_sql : Statement
delete_user_tokens_sql = delete user_tokens of_user

abbrev pub update_user_tokens_sql : Statement
update_user_tokens_sql = update user_tokens set_columns of_user

-- getAPILogs and its three narrower forms
abbrev pub logs_where : Conditions → Select
logs_where conditions = record {
  columns = Column.id ∷ log_columns;
  table = api_logs;
  conditions = conditions;
  order = descending Column.request_time;
  limit = placeholders;
}

abbrev pub get_user_token_sql : Select
get_user_token_sql = record {
  columns = Column.id ∷ token_columns;
  table = user_tokens;
  conditions = of_user;
  order = unordered;
  limit = one;
}

abbrev pub list_user_tokens_sql : Select
list_user_tokens_sql = record {
  columns = Column.id ∷ token_columns;
  table = user_tokens;
  conditions = [];
  order = ascending Column.user_id;
  limit = unlimited;
}

-- rows.Scan(&i.ID, &i.UserID, …) of an ApiLog
unfoldable pub scan_api_log : Scanner ApiLog
scan_api_log = do
  id ← id_cell
  user_id ← null_text_cell
  api_endpoint ← text_cell
  http_method ← text_cell
  http_status_code ← int_cell
  request_time ← time_cell
  response_time ← time_cell
  duration_ms ← int_cell
  request_size ← null_int_cell
  response_size ← null_int_cell
  error_message ← null_text_cell
  job_type ← text_cell
  success ← bool_cell
  end_of_row
  pure (record {
    id = id;
    user_id = user_id;
    api_endpoint = api_endpoint;
    http_method = http_method;
    http_status_code = http_status_code;
    request_time = request_time;
    response_time = response_time;
    duration_ms = duration_ms;
    request_size = request_size;
    response_size = response_size;
    error_message = error_message;
    job_type = job_type;
    success = success;
  })

unfoldable pub scan_user_token : Scanner UserToken
scan_user_token = do
  id ← id_cell
  user_id ← text_cell
  access_token ← text_cell
  refresh_token ← text_cell
  expiry ← time_cell
  token_type ← text_cell
  end_of_row
  pure (record {
    id = id;
    user_id = user_id;
    access_token = access_token;
    refresh_token = refresh_token;
    expiry = expiry;
    token_type = token_type;
  })

-- The arguments behind createAPILog
abbrev pub log_args : CreateApiLogParams → List Value
log_args arg =
    null_text arg.user_id
    ∷ text arg.api_endpoint
    ∷ text arg.http_method
    ∷ int arg.http_status_code
    ∷ time arg.request_time
    ∷ time arg.response_time
    ∷ int arg.duration_ms
    ∷ null_int arg.request_size
    ∷ null_int arg.response_size
    ∷ null_text arg.error_message
    ∷ text arg.job_type
    ∷ boolean arg.success
    ∷ []

-- The arguments behind createUserTokens
abbrev pub token_args : CreateUserTokensParams → List Value
token_args arg =
    text arg.user_id
    ∷ text arg.access_token
    ∷ text arg.refresh_token
    ∷ time arg.expiry
    ∷ text arg.token_type
    ∷ []

-- The arguments behind updateUserTokens
abbrev pub set_args : CreateUserTokensParams → List Value
set_args arg =
    text arg.access_token
    ∷ text arg.refresh_token
    ∷ time arg.expiry
    ∷ text arg.token_type
    ∷ text arg.user_id
    ∷ []

module _ (c : Collation) where
  unfoldable pub create_api_log : CreateApiLogParams → Exec Tables (Unit {0})
  unfolding exec_context
  create_api_log arg = exec_context c create_api_log_sql (log_args arg)

  unfoldable pub delete_old_api_logs : ℕ → Exec Tables (Unit {0})
  unfolding exec_context
  delete_old_api_logs request_time = do
    exec_context c delete_old_api_logs_sql (time request_time ∷ [])

  unfoldable pub create_user_tokens : CreateUserTokensParams → Exec Tables (Unit {0})
  unfolding exec_context
  create_user_tokens arg = exec_context c create_user_tokens_sql (token_args arg)

  unfoldable pub delete_user_tokens : Bytes → Exec Tables (Unit {0})
  unfolding exec_context
  delete_user_tokens user_id = exec_context c delete_user_tokens_sql (text user_id ∷ [])

  unfoldable pub update_user_tokens : CreateUserTokensParams → Exec Tables (Unit {0})
  unfolding exec_context
  update_user_tokens arg = exec_context c update_user_tokens_sql (set_args arg)

  unfoldable pub get_api_logs : ℤ → ℤ → Exec Tables (List ApiLog)
  unfolding query_context collect scan_api_log
  get_api_logs limit offset = do
    rows ← query_context c (logs_where []) (int limit ∷ int offset ∷ [])
    lift (collect scan_api_log rows)

  unfoldable pub get_api_logs_by_job_type : Bytes → ℤ → ℤ → Exec Tables (List ApiLog)
  unfolding query_context collect scan_api_log
  get_api_logs_by_job_type job_type limit offset = do
    rows ←
        query_context c (logs_where ((Column.job_type, equal) ∷ []))
          (text job_type ∷ int limit ∷ int offset ∷ [])
    lift (collect scan_api_log rows)

  unfoldable pub get_api_logs_by_time_range : ℕ → ℕ → ℤ → ℤ → Exec Tables (List ApiLog)
  unfolding query_context collect scan_api_log
  get_api_logs_by_time_range start end limit offset = do
    rows ←
        query_context c
          (logs_where ((Column.request_time, at_least) ∷ (Column.request_time, at_most) ∷ []))
          (time start ∷ time end ∷ int limit ∷ int offset ∷ [])
    lift (collect scan_api_log rows)

  unfoldable pub get_api_logs_by_user : Option Bytes → ℤ → ℤ → Exec Tables (List ApiLog)
  unfolding query_context collect scan_api_log
  get_api_logs_by_user user_id limit offset = do
    rows ← query_context c (logs_where of_user) (null_text user_id ∷ int limit ∷ int offset ∷ [])
    lift (collect scan_api_log rows)

  unfoldable pub get_user_token : Bytes → Exec Tables UserToken
  unfolding query_row scan_user_token
  get_user_token user_id = do
    row ← query_row c get_user_token_sql (text user_id ∷ [])
    lift (scan_user_token row).0

  unfoldable pub list_user_tokens : Exec Tables (List UserToken)
  unfolding query_context collect scan_user_token
  list_user_tokens = do
    rows ← query_context c list_user_tokens_sql []
    lift (collect scan_user_token rows)
