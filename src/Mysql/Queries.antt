-- ===== src/Mysql/Queries.antt =====
-- Each query of internal/db/mysql/query.sql.go answers what the abstract query does.
use e5renew.Prelude.{
  ℕ, ◌≡◌, refl, ap, ◌∙◌, inl, inr, Bool, true, ◌&&◌, Option, none, some, List, [], ◌∷◌, map, leb,
  Bool-cases, take, drop, length,
}
use e5renew.Prelude.Int.{ℤ}
use e5renew.Text.{Bytes}
use e5renew.Failure.{ok}
use e5renew.Rows.{keep, order_by, page_of}
use e5renew.Database
use e5renew.Database.{
  Db, Collation, UserToken, ApiLog, CreateUserTokensParams, CreateApiLogParams, newest_first,
  row_of, log_of, token_with, set_token, find_token, or_no_rows, user_is,
}
use e5renew.Sql.{
  Column, Value, int, text, time, Row, Conditions, selected, holds, equal, at_least, at_most,
}
use e5renew.Sql.Cells.{query_context, collect}
use e5renew.Sql.Maps.{keep-ext, mapped, keep-map, order_by-map, page_of-map, take-map}
use e5renew.Mysql
use e5renew.Mysql.{
  log_columns, token_columns, set_columns, token_args, log_args, set_args, logs_where, null_text,
  null_int, scan_api_log, scan_user_token,
}
use e5renew.Mysql.Scans.{log_row, token_row, scan_api_log-cells_of, scan_user_token-cells_of}
use e5renew.Sql.Maps.{&&-true, keep_all}
use e5renew.Sql.{limited, placeholders, values_in_order, compare_values}
use e5renew.Mysql.{get_user_token_sql, list_user_tokens_sql, of_user}
use e5renew.Failure.{lift, ◌>>=◌}
use e5renew.Mysql.Encoding.{Agrees}
use e5renew.Mysql.Answers.{at_most_one, query_context-Agrees, query_row-Agrees}

module _ (c : Collation) where
  -- The three narrower forms of getAPILogs differ in the rows that they keep.
  logs_selected :
      (conditions : Conditions) (args : List Value) (limit offset : ℤ) (p : ApiLog → Bool)
      (behind : drop (length conditions) args ≡ int limit ∷ int offset ∷ [])
      (fits : (l : ApiLog) → holds c conditions args (log_row l) ≡ p l) (logs : List ApiLog)
      → selected c (logs_where conditions) args (map log_row logs)
        ≡ mapped (map log_row) (page_of limit offset (order_by newest_first (keep p logs)))
  unfolding selected
  logs_selected conditions args limit offset p behind fits logs =
      ap (λ rest. limited c placeholders rest rows) behind
      ∙ ap (page_of limit offset) (
          ap (order_by by_request_time) (
            keep-map log_row (holds c conditions args) logs
            ∙ ap (map log_row) (keep-ext _ p fits logs))
          ∙ order_by-map log_row by_request_time (keep p logs))
      ∙ page_of-map log_row limit offset (order_by newest_first (keep p logs))
    where
      by_request_time : Row → Row → Bool
      by_request_time a b = values_in_order c (b Column.request_time) (a Column.request_time)

      rows : List Row
      rows = order_by by_request_time (keep (holds c conditions args) (map log_row logs))

  logs_queried :
      (conditions : Conditions) (args : List Value) (limit offset : ℤ) (p : ApiLog → Bool)
      (behind : drop (length conditions) args ≡ int limit ∷ int offset ∷ [])
      (fits : (l : ApiLog) → holds c conditions args (log_row l) ≡ p l)
      → Agrees
          (query_context c (logs_where conditions) args >>= λ rows.
            lift (collect scan_api_log rows))
          (Database.select_logs p limit offset)
  unfolding Database.select_logs
  logs_queried conditions args limit offset p behind fits =
      query_context-Agrees c (logs_where conditions) args scan_api_log log_row
        (λ db. page_of limit offset (order_by newest_first (keep p db.api_logs)))
        scan_api_log-cells_of
        (λ s. logs_selected conditions args limit offset p behind fits s.api_logs)

  pub get_api_logs-Agrees :
      (limit offset : ℤ)
      → Agrees (Mysql.get_api_logs c limit offset) (Database.get_api_logs limit offset)
  unfolding Mysql.get_api_logs Database.get_api_logs
  get_api_logs-Agrees limit offset =
      logs_queried [] (int limit ∷ int offset ∷ []) limit offset (λ l. true) refl (λ l. refl)

  pub get_api_logs_by_job_type-Agrees :
      (job_type : Bytes) (limit offset : ℤ)
      → Agrees
          (Mysql.get_api_logs_by_job_type c job_type limit offset)
          (Database.get_api_logs_by_job_type c job_type limit offset)
  unfolding Mysql.get_api_logs_by_job_type Database.get_api_logs_by_job_type
  get_api_logs_by_job_type-Agrees job_type limit offset =
      logs_queried ((Column.job_type, equal) ∷ []) (text job_type ∷ int limit ∷ int offset ∷ [])
        limit offset (λ l. c.same l.job_type job_type) refl
        (λ l. &&-true (c.same l.job_type job_type))

  pub get_api_logs_by_time_range-Agrees :
      (start end : ℕ) (limit offset : ℤ)
      → Agrees
          (Mysql.get_api_logs_by_time_range c start end limit offset)
          (Database.get_api_logs_by_time_range start end limit offset)
  unfolding Mysql.get_api_logs_by_time_range Database.get_api_logs_by_time_range
  get_api_logs_by_time_range-Agrees start end limit offset =
      logs_queried ((Column.request_time, at_least) ∷ (Column.request_time, at_most) ∷ [])
        (time start ∷ time end ∷ int limit ∷ int offset ∷ []) limit offset
        (λ l. leb start l.request_time && leb l.request_time end) refl
        (λ l. ap (λ b. leb start l.request_time && b) (&&-true (leb l.request_time end)))

  user_fits :
      (u v : Option Bytes)
      → (compare_values c equal (null_text u) (null_text v) && true) ≡ user_is c u v
  user_fits none v = refl
  user_fits (some s) none = refl
  user_fits (some s) (some t) = &&-true (c.same s t)

  pub get_api_logs_by_user-Agrees :
      (user_id : Option Bytes) (limit offset : ℤ)
      → Agrees
          (Mysql.get_api_logs_by_user c user_id limit offset)
          (Database.get_api_logs_by_user c user_id limit offset)
  unfolding Mysql.get_api_logs_by_user Database.get_api_logs_by_user
  get_api_logs_by_user-Agrees user_id limit offset =
      logs_queried of_user (null_text user_id ∷ int limit ∷ int offset ∷ []) limit offset
        (λ l. user_is c l.user_id user_id) refl (λ l. user_fits l.user_id user_id)

  -- The rows of a user, of which the query takes the first
  first_kept :
      (user_id : Bytes) (tokens : List UserToken)
      → take 1 (keep (λ (t : UserToken). c.same t.user_id user_id) tokens)
        ≡ at_most_one (find_token c user_id tokens)
  unfolding keep find_token
  first_kept user_id [] = refl
  first_kept user_id (t ∷ ts) = elim (Bool-cases (c.same t.user_id user_id)) [
    | inl same ↦ rw same refl
    | inr other ↦ rw other (first_kept user_id ts)
  ]

  tokens_selected :
      (user_id : Bytes) (tokens : List UserToken)
      → selected c get_user_token_sql (text user_id ∷ []) (map token_row tokens)
        ≡ ok (map token_row (at_most_one (find_token c user_id tokens)))
  unfolding selected
  tokens_selected user_id tokens =
      ap (λ rows. ok (take 1 rows))
        (keep-map token_row _ tokens ∙ ap (map token_row) (keep-ext _ _ (λ t. &&-true _) tokens))
      ∙ ap ok (take-map token_row 1 _ ∙ ap (map token_row) (first_kept user_id tokens))

  pub get_user_token-Agrees :
      (user_id : Bytes)
      → Agrees (Mysql.get_user_token c user_id) (Database.get_user_token c user_id)
  unfolding Mysql.get_user_token Database.get_user_token or_no_rows
  get_user_token-Agrees user_id =
      query_row-Agrees c get_user_token_sql (text user_id ∷ []) scan_user_token token_row
        (λ db. find_token c user_id db.user_tokens) scan_user_token-cells_of
        (λ s. tokens_selected user_id s.user_tokens)

  pub list_user_tokens-Agrees : Agrees (Mysql.list_user_tokens c) (Database.list_user_tokens c)
  unfolding Mysql.list_user_tokens Database.list_user_tokens selected
  list_user_tokens-Agrees =
      query_context-Agrees c list_user_tokens_sql [] scan_user_token token_row
        (λ db. ok (order_by (λ (a b : UserToken). c.before a.user_id b.user_id) db.user_tokens))
        scan_user_token-cells_of
        (λ s.
          ap (λ rows. ok (order_by by_user_id rows)) (keep_all (map token_row s.user_tokens))
          ∙ ap ok (order_by-map token_row by_user_id s.user_tokens))
    where
      by_user_id : Row → Row → Bool
      by_user_id a b = values_in_order c (a Column.user_id) (b Column.user_id)
