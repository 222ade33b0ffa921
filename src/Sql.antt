-- ===== src/Sql.antt =====
-- The statements that the MySQL queries send, and what the database and database/sql do with them:
-- rows of named columns, arguments taken in the order of the placeholders, and a cursor that may
-- break off. internal/db/mysql/query.sql.go stands on it.
pub mod Cells
pub mod Maps
pub mod Times
use e5renew.Prelude.{
  ℕ, zero, suc, ◌+◌, ◌-◌, ◌*◌, ◌%◌, Bool, true, false, not, ◌&&◌, ◌||◌, Option, none, some, List,
  [], ◌∷◌, ◌++◌, map, ltb, leb, ◌==◌, if◌then◌else◌, length, take, drop,
}
use mathlib.Core.List.{tail}
use e5renew.Prelude.Int.{ℤ, pos}
use e5renew.Text.{Bytes, codes}
use e5renew.Failure.{Error, no_rows, other, Result, ok, err, Exec}
use e5renew.Rows.{keep, order_by, page_of}
use e5renew.Database.{Collation}

-- The columns of both tables of the migrations
pub data Column : Type 0 where
  id user_id access_token refresh_token expiry token_type : Column
  api_endpoint http_method http_status_code request_time response_time duration_ms : Column
  request_size response_size error_message job_type success : Column

-- A value that an argument or a column holds. Times are nanoseconds since Go's zero time.
pub data Value : Type 0 where
  null : Value
  int : ℤ → Value
  text : Bytes → Value
  time : ℕ → Value
  boolean : Bool → Value

abbrev pub Row : Type 0
Row = Column → Value

pub data Table : Type 0 where
  user_tokens : Table
  api_logs : Table

pub data Comparison : Type 0 where
  equal at_least at_most less : Comparison

-- What follows WHERE: comparisons with placeholders, joined by AND.
abbrev pub Conditions : Type 0
Conditions = List (Column × Comparison)

pub data Order : Type 0 where
  unordered : Order
  ascending : Column → Order
  descending : Column → Order

pub data Limit : Type 0 where
  unlimited : Limit
  one : Limit
  placeholders : Limit

pub data Statement : Type 0 where
  insert : Table → List Column → Statement
  update : Table → List Column → Conditions → Statement
  delete : Table → Conditions → Statement

pub record Select : Type 0 where
  pub columns : List Column
  pub table : Table
  pub conditions : Conditions
  pub order : Order
  pub limit : Limit

-- How a statement fails: it is refused, its rows break off behind some, or their end is an error.
pub data Fault : Type 0 where
  refused : Error → Fault
  interrupted : ℕ → Error → Fault
  unclosed : Error → Fault

abbrev pub fault_error : Fault → Error
fault_error (refused e) = e
fault_error (interrupted n e) = e
fault_error (unclosed e) = e

-- The state of the database. `faults` tells of each coming statement whether and how it fails.
pub record Tables : Type 0 where
  pub user_tokens : List Row
  pub api_logs : List Row
  pub next_token_id : ℕ
  pub next_log_id : ℕ
  pub faults : List (Option Fault)

abbrev pub second : ℕ
second = 1_000_000_000

abbrev pub first_timestamp : ℕ
first_timestamp = 62_135_596_801 * second

abbrev pub last_timestamp : ℕ
last_timestamp = 64_283_080_447 * second

abbrev pub number : Column → ℕ
number Column.id = 0
number Column.user_id = 1
number Column.access_token = 2
number Column.refresh_token = 3
number Column.expiry = 4
number Column.token_type = 5
number Column.api_endpoint = 6
number Column.http_method = 7
number Column.http_status_code = 8
number Column.request_time = 9
number Column.response_time = 10
number Column.duration_ms = 11
number Column.request_size = 12
number Column.response_size = 13
number Column.error_message = 14
number Column.job_type = 15
number Column.success = 16

abbrev pub same_column : Column → Column → Bool
same_column a b = number a == number b

-- The row with the arguments written to the columns, one to each in order
abbrev pub written : List Column → List Value → Row → Row
written [] args row k = row k
written (c ∷ cs) [] row k = row k
written (c ∷ cs) (a ∷ args) row k = if same_column k c then a else written cs args row k

-- A new row: AUTO_INCREMENT gives the id, and a column that is not named is NULL.
abbrev pub fresh : ℕ → Row
fresh next k = if same_column k Column.id then int (pos next) else null

abbrev pub table_rows : Table → Tables → List Row
table_rows user_tokens db = db.user_tokens
table_rows api_logs db = db.api_logs

abbrev pub with_rows : Table → List Row → Tables → Tables
with_rows user_tokens rows db = record db { user_tokens = rows }
with_rows api_logs rows db = record db { api_logs = rows }

abbrev pub appended : Table → List Column → List Value → Tables → Tables
appended user_tokens columns args db = record db {
  user_tokens = db.user_tokens ++ written columns args (fresh db.next_token_id) ∷ [];
  next_token_id = db.next_token_id + 1;
}
appended api_logs columns args db = record db {
  api_logs = db.api_logs ++ written columns args (fresh db.next_log_id) ∷ [];
  next_log_id = db.next_log_id + 1;
}

abbrev incorrect_datetime : Error
incorrect_datetime = other (codes "Error 1292 (22007): Incorrect datetime value")

abbrev pub statement_sent : Tables → Tables
statement_sent db = record db { faults = tail db.faults }

abbrev pub first_fault : List (Option Fault) → Option Fault
first_fault [] = none
first_fault (f ∷ fs) = f

-- The time columns of both tables are TIMESTAMP, which keeps whole seconds from 1970-01-01 00:00:01
-- to 2038-01-19 03:14:07, rounds to them, and refuses in strict mode what is outside.
unfoldable pub kept_time : ℕ → ℕ
kept_time t = t + 500_000_000 - (t + 500_000_000) % second

unfoldable pub time_fits : ℕ → Bool
unfolding kept_time
time_fits t = leb first_timestamp (kept_time t) && leb (kept_time t) last_timestamp

abbrev pub kept_value : Value → Value
kept_value (time t) = time (kept_time t)
kept_value v = v

abbrev pub value_fits : Value → Bool
value_fits (time t) = time_fits t
value_fits _ = true

abbrev pub all_fit : List Value → Bool
all_fit [] = true
all_fit (v ∷ vs) = value_fits v && all_fit vs

module _ (c : Collation) where
  -- A comparison with NULL is never true.
  abbrev pub compare_values : Comparison → Value → Value → Bool
  compare_values equal (text u) (text v) = c.same u v
  compare_values at_least (time a) (time b) = leb b a
  compare_values at_most (time a) (time b) = leb a b
  compare_values less (time a) (time b) = ltb a b
  compare_values _ _ _ = false

  abbrev pub holds : Conditions → List Value → Row → Bool
  holds [] args row = true
  holds ((k, op) ∷ conditions) [] row = false
  holds ((k, op) ∷ conditions) (a ∷ args) row =
      compare_values op (row k) a && holds conditions args row

  abbrev pub values_in_order : Value → Value → Bool
  values_in_order (text u) (text v) = c.before u v
  values_in_order (time a) (time b) = leb a b
  values_in_order _ _ = true

  abbrev pub arranged : Order → List Row → List Row
  unfolding order_by
  arranged unordered rows = rows
  arranged (ascending k) rows = order_by (λ (a b : Row). values_in_order (a k) (b k)) rows
  arranged (descending k) rows = order_by (λ (a b : Row). values_in_order (b k) (a k)) rows

  abbrev pub limited : Limit → List Value → List Row → Result (List Row)
  limited unlimited args rows = ok rows
  limited one args rows = ok (take 1 rows)
  limited placeholders (int l ∷ int o ∷ args) rows = page_of l o rows
  limited placeholders _ rows = err (other (codes "expected numbers for LIMIT and OFFSET"))

  -- The rows of a SELECT: the placeholders of WHERE come before those of LIMIT and OFFSET.
  unfoldable pub selected : Select → List Value → List Row → Result (List Row)
  unfolding keep arranged
  selected q args rows =
      limited q.limit (drop (length q.conditions) args)
        (arranged q.order (keep (holds q.conditions args) rows))

  unfoldable pub effect : Statement → List Value → Tables → Tables
  unfolding keep
  effect (insert t columns) args db = appended t columns (map kept_value args) db
  effect (update t columns conditions) args db =
      with_rows t
        (map
          (λ (row : Row).
            if holds conditions (drop (length columns) args) row
            then written columns (map kept_value args) row
            else row)
          (table_rows t db))
        db
  effect (delete t conditions) args db =
      with_rows t (keep (λ row. not (holds conditions args row)) (table_rows t db)) db

  -- An UPDATE that meets no row writes nothing.
  unfoldable pub can_store : Statement → List Value → Tables → Bool
  unfolding keep
  can_store (insert t columns) args db = all_fit args
  can_store (update t columns conditions) args db =
      all_fit (take (length columns) args)
      || length (keep (holds conditions (drop (length columns) args)) (table_rows t db)) == 0
  can_store (delete t conditions) args db = true

  -- ExecContext: a statement that fails has no effect.
  abbrev exec_with : Option Fault → Statement → List Value → Exec Tables (Unit {0})
  unfolding effect can_store
  exec_with none s args db =
      if can_store s args db
      then (ok tt, effect s args (statement_sent db))
      else (err incorrect_datetime, statement_sent db)
  exec_with (some f) s args db = (err (fault_error f), statement_sent db)

  unfoldable pub exec_context : Statement → List Value → Exec Tables (Unit {0})
  unfolding exec_with
  exec_context s args db = exec_with (first_fault db.faults) s args db
