-- ===== src/Sql/Cells.antt =====
-- database/sql's rows: the cursor, the conversion of the cells (Rows.Scan), and the loops over the
-- rows in internal/db/mysql/query.sql.go.
use e5renew.Prelude.{Bool, Option, none, some, List, [], ◌∷◌, ◌++◌, map, take}
use e5renew.Prelude.Int.{ℤ, pos}
use e5renew.Text.{Bytes, codes}
use e5renew.Failure.{Error, no_rows, other, Result, ok, err, Exec}
use e5renew.Database.{Collation}
use e5renew.Sql.{
  Column, Value, null, int, text, time, boolean, Row, Select, Fault, refused, interrupted, unclosed,
  fault_error, Tables, table_rows, statement_sent, first_fault, selected,
}
use Prim.Native.Nat.{ℕ}

-- The cells that are still to be scanned
abbrev pub Scanner : Type 0 → Type 0
Scanner A = Exec (List Value) A

abbrev pub mismatch {ℓ} : {A : Type ℓ} → Result A
mismatch = err (other (codes "sql: Scan error"))

abbrev as_text : Value → Result Bytes
as_text (text s) = ok s
as_text _ = mismatch

abbrev as_int : Value → Result ℤ
as_int (int z) = ok z
as_int _ = mismatch

abbrev as_id : Value → Result ℕ
as_id (int (pos n)) = ok n
as_id _ = mismatch

abbrev as_time : Value → Result ℕ
as_time (time t) = ok t
as_time _ = mismatch

abbrev as_bool : Value → Result Bool
as_bool (boolean b) = ok b
as_bool _ = mismatch

-- sql.NullString and sql.NullInt32
abbrev as_null_text : Value → Result (Option Bytes)
as_null_text null = ok none
as_null_text (text s) = ok (some s)
as_null_text _ = mismatch

abbrev as_null_int : Value → Result (Option ℤ)
as_null_int null = ok none
as_null_int (int z) = ok (some z)
as_null_int _ = mismatch

abbrev cell : {A : Type 0} → (Value → Result A) → Scanner A
cell convert [] = (mismatch, [])
cell convert (v ∷ cells) = (convert v, cells)

abbrev pub text_cell : Scanner Bytes
text_cell = cell as_text

abbrev pub int_cell : Scanner ℤ
int_cell = cell as_int

abbrev pub id_cell : Scanner ℕ
id_cell = cell as_id

abbrev pub time_cell : Scanner ℕ
time_cell = cell as_time

abbrev pub bool_cell : Scanner Bool
bool_cell = cell as_bool

abbrev pub null_text_cell : Scanner (Option Bytes)
null_text_cell = cell as_null_text

abbrev pub null_int_cell : Scanner (Option ℤ)
null_int_cell = cell as_null_int

-- Scan wants as many destinations as there are columns.
abbrev pub end_of_row : Scanner (Unit {0})
end_of_row [] = (ok tt, [])
end_of_row (v ∷ cells) = (mismatch, cells)

-- *sql.Rows: the rows that Next delivers, and the error that Close or Err gives behind them
pub record Cursor : Type 0 where
  pub rows : List (List Value)
  pub close_error : Option Error
  pub iteration_error : Option Error

abbrev pub cells_of : List Column → Row → List Value
cells_of columns row = map row columns

abbrev pub cursor_over : Option Fault → List (List Value) → Result Cursor
cursor_over none rows = ok (record { rows = rows; close_error = none; iteration_error = none })
cursor_over (some (refused e)) rows = err e
cursor_over (some (interrupted n e)) rows =
    ok (record { rows = take n rows; close_error = none; iteration_error = some e })
cursor_over (some (unclosed e)) rows =
    ok (record { rows = rows; close_error = some e; iteration_error = none })

abbrev pub opened : Option Fault → List Column → Result (List Row) → Result Cursor
opened f columns (ok rows) = cursor_over f (map (cells_of columns) rows)
opened none columns (err e) = err e
opened (some f) columns (err e) = err (fault_error f)

abbrev pub row_read : Option Fault → List Column → Result (List Row) → Result (List Value)
row_read (some f) columns rows = err (fault_error f)
row_read none columns (err e) = err e
row_read none columns (ok []) = err no_rows
row_read none columns (ok (row ∷ rows)) = ok (cells_of columns row)

module _ (c : Collation) where
  unfoldable pub query_context : Select → List Value → Exec Tables Cursor
  unfolding selected
  query_context q args db = (
    opened (first_fault db.faults) q.columns
        (selected c q args (table_rows q.table (statement_sent db))),
    statement_sent db,
  )

  -- QueryRowContext up to the Scan of the row
  unfoldable pub query_row : Select → List Value → Exec Tables (List Value)
  unfolding selected
  query_row q args db = (
    row_read (first_fault db.faults) q.columns
        (selected c q args (table_rows q.table (statement_sent db))),
    statement_sent db,
  )

module _ {A : Type 0} (scan : Scanner A) where
  -- for rows.Next() { …Scan…; items = append(items, i) }
  unfoldable pub scan_rows : List A → List (List Value) → Result (List A)
  scan_rows items [] = ok items
  scan_rows items (cells ∷ rows) = elim (scan cells).0 [
    | ok i ↦ scan_rows (items ++ i ∷ []) rows
    | err e ↦ err e
  ]

  abbrev pub closed : Option Error → Option Error → Result (List A) → Result (List A)
  closed close iteration (err e) = err e
  closed (some e) iteration (ok items) = err e
  closed none (some e) (ok items) = err e
  closed none none (ok items) = ok items

  -- What a query of many rows does with the cursor
  unfoldable pub collect : Cursor → Result (List A)
  unfolding scan_rows
  collect cursor = closed cursor.close_error cursor.iteration_error (scan_rows [] cursor.rows)
