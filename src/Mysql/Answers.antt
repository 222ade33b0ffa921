-- ===== src/Mysql/Answers.antt =====
-- What a query of MySQL answers: the values that the scans of its rows give back, up to a fault.
use e5renew.Prelude.{◌≡◌, refl, ap, ◌∙◌, Option, none, some, List, [], ◌∷◌, map, take}
use mathlib.Core.List.{tail}
use e5renew.Failure.{Error, no_rows, Result, ok, err, Exec, lift, ◌>>=◌, ◌>>◌}
use e5renew.Database.{Db, Collation, send, outcome}
use e5renew.Sql.{
  Value, Row, Select, Fault, refused, interrupted, unclosed, fault_error, Tables, table_rows,
  first_fault, selected,
}
use e5renew.Sql.Cells.{
  Scanner, cells_of, Cursor, closed, opened, query_context, query_row, row_read, collect,
}
use e5renew.Sql.Maps.{mapped, take-map}
use e5renew.Mysql.Scans.{scan_rows-map}
use e5renew.Mysql.Encoding.{Contents, db_of, tables_of, Agrees, contents_sent}

-- A query of many rows, each of which stands for a value that its scan gives back
module _ {A : Type 0} (c : Collation) (q : Select) (args : List Value) (scan : Scanner A)
    (row : A → Row) (read : Db → Result (List A))
    (scanned : (a : A) → (scan (cells_of q.columns (row a))).0 ≡ ok a)
    (selects : (s : Contents)
      → selected c q args (table_rows q.table (tables_of s))
        ≡ mapped (map row) (read (db_of s))) where
  abbrev queried : Exec Tables (List A)
  queried = query_context c q args >>= λ rows. lift (collect scan rows)

  abbrev abstractly : Exec Db (List A)
  abstractly = send >> λ db. (read db, db)

  collect-ok :
      (xs : List A) (close iteration : Option Error)
      → collect scan (record {
        rows = map (cells_of q.columns) (map row xs);
        close_error = close;
        iteration_error = iteration;
      })
        ≡ closed scan close iteration (ok xs)
  unfolding collect
  collect-ok xs close iteration =
      ap (closed scan close iteration) (scan_rows-map scan q.columns row scanned xs)

  -- What the answer becomes by a fault
  abbrev answered : Option Fault → Result (List A) → Result (List A)
  answered none r = r
  answered (some f) r = err (fault_error f)

  abbrev read_rows : Result Cursor → Result (List A)
  read_rows (ok rows) = collect scan rows
  read_rows (err e) = err e

  opened-answered :
      (f : Option Fault) (r : Result (List A))
      → read_rows (opened f q.columns (mapped (map row) r)) ≡ answered f r
  opened-answered none (ok xs) = collect-ok xs none none
  opened-answered none (err e) = refl
  opened-answered (some (refused e)) (ok xs) = refl
  opened-answered (some (interrupted n e)) (ok xs) =
      ap
        (λ rows.
          collect scan (record { rows = rows; close_error = none; iteration_error = some e }))
        (take-map (cells_of q.columns) n (map row xs)
          ∙ ap (map (cells_of q.columns)) (take-map row n xs))
      ∙ collect-ok (take n xs) none (some e)
  opened-answered (some (unclosed e)) (ok xs) = collect-ok xs (some e) none
  opened-answered (some f) (err e) = refl

  handed_on :
      (r : Result Cursor) (before after : Tables)
      → ((λ db. (r, after)) >>= λ rows. lift (collect scan rows)) before ≡ (read_rows r, after)
  handed_on (ok rows) before after = refl
  handed_on (err e) before after = refl

  reply : Contents → Result (List A)
  reply s = answered (first_fault s.faults) (read (db_of (contents_sent s)))

  queried-eq : (s : Contents) → queried (tables_of s) ≡ (reply s, tables_of (contents_sent s))
  unfolding query_context reply
  queried-eq s =
      handed_on _ (tables_of s) (tables_of (contents_sent s))
      ∙ ap (λ r. (r, tables_of (contents_sent s)))
          (ap (λ r. read_rows (opened (first_fault s.faults) q.columns r))
              (selects (contents_sent s))
            ∙ opened-answered (first_fault s.faults) (read (db_of (contents_sent s))))

  abstractly-eq :
      (fs : List (Option Fault)) (s : Contents)
      → abstractly (db_of (record s { faults = fs }))
        ≡ (reply (record s { faults = fs }), db_of (record s { faults = tail fs }))
  unfolding send outcome reply
  abstractly-eq [] s = refl
  abstractly-eq (none ∷ fs) s = refl
  abstractly-eq (some f ∷ fs) s = refl

  pub query_context-Agrees : Agrees queried abstractly
  query_context-Agrees s = record {
    answer = reply s;
    after = contents_sent s;
    rows = queried-eq s;
    abstract = abstractly-eq s.faults s;
  }

abbrev pub at_most_one {ℓ} : {A : Type ℓ} → Option A → List A
at_most_one none = []
at_most_one (some a) = a ∷ []

abbrev pub found_or_no_rows {ℓ} : {A : Type ℓ} → Option A → Result A
found_or_no_rows none = err no_rows
found_or_no_rows (some a) = ok a

-- A query of at most one row
module _ {A : Type 0} (c : Collation) (q : Select) (args : List Value) (scan : Scanner A)
    (row : A → Row) (find : Db → Option A)
    (scanned : (a : A) → (scan (cells_of q.columns (row a))).0 ≡ ok a)
    (selects : (s : Contents)
      → selected c q args (table_rows q.table (tables_of s))
        ≡ ok (map row (at_most_one (find (db_of s))))) where
  abbrev row_queried : Exec Tables A
  row_queried = query_row c q args >>= λ cells. lift (scan cells).0

  abbrev found_abstractly : Exec Db A
  found_abstractly = send >> λ db. (found_or_no_rows (find db), db)

  abbrev row_answered : Option Fault → Option A → Result A
  row_answered none r = found_or_no_rows r
  row_answered (some f) r = err (fault_error f)

  abbrev read_cells : Result (List Value) → Result A
  read_cells (ok cells) = (scan cells).0
  read_cells (err e) = err e

  row_read-answered :
      (f : Option Fault) (r : Option A)
      → read_cells (row_read f q.columns (ok (map row (at_most_one r)))) ≡ row_answered f r
  row_read-answered none none = refl
  row_read-answered none (some a) = scanned a
  row_read-answered (some f) r = refl

  row_handed_on :
      (r : Result (List Value)) (before after : Tables)
      → ((λ db. (r, after)) >>= λ cells. lift (scan cells).0) before ≡ (read_cells r, after)
  row_handed_on (ok cells) before after = refl
  row_handed_on (err e) before after = refl

  row_reply : Contents → Result A
  row_reply s = row_answered (first_fault s.faults) (find (db_of (contents_sent s)))

  row_queried-eq :
      (s : Contents) → row_queried (tables_of s) ≡ (row_reply s, tables_of (contents_sent s))
  unfolding query_row row_reply
  row_queried-eq s =
      row_handed_on _ (tables_of s) (tables_of (contents_sent s))
      ∙ ap (λ r. (r, tables_of (contents_sent s)))
          (ap (λ r. read_cells (row_read (first_fault s.faults) q.columns r))
              (selects (contents_sent s))
            ∙ row_read-answered (first_fault s.faults) (find (db_of (contents_sent s))))

  found_abstractly-eq :
      (fs : List (Option Fault)) (s : Contents)
      → found_abstractly (db_of (record s { faults = fs }))
        ≡ (row_reply (record s { faults = fs }), db_of (record s { faults = tail fs }))
  unfolding send outcome row_reply
  found_abstractly-eq [] s = refl
  found_abstractly-eq (none ∷ fs) s = refl
  found_abstractly-eq (some f ∷ fs) s = refl

  pub query_row-Agrees : Agrees row_queried found_abstractly
  query_row-Agrees s = record {
    answer = row_reply s;
    after = contents_sent s;
    rows = row_queried-eq s;
    abstract = found_abstractly-eq s.faults s;
  }
