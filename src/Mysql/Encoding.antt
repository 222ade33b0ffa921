-- ===== src/Mysql/Encoding.antt =====
-- The state of the MySQL tables and the abstract state of both tables, as two views of one.
use e5renew.Prelude.{ℕ, ◌≡◌, refl, ap, true, Option, none, some, List, [], ◌∷◌, map}
use mathlib.Core.List.{tail}
use e5renew.Failure.{Error, Result, ok, err, Exec, ◌>>◌}
use e5renew.Database.{Db, Collation, UserToken, ApiLog, send, outcome}
use e5renew.Sql.{Value, Statement, Fault, fault_error, Tables, effect, can_store, exec_context}
use e5renew.Mysql.Scans.{log_row, token_row}

-- What both states stand for
pub record Contents : Type 0 where
  pub user_tokens : List UserToken
  pub api_logs : List ApiLog
  pub next_token_id : ℕ
  pub next_log_id : ℕ
  pub faults : List (Option Fault)

abbrev pub errors : Option Fault → Option Error
errors none = none
errors (some f) = some (fault_error f)

-- The abstract view, which forgets where a statement fails
abbrev pub db_of : Contents → Db
db_of s = record {
  user_tokens = s.user_tokens;
  api_logs = s.api_logs;
  next_token_id = s.next_token_id;
  next_log_id = s.next_log_id;
  faults = map errors s.faults;
}

-- The rows and cells
abbrev pub tables_of : Contents → Tables
tables_of s = record {
  user_tokens = map token_row s.user_tokens;
  api_logs = map log_row s.api_logs;
  next_token_id = s.next_token_id;
  next_log_id = s.next_log_id;
  faults = s.faults;
}

-- A statement on the rows and its abstract form answer alike, and leave two views of one state.
pub record Alike {A : Type 0} (m : Exec Tables A) (n : Exec Db A) (s : Contents) : Type 0 where
  pub answer : Result A
  pub after : Contents
  pub rows : m (tables_of s) ≡ (answer, tables_of after)
  pub abstract : n (db_of s) ≡ (answer, db_of after)

-- The same from every state
abbrev pub Agrees : {A : Type 0} → Exec Tables A → Exec Db A → Type 0
Agrees m n = (s : Contents) → Alike m n s

abbrev pub contents_sent : Contents → Contents
contents_sent s = record s { faults = tail s.faults }

-- A statement that changes the tables
module _ (c : Collation) (statement : Statement) (args : List Value) (change : Db → Db)
    (step : Contents → Contents) (can : (t : Tables) → can_store c statement args t ≡ true)
    (rows : (s : Contents) → effect c statement args (tables_of s) ≡ tables_of (step s))
    (abstract : (s : Contents) → change (db_of s) ≡ db_of (step s)) where
  pub exec_context-Agrees :
      Agrees (exec_context c statement args) (send >> λ db. (ok tt, change db))
  unfolding exec_context send outcome
  exec_context-Agrees s = by_faults s.faults
    where
      with_faults : List (Option Fault) → Contents
      with_faults fs = record s { faults = fs }

      done : List (Option Fault) → Contents
      done fs = step (contents_sent (with_faults fs))

      by_faults :
          (fs : List (Option Fault))
          → Alike
              (exec_context c statement args)
              (send >> λ db. (ok tt, change db))
              (with_faults fs)
      by_faults [] = record {
        answer = ok tt;
        after = done [];
        rows = rw can (ap (λ t. (ok tt, t)) (rows (contents_sent (with_faults []))));
        abstract = ap (λ t. (ok tt, t)) (abstract (contents_sent (with_faults [])));
      }
      by_faults (none ∷ fs) = record {
        answer = ok tt;
        after = done (none ∷ fs);
        rows = rw can (ap (λ t. (ok tt, t)) (rows (with_faults fs)));
        abstract = ap (λ t. (ok tt, t)) (abstract (with_faults fs));
      }
      by_faults (some f ∷ fs) = record {
        answer = err (fault_error f);
        after = with_faults fs;
        rows = refl;
        abstract = refl;
      }
