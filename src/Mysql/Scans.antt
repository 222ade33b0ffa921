-- ===== src/Mysql/Scans.antt =====
-- What is scanned from the cells of a row is the record that was stored in it.
use e5renew.Prelude.{
  ◌≡◌, refl, sym, ap, ◌∙◌, Option, none, some, List, [], ◌∷◌, ◌++◌, map, append_assoc, append-nil,
}
use e5renew.Prelude.Int.{ℤ, pos}
use e5renew.Text.{Bytes}
use e5renew.Failure.{ok}
use e5renew.Database.{UserToken, ApiLog}
use e5renew.Sql.{Column, null, int, text, time, boolean, Row}
use e5renew.Sql.Cells.{Scanner, cells_of, scan_rows}
use e5renew.Mysql.{null_text, null_int, log_columns, token_columns, scan_api_log, scan_user_token}

-- The rows in which the tables hold a log and a token
abbrev pub log_row : ApiLog → Row
log_row l Column.id = int (pos l.id)
log_row l Column.user_id = null_text l.user_id
log_row l Column.api_endpoint = text l.api_endpoint
log_row l Column.http_method = text l.http_method
log_row l Column.http_status_code = int l.http_status_code
log_row l Column.request_time = time l.request_time
log_row l Column.response_time = time l.response_time
log_row l Column.duration_ms = int l.duration_ms
log_row l Column.request_size = null_int l.request_size
log_row l Column.response_size = null_int l.response_size
log_row l Column.error_message = null_text l.error_message
log_row l Column.job_type = text l.job_type
log_row l Column.success = boolean l.success
log_row l _ = null

abbrev pub token_row : UserToken → Row
token_row t Column.id = int (pos t.id)
token_row t Column.user_id = text t.user_id
token_row t Column.access_token = text t.access_token
token_row t Column.refresh_token = text t.refresh_token
token_row t Column.expiry = time t.expiry
token_row t Column.token_type = text t.token_type
token_row t _ = null

with_nullables : ApiLog → Option Bytes → Option ℤ → Option ℤ → Option Bytes → ApiLog
with_nullables l user_id request_size response_size error_message = record l {
  user_id = user_id;
  request_size = request_size;
  response_size = response_size;
  error_message = error_message;
}

abbrev Kept : ApiLog → Option Bytes → Option ℤ → Option ℤ → Option Bytes → Type 0
unfolding scan_api_log with_nullables
Kept l u q r e =
    (scan_api_log (cells_of (Column.id ∷ log_columns) (log_row (with_nullables l u q r e)))).0
    ≡ ok (with_nullables l u q r e)

for_every {ℓ} :
    {A : Type 0} (P : Option A → Type ℓ) → P none → ((a : A) → P (some a)) → (o : Option A) → P o
for_every P at_none at_some none = at_none
for_every P at_none at_some (some a) = at_some a

scan_with_nullables :
    (l : ApiLog) (u : Option Bytes) (q r : Option ℤ) (e : Option Bytes) → Kept l u q r e
unfolding scan_api_log with_nullables
scan_with_nullables l none none none = for_every (Kept l none none none) refl (λ s. refl)
scan_with_nullables l none none (some y) = for_every (Kept l none none (some y)) refl (λ s. refl)
scan_with_nullables l none (some x) none = for_every (Kept l none (some x) none) refl (λ s. refl)
scan_with_nullables l none (some x) (some y) =
    for_every (Kept l none (some x) (some y)) refl (λ s. refl)
scan_with_nullables l (some u) none none = for_every (Kept l (some u) none none) refl (λ s. refl)
scan_with_nullables l (some u) none (some y) =
    for_every (Kept l (some u) none (some y)) refl (λ s. refl)
scan_with_nullables l (some u) (some x) none =
    for_every (Kept l (some u) (some x) none) refl (λ s. refl)
scan_with_nullables l (some u) (some x) (some y) =
    for_every (Kept l (some u) (some x) (some y)) refl (λ s. refl)

pub scan_api_log-cells_of :
    (l : ApiLog) → (scan_api_log (cells_of (Column.id ∷ log_columns) (log_row l))).0 ≡ ok l
unfolding with_nullables Kept
scan_api_log-cells_of l =
    scan_with_nullables l l.user_id l.request_size l.response_size l.error_message

pub scan_user_token-cells_of :
    (t : UserToken)
    → (scan_user_token (cells_of (Column.id ∷ token_columns) (token_row t))).0 ≡ ok t
unfolding scan_user_token
scan_user_token-cells_of t = refl

module _ {A : Type 0} (scan : Scanner A) (columns : List Column) (row : A → Row)
    (scanned : (a : A) → (scan (cells_of columns (row a))).0 ≡ ok a) where
  scan_rows-append :
      (items xs : List A)
      → scan_rows scan items (map (cells_of columns) (map row xs)) ≡ ok (items ++ xs)
  unfolding scan_rows
  scan_rows-append items [] = ap ok (sym (append-nil items))
  scan_rows-append items (x ∷ xs) =
      rw (scanned x)
        (scan_rows-append (items ++ x ∷ []) xs ∙ ap ok (append_assoc items (x ∷ []) xs))

  pub scan_rows-map :
      (xs : List A) → scan_rows scan [] (map (cells_of columns) (map row xs)) ≡ ok xs
  scan_rows-map xs = scan_rows-append [] xs
