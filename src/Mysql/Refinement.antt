-- ===== src/Mysql/Refinement.antt =====
-- Each function of internal/db/mysql/query.sql.go does what the abstract statement does.
use e5renew.Prelude.{
  ℕ, ◌+◌, ◌≡◌, Option, none, some, refl, sym, ap, ◌∙◌, inl, inr, true, not, ◌&&◌, List, [], ◌∷◌,
  ◌++◌, map, Bool-cases, if◌then◌else◌,
}
use mathlib.Core.Path.{fun_ext}
use e5renew.Text.{Bytes}
use e5renew.Prelude.Int.{ℤ}
use e5renew.Database
use e5renew.Database.{
  Db, Collation, UserToken, ApiLog, CreateUserTokensParams, CreateApiLogParams, newest_first,
  row_of, log_of, token_with, set_token, find_token, or_no_rows, user_is,
}
use e5renew.Sql.{
  Column, Value, text, time, user_tokens, api_logs, written, appended, fresh, kept_value, effect,
  can_store,
}
use e5renew.Sql.Times.{
  IsTimestamp, IsKept, AreKept, no_value, and_value, time-IsKept, map-kept_value, all_fit-AreKept,
}
use e5renew.Sql.Maps.{&&-true, keep-ext, keep-map}
use e5renew.Mysql
use e5renew.Mysql.{
  log_columns, token_columns, set_columns, token_args, log_args, set_args, logs_where, null_text,
  null_int, scan_api_log, scan_user_token,
}
use e5renew.Mysql.Scans.{log_row, token_row}
use e5renew.Mysql.Encoding.{tables_of, Agrees, exec_context-Agrees}

map-append {ℓ} :
    {A B : Type ℓ} (f : A → B) (xs ys : List A) → map f (xs ++ ys) ≡ map f xs ++ map f ys
map-append f [] ys = refl
map-append f (x ∷ xs) ys = ap (λ zs. f x ∷ zs) (map-append f xs ys)

map-map-commute {ℓ} :
    {A B : Type ℓ} (row : A → B) (g : A → A) (h : B → B)
    → ((a : A) → h (row a) ≡ row (g a))
    → (xs : List A) → map h (map row xs) ≡ map row (map g xs)
map-map-commute row g h e [] = refl
map-map-commute row g h e (x ∷ xs) = λ i. e x i ∷ map-map-commute row g h e xs i

-- The rows that INSERT and UPDATE write
token_written :
    (arg : CreateUserTokensParams) (id : ℕ) (k : Column)
    → written token_columns (token_args arg) (fresh id) k ≡ token_row (row_of id arg) k
token_written arg id Column.id = refl
token_written arg id _ = refl

log_written :
    (arg : CreateApiLogParams) (id : ℕ) (k : Column)
    → written log_columns (log_args arg) (fresh id) k ≡ log_row (log_of id arg) k
log_written arg id Column.id = refl
log_written arg id _ = refl

token_set :
    (arg : CreateUserTokensParams) (t : UserToken) (k : Column)
    → written set_columns (set_args arg) (token_row t) k ≡ token_row (token_with arg t) k
token_set arg t Column.id = refl
token_set arg t _ = refl

stored {ℓ} :
    {A B : Type ℓ} (row : A → B) (xs : List A) (new : B) (a : A)
    → new ≡ row a
    → map row xs ++ new ∷ [] ≡ map row (xs ++ a ∷ [])
stored row xs new a e = ap (λ r. map row xs ++ r ∷ []) e ∙ sym (map-append row xs (a ∷ []))

-- The arguments, of which the times alone are not kept by every column
null_text-IsKept : (u : Option Bytes) → IsKept (null_text u)
null_text-IsKept none = (refl, refl)
null_text-IsKept (some u) = (refl, refl)

null_int-IsKept : (n : Option ℤ) → IsKept (null_int n)
null_int-IsKept none = (refl, refl)
null_int-IsKept (some n) = (refl, refl)

token_args-AreKept :
    (arg : CreateUserTokensParams) → IsTimestamp arg.expiry → AreKept (token_args arg)
token_args-AreKept arg h =
    and_value (refl, refl)
      (and_value (refl, refl)
        (and_value (refl, refl)
          (and_value (time-IsKept arg.expiry h) (and_value (refl, refl) no_value))))

set_values-AreKept :
    (arg : CreateUserTokensParams) (vs : List Value)
    → AreKept vs
    → IsTimestamp arg.expiry
    → AreKept (
        text arg.access_token ∷ text arg.refresh_token ∷ time arg.expiry ∷ text arg.token_type ∷ vs)
set_values-AreKept arg vs rest h =
    and_value (refl, refl)
      (and_value (refl, refl) (and_value (time-IsKept arg.expiry h) (and_value (refl, refl) rest)))

log_args-AreKept :
    (arg : CreateApiLogParams)
    → IsTimestamp arg.request_time
    → IsTimestamp arg.response_time
    → AreKept (log_args arg)
log_args-AreKept arg h h' = and_value (null_text-IsKept arg.user_id) (
    and_value (refl, refl)
      (and_value (refl, refl)
        (and_value (refl, refl)
          (and_value (time-IsKept arg.request_time h) (
            and_value (time-IsKept arg.response_time h') (
              and_value (refl, refl)
                (and_value (null_int-IsKept arg.request_size) (
                  and_value (null_int-IsKept arg.response_size) (
                    and_value (null_text-IsKept arg.error_message)
                      (and_value (refl, refl) (and_value (refl, refl) no_value)))))))))))

module _ (c : Collation) where
  pub create_user_tokens-Agrees :
      (arg : CreateUserTokensParams)
      → IsTimestamp arg.expiry
      → Agrees (Mysql.create_user_tokens c arg) (Database.create_user_tokens c arg)
  unfolding Mysql.create_user_tokens Database.create_user_tokens effect can_store
  create_user_tokens-Agrees arg h =
      exec_context-Agrees c _ _ _
        (λ s. record s {
          user_tokens = s.user_tokens ++ row_of s.next_token_id arg ∷ [];
          next_token_id = s.next_token_id + 1;
        })
        (λ t. all_fit-AreKept _ (token_args-AreKept arg h))
        (λ s.
          ap (λ vs. appended user_tokens token_columns vs (tables_of s))
            (map-kept_value _ (token_args-AreKept arg h))
          ∙ ap
              (λ rows. record (tables_of s) {
                user_tokens = rows;
                next_token_id = s.next_token_id + 1;
              })
              (stored token_row s.user_tokens _ _ (fun_ext (token_written arg s.next_token_id))))
        (λ s. refl)

  pub create_api_log-Agrees :
      (arg : CreateApiLogParams)
      → IsTimestamp arg.request_time
      → IsTimestamp arg.response_time
      → Agrees (Mysql.create_api_log c arg) (Database.create_api_log arg)
  unfolding Mysql.create_api_log Database.create_api_log effect can_store
  create_api_log-Agrees arg h h' =
      exec_context-Agrees c _ _ _
        (λ s. record s {
          api_logs = s.api_logs ++ log_of s.next_log_id arg ∷ [];
          next_log_id = s.next_log_id + 1;
        })
        (λ t. all_fit-AreKept _ (log_args-AreKept arg h h'))
        (λ s.
          ap (λ vs. appended api_logs log_columns vs (tables_of s))
            (map-kept_value _ (log_args-AreKept arg h h'))
          ∙ ap (λ rows. record (tables_of s) { api_logs = rows; next_log_id = s.next_log_id + 1 })
              (stored log_row s.api_logs _ _ (fun_ext (log_written arg s.next_log_id))))
        (λ s. refl)

  pub delete_old_api_logs-Agrees :
      (before : ℕ)
      → Agrees (Mysql.delete_old_api_logs c before) (Database.delete_old_api_logs before)
  unfolding Mysql.delete_old_api_logs Database.delete_old_api_logs effect can_store
  delete_old_api_logs-Agrees before =
      exec_context-Agrees c _ _ _ _ (λ t. refl)
        (λ s.
          ap (λ rows. record (tables_of s) { api_logs = rows })
            (keep-map log_row _ s.api_logs
              ∙ ap (map log_row) (keep-ext _ _ (λ l. ap not (&&-true _)) s.api_logs)))
        (λ s. refl)

  pub delete_user_tokens-Agrees :
      (user_id : Bytes)
      → Agrees (Mysql.delete_user_tokens c user_id) (Database.delete_user_tokens c user_id)
  unfolding Mysql.delete_user_tokens Database.delete_user_tokens effect can_store
  delete_user_tokens-Agrees user_id =
      exec_context-Agrees c _ _ _ _ (λ t. refl)
        (λ s.
          ap (λ rows. record (tables_of s) { user_tokens = rows })
            (keep-map token_row _ s.user_tokens
              ∙ ap (map token_row) (keep-ext _ _ (λ l. ap not (&&-true _)) s.user_tokens)))
        (λ s. refl)

  pub update_user_tokens-Agrees :
      (arg : CreateUserTokensParams)
      → IsTimestamp arg.expiry
      → Agrees (Mysql.update_user_tokens c arg) (Database.update_user_tokens c arg)
  unfolding Mysql.update_user_tokens Database.update_user_tokens effect can_store
  update_user_tokens-Agrees arg h =
      exec_context-Agrees c _ _ _
        (λ s. record s { user_tokens = map (set_token c arg) s.user_tokens })
        (λ t. rw (all_fit-AreKept _ (set_values-AreKept arg [] no_value h)) refl)
        (λ s.
          ap (λ rows. record (tables_of s) { user_tokens = rows })
            (map-map-commute token_row (set_token c arg) _ row_set s.user_tokens))
        (λ s. refl)
    where
      args : AreKept (set_args arg)
      args = set_values-AreKept arg _ (and_value (refl, refl) no_value) h

      row_set :
          (t : UserToken)
          → (if c.same t.user_id arg.user_id && true
              then written set_columns (map kept_value (set_args arg)) (token_row t)
              else token_row t)
            ≡ token_row (set_token c arg t)
      row_set t = elim (Bool-cases (c.same t.user_id arg.user_id)) [
        | inl same ↦ rw (same, set_token, map-kept_value _ args) (fun_ext (token_set arg t))
        | inr other ↦ rw (other, set_token) refl
      ]
