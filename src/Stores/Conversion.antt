-- ===== src/Stores/Conversion.antt =====
-- The conversion of rows changes nothing, so that the stores of both engines agree call by call.
use e5renew.Prelude.{ℕ, ◌≡◌, refl, sym, ap, subst, Option, List, [], ◌∷◌}
use mathlib.Core.Path.{fun_ext}
use e5renew.Prelude.Int.{ℤ}
use e5renew.Text.{Bytes}
use e5renew.Failure.{Result, ok, err, Exec}
use e5renew.Engine.{mysql, postgres}
use e5renew.Database.{Db, Collation, CreateUserTokensParams, CreateApiLogParams}
use e5renew.Sql.{Tables}
use e5renew.Sql.Times.{IsTimestamp}
use e5renew.Mysql.Encoding.{Agrees}
use e5renew.Mysql.Refinement.{
  create_api_log-Agrees, create_user_tokens-Agrees, delete_old_api_logs-Agrees,
  delete_user_tokens-Agrees, update_user_tokens-Agrees,
}
use e5renew.Mysql.Queries.{
  get_api_logs-Agrees, get_api_logs_by_job_type-Agrees, get_api_logs_by_time_range-Agrees,
  get_api_logs_by_user-Agrees, get_user_token-Agrees, list_user_tokens-Agrees,
}
use e5renew.Stores.{Stores, convert_rows, converting, new_stores, repository_stores}

convert_rows-eq {ℓ} : {A : Type ℓ} (rows : List A) → convert_rows rows ≡ rows
unfolding convert_rows
convert_rows-eq [] = refl
convert_rows-eq (row ∷ rows) = ap (λ r. row ∷ r) (convert_rows-eq rows)

module _ {S A : Type 0} where
  after_query : (r : Result (List A)) (s before : S) → converting (λ _. (r, s)) before ≡ (r, s)
  unfolding converting
  after_query (ok rows) s before = ap (λ r. (ok r, s)) (convert_rows-eq rows)
  after_query (err e) s before = refl

  pub converting-eq : (query : Exec S (List A)) → converting query ≡ query
  unfolding converting
  converting-eq query = fun_ext λ s. after_query (query s).0 (query s).1 s

-- What each operation of two stores has to do for them to agree
pub record StoresAgree (m : Stores Tables) (n : Stores Db) : Type 0 where
  pub create_api_log :
      (arg : CreateApiLogParams)
      → IsTimestamp arg.request_time
      → IsTimestamp arg.response_time
      → Agrees (m.apilog.create_api_log arg) (n.apilog.create_api_log arg)
  pub delete_old_api_logs :
      (t : ℕ) → Agrees (m.apilog.delete_old_api_logs t) (n.apilog.delete_old_api_logs t)
  pub get_api_logs :
      (limit offset : ℤ)
      → Agrees (m.apilog.get_api_logs limit offset) (n.apilog.get_api_logs limit offset)
  pub get_api_logs_by_job_type :
      (job_type : Bytes) (limit offset : ℤ)
      → Agrees
          (m.apilog.get_api_logs_by_job_type job_type limit offset)
          (n.apilog.get_api_logs_by_job_type job_type limit offset)
  pub get_api_logs_by_time_range :
      (start end : ℕ) (limit offset : ℤ)
      → Agrees
          (m.apilog.get_api_logs_by_time_range start end limit offset)
          (n.apilog.get_api_logs_by_time_range start end limit offset)
  pub get_api_logs_by_user :
      (user_id : Option Bytes) (limit offset : ℤ)
      → Agrees
          (m.apilog.get_api_logs_by_user user_id limit offset)
          (n.apilog.get_api_logs_by_user user_id limit offset)
  pub create_user_tokens :
      (arg : CreateUserTokensParams)
      → IsTimestamp arg.expiry
      → Agrees (m.tokens.create_user_tokens arg) (n.tokens.create_user_tokens arg)
  pub delete_user_tokens :
      (user_id : Bytes)
      → Agrees (m.tokens.delete_user_tokens user_id) (n.tokens.delete_user_tokens user_id)
  pub get_user_token :
      (user_id : Bytes) → Agrees (m.tokens.get_user_token user_id) (n.tokens.get_user_token user_id)
  pub list_user_tokens : Agrees m.tokens.list_user_tokens n.tokens.list_user_tokens
  pub update_user_tokens :
      (arg : CreateUserTokensParams)
      → IsTimestamp arg.expiry
      → Agrees (m.tokens.update_user_tokens arg) (n.tokens.update_user_tokens arg)

module _ {A : Type 0} (m : Exec Tables (List A)) (n : Exec Db (List A)) (h : Agrees m n) where
  pub converted_left : Agrees (converting m) n
  converted_left = subst (λ q. Agrees q n) (sym (converting-eq m)) h

  converted : Agrees (converting m) (converting n)
  converted = subst (λ q. Agrees (converting m) q) (sym (converting-eq n)) converted_left

module _ (c : Collation) where
  pub new_stores-StoresAgree : StoresAgree (new_stores mysql c) (new_stores postgres c)
  unfolding new_stores
  new_stores-StoresAgree = record {
    create_api_log = create_api_log-Agrees c;
    delete_old_api_logs = delete_old_api_logs-Agrees c;
    get_api_logs = λ limit offset. converted_left _ _ (get_api_logs-Agrees c limit offset);
    get_api_logs_by_job_type = λ job_type limit offset.
        converted_left _ _ (get_api_logs_by_job_type-Agrees c job_type limit offset);
    get_api_logs_by_time_range = λ start end limit offset.
        converted_left _ _ (get_api_logs_by_time_range-Agrees c start end limit offset);
    get_api_logs_by_user = λ user_id limit offset.
        converted_left _ _ (get_api_logs_by_user-Agrees c user_id limit offset);
    create_user_tokens = create_user_tokens-Agrees c;
    delete_user_tokens = delete_user_tokens-Agrees c;
    get_user_token = get_user_token-Agrees c;
    list_user_tokens = converted_left _ _ (list_user_tokens-Agrees c);
    update_user_tokens = update_user_tokens-Agrees c;
  }

  pub repository_stores-StoresAgree :
      StoresAgree (repository_stores mysql c) (repository_stores postgres c)
  unfolding repository_stores
  repository_stores-StoresAgree = record {
    create_api_log = create_api_log-Agrees c;
    delete_old_api_logs = delete_old_api_logs-Agrees c;
    get_api_logs = λ limit offset. converted _ _ (get_api_logs-Agrees c limit offset);
    get_api_logs_by_job_type = λ job_type limit offset.
        converted _ _ (get_api_logs_by_job_type-Agrees c job_type limit offset);
    get_api_logs_by_time_range = λ start end limit offset.
        converted _ _ (get_api_logs_by_time_range-Agrees c start end limit offset);
    get_api_logs_by_user =
        λ user_id limit offset. converted _ _ (get_api_logs_by_user-Agrees c user_id limit offset);
    create_user_tokens = create_user_tokens-Agrees c;
    delete_user_tokens = delete_user_tokens-Agrees c;
    get_user_token = get_user_token-Agrees c;
    list_user_tokens = converted _ _ (list_user_tokens-Agrees c);
    update_user_tokens = update_user_tokens-Agrees c;
  }
