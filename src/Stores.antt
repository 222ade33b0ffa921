-- ===== src/Stores.antt =====
-- internal/db/stores.go, queries.go and db.go, and the stores of internal/repository: the interfaces
-- between the repositories and the generated queries, and the choice of their implementation by the
-- engine. The two statements of statistics are left out, since they return floating-point numbers.
pub mod Conversion
pub mod Alternation
use e5renew.Prelude.{ℕ, Option, List, [], ◌∷◌}
use e5renew.Prelude.Int.{ℤ}
use e5renew.Text.{Bytes, codes}
use e5renew.Failure.{other, Result, ok, err, Exec, pure, ◌>>=◌}
use e5renew.Engine.{Engine, mysql, postgres, unknown}
use e5renew.Database
use e5renew.Database.{Db, Collation, UserToken, ApiLog, CreateUserTokensParams, CreateApiLogParams}
use e5renew.Sql.{Tables}
use e5renew.Mysql

-- The interfaces apiLogStore and userTokenStore, over a state `S`
pub record ApiLogStore (S : Type 0) : Type 0 where
  pub create_api_log : CreateApiLogParams → Exec S (Unit {0})
  pub delete_old_api_logs : ℕ → Exec S (Unit {0})
  pub get_api_logs : ℤ → ℤ → Exec S (List ApiLog)
  pub get_api_logs_by_job_type : Bytes → ℤ → ℤ → Exec S (List ApiLog)
  pub get_api_logs_by_time_range : ℕ → ℕ → ℤ → ℤ → Exec S (List ApiLog)
  pub get_api_logs_by_user : Option Bytes → ℤ → ℤ → Exec S (List ApiLog)

pub record UserTokenStore (S : Type 0) : Type 0 where
  pub create_user_tokens : CreateUserTokensParams → Exec S (Unit {0})
  pub delete_user_tokens : Bytes → Exec S (Unit {0})
  pub get_user_token : Bytes → Exec S UserToken
  pub list_user_tokens : Exec S (List UserToken)
  pub update_user_tokens : CreateUserTokensParams → Exec S (Unit {0})

-- for i := range rows { result[i] = T(rows[i]) }, where T has the same fields
unfoldable pub convert_rows {ℓ} : {A : Type ℓ} → List A → List A
convert_rows [] = []
convert_rows (row ∷ rows) = row ∷ convert_rows rows

-- A query whose rows are converted
abbrev pub converting : {S A : Type 0} → Exec S (List A) → Exec S (List A)
unfolding convert_rows
converting query = query >>= λ rows. pure (convert_rows rows)

module _ (c : Collation) where
  -- The queries of internal/db/postgres, in place of which the abstract statements stand
  unfoldable pub postgres_api_log_queries : ApiLogStore Db
  postgres_api_log_queries = record {
    create_api_log = Database.create_api_log;
    delete_old_api_logs = Database.delete_old_api_logs;
    get_api_logs = Database.get_api_logs;
    get_api_logs_by_job_type = Database.get_api_logs_by_job_type c;
    get_api_logs_by_time_range = Database.get_api_logs_by_time_range;
    get_api_logs_by_user = Database.get_api_logs_by_user c;
  }

  unfoldable pub postgres_user_token_queries : UserTokenStore Db
  postgres_user_token_queries = record {
    create_user_tokens = Database.create_user_tokens c;
    delete_user_tokens = Database.delete_user_tokens c;
    get_user_token = Database.get_user_token c;
    list_user_tokens = Database.list_user_tokens c;
    update_user_tokens = Database.update_user_tokens c;
  }

  -- mysqlAdapter, as an apiLogStore and as a userTokenStore
  unfoldable pub mysql_adapter_logs : ApiLogStore Tables
  unfolding converting
  mysql_adapter_logs = record {
    create_api_log = Mysql.create_api_log c;
    delete_old_api_logs = Mysql.delete_old_api_logs c;
    get_api_logs = λ limit offset. converting (Mysql.get_api_logs c limit offset);
    get_api_logs_by_job_type = λ job_type limit offset.
        converting (Mysql.get_api_logs_by_job_type c job_type limit offset);
    get_api_logs_by_time_range = λ start end limit offset.
        converting (Mysql.get_api_logs_by_time_range c start end limit offset);
    get_api_logs_by_user =
        λ user_id limit offset. converting (Mysql.get_api_logs_by_user c user_id limit offset);
  }

  unfoldable pub mysql_adapter_tokens : UserTokenStore Tables
  unfolding converting
  mysql_adapter_tokens = record {
    create_user_tokens = Mysql.create_user_tokens c;
    delete_user_tokens = Mysql.delete_user_tokens c;
    get_user_token = Mysql.get_user_token c;
    list_user_tokens = converting (Mysql.list_user_tokens c);
    update_user_tokens = Mysql.update_user_tokens c;
  }

  -- mysqlAPILogStore, postgresAPILogStore, mysqlUserTokenStore and postgresUserTokenStore
  unfoldable pub mysql_api_log_store : ApiLogStore Tables
  unfolding converting
  mysql_api_log_store = record {
    create_api_log = Mysql.create_api_log c;
    delete_old_api_logs = Mysql.delete_old_api_logs c;
    get_api_logs = λ limit offset. converting (Mysql.get_api_logs c limit offset);
    get_api_logs_by_job_type = λ job_type limit offset.
        converting (Mysql.get_api_logs_by_job_type c job_type limit offset);
    get_api_logs_by_time_range = λ start end limit offset.
        converting (Mysql.get_api_logs_by_time_range c start end limit offset);
    get_api_logs_by_user =
        λ user_id limit offset. converting (Mysql.get_api_logs_by_user c user_id limit offset);
  }

  unfoldable pub postgres_api_log_store : ApiLogStore Db
  unfolding converting
  postgres_api_log_store = record {
    create_api_log = Database.create_api_log;
    delete_old_api_logs = Database.delete_old_api_logs;
    get_api_logs = λ limit offset. converting (Database.get_api_logs limit offset);
    get_api_logs_by_job_type = λ job_type limit offset.
        converting (Database.get_api_logs_by_job_type c job_type limit offset);
    get_api_logs_by_time_range = λ start end limit offset.
        converting (Database.get_api_logs_by_time_range start end limit offset);
    get_api_logs_by_user =
        λ user_id limit offset. converting (Database.get_api_logs_by_user c user_id limit offset);
  }

  unfoldable pub mysql_user_token_store : UserTokenStore Tables
  unfolding converting
  mysql_user_token_store = record {
    create_user_tokens = Mysql.create_user_tokens c;
    delete_user_tokens = Mysql.delete_user_tokens c;
    get_user_token = Mysql.get_user_token c;
    list_user_tokens = converting (Mysql.list_user_tokens c);
    update_user_tokens = Mysql.update_user_tokens c;
  }

  unfoldable pub postgres_user_token_store : UserTokenStore Db
  unfolding converting
  postgres_user_token_store = record {
    create_user_tokens = Database.create_user_tokens c;
    delete_user_tokens = Database.delete_user_tokens c;
    get_user_token = Database.get_user_token c;
    list_user_tokens = converting (Database.list_user_tokens c);
    update_user_tokens = Database.update_user_tokens c;
  }

-- The state that the stores of an engine work on
abbrev pub StateOf : Engine → Type 0
StateOf mysql = Tables
StateOf postgres = Db
StateOf (unknown name) = Db

-- The two stores of db.Queries, and those of the repositories
pub record Stores (S : Type 0) : Type 0 where
  pub apilog : ApiLogStore S
  pub tokens : UserTokenStore S

-- newStores, without the health store
unfoldable pub new_stores : (engine : Engine) → Collation → Stores (StateOf engine)
unfolding mysql_adapter_logs mysql_adapter_tokens postgres_api_log_queries
    postgres_user_token_queries
new_stores mysql c = record { apilog = mysql_adapter_logs c; tokens = mysql_adapter_tokens c }
new_stores postgres c = record {
  apilog = postgres_api_log_queries c;
  tokens = postgres_user_token_queries c;
}
new_stores (unknown name) c = record {
  apilog = postgres_api_log_queries c;
  tokens = postgres_user_token_queries c;
}

-- newAPILogStore and newUserTokenStore of internal/repository
unfoldable pub new_api_log_store : (engine : Engine) → Collation → ApiLogStore (StateOf engine)
unfolding mysql_api_log_store postgres_api_log_store
new_api_log_store mysql c = mysql_api_log_store c
new_api_log_store postgres c = postgres_api_log_store c
new_api_log_store (unknown name) c = postgres_api_log_store c

unfoldable pub new_user_token_store :
    (engine : Engine) → Collation → UserTokenStore (StateOf engine)
unfolding mysql_user_token_store postgres_user_token_store
new_user_token_store mysql c = mysql_user_token_store c
new_user_token_store postgres c = postgres_user_token_store c
new_user_token_store (unknown name) c = postgres_user_token_store c

abbrev pub repository_stores : (engine : Engine) → Collation → Stores (StateOf engine)
unfolding new_api_log_store new_user_token_store
repository_stores engine c = record {
  apilog = new_api_log_store engine c;
  tokens = new_user_token_store engine c;
}
