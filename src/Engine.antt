-- ===== src/Engine.antt =====
-- internal/db/engine.go and cmd/session_store.go: the database engine that the configuration names,
-- and what is chosen by it.
pub mod Choice
use e5renew.Prelude.{Bool, ◌||◌, ◌++◌, if◌then◌else◌}
use e5renew.Text.{Bytes, codes, bytes_eq, to_lower, trim_space}
use e5renew.Failure.{other, Result, ok, err}

-- `unknown` stands for the other values that the Go string type has.
pub data Engine : Type 0 where
  mysql : Engine
  postgres : Engine
  unknown : Bytes → Engine

abbrev pub engine_text : Engine → Bytes
engine_text mysql = codes "mysql"
engine_text postgres = codes "postgres"
engine_text (unknown name) = name

-- ParseEngine; `fold` is the Unicode case mapping of strings.ToLower.
unfoldable pub parse_engine : (Bytes → Bytes) → Bytes → Engine
unfolding to_lower trim_space bytes_eq
parse_engine fold value =
    let name = to_lower fold (trim_space value) in
    if bytes_eq name (codes "postgres")
      || (bytes_eq name (codes "postgresql") || bytes_eq name (codes "pg"))
    then postgres
    else mysql

unfoldable pub driver_name : Engine → Result Bytes
driver_name postgres = ok (codes "pgx")
driver_name mysql = ok (codes "mysql")
driver_name (unknown name) = ok (codes "mysql")

unfoldable pub migration_database_name : Engine → Bytes
migration_database_name postgres = codes "postgres"
migration_database_name mysql = codes "mysql"
migration_database_name (unknown name) = codes "mysql"

module _ {Conn : Type 0} (open_driver : Bytes → Bytes → Result Conn) where
  abbrev opened_with : Engine → Bytes → Result Bytes → Result Conn
  opened_with engine dsn (ok driver) = open_driver driver dsn
  opened_with engine dsn (err e) =
      err (other (codes "unsupported database engine: " ++ engine_text engine))

  -- NewDBWithEngine, with otelsql.Open
  unfoldable pub new_db_with_engine : Engine → Bytes → Result Conn
  unfolding driver_name
  new_db_with_engine engine dsn = opened_with engine dsn (driver_name engine)

-- scs.Store: the table of sessions in the dialect of one engine
pub data SessionStore : Type 0 where
  mysql_sessions : SessionStore
  postgres_sessions : SessionStore

-- newSessionStoreForEngine. The cleanup that it also returns is never nil where it succeeds.
unfoldable pub new_session_store_for_engine : Engine → Result SessionStore
new_session_store_for_engine postgres = ok postgres_sessions
new_session_store_for_engine mysql = ok mysql_sessions
new_session_store_for_engine (unknown name) =
    err (other (codes "unsupported session store engine: " ++ name))
