-- ===== src/Engine/Choice.antt =====
-- What the configuration can name, and that everything is chosen for one dialect.
use e5renew.Prelude.{◌≡◌, refl, ap, ◌⊎◌, inl, inr, Bool, true, false, if◌then◌else◌}
use e5renew.Text.{Bytes, codes}
use e5renew.Failure.{ok}
use e5renew.Engine.{
  Engine, mysql, postgres, parse_engine, driver_name, migration_database_name, SessionStore,
  mysql_sessions, postgres_sessions, new_session_store_for_engine,
}

module _ (fold : Bytes → Bytes) (value : Bytes) where
  pub parse_engine-cases : (parse_engine fold value ≡ postgres) ⊎ (parse_engine fold value ≡ mysql)
  unfolding parse_engine
  parse_engine-cases = choice _
    where
      choice :
          (b : Bool)
          → ((if b then postgres else mysql) ≡ postgres) ⊎ ((if b then postgres else mysql) ≡ mysql)
      choice true = inl refl
      choice false = inr refl

-- The choices for PostgreSQL, and those for MySQL
pub data Dialect : Engine → Type 0 where
  of_postgres :
      {e : Engine}
      → e ≡ postgres
      → driver_name e ≡ ok (codes "pgx")
      → migration_database_name e ≡ codes "postgres"
      → new_session_store_for_engine e ≡ ok postgres_sessions
      → Dialect e
  of_mysql :
      {e : Engine}
      → e ≡ mysql
      → driver_name e ≡ ok (codes "mysql")
      → migration_database_name e ≡ codes "mysql"
      → new_session_store_for_engine e ≡ ok mysql_sessions
      → Dialect e

pub parse_engine-Dialect :
    (fold : Bytes → Bytes) (value : Bytes) → Dialect (parse_engine fold value)
unfolding driver_name migration_database_name new_session_store_for_engine
parse_engine-Dialect fold value = elim (parse_engine-cases fold value) [
  | inl e ↦
      of_postgres e (ap driver_name e) (ap migration_database_name e)
        (ap new_session_store_for_engine e)
  | inr e ↦
      of_mysql e (ap driver_name e) (ap migration_database_name e)
        (ap new_session_store_for_engine e)
]

pub session_store_opens :
    (fold : Bytes → Bytes) (value : Bytes)
    → (store : SessionStore) × (new_session_store_for_engine (parse_engine fold value) ≡ ok store)
session_store_opens fold value = from (parse_engine-Dialect fold value)
  where
    from :
        {e : Engine}
        → Dialect e
        → (store : SessionStore) × (new_session_store_for_engine e ≡ ok store)
    from (of_postgres e driver migrations opened) = (postgres_sessions, opened)
    from (of_mysql e driver migrations opened) = (mysql_sessions, opened)
