-- ===== src/Lib.antt =====
-- e5renew keeps Microsoft 365 developer accounts active: users sign in with Azure AD, grant access to
-- their mail, and scheduled jobs read the mail through Microsoft Graph with the stored tokens, which
-- are refreshed on the way. Every call to Graph is logged, and the log can be read page by page.
--
-- The parts, from the bottom up, each with the file that models it:
--   Prelude, Text, Base64: numbers and Go's int32 and int64, strings as lists of bytes with the
--     functions of package strings that are used, encoding/base64.
--   Failure: Go's errors with their wrapping, and `(value, error)` results on a state.
--   Rows: the clauses of SELECT on lists.
--   Database, Database/Stats: the tables user_tokens and api_logs, and the statements of
--     internal/db/postgres/query.postgres.sql.go. `Db` holds the tables, the next identifiers, and
--     for each coming statement whether it fails.
--   Sql, Mysql: internal/db/mysql/query.sql.go, one level below: statements with columns, conditions
--     and placeholders, lists of arguments, rows of cells that are scanned one by one, and drivers
--     that fail before, while or after they hand out the rows. Time columns are TIMESTAMP: whole
--     seconds, to which times are rounded, within a range. Mysql/Encoding relates the rows to
--     the tables of `Db`, Mysql/Queries each function to the statement of Database.
--   Engine, Stores: internal/db/engine.go, stores.go, queries.go and db.go, the stores of
--     internal/repository (apilog_store.go, usertoken_store.go) and cmd/session_store.go.
--   Repository: internal/repository/usertoken.go.
--   Encryption: internal/services/encryption.go.
--   Tokens: internal/services/usertoken.go; save_user_token is SaveUserToken, and so on.
--   TokenSource: internal/services/tokensource.go (Token is source_token) and credential.go.
--   ApiLog: internal/services/apilog.go with internal/repository/apilog.go.
--   Transport: internal/middleware/apilog.go; round_trip is RoundTrip.
--   Mail: internal/services/mail.go. What the goroutines log is a list of entries, in the order in
--     which they are started.
--   Jobs: internal/jobs/logcleanup.go, usermail.go and call.go.
--   Validation, SafeError: internal/utils/validation.go and errors.go.
--   Session, Login, Authorization: the session of a browser, internal/environment/auth.go,
--     internal/controller/login.go and usertoken.go. Authorization/Reachable has the requests of a
--     browser as steps, Login/Once what a browser asks for between two sign-ins. The session keeps
--     the claims as a value, to which the session codec flattens the pointer that Callback stores.
--   Logs, Health, Home, Home/Pages: internal/controller/logs.go, health.go and home.go.
--   CookiePolicy: internal/cookiepolicy/secure.go.
--   Language: GetLanguageFromRequest of internal/i18n/i18n.go and internal/middleware/i18n.go;
--     Language/Persistence has the browser that keeps the cookie.
--   View: internal/middleware/session_user.go, internal/requestctx/user.go and mergeContextData of
--     internal/view/template.go.
--   Telemetry: internal/telemetry/metrics.go; Telemetry/Requests has HTTPMiddleware of middleware.go
--     around requests that are served at the same time, as steps in any order.
--   Settlement: what deferred calls leave open.
--   Startup: Run and newJobScheduler of cmd/run.go and the registration of the jobs of internal/jobs,
--     with the events of a run in their order. Startup/Shutdown has the goroutine that waits for a
--     signal beside the one that serves, as steps in any order.
--   Migrate: cmd/migrate.go. Migrate/FilePath has Join, Clean and Dir of package path/filepath,
--     Migrate/Directory the search for the migrations.
--   Examples: the concrete database, cipher and provider, and the theorems on them.
--
-- How they interact: Authorization saves tokens through Tokens, which encrypts with Encryption
-- and stores with Repository; Mail reads them through TokenSource, and writes the log through
-- ApiLog; Jobs and Home start Mail; Logs reads the log. All of them send statements to one `Db`,
-- which stands for the database of either engine: Stores/Alternation relates the two.
-- Startup opens what they use.
--
-- Parameters, with what is assumed of them: AES-GCM is a record of operations in which opening
-- undoes sealing (`Aead`); text comparison of the database is an equivalence (`Collation`); the
-- Graph SDK, the identity provider, the oauth2 token source, url.Parse, the random source and the
-- clock are functions or values without assumptions, as are the parser of Accept-Language, the
-- meter of OpenTelemetry, SHA-256, the drivers of database/sql, OpenTelemetry, gocron,
-- golang-migrate, the file system and whether the server stops by a signal. Strings that are not
-- ASCII are lowered by a function that is a parameter too.
--
-- Bounds: times are nanoseconds since Go's zero time, and natural numbers. int32 and int64
-- conversions wrap around as in Go. The only function on fuel is Text.decimal, with n + 1 steps
-- for the number n, which has no more digits than that. The end of the server takes at most nine
-- steps: the signal, seven behind it, and the return.
--
-- Not modelled: the export of telemetry, templates, translations and the command line, which only
-- call other packages; floating-point averages and rates, and so the statements of statistics for
-- MySQL; the texts and durations of the health report; the health store; that ListenAndServe
-- returns once the listeners are closed and open requests end within the time limit of the
-- shutdown, which are left to net/http; how the goroutines that log interleave; the width of the
-- columns and concurrent transactions of the database. `Db` keeps every time as it is given, which
-- for PostgreSQL are whole microseconds, and for MySQL those that Sql/Times calls timestamps; bounds
-- of queries are compared exactly. Rows that a statement does not order, such as those behind the
-- LIMIT 1 of GetUserToken, come in the order of their insertion, which neither engine promises.
pub mod Prelude
pub mod Text
pub mod Base64
pub mod Validation
pub mod Failure
pub mod SafeError
pub mod Sql
pub mod Settlement
pub mod Engine
pub mod Rows
pub mod Database
pub mod Encryption
pub mod Mysql
pub mod Stores
pub mod Repository
pub mod Tokens
pub mod TokenSource
pub mod ApiLog
pub mod Transport
pub mod Mail
pub mod Jobs
pub mod Session
pub mod Login
pub mod Authorization
pub mod Logs
pub mod Health
pub mod Home
pub mod CookiePolicy
pub mod Startup
pub mod Language
pub mod Telemetry
pub mod View
pub mod Migrate
pub mod Examples
