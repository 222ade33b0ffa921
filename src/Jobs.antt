-- ===== src/Jobs.antt =====
-- internal/jobs: the scheduled jobs, logcleanup.go, usermail.go and call.go.
use e5renew.Prelude.{ℕ, ◌-◌, ◌*◌, ◌/◌, Option, none, some, List, [], ◌∷◌, ltb, if◌then◌else◌}
use e5renew.Prelude.Int.{ℤ, pos, negsuc, neg, to_int64}
use e5renew.Text.{Bytes, codes, bytes_eq}
use e5renew.Failure.{Error, wrap, error_text, Result, ok, err, is_ok, Exec}
use e5renew.Database.{Db, Collation}
use e5renew.Encryption.{Aead}
use e5renew.Tokens.{add_duration}
use e5renew.ApiLog.{ApiLogEntry, delete_old_api_logs}
use e5renew.Mail.{World, Outside, message_of, process_all_user_mail_activity}
pub mod Cleanup
pub mod Call

-- The retention of NewLogCleanupJob, in days
unfoldable pub retention_days : ℤ → ℕ
retention_days (pos n) = if ltb 0 n then n else 30
retention_days (negsuc n) = 30

-- 24 * time.Hour
abbrev pub day : ℕ
day = 86_400_000_000_000

-- LogCleanupJob.Execute, at the time `now`
unfoldable pub cleanup : ℤ → ℕ → Exec Db (Unit {0})
unfolding retention_days
cleanup days now =
    delete_old_api_logs (add_duration now (to_int64 (neg (retention_days days * day))))

-- ProcessUserMailTokensJob.Execute
unfoldable pub process_user_mail_tokens : Aead → Collation → Outside → Exec World (Unit {0})
process_user_mail_tokens gcm c outside = process_all_user_mail_activity gcm c outside

-- models.Userable, as far as call.go reads it: a nil display name is `none`.
pub record User : Type 0 where
  pub display_name : Option Bytes
  pub messages : ℕ

-- What GetUsersAndMessagesClientScope comes to. It dereferences every display name.
pub data Called : Type 0 where
  counted : List (Bytes × ℕ) → Called
  failed : Error → Called
  panics : Called

-- count[name] = n
unfoldable pub put : Bytes → ℕ → List (Bytes × ℕ) → List (Bytes × ℕ)
put name n [] = (name, n) ∷ []
put name n ((k, m) ∷ kvs) =
    let rest = put name n kvs in if bytes_eq k name then (k, n) ∷ kvs else (k, m) ∷ rest

-- The display name of an element of the response; `none` if it, or the element itself, is nil.
abbrev pub name_of : Option User → Option Bytes
name_of none = none
name_of (some u) = u.display_name

abbrev pub messages_of : Option User → ℕ
messages_of none = 0
messages_of (some u) = u.messages

unfoldable pub count_users : List (Bytes × ℕ) → List (Option User) → Called
unfolding put
count_users count [] = counted count
count_users count (u ∷ us) = elim (name_of u) [
  | none ↦ panics
  | some name ↦ count_users (put name (messages_of u) count) us
]

-- The outcome of the call: an error, or a response with its users. The response may be nil, and so
-- may each of its users.
abbrev pub Users : Type 0
Users = Result (Option (List (Option User)))

unfoldable pub client_scope_entry : ℕ → ℕ → Users → ApiLogEntry
client_scope_entry start end outcome = record {
  user_id = none;
  api_endpoint = codes "users";
  http_method = codes "GET";
  http_status_code = if is_ok outcome then pos 200 else pos 500;
  request_time = start;
  response_time = end;
  duration_ms = pos ((end - start) / 1_000_000);
  request_size = pos 0;
  response_size = pos 0;
  error_message = message_of outcome;
  job_type = codes "client_credentials";
  success = is_ok outcome;
}

-- GetValue() on a nil response panics, before the logging is started.
unfoldable pub finish : ℕ → ℕ → Users → Option ApiLogEntry × Called
unfolding count_users client_scope_entry
finish start end (err e) = (some (client_scope_entry start end (err e)), failed e)
finish start end (ok none) = (none, panics)
finish start end (ok (some us)) =
    (some (client_scope_entry start end (ok (some us))), count_users [] us)

-- GetUsersAndMessagesClientScope, for the outcomes of the making of the credentials, of the client
-- and of the call, and the times around the call; with the entry that it starts to log, if any.
unfoldable pub get_users_and_messages_client_scope :
    Result (Unit {0}) → Result (Unit {0}) → Users → ℕ → ℕ → Option ApiLogEntry × Called
unfolding finish
get_users_and_messages_client_scope (err e) client users start end =
    (none, failed (wrap (codes "failed to create Azure AD client secret credentials") e))
get_users_and_messages_client_scope (ok done) (err e) users start end =
    (none, failed (wrap (codes "failed to create Microsoft Graph client") e))
get_users_and_messages_client_scope (ok done) (ok made) users start end = finish start end users
