-- ===== src/Mail.antt =====
-- internal/services/mail.go: the reading of the users' mail, which keeps their accounts active.
pub mod Messages
pub mod Run
use e5renew.Prelude.{
  ℕ, ◌+◌, ◌-◌, ◌/◌, Bool, false, Option, none, some, List, [], ◌∷◌, ◌++◌, ltb, if◌then◌else◌,
  length,
}
use e5renew.Prelude.Int.{ℤ, pos}
use e5renew.Text.{Bytes, codes, decimal}
use e5renew.Failure.{
  Error, other, error_text, Result, ok, err, is_ok, Exec, pure, wrapping, attempt, ◌>>=◌, ◌>>◌,
}
use e5renew.Database.{Db, Collation}
use e5renew.Encryption.{Aead}
use e5renew.Tokens.{Token, Nonces, get_all_user_ids}
use e5renew.TokenSource.{AccessToken, get_token}
use e5renew.ApiLog.{ApiLogEntry, log_api_call}

pub record Address : Type 0 where
  pub address : Option Bytes
  pub name : Option Bytes

-- models.Messageable, with `none` for a nil pointer. The sender is not there, or has no address.
pub record Message : Type 0 where
  pub id : Option Bytes
  pub subject : Option Bytes
  pub received_date_time : Option ℕ
  pub is_read : Option Bool
  pub sender : Option (Option Address)

pub record MailMessage : Type 0 where
  pub id : Bytes
  pub subject : Bytes
  pub received_at : Bytes
  pub is_read : Bool
  pub from_address : Bytes
  pub from_name : Bytes

abbrev pub get_string_value : Option Bytes → Bytes
get_string_value none = []
get_string_value (some s) = s

abbrev pub get_bool_value : Option Bool → Bool
get_bool_value none = false
get_bool_value (some b) = b

abbrev email_address : Option (Option Address) → Option Address
email_address (some (some a)) = some a
email_address _ = none

abbrev address_of : Option Address → Bytes
address_of none = []
address_of (some a) = get_string_value a.address

abbrev name_of : Option Address → Bytes
name_of none = []
name_of (some a) = get_string_value a.name

-- `rfc3339` is time.Time's Format(time.RFC3339).
module _ (rfc3339 : ℕ → Bytes) where
  abbrev received : Option ℕ → Bytes
  received none = []
  received (some t) = rfc3339 t

  abbrev pub to_mail_message : Message → MailMessage
  to_mail_message m = record {
    id = get_string_value m.id;
    subject = get_string_value m.subject;
    received_at = received m.received_date_time;
    is_read = get_bool_value m.is_read;
    from_address = address_of (email_address m.sender);
    from_name = name_of (email_address m.sender);
  }

  unfoldable pub convert_all : List (Option Message) → List MailMessage
  convert_all [] = []
  convert_all (none ∷ ms) = convert_all ms
  convert_all (some m ∷ ms) = to_mail_message m ∷ convert_all ms

  -- convertGraphMessagesToMailResponse: no collection, or a collection with a nil value, has no message.
  unfoldable pub convert_graph_messages_to_mail_response :
      Option (Option (List (Option Message))) → List MailMessage
  unfolding convert_all
  convert_graph_messages_to_mail_response (some (some ms)) = convert_all ms
  convert_graph_messages_to_mail_response _ = []

-- The database, and the entries whose logging has been started in a goroutine and not run yet.
pub record World : Type 0 where
  pub db : Db
  pub pending : List ApiLogEntry

abbrev pub on_world : {A : Type 0} → Exec Db A → Exec World A
on_world m w = let (r, db) = m w.db in (r, record w { db = db })

abbrev log_later : ApiLogEntry → Exec World (Unit {0})
log_later entry w = (ok tt, record w { pending = w.pending ++ (entry ∷ []) })

-- What the packages outside do in one run, for each user: the Graph client, the source of package
-- oauth2, the random bytes, and the clock around the call. The client reads the messages with the
-- credential that it is given, and may call it.
pub record Outside : Type 0 where
  pub new_mail_graph_client : Bytes → Result (Unit {0})
  pub get_mail_messages :
      Bytes → Exec Db AccessToken → Exec Db (Option (Option (List (Option Message))))
  pub oauth2_source : Bytes → Token → Result Token
  pub nonces : Bytes → Nonces
  pub start_time : Bytes → ℕ
  pub end_time : Bytes → ℕ
  pub rfc3339 : ℕ → Bytes

abbrev pub message_of {ℓ} : {A : Type ℓ} → Result A → Option Bytes
message_of (ok a) = none
message_of (err e) = some (error_text e)

-- The entry of logGraphAPICall, for the call's outcome
unfoldable pub graph_entry {ℓ} : {A : Type ℓ} → Bytes → ℕ → ℕ → Result A → ApiLogEntry
graph_entry user_id start end outcome = record {
  user_id = some user_id;
  api_endpoint = codes "me/messages";
  http_method = codes "GET";
  http_status_code = if is_ok outcome then pos 200 else pos 500;
  request_time = start;
  response_time = end;
  duration_ms = pos ((end - start) / 1_000_000);
  request_size = pos 0;
  response_size = pos 0;
  error_message = message_of outcome;
  job_type = codes "user_mail";
  success = is_ok outcome;
}

abbrev pub give : {A : Type 0} → Result A → Exec World A
give r w = (r, w)

-- What the job gives back for the numbers of failed and of all users
abbrev pub verdict : ℕ → ℕ → Result (Unit {0})
verdict error_count users =
    if ltb 0 error_count
    then err (
        other (
          codes "failed to process mail activity for "
          ++ (decimal error_count ++ (codes " out of " ++ (decimal users ++ codes " users")))))
    else ok tt

module _ (gcm : Aead) (c : Collation) (outside : Outside) where
  unfoldable pub get_user_mail : Bytes → Exec World (List MailMessage)
  unfolding graph_entry convert_graph_messages_to_mail_response
  get_user_mail user_id = do
    wrapping (codes "failed to create Graph client") (give (outside.new_mail_graph_client user_id))
    outcome ← attempt (
        on_world (
          outside.get_mail_messages user_id
            (get_token gcm c (outside.oauth2_source user_id) (outside.nonces user_id) user_id)))
    log_later (graph_entry user_id (outside.start_time user_id) (outside.end_time user_id) outcome)
    messages ← wrapping (codes "failed to get messages from Graph API") (give outcome)
    pure (convert_graph_messages_to_mail_response outside.rfc3339 messages)

  unfoldable pub process_user_mail_activity : Bytes → Exec World (Unit {0})
  unfolding get_user_mail
  process_user_mail_activity user_id = do
    wrapping (codes "failed to process mail activity for user " ++ user_id) (get_user_mail user_id)
    pure tt

  -- The loop, which gives back the number of the users that failed.
  unfoldable pub process_users : List Bytes → ℕ → Exec World ℕ
  process_users [] error_count w = (ok error_count, w)
  process_users (user_id ∷ user_ids) error_count w =
      let (r, w') = process_user_mail_activity user_id w in
      process_users user_ids (if is_ok r then error_count else error_count + 1) w'

  unfoldable pub process_all_user_mail_activity : Exec World (Unit {0})
  unfolding process_users
  process_all_user_mail_activity = do
    user_ids ← wrapping (codes "failed to get user IDs") (on_world (get_all_user_ids c))
    error_count ← process_users user_ids 0
    give (verdict error_count (length user_ids))
