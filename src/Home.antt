-- ===== src/Home.antt =====
-- internal/controller/home.go: the start of the mail activity by hand. Home/Pages has its pages.
use e5renew.Prelude.{String, Bool, true, false, not, Option, none, some, [], if◌then◌else◌}
use e5renew.Text.{Bytes, codes}
use e5renew.Failure.{Error, Result, ok, err, is_ok, wrapping, Result-cases}
use e5renew.Database.{Db, Collation}
use e5renew.Encryption.{Aead}
use e5renew.Repository
use e5renew.SafeError
use e5renew.SafeError.{RequestInfo, handle_json_error}
use e5renew.Tokens.{has_user_token}
use e5renew.Mail.{World, Outside, on_world, process_user_mail_activity}
use e5renew.Session.{Session, Claims}
use e5renew.Authorization.{is_there}
pub mod Trigger
pub mod Pages
pub mod Granted

-- What TriggerMailAPI answers: 401, the response for a user without a token (400), an error with
-- its code, or success.
pub data TriggerReply : Type 0 where
  unauthorized : TriggerReply
  no_token : TriggerReply
  json_error : SafeError.Response → TriggerReply
  success : TriggerReply

abbrev pub json_failure : RequestInfo → Option Error → String → String → TriggerReply
json_failure r e user_message code = json_error (handle_json_error r e 500 user_message code).1

module _ (gcm : Aead) (c : Collation) (outside : Outside) (info : RequestInfo) where
  unfoldable pub processed : Result (Unit {0}) → TriggerReply
  processed (err e) =
      json_failure info (some e) "Failed to process mail activity" "mail_processing_failed"
  processed (ok done) = success

  -- Behind the check for a token
  unfoldable pub with_token : Bytes → Result Bool → World → TriggerReply × World
  unfolding processed
  with_token user_id (err e) w =
      (json_failure info (some e) "Unable to check user token" "token_check_failed", w)
  with_token user_id (ok false) w = (no_token, w)
  with_token user_id (ok true) w =
      let (r, w') = process_user_mail_activity gcm c outside user_id w in (processed r, w')

  unfoldable pub checked_with : Bytes → World → Result Bool × Db → TriggerReply × World
  unfolding with_token
  checked_with user_id w (has, db) = with_token user_id has (record w { db = db })

  unfoldable pub for_claims : Bool → Option Claims → World → TriggerReply × World
  unfolding checked_with
  for_claims configured none w = (unauthorized, w)
  for_claims configured (some claims) w =
      if configured
      then checked_with claims.email w (has_user_token c claims.email w.db)
      else (json_failure info none "Required service is not configured" "service_not_configured", w)

  -- TriggerMailAPI; `configured` tells whether both services are there.
  unfoldable pub trigger_mail_api : Bool → Session → World → TriggerReply × World
  unfolding for_claims
  trigger_mail_api configured session w =
      if is_there session.user then for_claims configured session.claims w else (unauthorized, w)
