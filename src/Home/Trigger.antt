-- ===== src/Home/Trigger.antt =====
-- The answers of TriggerMailAPI.
use e5renew.Prelude.{
  ◌≡◌, refl, sym, ap, ◌∙◌, subst, inl, inr, Bool, true, false, some, if◌then◌else◌,
}
use e5renew.Failure.{Result, ok, is_ok, Result-cases}
use e5renew.Database.{Collation}
use e5renew.Encryption.{Aead}
use e5renew.Repository
use e5renew.SafeError.{RequestInfo}
use e5renew.Tokens.{has_user_token}
use e5renew.Tokens.Removal.{has_user_token_lem}
use e5renew.Mail.{World, Outside, process_user_mail_activity}
use e5renew.Session.{Session, Claims}
use e5renew.Authorization.{is_there}
use e5renew.Home.{
  TriggerReply, no_token, success, processed, with_token, checked_with, for_claims,
  trigger_mail_api,
}

abbrev is_success : TriggerReply → Bool
is_success success = true
is_success _ = false

module _ (gcm : Aead) (c : Collation) (outside : Outside) (info : RequestInfo) (session : Session)
    (w : World) (claims : Claims) (there : is_there session.user ≡ true)
    (known : session.claims ≡ some claims) where
  abbrev looked_up : World
  looked_up = record w { db = (has_user_token c claims.email w.db).1 }

  -- The processing of the user's mail, behind the lookup of the token
  abbrev outcome : Result (Unit {0})
  outcome = (process_user_mail_activity gcm c outside claims.email looked_up).0

  trigger-eq :
      trigger_mail_api gcm c outside info true session w
      ≡ with_token gcm c outside info claims.email (has_user_token c claims.email w.db).0 looked_up
  unfolding trigger_mail_api for_claims checked_with
  trigger-eq = (rw there refl) ∙ ap (λ x. for_claims gcm c outside info true x w) known

  abbrev pub Answer : Bool → TriggerReply → Type 0
  Answer found reply = if found then ((is_success reply ≡ is_ok outcome)) else (reply ≡ no_token)

  with_token-Answer :
      (found : Bool)
      → Answer found (with_token gcm c outside info claims.email (ok found) looked_up).0
  unfolding with_token processed
  with_token-Answer false = refl
  with_token-Answer true = elim (Result-cases outcome) [
    | inl (done, fine) ↦ rw fine refl
    | inr (e, failed) ↦ rw failed refl
  ]

  -- For a signed-in user, and with the services there: if the lookup of the token does not succeed,
  -- for whatever reason, a failing database included, the answer is that there is no token, and
  -- never that the check has failed; otherwise it is success just if the processing has succeeded.
  pub trigger_lem :
      Answer
        (is_ok (Repository.get_by_user_id c claims.email w.db).0)
        (trigger_mail_api gcm c outside info true session w).0
  trigger_lem =
      subst
        (λ (p : TriggerReply × World).
          Answer (is_ok (Repository.get_by_user_id c claims.email w.db).0) p.0)
        (sym trigger-eq)
        (subst
          (λ r.
            Answer (is_ok (Repository.get_by_user_id c claims.email w.db).0)
              (with_token gcm c outside info claims.email r looked_up).0)
          (sym (has_user_token_lem c claims.email w.db))
          (with_token-Answer (is_ok (Repository.get_by_user_id c claims.email w.db).0)))
