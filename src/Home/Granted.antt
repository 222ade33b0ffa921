-- ===== src/Home/Granted.antt =====
-- The page of the user shows a saved token.
use e5renew.Prelude.{ℕ, ◌≡◌, ap, ◌∙◌, Bool, true, Option, some}
use e5renew.Text.{Bytes}
use e5renew.Failure.{Result, ok, err}
use e5renew.Database.{Db, Collation}
use e5renew.Database.Statements.{IsHealthy}
use e5renew.Encryption.{Aead}
use e5renew.SafeError.{RequestInfo}
use e5renew.Tokens.{
  Token, Nonces, effective_expiry, save_user_token, get_user_token, has_user_token,
}
use e5renew.Tokens.Saved.{read_back, after_check, has_user_token-save}
use e5renew.Tokens.Texts.{CanEncrypt}
use e5renew.Session.{Session, Claims}
use e5renew.Home.Pages.{
  with_answer, with_token, UserPage, shown, user_page, user_with, token_status,
}

module _ (gcm : Aead) (c : Collation) (db : Db) (h : IsHealthy db) (now : ℕ) (nonces : Nonces)
    (u : Bytes) (saved_token : Token) (can : CanEncrypt gcm nonces saved_token) (info : RequestInfo)
    (session : Session) (user : Bytes) (claims : Claims) (token : Token)
    (signed_in : session.user ≡ some user) (known : session.claims ≡ some claims)
    (held : session.token ≡ some token) (own : claims.email ≡ u) where
  abbrev after : Db
  after = (save_user_token gcm c now nonces u saved_token db).1

  status_after :
      (token_status gcm c info (ok tt) true u after).0
      ≡ (true, some (effective_expiry now saved_token))
  unfolding token_status
  status_after =
      ap (λ p. (with_answer gcm c info (ok tt) u p).0) told.0
      ∙ answered (get_user_token gcm c u (after_check gcm c db h now nonces u saved_token can))
          told.1
    where
      told :
          (has_user_token c u after
            ≡ (ok true, after_check gcm c db h now nonces u saved_token can))
          × ((get_user_token gcm c u (after_check gcm c db h now nonces u saved_token can)).0
              ≡ ok (read_back now saved_token))
      told = has_user_token-save gcm c db h now nonces u saved_token can

      answered :
          (p : Result Token × Db)
          → p.0 ≡ ok (read_back now saved_token)
          → (with_token gcm c info (ok tt) p).0 ≡ (true, some (effective_expiry now saved_token))
      answered (ok t, d) e = cc
      answered (err x, d) e = cc

  abbrev page_of : (Bool × Option ℕ) → UserPage
  page_of status = record {
    user = user;
    claims = claims;
    token = token;
    has_user_token = status.0;
    user_token_expiry = status.1;
  }

  -- After a token has been saved for the user of the session, where the database answers, the page of
  -- the user is shown, tells that there is a token, and shows the expiry that was computed from
  -- ExpiresIn.
  pub user_page-save_user_token :
      (user_page gcm c info (ok tt) true session after).0
      ≡ shown (record {
        user = user;
        claims = claims;
        token = token;
        has_user_token = true;
        user_token_expiry = some (effective_expiry now saved_token);
      })
  unfolding user_page user_with
  user_page-save_user_token =
      (λ i. (user_with gcm c info (ok tt) true (signed_in i) (known i) (held i) after).0)
      ∙ ap (λ v. shown (page_of (token_status gcm c info (ok tt) true v after).0)) own
      ∙ ap (λ status. shown (page_of status)) status_after
