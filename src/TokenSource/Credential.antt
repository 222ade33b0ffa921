-- ===== src/TokenSource/Credential.antt =====
-- The credential that the Graph client uses: a refreshed token is handed out and stored.
use e5renew.Prelude.{◌≡◌, ap, ◌∙◌, true, some}
use e5renew.Text.{Bytes}
use e5renew.Failure.{Result, ok}
use e5renew.Database.{Db, Collation, UserToken, behind, find_token}
use e5renew.Database.Statements.{IsHealthy, behind-IsHealthy}
use e5renew.Encryption.{Aead}
use e5renew.Tokens.{Token, Nonces, get_user_token}
use e5renew.Tokens.Steps.{get_user_token-view, view}
use e5renew.Tokens.Texts.{CanEncrypt}
use e5renew.TokenSource.{AccessToken, kept, is_refreshed, source_token, get_token}
use e5renew.TokenSource.Refresh.{get-source_token}

module _ (gcm : Aead) (c : Collation) (u : Bytes) (nonces : Nonces)
    (oauth2_source : Token → Result Token) (db : Db) (h : IsHealthy db) (row : UserToken)
    (found : find_token c u db.user_tokens ≡ some row) (last : Token)
    (readable : view gcm (some row) ≡ ok last) where
  stored_token : get_user_token gcm c u db ≡ (ok last, behind db)
  stored_token =
      get_user_token-view gcm c db h u
      ∙ ap (λ (r : Result Token). (r, behind db)) (ap (view gcm) found ∙ readable)

  get_token_of_refresh :
      (token : Token)
      → oauth2_source last ≡ ok token
      → get_token gcm c oauth2_source nonces u db ≡ (
        ok (record { token = token.access_token; expires_on = token.expiry }),
        (source_token gcm c nonces u
            (ok token)
            (record { last_token = some last; db = behind db })).1.db,
      )
  unfolding get_token
  get_token_of_refresh token e = rw (stored_token, e)

  -- The user's stored token can be read, the database answers and the random source works: if the
  -- wrapped source refreshes the token, GetToken returns the new access token with its expiry, and
  -- behind it GetUserToken returns the new token.
  pub get_token_persists :
      (token : Token)
      → CanEncrypt gcm nonces token
      → oauth2_source last ≡ ok token
      → is_refreshed (some last) token ≡ true
      → ((get_token gcm c oauth2_source nonces u db).0
          ≡ ok (record { token = token.access_token; expires_on = token.expiry }))
        × ((get_user_token gcm c u (get_token gcm c oauth2_source nonces u db).1).0
            ≡ ok (kept token))
  get_token_persists token can e fresh =
      let eq = get_token_of_refresh token e in
      (
        ap (λ (p : Result AccessToken × Db). p.0) eq,
        ap (λ (p : Result AccessToken × Db). (get_user_token gcm c u p.1).0) eq
            ∙ get-source_token gcm c u nonces token can (behind db) (behind-IsHealthy db h) row
                found (some last) fresh,
      )
