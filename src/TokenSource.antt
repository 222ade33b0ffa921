-- ===== src/TokenSource.antt =====
-- internal/services/tokensource.go and credential.go: a token source that writes refreshed tokens
-- back to the database.
pub mod Refresh
pub mod Lost
pub mod Credential
use e5renew.Prelude.{ℕ, Bool, true, not, ◌||◌, Option, none, some, [], ◌++◌, ◌==◌, if◌then◌else◌}
use e5renew.Prelude.Int.{ℤ}
use e5renew.Text.{codes, Bytes, bytes_eq}
use e5renew.Failure.{Error, Result, ok, err, Exec, pure, wrap, wrapping, attempt, ◌>>=◌}
use e5renew.Database.{Db, Collation}
use e5renew.Encryption.{Aead}
use e5renew.Tokens.{Token, Nonces, get_user_token, update_user_token}

-- DatabaseUpdatingTokenSource, with the database that its service writes to.
pub record Source : Type 0 where
  pub last_token : Option Token
  pub db : Db

-- Was the token refreshed since `last_token`?
unfoldable pub is_refreshed : Option Token → Token → Bool
is_refreshed none token = true
is_refreshed (some last) token =
    not (bytes_eq last.access_token token.access_token) || not (last.expiry == token.expiry)

-- The copy of the four fields that are kept.
abbrev pub kept : Token → Token
kept token = record token { expires_in = ℤ.pos 0 }

-- azcore.AccessToken
pub record AccessToken : Type 0 where
  pub token : Bytes
  pub expires_on : ℕ

module _ (gcm : Aead) (c : Collation) where
  -- An error of the update is logged and dropped; `last_token` is set all the same.
  unfoldable pub store_refreshed : Nonces → Bytes → Token → Source → Source
  store_refreshed nonces user_id token s = record {
    last_token = some (kept token);
    db = (update_user_token gcm c nonces user_id token s.db).1;
  }

  -- Token(); `underlying` is what the wrapped oauth2.TokenSource returns in this call.
  unfoldable pub source_token : Nonces → Bytes → Result Token → Exec Source Token
  unfolding store_refreshed is_refreshed
  source_token nonces user_id (err e) s =
      (err (wrap (codes "failed to get token from underlying source") e), s)
  source_token nonces user_id (ok token) s = (
    ok token,
    if is_refreshed s.last_token token then store_refreshed nonces user_id token s else s,
  )

  -- GetTokenSourceWithCallback: the stored token, which becomes `last_token` of the source.
  unfoldable pub get_token_source_with_callback : Bytes → Exec Db Token
  get_token_source_with_callback user_id =
      wrapping (codes "failed to get stored token for user " ++ user_id)
        (get_user_token gcm c user_id)

  -- GetTokenSourceWithoutCallback: only the stored token, for the source of package oauth2.
  unfoldable pub get_token_source_without_callback : Bytes → Exec Db Token
  get_token_source_without_callback user_id =
      wrapping (codes "failed to get stored token for user " ++ user_id)
        (get_user_token gcm c user_id)

  on_db : Nonces → Bytes → Result Token → Token → Exec Db Token
  on_db nonces user_id underlying last db =
      let (r, s) =
        source_token nonces user_id underlying (record { last_token = some last; db = db }) in
      (r, s.db)

  -- DatabaseTokenCredential.GetToken. `oauth2_source` is the source of package oauth2 around a
  -- stored token, which may refresh it.
  unfoldable pub get_token : (Token → Result Token) → Nonces → Bytes → Exec Db AccessToken
  unfolding get_token_source_with_callback on_db source_token
  get_token oauth2_source nonces user_id = do
    last ←
        wrapping (codes "failed to get token source for user " ++ user_id)
          (get_token_source_with_callback user_id)
    token ←
        wrapping (codes "failed to get token for user " ++ user_id)
          (on_db nonces user_id (oauth2_source last) last)
    pure (record { token = token.access_token; expires_on = token.expiry })
