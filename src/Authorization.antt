-- ===== src/Authorization.antt =====
-- internal/controller/usertoken.go: the grant of access to the user's mail.
use e5renew.Prelude.{ℕ, String, Bool, true, false, not, ◌||◌, Option, none, some, [], if◌then◌else◌}
use e5renew.Text.{Bytes, codes, is_empty, bytes_eq}
use e5renew.Failure.{Error, Result, ok, err}
use e5renew.Database.{Db, Collation}
use e5renew.Encryption.{Aead}
use e5renew.SafeError.{RequestInfo}
use e5renew.Validation.{validate_state, validate_auth_code}
use e5renew.Tokens.{Token, Nonces, save_user_token, delete_user_token}
use e5renew.Session.{
  Session, Claims, popped, Reply, redirect, panics, failure, Provider, generate_random_state,
  CallbackRequest,
}
pub mod Guards
pub mod Grant
pub mod Reachable

pub record Site : Type 0 where
  pub session : Session
  pub db : Db

abbrev pub is_there {ℓ} : {A : Type ℓ} → Option A → Bool
is_there none = false
is_there (some a) = true

-- The guard of the handlers: SessionManager.Exists(ctx, "user"), then the type assertion on the
-- claims, whose email is the user's identifier.
unfoldable pub with_claims : (Bytes → Site → Reply × Site) → Option Claims → Site → Reply × Site
with_claims handler none site = (panics, site)
with_claims handler (some claims) site = handler claims.email site

unfoldable pub for_user : (Bytes → Site → Reply × Site) → Site → Reply × Site
unfolding with_claims
for_user handler site =
    if is_there site.session.user
    then with_claims handler site.session.claims site
    else (redirect (codes "/login") 307, site)

abbrev pub without_state : Site → Site
without_state site = record site { session = record site.session { user_token_state = none } }

module _ (provider : Provider) where
  unfoldable pub begun : RequestInfo → Result Bytes → Bytes → Site → Reply × Site
  begun info (err e) user_id site =
      (failure info (some e) 500 "Unable to initiate authorization", site)
  begun info (ok state) user_id site = (
    redirect (provider.auth_code_url state) 307,
    record site { session = record site.session { user_token_state = some state } },
  )

  -- AuthorizeUserToken
  unfoldable pub authorize_user_token : RequestInfo → Result Bytes → Site → Reply × Site
  unfolding begun for_user generate_random_state
  authorize_user_token info random site = for_user (begun info (generate_random_state random)) site

module _ (gcm : Aead) (c : Collation) (provider : Provider) where
  unfoldable pub replied : RequestInfo → String → ℕ → Result (Unit {0}) → Reply
  replied info message status (err e) = failure info (some e) 500 message
  replied info message status (ok done) = redirect (codes "/user") status

  -- The saving of the token that the provider issued
  unfoldable pub granted : RequestInfo → ℕ → Nonces → Result Token → Bytes → Site → Reply × Site
  unfolding replied
  granted info now nonces (err e) user_id site =
      (failure info (some e) 500 "Authorization failed", site)
  granted info now nonces (ok token) user_id site =
      let (r, db) = save_user_token gcm c now nonces user_id token site.db in
      (replied info "Failed to save authorization" 307 r, record site { db = db })

  -- UserTokenCallback behind the taking of the state out of the session
  unfoldable pub answered : CallbackRequest → ℕ → Nonces → Bytes → Site → Reply × Site
  unfolding granted for_user
  answered r now nonces session_state site =
      if not (is_empty r.oauth_error)
      then (failure r.info none 400 "Authorization failed", site)
      else if not (validate_state r.state).valid || not (validate_auth_code r.code).valid
      then (failure r.info none 400 "Invalid request parameters", site)
      else if not (bytes_eq r.state session_state)
      then (failure r.info none 400 "Invalid authorization state", site)
      else for_user (granted r.info now nonces (provider.exchange r.code)) site

  unfoldable pub user_token_callback : CallbackRequest → ℕ → Nonces → Site → Reply × Site
  unfolding answered
  user_token_callback r now nonces site =
      answered r now nonces (popped site.session.user_token_state) (without_state site)

  unfoldable pub revoked : RequestInfo → Bytes → Site → Reply × Site
  unfolding replied
  revoked info user_id site =
      let (r, db) = delete_user_token c user_id site.db in
      (replied info "Failed to revoke authorization" 303 r, record site { db = db })

  -- RevokeUserToken
  unfoldable pub revoke_user_token : RequestInfo → Site → Reply × Site
  unfolding revoked for_user
  revoke_user_token info site = for_user (revoked info) site
