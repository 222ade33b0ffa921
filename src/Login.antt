-- ===== src/Login.antt =====
-- internal/controller/login.go: the sign-in with Azure AD.
use e5renew.Prelude.{not, ◌||◌, none, some, [], if◌then◌else◌}
use e5renew.Text.{Bytes, codes, is_empty, bytes_eq}
use e5renew.Failure.{Error, Result, ok, err}
use e5renew.SafeError.{RequestInfo}
use e5renew.Validation.{validate_state, validate_auth_code}
use e5renew.Tokens.{Token}
use e5renew.Session.{
  Session, empty_session, popped, Reply, redirect, failure, Provider, verify_id_token,
  generate_random_state, CallbackRequest,
}
pub mod Callback
pub mod Once

module _ (provider : Provider) where
  -- Login, for the random state that was generated
  unfoldable pub started : RequestInfo → Result Bytes → Session → Reply × Session
  started info (err e) s = (failure info (some e) 500 "Unable to initiate login", s)
  started info (ok state) s =
      (redirect (provider.auth_code_url state) 307, record s { state = some state })

  unfoldable pub login : RequestInfo → Result Bytes → Session → Reply × Session
  unfolding started generate_random_state
  login info random s = started info (generate_random_state random) s

  -- The end of Callback, behind the verification of the ID token
  verified : RequestInfo → Token → Result Bytes → Session → Reply × Session
  verified info token (err e) s = (failure info (some e) 500 "Token verification failed", s)
  verified info token (ok id_token) s = (
    redirect (codes "/") 307,
    record s {
      user = some id_token;
      token = some token;
      claims = some (provider.claims_of id_token);
    },
  )

  exchanged : RequestInfo → Result Token → Session → Reply × Session
  unfolding verified verify_id_token
  exchanged info (err e) s = (failure info (some e) 500 "Authentication failed", s)
  exchanged info (ok token) s = verified info token (verify_id_token provider token) s

  -- The comparison with the state of the session, which is taken out of it
  unfoldable pub checked : CallbackRequest → Session → Reply × Session
  unfolding exchanged
  checked r s =
      if not (bytes_eq r.state (popped s.state))
      then (failure r.info none 400 "Invalid login state", record s { state = none })
      else exchanged r.info (provider.exchange r.code) (record s { state = none })

  unfoldable pub callback : CallbackRequest → Session → Reply × Session
  unfolding checked
  callback r s =
      if not (is_empty r.oauth_error)
      then (failure r.info none 400 "Authentication failed", s)
      else if not (validate_state r.state).valid || not (validate_auth_code r.code).valid
      then (failure r.info none 400 "Invalid request parameters", s)
      else checked r s

-- Logout, where SessionManager.Destroy forgets every key
unfoldable pub logout : Session → Reply × Session
logout s = (redirect (codes "/") 307, empty_session)
