-- ===== src/Session.antt =====
-- The session of a browser, and internal/environment/auth.go: the identity provider behind the
-- sign-in. Each key of the session that the controllers use is a field.
use e5renew.Prelude.{ℕ, String, Option, none, some, []}
use e5renew.Text.{Bytes, codes}
use e5renew.Base64.{encode, raw_url_encoding}
use e5renew.Failure.{Error, other, Result, ok, err}
use e5renew.SafeError
use e5renew.SafeError.{RequestInfo, handle_error}
use e5renew.Tokens.{Token}

-- environment.AzureADClaims
pub record Claims : Type 0 where
  pub name : Bytes
  pub preferred_username : Bytes
  pub email : Bytes

-- `user` is the verified ID token. Callback stores a pointer to the claims; the session is encoded by
-- encoding/gob behind each request, which flattens pointers, so that the next request finds a value
-- of the registered type AzureADClaims. `claims` is what the next request finds.
pub record Session : Type 0 where
  pub user : Option Bytes
  pub token : Option Token
  pub claims : Option Claims
  pub state : Option Bytes
  pub user_token_state : Option Bytes

abbrev pub empty_session : Session
empty_session = record {
  user = none;
  token = none;
  claims = none;
  state = none;
  user_token_state = none;
}

-- PopString gives back "" for a missing key.
abbrev pub popped : Option Bytes → Bytes
popped none = []
popped (some s) = s

-- What a handler answers. `panics` is a type assertion that does not hold.
pub data Reply : Type 0 where
  redirect : Bytes → ℕ → Reply
  page : SafeError.Response → Reply
  panics : Reply

-- c.errorHandler.HandleError; what it logs is left out here.
abbrev pub failure : RequestInfo → Option Error → ℕ → String → Reply
failure r e status_code user_message = page (handle_error r e status_code user_message).1

-- The identity provider, through oauth2.Config and the OIDC verifier. `claims_of` is what
-- ParseClaims leaves in the claims, whose error is dropped.
pub record Provider : Type 0 where
  pub auth_code_url : Bytes → Bytes
  pub exchange : Bytes → Result Token
  pub id_token_field : Token → Option Bytes
  pub verify : Bytes → Result Bytes
  pub claims_of : Bytes → Claims

verify_field : Provider → Option Bytes → Result Bytes
verify_field provider none = err (other (codes "no id_token field in oauth2 token"))
verify_field provider (some raw) = provider.verify raw

-- VerifyIDToken
unfoldable pub verify_id_token : Provider → Token → Result Bytes
unfolding verify_field
verify_id_token provider token = verify_field provider (provider.id_token_field token)

-- generateRandomState and generateUserTokenState, for the outcome of rand.Read on 32 bytes
unfoldable pub generate_random_state : Result Bytes → Result Bytes
generate_random_state (err e) = err e
generate_random_state (ok b) = ok (encode raw_url_encoding b)

-- The query parameters of the two callbacks.
pub record CallbackRequest : Type 0 where
  pub state : Bytes
  pub code : Bytes
  pub oauth_error : Bytes
  pub info : RequestInfo
