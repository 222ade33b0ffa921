-- ===== src/SafeError.antt =====
-- internal/utils/errors.go: error responses that tell the client nothing about the error.
pub mod Sanitize
use e5renew.Prelude.{ℕ, String, not, ◌&&◌, Option, none, some, List, [], ◌∷◌, if◌then◌else◌}
use e5renew.Text.{Bytes, codes, contains, contains_any, to_lower}
use e5renew.Failure.{Error, error_text}

pub record ErrorResponse : Type 0 where
  pub error : String
  pub code : String
  pub message : String

-- The body of a response: plain text, or the JSON of an ErrorResponse.
pub data Body : Type 0 where
  text : String → Body
  error_json : ErrorResponse → Body

pub record Response : Type 0 where
  pub status_code : ℕ
  pub content_type : String
  pub body : Body

-- What the handlers of errors read of a request.
pub record RequestInfo : Type 0 where
  pub method : Bytes
  pub path : Bytes
  pub remote_addr : Bytes
  pub user_agent : Bytes

-- One record of the server's own log.
pub record Logged : Type 0 where
  pub title : String
  pub error : Bytes
  pub request : RequestInfo
  pub status_code : ℕ
  pub code : Option String

unfoldable pub error_message : Option Error → Bytes
error_message none = codes "<nil>"
error_message (some e) = error_text e

-- The record that is logged, and the response that is written.
unfoldable pub handle_error : RequestInfo → Option Error → ℕ → String → Logged × Response
unfolding error_message
handle_error r e status_code user_message = (
  record {
    title = "HTTP error";
    error = error_message e;
    request = r;
    status_code = status_code;
    code = none;
  },
  record {
    status_code = status_code;
    content_type = "text/plain; charset=utf-8";
    body = text user_message;
  },
)

unfoldable pub handle_json_error :
    RequestInfo → Option Error → ℕ → String → String → Logged × Response
unfolding error_message
handle_json_error r e status_code user_message code = (
  record {
    title = "HTTP JSON error";
    error = error_message e;
    request = r;
    status_code = status_code;
    code = some code;
  },
  record {
    status_code = status_code;
    content_type = "application/json";
    body = error_json (record { error = user_message; code = code; message = user_message });
  },
)

abbrev pub sensitive_patterns : List Bytes
sensitive_patterns =
    codes "password"
    ∷ codes "secret"
    ∷ codes "token"
    ∷ codes "key"
    ∷ codes "credential"
    ∷ codes "auth"
    ∷ codes "login"
    ∷ codes "database"
    ∷ codes "sql"
    ∷ codes "connection"
    ∷ codes "dsn"
    ∷ []

abbrev pub internal_error : Bytes
internal_error = codes "An internal error occurred"

unfoldable pub sanitize_error : (Bytes → Bytes) → Option Error → Bytes
sanitize_error fold none = []
sanitize_error fold (some e) =
    let err_str = error_text e in
    if contains_any (to_lower fold err_str) sensitive_patterns
    then internal_error
    else if contains err_str (codes "/") && contains err_str (codes ":")
    then internal_error
    else err_str

unfoldable pub get_safe_error_message : (Bytes → Bytes) → Option Error → String
get_safe_error_message fold none = ""
get_safe_error_message fold (some e) =
    let err_str = to_lower fold (error_text e) in
    if contains err_str (codes "not found")
    then "The requested resource was not found"
    else if contains err_str (codes "unauthorized")
    then "You are not authorized to access this resource"
    else if contains err_str (codes "forbidden")
    then "Access to this resource is forbidden"
    else if contains err_str (codes "timeout")
    then "The request timed out. Please try again"
    else if contains err_str (codes "connection")
    then "A connection error occurred. Please try again"
    else if contains err_str (codes "invalid")
    then "Invalid input provided"
    else if contains err_str (codes "duplicate")
    then "A duplicate entry was found"
    else "An internal server error occurred"

-- The logged error text, with the context's fields, and the message that is returned.
unfoldable pub log_and_return_error {ℓ} :
    {V : Type ℓ}
    → (Bytes → Bytes)
    → Option Error
    → List (Bytes × V)
    → (Bytes × List (Bytes × V)) × String
unfolding error_message
log_and_return_error fold e context = ((error_message e, context), get_safe_error_message fold e)
