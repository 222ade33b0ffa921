-- ===== src/Validation.antt =====
-- internal/utils/validation.go: the checks on request parameters. Texts are bytes; `fold` is the
-- Unicode case mapping of package `strings`, which runs on texts that are not ASCII.
pub mod State
pub mod Code
pub mod Content
pub mod RequestPath
use e5renew.Prelude.{
  ℕ, ◌-◌, String, Bool, true, false, not, ◌&&◌, ◌||◌, List, [], ◌∷◌, ◌++◌, map, ltb, leb, ◌==◌,
  if◌then◌else◌, length, all, any,
}
use Prim.Native.String
use e5renew.Text.{Bytes, codes, bytes_eq, is_empty, has_prefix, contains_any, to_lower, trim_space}
use mathlib.Core.List.{foldl}

pub record ValidationResult : Type 0 where
  pub valid : Bool
  pub errors : List String

-- `if failed { errors = append(errors, message) }`
abbrev note : Bool → String → List String → List String
note failed message errors = if failed then errors ++ message ∷ [] else errors

abbrev is_nil {ℓ} : {A : Type ℓ} → List A → Bool
is_nil [] = true
is_nil (x ∷ xs) = false

-- `ValidationResult{Valid: len(errors) == 0, Errors: errors}`
abbrev result_of : List String → ValidationResult
result_of errors = record { valid = is_nil errors; errors = errors }

abbrev invalid : String → ValidationResult
invalid message = record { valid = false; errors = message ∷ [] }

-- `parses` says whether net/mail.ParseAddress takes the text.
unfoldable pub validate_email : (Bytes → Bool) → Bytes → ValidationResult
validate_email parses email =
    if is_empty email
    then invalid "email is required"
    else result_of (
        note (not (parses email)) "invalid email format"
          (note (ltb 254 (length email)) "email is too long" []))

unfoldable pub validate_user_id : (Bytes → Bool) → Bytes → ValidationResult
unfolding validate_email
validate_user_id parses user_id = validate_email parses user_id

abbrev is_alnum : ℕ → Bool
is_alnum c =
    (leb b'A' c && leb c b'Z') || ((leb b'a' c && leb c b'z') || (leb b'0' c && leb c b'9'))

abbrev pub is_state_char : ℕ → Bool
is_state_char c = is_alnum c || (c == b'+' || (c == b'/' || (c == b'_' || c == b'-')))

-- `[A-Za-z0-9+/_-]*=*$`
match_state_tail : Bytes → Bool
match_state_tail [] = true
match_state_tail (c ∷ s) =
    let rest = match_state_tail s in if is_state_char c then rest else all (λ a. a == b'=') (c ∷ s)

-- `^[A-Za-z0-9+/_-]+=*$`
unfoldable pub match_state : Bytes → Bool
unfolding match_state_tail
match_state [] = false
match_state (c ∷ s) = is_state_char c && match_state_tail s

unfoldable pub validate_state : Bytes → ValidationResult
validate_state state =
    if is_empty state
    then invalid "state parameter is required"
    else result_of (
        note (not (match_state state)) "state parameter has invalid format" (
          note (ltb (length state) 16 || ltb 128 (length state))
            "state parameter has invalid length" []))

-- strings.ContainsAny(code, "\r\n\t ")
abbrev is_blank : ℕ → Bool
is_blank c = c == 13 || (c == 10 || (c == 9 || c == 32))

unfoldable pub validate_auth_code : Bytes → ValidationResult
validate_auth_code code =
    if is_empty code
    then invalid "authorization code is required"
    else result_of (
        note (not (bytes_eq (trim_space code) code) || any is_blank code)
          "authorization code has invalid format"
          (note (ltb (length code) 10) "authorization code has invalid length" []))

unfoldable pub validate_string : Bytes → String → ℕ → ℕ → ValidationResult
validate_string input field_name min_length max_length =
    if is_empty input && ltb 0 min_length
    then invalid (String.◌++◌ field_name " is required")
    else result_of (
        note (ltb max_length (length input)) (String.◌++◌ field_name " is too long")
          (note (ltb (length input) min_length) (String.◌++◌ field_name " is too short") []))

abbrev valid_methods : List Bytes
valid_methods =
    codes "GET"
    ∷ codes "POST"
    ∷ codes "PUT"
    ∷ codes "DELETE"
    ∷ codes "PATCH"
    ∷ codes "HEAD"
    ∷ codes "OPTIONS"
    ∷ []

abbrev upper_byte : ℕ → ℕ
upper_byte c = if leb b'a' c && leb c b'z' then c - 32 else c

-- strings.ToUpper
unfoldable pub to_upper : (Bytes → Bytes) → Bytes → Bytes
to_upper fold s = if all (λ c. ltb c 128) s then map upper_byte s else fold s

unfoldable pub validate_http_method : (Bytes → Bytes) → Bytes → ValidationResult
validate_http_method fold method =
    if is_empty method
    then invalid "HTTP method is required"
    else result_of
        (note (not (any (bytes_eq (to_upper fold method)) valid_methods)) "invalid HTTP method" [])

abbrev pub is_path_char : ℕ → Bool
is_path_char c = is_alnum c || (c == b'/' || (c == b'_' || (c == b'.' || c == b'-')))

abbrev pub is_query_char : ℕ → Bool
is_query_char c =
    is_alnum c || (c == b'=' || (c == b'&' || (c == b'_' || (c == b'.' || c == b'-'))))

-- `[A-Za-z0-9/_.-]*(\?[A-Za-z0-9=&_.-]*)?$`
match_path_tail : Bytes → Bool
match_path_tail [] = true
match_path_tail (c ∷ s) =
    let rest = match_path_tail s in
    if is_path_char c then rest else c == b'?' && all is_query_char s

-- `^[A-Za-z0-9/_.-]+(\?[A-Za-z0-9=&_.-]*)?$`
unfoldable pub match_path : Bytes → Bool
unfolding match_path_tail
match_path [] = false
match_path (c ∷ s) = is_path_char c && match_path_tail s

unfoldable pub validate_request_path : Bytes → ValidationResult
validate_request_path path =
    if is_empty path
    then invalid "request path is required"
    else result_of (
        note (not (match_path path)) "request path contains invalid characters" (
          note (not (has_prefix path (codes "/"))) "request path must start with /"
            (note (ltb 2048 (length path)) "request path is too long" [])))

abbrev pub xss_patterns : List Bytes
xss_patterns =
    codes "<script"
    ∷ codes "javascript:"
    ∷ codes "onload="
    ∷ codes "onerror="
    ∷ codes "onclick="
    ∷ codes "onmouseover="
    ∷ codes "<iframe"
    ∷ codes "<object"
    ∷ codes "<embed"
    ∷ []

unfoldable pub validate_json_input : (Bytes → Bytes) → Bytes → ValidationResult
unfolding contains_any
validate_json_input fold input =
    if is_empty input
    then record { valid = true; errors = [] }
    else result_of (
        note (contains_any (to_lower fold input) xss_patterns)
          "input contains potentially dangerous content" [])

combine_step : ValidationResult → ValidationResult → ValidationResult
combine_step acc r = record {
  valid = if not r.valid then false else acc.valid;
  errors = acc.errors ++ r.errors;
}

combine_from : ValidationResult → List ValidationResult → ValidationResult
combine_from acc [] = acc
combine_from acc (r ∷ rs) = combine_from (combine_step acc r) rs

unfoldable pub combine_validation_results : List ValidationResult → ValidationResult
unfolding combine_from combine_step
combine_validation_results results = combine_from (record { valid = true; errors = [] }) results
