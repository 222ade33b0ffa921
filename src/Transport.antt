-- ===== src/Transport.antt =====
-- internal/middleware/apilog.go: the HTTP transport that logs the calls to Microsoft Graph.
pub mod Endpoint
pub mod Identifiers
pub mod Logging
use e5renew.Prelude.{
  ℕ, zero, suc, ◌-◌, ◌/◌, Bool, false, ◌&&◌, Option, none, some, List, [], ◌∷◌, ◌++◌, ltb, leb,
  ◌==◌, if◌then◌else◌, length, drop,
}
use e5renew.Prelude.Int.{ℤ, pos, negsuc}
use e5renew.Text.{Bytes, codes, is_empty, has_prefix, trim_prefix, contains, before, split, decimal}
use e5renew.Failure.{Error, error_text, Result, ok, err}
use e5renew.ApiLog.{ApiLogEntry}

-- parts[i]; the callers have checked that there are enough.
abbrev pub part : List Bytes → ℕ → Bytes
part [] i = []
part (p ∷ ps) zero = p
part (p ∷ ps) (suc i) = part ps i

-- The case of "users/" and "groups/", where the second part is an identifier.
member_endpoint : Bytes → Bytes → Bytes
member_endpoint kind path =
    let parts = split path b'/' in
    if ltb 2 (length parts) then kind ++ (b'/' ∷ part parts 2) else kind

classify : Bytes → Bytes
unfolding member_endpoint
classify path =
    if has_prefix path (codes "me/")
    then codes "me/" ++ part (split (drop 3 path) b'/') 0
    else if has_prefix path (codes "users/")
    then member_endpoint (codes "users") path
    else if has_prefix path (codes "groups/")
    then member_endpoint (codes "groups") path
    else part (split path b'/') 0

strip_version : Bytes → Bytes
strip_version path = trim_prefix (trim_prefix path (codes "/")) (codes "v1.0/")

unfoldable pub extract_endpoint : Bytes → Bytes
unfolding classify strip_version
extract_endpoint path =
    if is_empty (strip_version path)
    then codes "root"
    else classify (before (strip_version path) b'?')

pub record Request : Type 0 where
  pub host : Bytes
  pub path : Bytes
  pub method : Bytes
  pub has_body : Bool
  pub content_length : ℤ

-- `body` is what can still be read; reading it to the end fails if `body_fails`.
pub record Response : Type 0 where
  pub status_code : ℕ
  pub status : Bytes
  pub content_length : ℤ
  pub body : Bytes
  pub body_fails : Bool

pub record Config : Type 0 where
  pub user_id : Option Bytes
  pub job_type : Bytes

abbrev pub graph_host : Bytes
graph_host = codes "graph.microsoft.com"

abbrev is_positive : ℤ → Bool
is_positive (pos n) = ltb 0 n
is_positive (negsuc n) = false

abbrev is_unknown : ℤ → Bool
is_unknown (pos n) = false
is_unknown (negsuc n) = n == 0

unfoldable pub request_size : Request → ℤ
request_size req =
    if req.has_body
    then if is_positive req.content_length then req.content_length else pos 0
    else pos 0

abbrev pub is_success : ℕ → Bool
is_success status_code = leb 200 status_code && ltb status_code 300

-- io.ReadAll of a body of unknown length, which is put back; a read that fails has used it up.
read_body : Response → ℤ × Response
read_body resp =
    if is_unknown resp.content_length
    then if resp.body_fails
      then (resp.content_length, record resp { body = [] })
      else (pos (length resp.body), resp)
    else (resp.content_length, resp)

abbrev failure_message : Response → Option Bytes
failure_message resp =
    if is_success resp.status_code
    then none
    else some (codes "HTTP " ++ (decimal resp.status_code ++ (codes " " ++ resp.status)))

-- The entry that is logged and what the caller gets, given the times before and behind the call
-- of the wrapped transport and its outcome. The clock does not run backwards.
entry_of : Config → Request → ℕ → ℕ → Result Response → ApiLogEntry × Result Response
unfolding request_size read_body extract_endpoint
entry_of config req start end (err e) = (
  record {
    user_id = config.user_id;
    api_endpoint = extract_endpoint req.path;
    http_method = req.method;
    http_status_code = pos 0;
    request_time = start;
    response_time = end;
    duration_ms = pos ((end - start) / 1_000_000);
    request_size = request_size req;
    response_size = pos 0;
    error_message = some (error_text e);
    job_type = config.job_type;
    success = false;
  },
  err e,
)
entry_of config req start end (ok resp) =
    let (size, resp') = read_body resp in
    (
      record {
        user_id = config.user_id;
        api_endpoint = extract_endpoint req.path;
        http_method = req.method;
        http_status_code = pos resp.status_code;
        request_time = start;
        response_time = end;
        duration_ms = pos ((end - start) / 1_000_000);
        request_size = request_size req;
        response_size = size;
        error_message = failure_message resp;
        job_type = config.job_type;
        success = is_success resp.status_code;
      },
      ok resp',
    )

with_entry : ApiLogEntry × Result Response → Option ApiLogEntry × Result Response
with_entry (entry, result) = (some entry, result)

-- RoundTrip: the entry that it logs, if any, and its result.
unfoldable pub round_trip :
    Config → Request → ℕ → ℕ → Result Response → Option ApiLogEntry × Result Response
unfolding entry_of with_entry
round_trip config req start end outcome =
    if contains req.host graph_host
    then with_entry (entry_of config req start end outcome)
    else (none, outcome)
