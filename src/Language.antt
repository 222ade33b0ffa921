-- ===== src/Language.antt =====
-- internal/i18n/i18n.go (GetLanguageFromRequest) and internal/middleware/i18n.go, with what net/http
-- makes of the value of a cookie, and the browser that keeps the cookie. The parser of the header
-- Accept-Language (golang.org/x/text) is a parameter.
pub mod Persistence
use e5renew.Prelude.{
  ℕ, ◌*◌, Bool, true, false, ◌&&◌, ◌||◌, not, Option, none, some, List, [], ◌∷◌, ◌++◌, ltb, leb,
  ◌==◌, if◌then◌else◌, any, all,
}
use e5renew.Text.{Bytes, codes, is_empty}
use e5renew.Rows.{keep}
use e5renew.CookiePolicy
use e5renew.CookiePolicy.{request_uses_https}

-- validCookieValueByte
abbrev pub is_cookie_byte : ℕ → Bool
is_cookie_byte b = leb 32 b && (ltb b 127 && not (b == b'"' || (b == b';' || b == b'\\')))

abbrev pub is_separator : ℕ → Bool
is_separator b = b == b' ' || b == b','

-- sanitizeCookieValue: bytes that are not valid are dropped, and a value with a blank or a comma is
-- quoted.
unfoldable pub sanitize_cookie_value : Bytes → Bytes
unfolding keep
sanitize_cookie_value v =
    let kept = keep is_cookie_byte v in
    if any is_separator kept then b'"' ∷ (kept ++ b'"' ∷ []) else kept

unfoldable pub ends_in_quote : Bytes → Bool
ends_in_quote [] = false
ends_in_quote (b ∷ []) = b == b'"'
ends_in_quote (b ∷ c ∷ s) = ends_in_quote (c ∷ s)

unfoldable pub without_last : Bytes → Bytes
without_last [] = []
without_last (b ∷ []) = []
without_last (b ∷ c ∷ s) = b ∷ without_last (c ∷ s)

abbrev pub unquoted : Bytes → Bytes
unfolding ends_in_quote without_last
unquoted [] = []
unquoted (b ∷ s) = if b == b'"' && ends_in_quote s then without_last s else b ∷ s

-- parseCookieValue: a cookie whose value has a byte that is not valid is left out.
unfoldable pub parse_cookie_value : Bytes → Option Bytes
parse_cookie_value raw = if all is_cookie_byte (unquoted raw) then some (unquoted raw) else none

-- What the two functions read of a request: the parameter "lang" (empty for none), the value of the
-- cookie "lang" as it is sent, the header Accept-Language, and what tells of HTTPS.
pub record Request : Type 0 where
  pub query_lang : Bytes
  pub lang_cookie : Option Bytes
  pub accept_language : Bytes
  pub transport : CookiePolicy.Request

pub record Cookie : Type 0 where
  pub name : Bytes
  pub value : Bytes
  pub path : Bytes
  pub max_age : ℕ
  pub secure : Bool
  pub http_only : Bool

abbrev pub cookie_value : Option Bytes → Option Bytes
unfolding parse_cookie_value
cookie_value none = none
cookie_value (some raw) = parse_cookie_value raw

abbrev pub first_tag : List Bytes → Bytes
first_tag [] = codes "en"
first_tag (tag ∷ tags) = tag

module _ (parse_accept_language : Bytes → List Bytes) where
  abbrev pub from_header : Bytes → Bytes
  from_header accept =
      if is_empty accept then codes "en" else first_tag (parse_accept_language accept)

  abbrev pub from_cookie : Option Bytes → Bytes → Bytes
  from_cookie none accept = from_header accept
  from_cookie (some value) accept = value

  unfoldable pub get_language_from_request : Request → Bytes
  get_language_from_request r =
      if is_empty r.query_lang
      then from_cookie (cookie_value r.lang_cookie) r.accept_language
      else r.query_lang

  -- The cookie that is set, if any, and the language of the localizer
  unfoldable pub i18n_middleware : (Bytes → Bytes) → Request → Option Cookie × Bytes
  unfolding get_language_from_request request_uses_https
  i18n_middleware fold r = if is_empty r.query_lang then (none, get_language_from_request r) else (
    some (record {
      name = codes "lang";
      value = r.query_lang;
      path = codes "/";
      max_age = 365 * 24 * 60 * 60;
      secure = request_uses_https fold r.transport;
      http_only = true;
    }),
    get_language_from_request r,
  )
