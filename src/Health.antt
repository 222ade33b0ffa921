-- ===== src/Health.antt =====
-- internal/controller/health.go: the health report, and what it shows of the database's address.
use e5renew.Prelude.{
  ℕ, Bool, true, false, not, ◌&&◌, ◌||◌, Option, none, some, List, [], ◌∷◌, ◌++◌, ltb, ◌==◌,
  if◌then◌else◌, length, take,
}
use e5renew.Text.{Bytes, codes, is_empty, has_prefix, bytes_eq}
use e5renew.Failure.{Error, Result, ok, err, is_ok}
pub mod Report
pub mod Address

pub data HealthStatus : Type 0 where
  up : HealthStatus
  down : HealthStatus
  unknown : HealthStatus

abbrev pub is_up : HealthStatus → Bool
is_up up = true
is_up _ = false

abbrev pub is_down : HealthStatus → Bool
is_down down = true
is_down _ = false

-- The loop over the checks, from the status so far; it stops at the first that is down.
unfoldable pub weigh : HealthStatus → List HealthStatus → HealthStatus
weigh overall [] = overall
weigh overall (down ∷ checks) = down
weigh up (unknown ∷ checks) = weigh unknown checks
weigh down (unknown ∷ checks) = weigh down checks
weigh unknown (unknown ∷ checks) = weigh unknown checks
weigh overall (up ∷ checks) = weigh overall checks

unfoldable pub overall_status : List HealthStatus → HealthStatus
unfolding weigh
overall_status checks = weigh up checks

-- The status of the check of the database, for the outcome of the ping
unfoldable pub check_database : Result (Unit {0}) → HealthStatus
check_database (ok done) = up
check_database (err e) = down

-- net/url's URL, as far as it is read here
pub record Url : Type 0 where
  pub scheme : Bytes
  pub host : Bytes
  pub path : Bytes

abbrev callback_path : Bytes
callback_path = codes "/oauth2/callback"

-- validateRedirectURL and validateUserTokenRedirectURL, whether they find fault; `none` is a URL
-- that url.Parse refuses.
unfoldable pub redirect_is_good : Bytes → Option Url → Bool
redirect_is_good redirect_url none = false
redirect_is_good redirect_url (some u) =
    not (is_empty redirect_url)
    && ((bytes_eq u.scheme (codes "https") || has_prefix u.host (codes "localhost"))
        && bytes_eq u.path callback_path)

unfoldable pub user_token_redirect_is_good : Option Url → Option Url → Bool
user_token_redirect_is_good (some base) (some user_token) =
    bytes_eq base.scheme user_token.scheme
    && (bytes_eq base.host user_token.host
        && bytes_eq user_token.path (callback_path ++ codes "-user-token"))
user_token_redirect_is_good _ _ = false

-- The status of checkAzureADIssuer, for the outcome of the discovery and the two validations
unfoldable pub check_issuer : Result (Unit {0}) → Bool → Bool → HealthStatus
check_issuer (err e) redirect user_token_redirect = down
check_issuer (ok done) redirect user_token_redirect =
    if redirect && user_token_redirect then up else unknown

-- Health: the status that is reported, and the HTTP status
unfoldable pub health : Result (Unit {0}) → Result (Unit {0}) → Bool → Bool → HealthStatus × ℕ
unfolding overall_status check_database check_issuer
health ping discovery redirect user_token_redirect =
    let overall =
      overall_status
        (check_database ping ∷ check_issuer discovery redirect user_token_redirect ∷ up ∷ []) in
    (overall, if is_down overall then 503 else 200)

-- Ready: the HTTP status
unfoldable pub ready : Result (Unit {0}) → ℕ
unfolding check_database
ready ping = if is_up (check_database ping) then 200 else 503

-- What stands behind the last `c`, if there is one
unfoldable pub behind_last : ℕ → Bytes → Option Bytes
behind_last c [] = none
behind_last c (a ∷ s) = elim (behind_last c s) [
  | some rest ↦ some rest
  | none ↦ if a == c then some s else none
]

unfoldable pub cut_short : Bytes → Bytes
cut_short dsn = if ltb 24 (length dsn) then take 24 dsn ++ codes "..." else dsn

unfoldable pub by_at : Bytes → Option Bytes → Bytes
unfolding cut_short
by_at dsn none = cut_short dsn
by_at dsn (some rest) = if is_empty rest then cut_short dsn else codes "***@" ++ rest

unfoldable pub by_url : Bytes → Option Url → Bytes
unfolding by_at behind_last
by_url dsn none = by_at dsn (behind_last b'@' dsn)
by_url dsn (some u) =
    if is_empty u.scheme
    then by_at dsn (behind_last b'@' dsn)
    else u.scheme
      ++ (codes "://" ++ ((if is_empty u.host then codes "(none)" else u.host) ++ u.path))

-- sanitizeDSN, with url.Parse
unfoldable pub sanitize_dsn : (Bytes → Option Url) → Bytes → Bytes
unfolding by_url
sanitize_dsn parse dsn = if is_empty dsn then codes "(empty)" else by_url dsn (parse dsn)
