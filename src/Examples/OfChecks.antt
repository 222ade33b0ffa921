-- ===== src/Examples/OfChecks.antt =====
-- The checks of inputs, errors and addresses, the transport and the health report.
use e5renew.Prelude.{[], ◌≡◌, refl, ◌↔◌, ◌⊎◌, inr, false, none, some, ◌∷◌, ◌++◌, arith}
use e5renew.Prelude.Int.{pos, negsuc}
use e5renew.Text.{codes, contains}
use e5renew.Failure.{Error, other, error_text, ok, wrap}
use e5renew.SafeError.{sanitize_error, internal_error}
use e5renew.SafeError.Sanitize.{Leaks, sanitize_error_lem}
use e5renew.ApiLog.{ApiLogEntry}
use e5renew.Transport.{Request, Response, Config, graph_host, extract_endpoint, round_trip}
use e5renew.Transport.Identifiers.{versioned, extract_endpoint-member}
use e5renew.Transport.Logging.{IsAccurate, round_trip_transparent, round_trip-IsAccurate}
use e5renew.Health.{sanitize_dsn}
use e5renew.Health.Address.{sanitize_dsn-hides}
use e5renew.CookiePolicy
use e5renew.CookiePolicy.{request_uses_https}
use e5renew.Examples.Data.{ann}

abbrev secret : Error
secret = wrap (codes "failed to get user token") (other (codes "no rows"))

sanitize_error_lem_example :
    (Leaks (λ s. s) (error_text secret) × (sanitize_error (λ s. s) (some secret) ≡ internal_error))
    ⊎ ((¬ Leaks (λ s. s) (error_text secret))
        × (sanitize_error (λ s. s) (some secret) ≡ error_text secret))
sanitize_error_lem_example = sanitize_error_lem (λ s. s) secret

extract_endpoint-member_example :
    (extract_endpoint
        (versioned (codes "users" ++ b'/' ∷ (ann ++ b'/' ∷ (codes "messages" ++ codes "?$top=5"))))
      ≡ codes "users" ++ b'/' ∷ codes "messages")
    × (extract_endpoint (
          versioned
            (codes "groups" ++ b'/' ∷ (ann ++ b'/' ∷ (codes "messages" ++ codes "?$top=5"))))
        ≡ codes "groups" ++ b'/' ∷ codes "messages")
extract_endpoint-member_example =
    extract_endpoint-member ann (codes "messages") (codes "?$top=5") (omega arith) (omega arith)
      (inr refl)

abbrev config : Config
config = record { user_id = some ann; job_type = codes "user_mail" }

abbrev request : Request
request = record {
  host = graph_host;
  path = codes "/v1.0/me/messages";
  method = codes "GET";
  has_body = false;
  content_length = pos 0;
}

abbrev response : Response
response = record {
  status_code = 404;
  status = codes "404 Not Found";
  content_length = negsuc 0;
  body = codes "none";
  body_fails = false;
}

round_trip_transparent_example : (round_trip config request 100 200 (ok response)).1 ≡ ok response
round_trip_transparent_example =
    round_trip_transparent config request 100 200 (ok response) (inr refl)

round_trip-IsAccurate_example :
    (((round_trip config request 100 200 (ok response)).0 ≡ none)
      ↔ (contains request.host graph_host ≡ false))
    × ((entry : ApiLogEntry)
        → (round_trip config request 100 200 (ok response)).0 ≡ some entry
        → IsAccurate (ok response) entry)
round_trip-IsAccurate_example = round_trip-IsAccurate config request 100 200 (ok response)

sanitize_dsn-hides_example :
    sanitize_dsn (λ dsn. none) (codes "user:p@ss" ++ b'@' ∷ codes "tcp(db)/e5")
    ≡ codes "***@" ++ codes "tcp(db)/e5"
sanitize_dsn-hides_example =
    sanitize_dsn-hides (codes "user:p@ss") (codes "tcp(db)/e5") (omega arith) refl (λ dsn. none) tt

abbrev proxied : CookiePolicy.Request
proxied = record { tls = false; x_forwarded_proto = [] ∷ codes " https, http" ∷ []; forwarded = [] }
