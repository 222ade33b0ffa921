-- ===== src/Examples/OfServing.antt =====
-- The language of the pages that a browser visits, and the measurements of a server.
use e5renew.Prelude.{ℕ, ◌*◌, ◌+◌, ◌≤◌, ◌≡◌, refl, false, true, none, [], ◌∷◌, length}
use e5renew.Prelude.Int.{pos, negsuc}
use e5renew.Text.{codes}
use e5renew.Rows.{keep}
use e5renew.CookiePolicy
use e5renew.Language.Persistence.{Visit, is_plain, languages, languages_stay}
use e5renew.Telemetry.Requests.{
  Served, Server, Reachable, fresh, onwards, begin, write_header, respond, leave, raised, lowered,
  requests, errors, record_response,
}
use e5renew.Telemetry.{record_http_active_request}
use e5renew.Telemetry.Balance.{active_requests_lem}

abbrev direct : CookiePolicy.Request
direct = record { tls = true; x_forwarded_proto = []; forwarded = [] }

-- The language asked for has a blank and a byte that no cookie may have.
abbrev choice : Visit
choice = record {
  path = codes "/logs";
  at = 1_700_000_000;
  reopened = false;
  query_lang = codes "zh;x y";
  accept_language = codes "de";
  transport = direct;
  over_https = true;
}

abbrev later : Visit
later = record {
  path = codes "/user";
  at = 1_700_000_000 + 300 * 86_400;
  reopened = true;
  query_lang = [];
  accept_language = codes "fr";
  transport = direct;
  over_https = true;
}

languages_stay_example :
    languages (λ header. header ∷ []) (λ s. s) (choice ∷ later ∷ later ∷ []) none
    ≡ codes "zh;x y" ∷ codes "zhx y" ∷ codes "zhx y" ∷ []
unfolding keep
languages_stay_example =
    languages_stay (λ header. header ∷ []) (λ s. s) choice (later ∷ later ∷ []) none refl
      (unfold is_plain in refl)

abbrev get : ℕ → Served
get status = record {
  method = codes "GET";
  path = codes "/logs";
  status_code = status;
  recorded = false;
}

abbrev post : Served
post = record { method = codes "POST"; path = codes "/"; status_code = 200; recorded = false }

-- Of two requests the first has failed and is gone, and the second is being served.
abbrev server : Server
server = record {
  served = post ∷ [];
  measured = record_http_active_request (negsuc 0) (
      record_response (get 503) 7
        (record_http_active_request (pos 1) (record_http_active_request (pos 1) [])));
  begun = 2;
}

server-Reachable : Reachable server
server-Reachable =
    onwards
      (onwards
        (onwards
          (onwards (onwards fresh (begin (codes "GET") (codes "/logs")))
            (begin (codes "POST") (codes "/")))
          (write_header (post ∷ []) [] (get 200) 503 refl refl))
        (respond (post ∷ []) [] (get 503) 7 refl refl))
      (leave (post ∷ []) [] (record (get 503) { recorded = true }) refl)

active_requests_lem_example :
    (raised server.measured ≡ lowered server.measured + length server.served)
    × (raised server.measured ≡ server.begun)
    × (requests server.measured ≤ server.begun)
    × (errors server.measured ≤ requests server.measured)
active_requests_lem_example = active_requests_lem server-Reachable
