-- ===== src/Examples/OfSignIn.antt =====
-- The sign-in and the grant, the mail and the health report.
use e5renew.Prelude.{◌≡◌, refl, sym, ap, ◌∙◌, ◌≢◌, true, none, some, List, [], ◌∷◌, arith}
use e5renew.Text.{codes, bytes_eq, trim_space, trim_left}
use e5renew.Failure.{ok}
use e5renew.Validation.{validate_auth_code}
use e5renew.Tokens.{get_user_token}
use e5renew.Tokens.Saved.{read_back}
use e5renew.Session.{
  Session, Reply, redirect, empty_session, verify_id_token, generate_random_state,
}
use e5renew.Login.{login, callback}
use e5renew.Login.Callback.{Outcome, callback-Outcome, login-callback}
use e5renew.Login.Once.{Later, called_back, signed_out, granting, after, callback_once}
use e5renew.Authorization.{is_there, authorize_user_token, user_token_callback}
use e5renew.Authorization.Grant.{
  IsGrant, IsHonoured, user_token_callback-IsGrant, grant_stores_token,
}
use e5renew.Authorization.Reachable
use e5renew.Authorization.Reachable.{fresh, onwards, signing_in, Reachable-IsWhole}
use e5renew.Examples.Data.{
  gcm, bytewise, nonces, can, ann, token, db, info, random_bytes, claims, provider, returning,
  waiting, site,
}

good_code : (validate_auth_code (codes "0123456789")).valid ≡ true
good_code = unfold validate_auth_code trim_space trim_left bytes_eq in refl

callback-Outcome_example : Outcome provider returning waiting (callback provider returning waiting)
callback-Outcome_example = callback-Outcome provider returning waiting

login-callback_example :
    callback provider returning (login provider info (ok random_bytes) empty_session).1 ≡ (
      redirect (codes "/") 307,
      record empty_session {
        user = some (codes "id");
        token = some token;
        claims = some claims;
        state = none;
      },
    )
login-callback_example =
    login-callback provider info random_bytes returning empty_session token (codes "id")
      (omega arith) refl refl refl good_code (refl, unfold verify_id_token in refl)

signed_in : callback provider returning waiting ≡ (
  redirect (codes "/") 307,
  record empty_session {
    user = some (codes "id");
    token = some token;
    claims = some claims;
    state = none;
  },
)
signed_in =
    unfold login generate_random_state in
    login-callback provider info random_bytes returning empty_session token (codes "id")
      (omega arith) refl refl refl good_code (refl, unfold verify_id_token in refl)

changed : (callback provider returning waiting).1.user ≢ none
changed same =
    absurd (ground (arith, sym (ap (λ (p : Reply × Session). p.1.user) signed_in) ∙ same))

abbrev later : List Later
later = called_back returning ∷ granting (some (codes "s")) ∷ signed_out ∷ []

callback_once_example :
    (callback provider returning
      (after provider later (callback provider returning waiting).1)).1.user
    ≡ (after provider later (callback provider returning waiting).1).user
callback_once_example = callback_once provider returning waiting changed later returning

user_token_callback-IsGrant_example :
    IsGrant gcm bytewise provider site returning 5 nonces
      (user_token_callback gcm bytewise provider returning 5 nonces site).1
user_token_callback-IsGrant_example =
    user_token_callback-IsGrant gcm bytewise provider site returning 5 nonces

honoured : IsHonoured provider site claims random_bytes returning token
honoured = record {
  there = refl;
  known = refl;
  bytes = omega arith;
  full = refl;
  own = refl;
  fine = refl;
  good_code = good_code;
  issued = refl;
}

grant_stores_token_example :
    ((user_token_callback gcm bytewise provider returning 5 nonces
        (authorize_user_token provider info (ok random_bytes) site).1).0
      ≡ redirect (codes "/user") 307)
    × ((get_user_token gcm bytewise ann
          (user_token_callback gcm bytewise provider returning 5 nonces
            (authorize_user_token provider info (ok random_bytes) site).1).1.db).0
        ≡ ok (read_back 5 token))
grant_stores_token_example =
    grant_stores_token gcm bytewise provider site claims random_bytes returning token info 5 nonces
      honoured tt can

Reachable-IsWhole_example :
    is_there
      (callback provider returning (login provider info (ok random_bytes) empty_session).1).1.claims
    ≡ true
Reachable-IsWhole_example =
    Reachable-IsWhole gcm bytewise provider _
      (onwards _ _ (onwards _ _ (fresh db) (signing_in info (ok random_bytes) _))
        (Reachable.called_back returning _))
      (unfold callback e5renew.Validation.validate_state e5renew.Base64.encode
          e5renew.Validation.match_state e5renew.Base64.digit e5renew.Base64.padding
          validate_auth_code bytes_eq trim_space login in
        refl)
