-- ===== src/Authorization/Reachable.antt =====
-- The sessions that the requests of a browser lead to, one after another.
use e5renew.Prelude.{ℕ, ◌≡◌, refl, sym, ap, ◌∙◌, subst, inl, inr, true, arith}
use e5renew.Text.{Bytes}
use e5renew.Failure.{Result, ok, err}
use e5renew.Database.{Db, Collation}
use e5renew.Encryption.{Aead}
use e5renew.SafeError.{RequestInfo}
use e5renew.Tokens.{Token, Nonces}
use e5renew.Session.{
  Session, empty_session, Reply, Provider, generate_random_state, CallbackRequest,
}
use e5renew.Login.{login, started, callback, logout}
use e5renew.Login.Callback.{Outcome, callback-Outcome}
use e5renew.Authorization.{
  Site, is_there, begun, authorize_user_token, user_token_callback, granted, without_state,
  revoke_user_token, revoked,
}
use e5renew.Authorization.Guards.{for_user-elim, user_token_callback-elim}

module _ (gcm : Aead) (c : Collation) (provider : Provider) where
  -- One request of a browser. The table of tokens may change between two requests as well.
  pub data Step : Site → Site → Type 0 where
    signing_in :
        (info : RequestInfo) (random : Result Bytes) (site : Site)
        → Step site (record site { session = (login provider info random site.session).1 })
    called_back :
        (r : CallbackRequest) (site : Site)
        → Step site (record site { session = (callback provider r site.session).1 })
    signing_out : (site : Site) → Step site (record site { session = (logout site.session).1 })
    authorizing :
        (info : RequestInfo) (random : Result Bytes) (site : Site)
        → Step site (authorize_user_token provider info random site).1
    granting :
        (r : CallbackRequest) (now : ℕ) (nonces : Nonces) (site : Site)
        → Step site (user_token_callback gcm c provider r now nonces site).1
    revoking :
        (info : RequestInfo) (site : Site)
        → Step site (revoke_user_token gcm c provider info site).1
    elsewhere : (site : Site) (db : Db) → Step site (record site { db = db })

  -- What a browser without a session can come to.
  pub data Reachable : Site → Type 0 where
    fresh : (db : Db) → Reachable (record { session = empty_session; db = db })
    onwards : (site site' : Site) → Reachable site → Step site site' → Reachable site'

  -- Who is signed in has claims.
  abbrev IsWhole : Session → Type 0
  IsWhole s = is_there s.user ≡ true → is_there s.claims ≡ true

  same_keys : (s s' : Session) → s'.user ≡ s.user → s'.claims ≡ s.claims → IsWhole s → IsWhole s'
  same_keys s s' user claims h there = ap is_there claims ∙ h (sym (ap is_there user) ∙ there)

  callback-IsWhole :
      (r : CallbackRequest) (s : Session) → IsWhole s → IsWhole (callback provider r s).1
  callback-IsWhole r s h = by_outcome (callback-Outcome provider r s)
    where
      by_outcome : Outcome provider r s (callback provider r s) → IsWhole (callback provider r s).1
      by_outcome (inl (user, token, claims)) = same_keys s (callback provider r s).1 user claims h
      by_outcome (inr (token, id_token, issued, own, valid, next, reply)) =
          subst IsWhole (sym next) (λ there. refl)

  -- The handlers of the grant leave the user and the claims as they are.
  abbrev Keeps : Site → Reply × Site → Type 0
  Keeps site (reply, site') =
      (site'.session.user ≡ site.session.user) × (site'.session.claims ≡ site.session.claims)

  login-IsWhole :
      (info : RequestInfo) (random : Result Bytes) (s : Session)
      → IsWhole s
      → IsWhole (login provider info random s).1
  unfolding login started generate_random_state
  login-IsWhole info (ok b) s h = h
  login-IsWhole info (err e) s h = h

  begun-Keeps :
      (info : RequestInfo) (state : Result Bytes) (user_id : Bytes) (site : Site)
      → Keeps site (begun provider info state user_id site)
  unfolding begun
  begun-Keeps info (ok state) user_id site = (refl, refl)
  begun-Keeps info (err e) user_id site = (refl, refl)

  authorize-Keeps :
      (info : RequestInfo) (random : Result Bytes) (site : Site)
      → Keeps site (authorize_user_token provider info random site)
  unfolding authorize_user_token
  authorize-Keeps info random site =
      for_user-elim _ site (Keeps site) (λ there missing. (refl, refl)) (refl, refl)
        (λ there claims known. begun-Keeps info (generate_random_state random) claims.email site)

  granted-Keeps :
      (info : RequestInfo) (now : ℕ) (nonces : Nonces) (issued : Result Token) (user_id : Bytes)
      (site : Site)
      → Keeps site (granted gcm c provider info now nonces issued user_id site)
  unfolding granted
  granted-Keeps info now nonces (err e) user_id site = (refl, refl)
  granted-Keeps info now nonces (ok token) user_id site = (refl, refl)

  callback-Keeps :
      (r : CallbackRequest) (now : ℕ) (nonces : Nonces) (site : Site)
      → Keeps site (user_token_callback gcm c provider r now nonces site)
  callback-Keeps r now nonces site =
      user_token_callback-elim gcm c provider site r now nonces (Keeps site)
        (λ message. (refl, refl))
        (λ valid own.
          for_user-elim _ (without_state site) (Keeps site) (λ there missing. (refl, refl))
            (refl, refl)
            (λ there claims known.
              granted-Keeps r.info now nonces (provider.exchange r.code) claims.email
                (without_state site)))

  revoke-Keeps :
      (info : RequestInfo) (site : Site) → Keeps site (revoke_user_token gcm c provider info site)
  unfolding revoke_user_token revoked
  revoke-Keeps info site =
      for_user-elim _ site (Keeps site) (λ there missing. (refl, refl)) (refl, refl)
        (λ there claims known. (refl, refl))

  kept-IsWhole :
      (site : Site) (p : Reply × Site) → Keeps site p → IsWhole site.session → IsWhole p.1.session
  kept-IsWhole site p (user, claims) h = same_keys site.session p.1.session user claims h

  Step-IsWhole :
      (site site' : Site) → Step site site' → IsWhole site.session → IsWhole site'.session
  unfolding logout
  Step-IsWhole _ _ (signing_in info random site) h = login-IsWhole info random site.session h
  Step-IsWhole _ _ (called_back r site) h = callback-IsWhole r site.session h
  Step-IsWhole _ _ (signing_out site) h = λ there. ground (arith, there)
  Step-IsWhole _ _ (authorizing info random site) h =
      kept-IsWhole site (authorize_user_token provider info random site)
        (authorize-Keeps info random site) h
  Step-IsWhole _ _ (granting r now nonces site) h =
      kept-IsWhole site (user_token_callback gcm c provider r now nonces site)
        (callback-Keeps r now nonces site) h
  Step-IsWhole _ _ (revoking info site) h =
      kept-IsWhole site (revoke_user_token gcm c provider info site) (revoke-Keeps info site) h
  Step-IsWhole _ _ (elsewhere site db) h = h

  whole : (site : Site) → Reachable site → IsWhole site.session
  whole _ (fresh db) = λ there. ground (arith, there)
  whole _ (onwards site site' earlier step) = Step-IsWhole site site' step (whole site earlier)

  -- In every session that a browser can come to, by signing in and out, by callbacks that fail or
  -- succeed and by asking for a grant and revoking it, who is signed in has claims.
  pub Reachable-IsWhole :
      (site : Site)
      → Reachable site
      → is_there site.session.user ≡ true
      → is_there site.session.claims ≡ true
  Reachable-IsWhole site reachable there = whole site reachable there
