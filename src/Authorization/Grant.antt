-- ===== src/Authorization/Grant.antt =====
-- The grant from its start to the stored token, and what keeps the handlers from a panic.
use e5renew.Prelude.{ℕ, ◌≡◌, refl, sym, ap, ◌∙◌, subst, ◌⊎◌, inl, inr, true, some, length}
use e5renew.Text.{Bytes, codes, is_empty, bytes_eq}
use e5renew.Text.Equality.{bytes_eq_refl}
use e5renew.Base64.{encode, raw_url_encoding}
use e5renew.Base64.RoundTrip.{AreBytes}
use e5renew.Failure.{ok, Result-cases}
use e5renew.Database.{Db, Collation}
use e5renew.Database.Statements.{IsHealthy}
use e5renew.Encryption.{Aead}
use e5renew.SafeError.{RequestInfo}
use e5renew.Validation.{validate_state, validate_auth_code}
use e5renew.Validation.State.{encode-valid_state}
use e5renew.Tokens.{Token, Nonces, save_user_token, get_user_token}
use e5renew.Tokens.Texts.{CanEncrypt}
use e5renew.Tokens.Saved.{read_back, get-save}
use e5renew.Session.{Claims, popped, Reply, redirect, Provider, CallbackRequest}
use e5renew.Authorization.{
  Site, is_there, for_user, authorize_user_token, user_token_callback, without_state, granted,
  replied,
}
use e5renew.Authorization.Guards.{for_user-elim, for_user-eq, compared-eq, user_token_callback-elim}

module _ (gcm : Aead) (c : Collation) (provider : Provider) (site : Site) (r : CallbackRequest)
    (now : ℕ) (nonces : Nonces) where
  -- The table has changed only if a user is signed in, the state was the session's own, in a valid
  -- form, and the provider issued a token for the code, which has been saved for the user.
  abbrev pub IsGrant : Site → Type 0
  IsGrant site' =
      (site'.db ≡ site.db)
      ⊎ ((user_id : Bytes) × (token : Token) × (claims : Claims) × (site.session.claims
            ≡ some claims)
          × (is_there site.session.user ≡ true)
          × (claims.email ≡ user_id)
          × (r.state ≡ popped site.session.user_token_state)
          × ((validate_state r.state).valid ≡ true)
          × (provider.exchange r.code ≡ ok token)
          × (site'.db ≡ (save_user_token gcm c now nonces user_id token site.db).1))

  granted-IsGrant :
      is_there site.session.user ≡ true
      → (claims : Claims) → (site.session.claims ≡ some claims)
      → r.state ≡ popped site.session.user_token_state
      → (validate_state r.state).valid ≡ true
      → (IsGrant
          (granted gcm c provider r.info now nonces
            (provider.exchange r.code)
            claims.email
            (without_state site)).1)
  unfolding granted
  granted-IsGrant there claims known own valid = elim (Result-cases (provider.exchange r.code)) [
    | inr (e, refused) ↦ rw refused (inl refl)
    | inl (token, issued) ↦
        rw issued (inr (claims.email, token, claims, known, there, refl, own, valid, refl, refl))
  ]

  callback_answer :
      r.state ≡ popped site.session.user_token_state
      → (validate_state r.state).valid ≡ true
      → IsGrant
          (for_user
            (granted gcm c provider r.info now nonces (provider.exchange r.code))
            (without_state site)).1
  callback_answer own valid =
      for_user-elim (granted gcm c provider r.info now nonces (provider.exchange r.code))
        (without_state site) (λ p. IsGrant p.1) (λ there missing. inl refl) (inl refl)
        (λ there claims known. granted-IsGrant there claims known own valid)

  -- A callback changes the table of tokens only if a user is signed in, the state was the session's
  -- own, in a valid form, the session has claims, and the provider issued a token for the code: then what happens
  -- to the table is the saving of that token for the email of the claims.
  pub user_token_callback-IsGrant : IsGrant (user_token_callback gcm c provider r now nonces site).1
  user_token_callback-IsGrant =
      user_token_callback-elim gcm c provider site r now nonces (λ p. IsGrant p.1)
        (λ message. inl refl) (λ valid own. callback_answer own valid)

abbrev pub with_state : Bytes → Site → Site
with_state state site = record site {
  session = record site.session { user_token_state = some state };
}

-- What a grant is: the user is signed in, the random source works, the state that was sent comes
-- back with a code, and the provider honours it.
pub record IsHonoured (provider : Provider) (site : Site) (claims : Claims) (b : Bytes)
    (r : CallbackRequest) (token : Token) : Type 0 where
  pub there : is_there site.session.user ≡ true
  pub known : site.session.claims ≡ some claims
  pub bytes : AreBytes b
  pub full : length b ≡ 32
  pub own : r.state ≡ encode raw_url_encoding b
  pub fine : is_empty r.oauth_error ≡ true
  pub good_code : (validate_auth_code r.code).valid ≡ true
  pub issued : provider.exchange r.code ≡ ok token

module _ (gcm : Aead) (c : Collation) (provider : Provider) (site : Site) (claims : Claims)
    (b : Bytes) (r : CallbackRequest) (token : Token) (info : RequestInfo) (now : ℕ)
    (nonces : Nonces) (g : IsHonoured provider site claims b r token) where
  abbrev started : Site
  started = with_state (encode raw_url_encoding b) site

  authorize-eq :
      authorize_user_token provider info (ok b) site
      ≡ (redirect (provider.auth_code_url (encode raw_url_encoding b)) 307, started)
  unfolding authorize_user_token
  authorize-eq = for_user-eq _ site claims g.there g.known

  abbrev finished : Reply × Site
  finished =
      user_token_callback gcm c provider r now nonces
        (authorize_user_token provider info (ok b) site).1

  state_valid : (validate_state r.state).valid ≡ true
  state_valid =
      subst (λ x. (validate_state x).valid ≡ true) (sym g.own) (encode-valid_state b g.bytes g.full)

  state_same : bytes_eq r.state (encode raw_url_encoding b) ≡ true
  state_same = subst (λ x. bytes_eq r.state x ≡ true) g.own (bytes_eq_refl r.state)

  granted-eq :
      finished
      ≡ granted gcm c provider r.info now nonces (ok token) claims.email (without_state started)
  granted-eq =
      ap (λ (p : Reply × Site). user_token_callback gcm c provider r now nonces p.1) authorize-eq
      ∙ compared-eq gcm c provider started r now nonces state_valid state_same g.fine g.good_code
      ∙ for_user-eq _ (without_state started) claims g.there g.known
      ∙ ap (λ x. granted gcm c provider r.info now nonces x claims.email (without_state started))
          g.issued

  db-eq : finished.1.db ≡ (save_user_token gcm c now nonces claims.email token site.db).1
  db-eq = ap (λ (p : Reply × Site). p.1.db) granted-eq ∙ (unfold granted in refl)

  reply-eq :
      (save_user_token gcm c now nonces claims.email token site.db).0 ≡ ok tt
      → finished.0 ≡ redirect (codes "/user") 307
  reply-eq saved =
      ap (λ (p : Reply × Site). p.0) granted-eq ∙ (unfold granted replied in rw saved refl)

  -- A grant from its start to its end: when the database answers and the random source works for
  -- the encryption, the user is led back to the user page, and the stored token of the email of
  -- the claims is then the one that the provider issued, its expiry computed from ExpiresIn.
  pub grant_stores_token :
      IsHealthy site.db
      → CanEncrypt gcm nonces token
      → (finished.0 ≡ redirect (codes "/user") 307)
        × ((get_user_token gcm c claims.email finished.1.db).0 ≡ ok (read_back now token))
  grant_stores_token h can =
      let got = get-save gcm c site.db h now nonces claims.email token can in
      (reply-eq got.0, ap (λ (d : Db). (get_user_token gcm c claims.email d).0) db-eq ∙ got.1)
