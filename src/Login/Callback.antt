-- ===== src/Login/Callback.antt =====
-- What it takes to be signed in.
use e5renew.Prelude.{
  ◌≡◌, refl, sym, ap, ◌∙◌, subst, ◌⊎◌, inl, inr, true, none, some, [], ◌∷◌, arith, Bool-cases,
  length,
}
use e5renew.Text.{Bytes, codes, is_empty, bytes_eq}
use e5renew.Text.Equality.{bytes_eq_iff, bytes_eq_refl}
use e5renew.Base64.{encode, raw_url_encoding}
use e5renew.Base64.RoundTrip.{AreBytes}
use e5renew.Failure.{ok, Result-cases}
use e5renew.SafeError.{RequestInfo}
use e5renew.Validation.{validate_state, validate_auth_code}
use e5renew.Validation.State.{encode-valid_state}
use e5renew.Tokens.{Token}
use e5renew.Session.{Session, popped, Reply, redirect, Provider, verify_id_token, CallbackRequest}
use e5renew.Login.{login, callback, checked, exchanged, verified}

-- The provider has issued a token for the code, and has verified its ID token.
abbrev pub IsIssued : Provider → Bytes → Token → Bytes → Type 0
IsIssued provider code token id_token =
    (provider.exchange code ≡ ok token) × (verify_id_token provider token ≡ ok id_token)

module _ (provider : Provider) (r : CallbackRequest) (s : Session) where
  abbrev after : Session
  after = (callback provider r s).1

  -- Either nobody is signed in by the callback, or the state is the session's own and the
  -- provider vouches for the user.
  abbrev pub Outcome : Reply × Session → Type 0
  Outcome (reply, s') =
      ((s'.user ≡ s.user) × (s'.token ≡ s.token) × (s'.claims ≡ s.claims))
      ⊎ ((token : Token) × (id_token : Bytes) × IsIssued provider r.code token id_token
          × (popped s.state ≡ r.state)
          × ((validate_state r.state).valid ≡ true)
          × (s' ≡ record s {
            user = some id_token;
            token = some token;
            claims = some (provider.claims_of id_token);
            state = none;
          })
          × (reply ≡ redirect (codes "/") 307))

  checked-Outcome : (validate_state r.state).valid ≡ true → Outcome (checked provider r s)
  unfolding checked exchanged verified
  checked-Outcome valid = elim (Bool-cases (bytes_eq r.state (popped s.state))) [
    | inr other ↦ rw other (inl (refl, refl, refl))
    | inl same ↦ elim (Result-cases (provider.exchange r.code)) [
      | inr (e, refused) ↦ rw (same, refused) (inl (refl, refl, refl))
      | inl (token, issued) ↦ elim (Result-cases (verify_id_token provider token)) [
        | inr (e, refused) ↦ rw (same, issued, refused) (inl (refl, refl, refl))
        | inl (id_token, vouched) ↦
            rw (same, issued, vouched)
              (inr (
                token,
                id_token,
                (refl, vouched),
                sym ((bytes_eq_iff r.state (popped s.state)).0 same),
                valid,
                refl,
                refl,
              ))
      ]
    ]
  ]

  passed :
      is_empty r.oauth_error ≡ true
      → (validate_state r.state).valid ≡ true
      → (validate_auth_code r.code).valid ≡ true
      → callback provider r s ≡ checked provider r s
  unfolding callback
  passed fine valid good_code = rw (fine, valid, good_code)

  -- Either the callback leaves the user, the token and the claims of the session as they were, or
  -- it signs a user in: then the session's own state, in a valid form, came back with a code for
  -- which the provider issued a token with a verified ID token, and the state is taken out of the
  -- session, with the token, the user and the user's claims put in.
  pub callback-Outcome : Outcome (callback provider r s)
  callback-Outcome = elim (Bool-cases (is_empty r.oauth_error)) [
    | inr refused ↦ unfold callback in rw refused (inl (refl, refl, refl))
    | inl fine ↦ elim (Bool-cases ((validate_state r.state).valid)) [
      | inr bad_state ↦ unfold callback in rw (fine, bad_state) (inl (refl, refl, refl))
      | inl valid ↦ elim (Bool-cases ((validate_auth_code r.code).valid)) [
        | inr bad_code ↦ unfold callback in rw (fine, valid, bad_code) (inl (refl, refl, refl))
        | inl good_code ↦ subst Outcome (sym (passed fine valid good_code)) (checked-Outcome valid)
      ]
    ]
  ]

  -- The provider's answer to a callback with the session's own state
  signed_in :
      (token : Token) (id_token : Bytes)
      → IsIssued provider r.code token id_token
      → popped s.state ≡ r.state
      → checked provider r s ≡ (
        redirect (codes "/") 307,
        record s {
          user = some id_token;
          token = some token;
          claims = some (provider.claims_of id_token);
          state = none;
        },
      )
  unfolding checked exchanged verified
  signed_in token id_token (issued, vouched) own =
      rw (own, bytes_eq_refl r.state, issued, vouched) refl

not_valid : (state : Bytes) → state ≡ [] → (validate_state state).valid ≡ true → ⊥
unfolding validate_state
not_valid [] h k = absurd (ground (arith, k))
not_valid (c ∷ state) h k = absurd (ground (arith, h))

-- A session without a state signs nobody in.
pub stateless :
    (provider : Provider) (r : CallbackRequest) (s : Session)
    → s.state ≡ none
    → (callback provider r s).1.user ≡ s.user
stateless provider r s h = by_outcome (callback-Outcome provider r s)
  where
    by_outcome :
        Outcome provider r s (callback provider r s) → (callback provider r s).1.user ≡ s.user
    by_outcome (inl same) = same.0
    by_outcome (inr (token, id_token, issued, own, valid, next, reply)) =
        absurd (not_valid r.state (sym own ∙ ap popped h) valid)

-- A login whose random source works, and a callback that brings its state and a code that the
-- provider honours, sign the user in and lead to the start page.
pub login-callback :
    (provider : Provider) (info : RequestInfo) (b : Bytes) (r : CallbackRequest) (s : Session)
    (token : Token) (id_token : Bytes)
    → AreBytes b
    → length b ≡ 32
    → is_empty r.oauth_error ≡ true
    → r.state ≡ encode raw_url_encoding b
    → (validate_auth_code r.code).valid ≡ true
    → IsIssued provider r.code token id_token
    → callback provider r (login provider info (ok b) s).1 ≡ (
      redirect (codes "/") 307,
      record s {
        user = some id_token;
        token = some token;
        claims = some (provider.claims_of id_token);
        state = none;
      },
    )
login-callback provider info b r s token id_token bytes len fine own good_code issued =
    passed provider r (login provider info (ok b) s).1 fine
      (subst (λ x. (validate_state x).valid ≡ true) (sym own) (encode-valid_state b bytes len))
      good_code
    ∙ unfold login in
      signed_in provider r (record s { state = some (encode raw_url_encoding b) }) token id_token
        issued (sym own)
