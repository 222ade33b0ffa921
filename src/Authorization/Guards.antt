-- ===== src/Authorization/Guards.antt =====
-- The guards of the handlers of the grant: what their answers have in common.
use e5renew.Prelude.{
  ℕ, String, ◌≡◌, refl, sym, ap, ◌∙◌, subst, inl, inr, true, Option, none, some, Bool-cases,
}
use e5renew.Text.{Bytes, codes, is_empty, bytes_eq}
use e5renew.Text.Equality.{bytes_eq_iff}
use e5renew.Database.{Collation}
use e5renew.Encryption.{Aead}
use e5renew.Validation.{validate_state, validate_auth_code}
use e5renew.Tokens.{Nonces}
use e5renew.Session.{Claims, popped, Reply, redirect, panics, failure, Provider, CallbackRequest}
use e5renew.Authorization.{
  Site, is_there, with_claims, for_user, user_token_callback, answered, without_state, granted,
}

module _ (handler : Bytes → Site → Reply × Site) (site : Site) (P : Reply × Site → Type 0)
    (no_claims : is_there site.session.user ≡ true → site.session.claims ≡ none → P (panics, site))
    (no_user : P (redirect (codes "/login") 307, site))
    (known : is_there site.session.user ≡ true
      → (claims : Claims) → site.session.claims ≡ some claims
      → P (handler claims.email site)) where
  with_claims-elim :
      is_there site.session.user ≡ true
      → (claims : Option Claims) → site.session.claims ≡ claims
      → P (with_claims handler claims site)
  unfolding with_claims
  with_claims-elim there none e = no_claims there e
  with_claims-elim there (some claims) e = known there claims e

  -- What holds of each answer of a handler behind the guard holds of the answer.
  pub for_user-elim : P (for_user handler site)
  unfolding for_user
  for_user-elim = elim (Bool-cases (is_there site.session.user)) [
    | inr gone ↦ rw gone no_user
    | inl there ↦ rw there (with_claims-elim there site.session.claims refl)
  ]

module _ (gcm : Aead) (c : Collation) (provider : Provider) (site : Site) (r : CallbackRequest)
    (now : ℕ) (nonces : Nonces) where
  pub compared-eq :
      (validate_state r.state).valid ≡ true
      → bytes_eq r.state (popped site.session.user_token_state) ≡ true
      → is_empty r.oauth_error ≡ true
      → (validate_auth_code r.code).valid ≡ true
      → user_token_callback gcm c provider r now nonces site
        ≡ for_user
            (granted gcm c provider r.info now nonces (provider.exchange r.code))
            (without_state site)
  unfolding user_token_callback answered
  compared-eq valid same fine good_code = rw (valid, same, fine, good_code) refl

  -- What holds of the pages of the refusals and of the answer behind the guards holds of the answer.
  pub user_token_callback-elim :
      (P : Reply × Site → Type 0)
      → ((message : String) → P (failure r.info none 400 message, without_state site))
      → ((validate_state r.state).valid ≡ true
          → r.state ≡ popped site.session.user_token_state
          → P (
              for_user
                (granted gcm c provider r.info now nonces (provider.exchange r.code))
                (without_state site)))
      → P (user_token_callback gcm c provider r now nonces site)
  user_token_callback-elim P refusal passed = elim (Bool-cases (is_empty r.oauth_error)) [
    | inr refused ↦ unfold user_token_callback answered in rw refused (refusal _)
    | inl fine ↦ elim (Bool-cases ((validate_state r.state).valid)) [
      | inr bad_state ↦ unfold user_token_callback answered in rw (fine, bad_state) (refusal _)
      | inl valid ↦ elim (Bool-cases ((validate_auth_code r.code).valid)) [
        | inr bad_code ↦
            unfold user_token_callback answered in rw (fine, valid, bad_code) (refusal _)
        | inl good_code ↦
            elim (Bool-cases (bytes_eq r.state (popped site.session.user_token_state))) [
              | inr other ↦
                  unfold user_token_callback answered in
                  rw (fine, valid, good_code, other) (refusal _)
              | inl same ↦ subst P (sym (compared-eq valid same fine good_code)) (
                  passed valid
                    ((bytes_eq_iff r.state (popped site.session.user_token_state)).0 same))
            ]
      ]
    ]
  ]

pub for_user-eq :
    (handler : Bytes → Site → Reply × Site) (site : Site) (claims : Claims)
    → is_there site.session.user ≡ true
    → site.session.claims ≡ some claims
    → for_user handler site ≡ handler claims.email site
unfolding for_user with_claims
for_user-eq handler site claims there known =
    (unfold for_user in rw there refl) ∙ ap (λ x. with_claims handler x site) known
