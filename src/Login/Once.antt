-- ===== src/Login/Once.antt =====
-- A state is good for one sign-in.
use e5renew.Prelude.{
  ◌≡◌, refl, ap, ◌≢◌, inl, inr, not, ◌||◌, Option, none, List, [], ◌∷◌, Bool-cases,
}
use e5renew.Text.{Bytes, is_empty, bytes_eq}
use e5renew.Failure.{Result, ok, err}
use e5renew.SafeError.{RequestInfo}
use e5renew.Validation.{validate_state, validate_auth_code}
use e5renew.Tokens.{Token}
use e5renew.Session.{Session, popped, Provider, CallbackRequest}
use e5renew.Login.{callback, checked, exchanged, verified, logout}
use e5renew.Login.Callback.{Outcome, callback-Outcome, stateless}

-- What a browser may ask for before its next login: another callback, a logout, or one of the
-- handlers of the grant, which change only their own key of the session
pub data Later : Type 0 where
  called_back : CallbackRequest → Later
  signed_out : Later
  granting : Option Bytes → Later

module _ (provider : Provider) where
  -- The session behind the requests
  unfoldable pub after : List Later → Session → Session
  unfolding callback logout
  after [] s = s
  after (called_back r ∷ later) s = after later (callback provider r s).1
  after (signed_out ∷ later) s = after later (logout s).1
  after (granting state ∷ later) s = after later (record s { user_token_state = state })

  verified_stateless :
      (info : RequestInfo) (token : Token) (id_token : Result Bytes) (s : Session)
      → (verified provider info token id_token s).1.state ≡ s.state
  unfolding verified
  verified_stateless info token (err e) s = refl
  verified_stateless info token (ok id_token) s = refl

  exchanged_stateless :
      (info : RequestInfo) (issued : Result Token) (s : Session)
      → (exchanged provider info issued s).1.state ≡ s.state
  unfolding exchanged
  exchanged_stateless info (err e) s = refl
  exchanged_stateless info (ok token) s = verified_stateless info token _ s

  checked_stateless : (r : CallbackRequest) (s : Session) → (checked provider r s).1.state ≡ none
  unfolding checked
  checked_stateless r s = elim (Bool-cases (bytes_eq r.state (popped s.state))) [
    | inl own ↦
        rw own (exchanged_stateless r.info (provider.exchange r.code) (record s { state = none }))
    | inr other ↦ rw other refl
  ]

  callback_stateless :
      (r : CallbackRequest) (s : Session) → s.state ≡ none → (callback provider r s).1.state ≡ none
  unfolding callback
  callback_stateless r s h = elim (Bool-cases (is_empty r.oauth_error)) [
    | inr failed ↦ rw failed h
    | inl fine ↦
        elim (Bool-cases
          (not (validate_state r.state).valid || not (validate_auth_code r.code).valid)) [
            | inl bad ↦ rw (fine, bad) h
            | inr good ↦ rw (fine, good) (checked_stateless r s)
          ]
  ]

  after_stateless :
      (later : List Later) (s : Session) → s.state ≡ none → (after later s).state ≡ none
  unfolding after logout
  after_stateless [] s h = h
  after_stateless (called_back r ∷ later) s h =
      after_stateless later (callback provider r s).1 (callback_stateless r s h)
  after_stateless (signed_out ∷ later) s h = after_stateless later _ refl
  after_stateless (granting state ∷ later) s h =
      after_stateless later (record s { user_token_state = state }) h

  -- A state is good for one sign-in: behind a callback that has changed the user, no callback changes
  -- the user, however many callbacks, logouts and requests for a grant come in between, as long as no
  -- login does.
  pub callback_once :
      (r : CallbackRequest) (s : Session)
      → (callback provider r s).1.user ≢ s.user
      → (later : List Later) (r' : CallbackRequest)
      → (callback provider r' (after later (callback provider r s).1)).1.user
        ≡ (after later (callback provider r s).1).user
  callback_once r s changed later r' = by_outcome (callback-Outcome provider r s)
    where
      by_outcome :
          Outcome provider r s (callback provider r s)
          → (callback provider r' (after later (callback provider r s).1)).1.user
            ≡ (after later (callback provider r s).1).user
      by_outcome (inl same) = absurd (changed same.0)
      by_outcome (inr (token, id_token, issued, own, valid, next, reply)) =
          stateless provider r' (after later (callback provider r s).1)
            (after_stateless later (callback provider r s).1 (ap (λ (x : Session). x.state) next))
