-- ===== src/TokenSource/Refresh.antt =====
-- A refreshed token is written once, and can be read back.
use e5renew.Prelude.{
  ◌≡◌, refl, sym, ap, ◌∙◌, subst, inl, inr, true, false, Option, some, map, arith, Bool-cases,
}
use e5renew.Text.{codes, Bytes}
use e5renew.Text.Equality.{bytes_eq_refl}
use e5renew.Failure.{Error, Result, ok, err, wrap}
use e5renew.Database.{
  Db, Collation, UserToken, CreateUserTokensParams, behind, find_token, set_token,
}
use e5renew.Database.Statements.{IsHealthy, behind-IsHealthy}
use e5renew.Database.Lookup.{find-set_token, find_token_same, set_token_own}
use e5renew.Encryption.{Aead}
use e5renew.Tokens.{Token, Nonces, get_user_token, update_user_token}
use e5renew.Tokens.Steps.{arg_of, update_user_token_healthy, get_user_token-view, view, view-some}
use e5renew.Tokens.Texts.{CanEncrypt, Stored, stored}
use e5renew.TokenSource.{Source, kept, is_refreshed, store_refreshed, source_token}

is_refreshed-kept : (token : Token) → is_refreshed (some (kept token)) token ≡ false
unfolding is_refreshed
is_refreshed-kept token = ground (arith, bytes_eq_refl token.access_token)

module _ (gcm : Aead) (c : Collation) (u : Bytes) where
  source_token_stale :
      (nonces : Nonces) (token : Token) (s : Source)
      → is_refreshed s.last_token token ≡ false
      → source_token gcm c nonces u (ok token) s ≡ (ok token, s)
  unfolding source_token
  source_token_stale nonces token s h = rw h

  pub source_token_new :
      (nonces : Nonces) (token : Token) (s : Source)
      → is_refreshed s.last_token token ≡ true
      → source_token gcm c nonces u (ok token) s
        ≡ (ok token, store_refreshed gcm c nonces u token s)
  unfolding source_token
  source_token_new nonces token s h = rw h

  pub source_token_again :
      (nonces : Nonces) (token : Token) (s : Source) (n : Nonces)
      → source_token gcm c nonces u (ok token) (store_refreshed gcm c n u token s)
        ≡ (ok token, store_refreshed gcm c n u token s)
  source_token_again nonces token s n =
      source_token_stale nonces token (store_refreshed gcm c n u token s)
        (unfold store_refreshed in is_refreshed-kept token)

  -- In every state, with a working database or not, the source returns what the wrapped source
  -- returned; an error changes nothing, and a second call with the same token changes nothing more
  -- and sends no statement.
  source_token_lem :
      (s : Source) (n m : Nonces)
      → ((token : Token)
          → ((source_token gcm c n u (ok token) s).0 ≡ ok token)
            × (source_token gcm c m u (ok token) (source_token gcm c n u (ok token) s).1
                ≡ (ok token, (source_token gcm c n u (ok token) s).1)))
        × ((e : Error)
            → source_token gcm c n u (err e) s
              ≡ (err (wrap (codes "failed to get token from underlying source") e), s))
  source_token_lem s n m = (
    λ token. elim (Bool-cases (is_refreshed s.last_token token)) [
      | inl fresh ↦
          let e = source_token_new n token s fresh in
          (
            ap (λ (p : Result Token × Source). p.0) e,
            subst
                (λ (p : Result Token × Source).
                  source_token gcm c m u (ok token) p.1 ≡ (ok token, p.1))
                (sym e) (source_token_again m token s n),
          )
      | inr stale ↦
          let e = source_token_stale n token s stale in
          (
            ap (λ (p : Result Token × Source). p.0) e,
            subst
                (λ (p : Result Token × Source).
                  source_token gcm c m u (ok token) p.1 ≡ (ok token, p.1))
                (sym e) (source_token_stale m token s stale),
          )
    ],
    λ e. unfold source_token in refl,
  )

module _ (gcm : Aead) (c : Collation) (u : Bytes) (nonces : Nonces) (token : Token)
    (can : CanEncrypt gcm nonces token) (db : Db) (h : IsHealthy db) (row : UserToken)
    (found : find_token c u db.user_tokens ≡ some row) where
  texts : Stored gcm nonces token
  texts = stored gcm nonces token can

  abbrev arg : CreateUserTokensParams
  arg = arg_of u texts.access texts.refresh token.expiry token.token_type

  abbrev updated : Db
  updated = record (behind db) { user_tokens = map (set_token c arg) db.user_tokens }

  update-eq : update_user_token gcm c nonces u token db ≡ (ok tt, updated)
  update-eq =
      update_user_token_healthy gcm c db h nonces u token texts.access texts.refresh
        texts.encrypted_access texts.encrypted_refresh

  abbrev new_row : UserToken
  new_row = record row {
    access_token = texts.access;
    refresh_token = texts.refresh;
    expiry = token.expiry;
    token_type = token.token_type;
  }

  found_updated : find_token c u updated.user_tokens ≡ some new_row
  found_updated =
      find-set_token c arg u db.user_tokens
      ∙ rw found (ap some (set_token_own c arg row (find_token_same c u db.user_tokens row found)))

  view_updated : (get_user_token gcm c u updated).0 ≡ ok (kept token)
  view_updated =
      ap (λ (p : Result Token × Db). p.0)
        (get_user_token-view gcm c updated (behind-IsHealthy db h) u)
      ∙ ap (view gcm) found_updated
      ∙ view-some gcm new_row token.access_token token.refresh_token texts.decrypted_access
          texts.decrypted_refresh

  -- If the user has a row, the database answers and the random source works, then after a refresh
  -- GetUserToken returns the refreshed token.
  pub get-source_token :
      (last : Option Token)
      → is_refreshed last token ≡ true
      → (get_user_token gcm c u
          (source_token gcm c nonces u (ok token) (record { last_token = last; db = db })).1.db).0
        ≡ ok (kept token)
  unfolding store_refreshed
  get-source_token last fresh =
      ap (λ (p : Result Token × Source). (get_user_token gcm c u p.1.db).0)
        (source_token_new gcm c u nonces token (record { last_token = last; db = db }) fresh)
      ∙ ap (λ (p : Result (Unit {0}) × Db). (get_user_token gcm c u p.1).0) update-eq
      ∙ view_updated
