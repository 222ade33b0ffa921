-- ===== src/Tokens/Saved.antt =====
-- What a saved token can be relied on for: it is read back, other users keep theirs, and no user
-- gets a second row.
use e5renew.Prelude.{ℕ, ◌≡◌, sym, ap, ◌∙◌, subst, Bool, true, false, Option, none, some}
use e5renew.Prelude.Int.{pos}
use e5renew.Text.{Bytes}
use e5renew.Failure.{Result, ok}
use e5renew.Database.{UserToken, Db, Collation, CreateUserTokensParams, behind, find_token}
use e5renew.Database.Statements.{IsHealthy, behind-IsHealthy}
use e5renew.Database.Lookup.{IsUnique}
use e5renew.Encryption.{Aead, decrypt}
use e5renew.Tokens.{
  Token, Nonces, effective_expiry, save_user_token, get_user_token, has_user_token,
}
use e5renew.Tokens.Steps.{
  upsert, saved, arg_of, save_user_token_healthy, has_user_token_healthy, get_user_token-view, view,
  view-some,
}
use e5renew.Tokens.Texts.{CanEncrypt, Stored, stored}
use e5renew.Tokens.Upsert.{upsert-Holds, upsert_other, upsert-IsUnique}

-- The token that is read back: the expiry is the one that was computed from ExpiresIn, if any.
abbrev pub read_back : ℕ → Token → Token
read_back now token = record token { expiry = effective_expiry now token; expires_in = pos 0 }

module _ (gcm : Aead) (c : Collation) (db : Db) (h : IsHealthy db) (now : ℕ) (nonces : Nonces)
    (u : Bytes) (token : Token) (can : CanEncrypt gcm nonces token) where
  texts : Stored gcm nonces token
  texts = stored gcm nonces token can

  abbrev arg : CreateUserTokensParams
  arg = arg_of u texts.access texts.refresh (effective_expiry now token) token.token_type

  save-eq : save_user_token gcm c now nonces u token db ≡ (ok tt, saved c arg db)
  save-eq =
      save_user_token_healthy gcm c db h nonces u token texts.access texts.refresh
        texts.encrypted_access texts.encrypted_refresh now

  abbrev pub after : Db
  after = (save_user_token gcm c now nonces u token db).1

  after-eq : after ≡ saved c arg db
  after-eq = ap (λ (p : Result (Unit {0}) × Db). p.1) save-eq

  saved-IsHealthy : IsHealthy (saved c arg db)
  saved-IsHealthy = behind-IsHealthy (behind db) (behind-IsHealthy db h)

  -- What a user's lookup returns behind the save.
  view_after :
      (v : Bytes)
      → (get_user_token gcm c v after).0
        ≡ view gcm (find_token c v (upsert c db.next_token_id arg db.user_tokens))
  view_after v =
      ap (λ (d : Db). (get_user_token gcm c v d).0) after-eq
      ∙ ap (λ (p : Result Token × Db). p.0)
          (get_user_token-view gcm c (saved c arg db) saved-IsHealthy v)

  view_own :
      view gcm (find_token c u (upsert c db.next_token_id arg db.user_tokens))
      ≡ ok (read_back now token)
  view_own =
      let holds = upsert-Holds c db.next_token_id arg db.user_tokens in
      ap (view gcm) holds.found
      ∙ view-some gcm holds.row token.access_token token.refresh_token
          (ap (decrypt gcm) holds.access ∙ texts.decrypted_access)
          (ap (decrypt gcm) holds.refresh ∙ texts.decrypted_refresh)
      ∙ (λ i. ok (record (read_back now token) {
        expiry = holds.expiry i;
        token_type = holds.token_type i;
      }))

  -- When the database answers and the random source works, SaveUserToken succeeds, whether or not
  -- the user had a token, and GetUserToken then returns the saved token, with the expiry that was
  -- computed from ExpiresIn.
  pub get-save :
      ((save_user_token gcm c now nonces u token db).0 ≡ ok tt)
      × ((get_user_token gcm c u after).0 ≡ ok (read_back now token))
  get-save = (ap (λ (p : Result (Unit {0}) × Db). p.0) save-eq, view_after u ∙ view_own)

  -- Under the same conditions the tokens of other users are found as before.
  pub get-save_other :
      (v : Bytes)
      → c.same u v ≡ false
      → (get_user_token gcm c v after).0 ≡ (get_user_token gcm c v db).0
  get-save_other v apart =
      view_after v
      ∙ ap (view gcm) (upsert_other c db.next_token_id arg db.user_tokens v apart)
      ∙ sym (ap (λ (p : Result Token × Db). p.0) (get_user_token-view gcm c db h v))

  -- Under the same conditions, if no user had two rows, none has two rows behind the save.
  pub save-IsUnique : IsUnique c db.user_tokens → IsUnique c after.user_tokens
  save-IsUnique unique =
      subst (λ (d : Db). IsUnique c d.user_tokens) (sym after-eq)
        (upsert-IsUnique c db.next_token_id arg db.user_tokens unique)

  abbrev pub after_check : Db
  after_check = behind after

  -- Under the same conditions HasUserToken tells of the token, and GetUserToken behind it returns it.
  pub has_user_token-save :
      (has_user_token c u after ≡ (ok true, after_check))
      × ((get_user_token gcm c u after_check).0 ≡ ok (read_back now token))
  has_user_token-save = (
    subst (λ (d : Db). has_user_token c u d ≡ (ok true, behind d)) (sym after-eq) has,
    ap (λ (d : Db). (get_user_token gcm c u (behind d)).0) after-eq
        ∙ ap (λ (p : Result Token × Db). p.0)
            (get_user_token-view gcm c (behind (saved c arg db))
              (behind-IsHealthy (saved c arg db) saved-IsHealthy) u)
        ∙ view_own,
  )
    where
      has : has_user_token c u (saved c arg db) ≡ (ok true, behind (saved c arg db))
      has =
          has_user_token_healthy c (saved c arg db) saved-IsHealthy u
          ∙ ap
              (λ (o : Option UserToken). (
                ok (elim o as (λ _. Bool) [ none ↦ false | some t ↦ true ]),
                behind (saved c arg db),
              ))
              (upsert-Holds c db.next_token_id arg db.user_tokens).found
