-- ===== src/Tokens.antt =====
-- internal/services/usertoken.go: the OAuth2 tokens of the users, encrypted in the database.
-- Times are nanoseconds since Go's zero time, so that 0 is `IsZero`.
pub mod Steps
pub mod Texts
pub mod Upsert
pub mod Saved
pub mod Removal
pub mod Faults
use e5renew.Prelude.{ℕ, ◌+◌, ◌-◌, ◌*◌, Bool, true, false, List, [], map, ltb, ◌==◌, if◌then◌else◌}
use e5renew.Prelude.Int.{ℤ, pos, negsuc, to_int64}
use e5renew.Text.{codes, Bytes}
use e5renew.Failure.{Error, Result, ok, err, Exec, pure, lift, attempt, wrapping, ◌>>=◌}
use e5renew.Database.{Db, Collation, UserToken}
use e5renew.Repository
use e5renew.Encryption.{Aead, Random, encrypt, decrypt}

-- golang.org/x/oauth2's Token, as far as it is used.
pub record Token : Type 0 where
  pub access_token : Bytes
  pub refresh_token : Bytes
  pub expiry : ℕ
  pub token_type : Bytes
  pub expires_in : ℤ

-- The two outcomes of the random source in a call that encrypts two texts.
pub record Nonces : Type 0 where
  pub access : Random
  pub refresh : Random

-- t.Add(d); no time before the zero time is modelled.
unfoldable pub add_duration : ℕ → ℤ → ℕ
add_duration t (pos d) = t + d
add_duration t (negsuc d) = t - (d + 1)

-- The conversion of ExpiresIn, in seconds, to Expiry.
unfoldable pub effective_expiry : ℕ → Token → ℕ
unfolding add_duration to_int64
effective_expiry now token =
    if token.expiry == 0
    then elim token.expires_in [
      | pos n ↦ if ltb 0 n then add_duration now (to_int64 (pos (n * 1_000_000_000))) else 0
      | negsuc n ↦ 0
    ]
    else token.expiry

module _ (gcm : Aead) (c : Collation) where
  store_token : Result UserToken → Repository.UserTokenRecord → Exec Db (Unit {0})
  store_token (err e) r = wrapping (codes "failed to create user token") (Repository.create c r)
  store_token (ok t) r = wrapping (codes "failed to update user token") (Repository.update c r)

  unfoldable pub save_user_token : ℕ → Nonces → Bytes → Token → Exec Db (Unit {0})
  unfolding store_token
  save_user_token now nonces user_id token = do
    access ←
        wrapping (codes "failed to encrypt access token")
          (lift (encrypt gcm nonces.access token.access_token))
    refresh ←
        wrapping (codes "failed to encrypt refresh token")
          (lift (encrypt gcm nonces.refresh token.refresh_token))
    found ← attempt (Repository.get_by_user_id c user_id)
    store_token found (record {
      user_id = user_id;
      access_token = access;
      refresh_token = refresh;
      expiry = effective_expiry now token;
      token_type = token.token_type;
    })

  unfoldable pub get_user_token : Bytes → Exec Db Token
  get_user_token user_id = do
    stored ← wrapping (codes "failed to get user token") (Repository.get_by_user_id c user_id)
    access ←
        wrapping (codes "failed to decrypt access token") (lift (decrypt gcm stored.access_token))
    refresh ←
        wrapping (codes "failed to decrypt refresh token") (lift (decrypt gcm stored.refresh_token))
    pure (record {
      access_token = access;
      refresh_token = refresh;
      expiry = stored.expiry;
      token_type = stored.token_type;
      expires_in = pos 0;
    })

  unfoldable pub update_user_token : Nonces → Bytes → Token → Exec Db (Unit {0})
  update_user_token nonces user_id token = do
    access ←
        wrapping (codes "failed to encrypt access token")
          (lift (encrypt gcm nonces.access token.access_token))
    refresh ←
        wrapping (codes "failed to encrypt refresh token")
          (lift (encrypt gcm nonces.refresh token.refresh_token))
    wrapping (codes "failed to update user token") (
        Repository.update c (record {
          user_id = user_id;
          access_token = access;
          refresh_token = refresh;
          expiry = token.expiry;
          token_type = token.token_type;
        }))

module _ (c : Collation) where
  unfoldable pub get_all_user_ids : Exec Db (List Bytes)
  get_all_user_ids = do
    tokens ← wrapping (codes "failed to list user tokens") (Repository.list c)
    pure (map (λ (t : UserToken). t.user_id) tokens)

  unfoldable pub delete_user_token : Bytes → Exec Db (Unit {0})
  delete_user_token user_id =
      wrapping (codes "failed to delete user token") (Repository.delete_by_user_id c user_id)

  found_token : Result UserToken → Bool
  found_token (ok t) = true
  found_token (err e) = false

  -- Any error of the lookup is read as "there is no token".
  unfoldable pub has_user_token : Bytes → Exec Db Bool
  unfolding found_token
  has_user_token user_id = do
    found ← attempt (Repository.get_by_user_id c user_id)
    pure (found_token found)
