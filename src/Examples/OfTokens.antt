-- ===== src/Examples/OfTokens.antt =====
-- Tokens: saved, read, refreshed and removed.
use e5renew.Prelude.{◌≡◌, refl, none, some, [], ◌∷◌, arith, if◌then◌else◌}
use e5renew.Prelude.Int.{pos}
use e5renew.Text.{Bytes, codes, bytes_eq}
use e5renew.Base64.{decode, encode, std_encoding}
use e5renew.Base64.RoundTrip.{decode-encode}
use e5renew.Failure.{ok, err, wrap, no_rows}
use e5renew.Database.{UserToken, find_token}
use e5renew.Database.Lookup.{IsUnique}
use e5renew.Encryption.{encrypt, decrypt}
use e5renew.Encryption.RoundTrip.{decrypt-encrypt}
use e5renew.Tokens.{Token, save_user_token, get_user_token, delete_user_token}
use e5renew.Tokens.Steps.{view}
use e5renew.Tokens.Saved.{read_back, get-save, get-save_other, save-IsUnique}
use e5renew.Tokens.Removal.{delete_user_token_lem}
use e5renew.Tokens.Faults.{rows_of_user, failing_once, save_behind_failed_lookup}
use e5renew.TokenSource.{Source, get_token, kept, is_refreshed}
use e5renew.TokenSource.Credential.{get_token_persists}
use e5renew.Examples.Data.{
  gcm, bytewise, nonce, nonces, nonce-IsNonce, can, ann, bob, token, row, db, down,
}

decode-encode_example : decode (encode std_encoding (codes "at")) ≡ some (codes "at")
decode-encode_example = decode-encode (codes "at") (omega arith)

decrypt-encrypt_example :
    (c : Bytes) × (encrypt gcm (ok nonce) (codes "at") ≡ ok c) × (decrypt gcm c ≡ ok (codes "at"))
decrypt-encrypt_example = decrypt-encrypt gcm nonce (codes "at") nonce-IsNonce (omega arith)

get-save_example :
    ((save_user_token gcm bytewise 5 nonces ann token db).0 ≡ ok tt)
    × ((get_user_token gcm bytewise ann (save_user_token gcm bytewise 5 nonces ann token db).1).0
        ≡ ok (read_back 5 token))
get-save_example = get-save gcm bytewise db tt 5 nonces ann token can

get-save_other_example :
    (get_user_token gcm bytewise bob (save_user_token gcm bytewise 5 nonces ann token db).1).0
    ≡ (get_user_token gcm bytewise bob db).0
get-save_other_example =
    get-save_other gcm bytewise db tt 5 nonces ann token can bob (unfold bytes_eq in refl)

save-IsUnique_example :
    IsUnique bytewise (save_user_token gcm bytewise 5 nonces ann token db).1.user_tokens
save-IsUnique_example =
    save-IsUnique gcm bytewise db tt 5 nonces ann token can (unfold find_token in (refl, tt))

save_behind_failed_lookup_example :
    ((save_user_token gcm bytewise 5 nonces bob token (failing_once down db)).0 ≡ ok tt)
    × (r : UserToken) × (rows_of_user bytewise bob
          (save_user_token gcm bytewise 5 nonces bob token (failing_once down db)).1.user_tokens
        ≡ row ∷ r ∷ [])
    × (view gcm (some r) ≡ ok (read_back 5 token))
save_behind_failed_lookup_example =
    save_behind_failed_lookup gcm bytewise db down 5 nonces bob token can row
      (unfold find_token in (refl, tt)) (unfold find_token bytes_eq in refl)

delete_user_token_lem_example :
    ((delete_user_token bytewise bob db).0 ≡ ok tt)
    × ((v : Bytes)
        → (get_user_token gcm bytewise v (delete_user_token bytewise bob db).1).0 ≡ (
            if bytewise.same bob v
            then err (wrap (codes "failed to get user token") no_rows)
            else (get_user_token gcm bytewise v db).0))
    × (IsUnique bytewise db.user_tokens
        → IsUnique bytewise (delete_user_token bytewise bob db).1.user_tokens)
delete_user_token_lem_example = delete_user_token_lem gcm bytewise db tt bob

abbrev source : Source
source = record { last_token = none; db = db }

abbrev bobs : Token
bobs = record {
  access_token = [];
  refresh_token = [];
  expiry = 7;
  token_type = codes "Bearer";
  expires_in = pos 0;
}

get_token_persists_example :
    ((get_token gcm bytewise (λ t. ok token) nonces bob db).0
      ≡ ok (record { token = codes "at"; expires_on = 0 }))
    × ((get_user_token gcm bytewise bob (get_token gcm bytewise (λ t. ok token) nonces bob db).1).0
        ≡ ok (kept token))
get_token_persists_example =
    get_token_persists gcm bytewise bob nonces (λ t. ok token) db tt row
      (unfold find_token bytes_eq in refl) bobs (unfold decrypt in refl) token can refl
      (unfold is_refreshed bytes_eq in refl)
