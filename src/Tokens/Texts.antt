-- ===== src/Tokens/Texts.antt =====
-- The two texts that a save stores: the encryption succeeds, and they decrypt to the token's.
use e5renew.Prelude.{◌≡◌}
use e5renew.Text.{Bytes}
use e5renew.Base64.RoundTrip.{AreBytes}
use e5renew.Failure.{ok}
use e5renew.Encryption.{Aead, encrypt, decrypt}
use e5renew.Encryption.RoundTrip.{IsNonce, decrypt-encrypt}
use e5renew.Tokens.{Token, Nonces}

-- The random source answers both times, and the texts of the token are bytes.
pub record CanEncrypt (gcm : Aead) (nonces : Nonces) (token : Token) : Type 0 where
  pub nonce_a : Bytes
  pub nonce_r : Bytes
  pub access_random : nonces.access ≡ ok nonce_a
  pub refresh_random : nonces.refresh ≡ ok nonce_r
  pub access_nonce : IsNonce gcm nonce_a
  pub refresh_nonce : IsNonce gcm nonce_r
  pub access_bytes : AreBytes token.access_token
  pub refresh_bytes : AreBytes token.refresh_token

module _ (gcm : Aead) (nonces : Nonces) (token : Token) where
  -- The two stored texts.
  pub record Stored : Type 0 where
    pub access : Bytes
    pub refresh : Bytes
    pub encrypted_access : encrypt gcm nonces.access token.access_token ≡ ok access
    pub encrypted_refresh : encrypt gcm nonces.refresh token.refresh_token ≡ ok refresh
    pub decrypted_access : decrypt gcm access ≡ ok token.access_token
    pub decrypted_refresh : decrypt gcm refresh ≡ ok token.refresh_token

  pub stored : CanEncrypt gcm nonces token → Stored
  stored can =
      let (a, ea, da) =
        decrypt-encrypt gcm can.nonce_a token.access_token can.access_nonce can.access_bytes in
      let (r, er, dr) =
        decrypt-encrypt gcm can.nonce_r token.refresh_token can.refresh_nonce can.refresh_bytes in
      record {
        access = a;
        refresh = r;
        encrypted_access = rw (can.access_random) ea;
        encrypted_refresh = rw (can.refresh_random) er;
        decrypted_access = da;
        decrypted_refresh = dr;
      }
