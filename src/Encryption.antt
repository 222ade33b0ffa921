-- ===== src/Encryption.antt =====
-- internal/services/encryption.go: tokens are stored as base64 of a nonce and an AES-GCM
-- ciphertext.
pub mod RoundTrip
use e5renew.Prelude.{
  ℕ, ◌+◌, ◌≡◌, Option, none, some, [], ◌++◌, ltb, if◌then◌else◌, length, take, drop,
}
use e5renew.Text.{Bytes, codes, is_empty}
use e5renew.Base64.{encode, decode, std_encoding}
use e5renew.Base64.RoundTrip.{AreBytes}
use e5renew.Failure.{Error, other, Result, ok, err, wrap}

-- crypto/cipher's AEAD for a fixed key. `open` gives back what `seal` sealed with the same nonce.
pub record Aead : Type 0 where
  pub nonce_size : ℕ
  pub seal : Bytes → Bytes → Bytes
  pub open_sealed : Bytes → Bytes → Result Bytes
  pub open-seal :
      (nonce plaintext : Bytes) → open_sealed nonce (seal nonce plaintext) ≡ ok plaintext
  pub overhead : ℕ
  pub length-seal :
      (nonce plaintext : Bytes) → length (seal nonce plaintext) ≡ length plaintext + overhead
  pub seal-AreBytes :
      (nonce plaintext : Bytes)
      → AreBytes nonce
      → AreBytes plaintext
      → AreBytes (seal nonce plaintext)

-- The outcome of `io.ReadFull(rand.Reader, nonce)`.
abbrev pub Random : Type 0
Random = Result Bytes

module _ (gcm : Aead) where
  seal_with : Random → Bytes → Result Bytes
  seal_with (err e) plaintext = err (wrap (codes "failed to generate nonce") e)
  seal_with (ok nonce) plaintext = ok (encode std_encoding (nonce ++ gcm.seal nonce plaintext))

  unfoldable pub encrypt : Random → Bytes → Result Bytes
  unfolding seal_with
  encrypt random plaintext = if is_empty plaintext then ok [] else seal_with random plaintext

  opened : Result Bytes → Result Bytes
  opened (ok plaintext) = ok plaintext
  opened (err e) = err (wrap (codes "failed to decrypt") e)

  decrypt_data : Option Bytes → Result Bytes
  decrypt_data none =
      err (wrap (codes "failed to decode base64") (other (codes "illegal base64 data")))
  decrypt_data (some data_bytes) =
      if ltb (length data_bytes) gcm.nonce_size
      then err (other (codes "ciphertext too short"))
      else opened
          (gcm.open_sealed (take gcm.nonce_size data_bytes) (drop gcm.nonce_size data_bytes))

  unfoldable pub decrypt : Bytes → Result Bytes
  unfolding decrypt_data opened
  decrypt ciphertext = if is_empty ciphertext then ok [] else decrypt_data (decode ciphertext)

-- NewEncryptionService: the cipher, from the key of the configuration
module _ {Block Gcm : Type 0} (sum256 : Bytes → Bytes) (new_cipher : Bytes → Result Block)
    (new_gcm : Block → Result Gcm) where
  abbrev gcm_of : Result Block → Result Gcm
  gcm_of (err e) = err (wrap (codes "failed to create AES cipher") e)
  gcm_of (ok block) = elim (new_gcm block) [
    | ok gcm ↦ ok gcm
    | err e ↦ err (wrap (codes "failed to create GCM") e)
  ]

  unfoldable pub new_encryption_service : Bytes → Result Gcm
  new_encryption_service key =
      if is_empty key
      then err (other (codes "encryption key not configured"))
      else gcm_of (new_cipher (sum256 key))
