-- ===== src/Encryption/RoundTrip.antt =====
-- What is encrypted decrypts to itself.
use e5renew.Prelude.{
  ℕ, zero, suc, ◌<◌, ◌≡◌, refl, ap, inl, inr, true, false, some, List, [], ◌∷◌, ◌++◌, arith, ltb,
  Bool-cases, length, take, drop, length-append, All-append,
}
use e5renew.Text.{Bytes, is_empty}
use e5renew.Base64.{encode, std_encoding}
use e5renew.Base64.RoundTrip.{AreBytes, decode-encode}
use e5renew.Base64.Shape.{encode-ne-empty}
use e5renew.Failure.{ok}
use e5renew.Encryption.{Aead, Random, encrypt, decrypt, decrypt_data, opened}

take_exact {ℓ} : {A : Type ℓ} (n : ℕ) (xs ys : List A) → length xs ≡ n → take n (xs ++ ys) ≡ xs
take_exact zero [] ys h = refl
take_exact zero (x ∷ xs) ys h = absurd (omega arith)
take_exact (suc n) [] ys h = absurd (omega arith)
take_exact (suc n) (x ∷ xs) ys h = ap (λ t. x ∷ t) (take_exact n xs ys (omega arith))

drop_exact {ℓ} : {A : Type ℓ} (n : ℕ) (xs ys : List A) → length xs ≡ n → drop n (xs ++ ys) ≡ ys
drop_exact zero [] ys h = refl
drop_exact zero (x ∷ xs) ys h = absurd (omega arith)
drop_exact (suc n) [] ys h = absurd (omega arith)
drop_exact (suc n) (x ∷ xs) ys h = drop_exact n xs ys (omega arith)

nonempty : (s : Bytes) → 0 < length s → is_empty s ≡ false
nonempty [] h = absurd (omega arith)
nonempty (c ∷ s) h = refl

encrypt_empty : (gcm : Aead) (r : Random) (p : Bytes) → is_empty p ≡ true → encrypt gcm r p ≡ ok []
unfolding encrypt
encrypt_empty gcm r p h = rw h

decrypt_empty : (gcm : Aead) (p : Bytes) → is_empty p ≡ true → decrypt gcm [] ≡ ok p
unfolding decrypt
decrypt_empty gcm [] h = refl
decrypt_empty gcm (c ∷ s) h = cc

-- What the random source hands over when it does not fail.
pub record IsNonce (gcm : Aead) (nonce : Bytes) : Type 0 where
  pub size : length nonce ≡ gcm.nonce_size
  pub bytes : AreBytes nonce

module _ (gcm : Aead) (nonce plaintext : Bytes) (fresh : IsNonce gcm nonce) where
  abbrev sealed_data : Bytes
  sealed_data = nonce ++ gcm.seal nonce plaintext

  long_enough : ltb (length sealed_data) gcm.nonce_size ≡ false
  long_enough = ground (arith, length-append nonce (gcm.seal nonce plaintext), fresh.size)

  decrypt_data_of_seal : decrypt_data gcm (some sealed_data) ≡ ok plaintext
  unfolding decrypt_data opened
  decrypt_data_of_seal = rw (
    long_enough,
    take_exact gcm.nonce_size nonce (gcm.seal nonce plaintext) fresh.size,
    drop_exact gcm.nonce_size nonce (gcm.seal nonce plaintext) fresh.size,
    gcm.open-seal nonce plaintext,
  )

  sealed_is_text :
      AreBytes plaintext
      → is_empty plaintext ≡ false
      → is_empty (encode std_encoding sealed_data) ≡ false
  sealed_is_text bytes some_text = encode-ne-empty _ (
      nonempty _ (
        omega (
          arith,
          length-append nonce (gcm.seal nonce plaintext),
          gcm.length-seal nonce plaintext,
          positive plaintext some_text,
        )))
    where
      positive : (s : Bytes) → is_empty s ≡ false → 0 < length s
      positive [] h = cc
      positive (c ∷ s) h = omega arith

  sealed-AreBytes : AreBytes plaintext → AreBytes sealed_data
  sealed-AreBytes bytes =
      All-append (λ (c : ℕ). c < 256) nonce (gcm.seal nonce plaintext) fresh.bytes
        (gcm.seal-AreBytes nonce plaintext fresh.bytes bytes)

  decrypt_of_seal :
      AreBytes plaintext
      → is_empty plaintext ≡ false
      → decrypt gcm (encode std_encoding sealed_data) ≡ ok plaintext
  unfolding decrypt
  decrypt_of_seal bytes some_text =
      rw (sealed_is_text bytes some_text, decode-encode sealed_data (sealed-AreBytes bytes))
        decrypt_data_of_seal

  encrypt_of_nonempty :
      is_empty plaintext ≡ false
      → encrypt gcm (ok nonce) plaintext ≡ ok (encode std_encoding sealed_data)
  unfolding encrypt
  encrypt_of_nonempty h = rw h

  -- Encryption succeeds, and Decrypt of its result is the plaintext, for every text of bytes, the
  -- empty one included, when the random source gives a nonce of the right size.
  pub decrypt-encrypt :
      AreBytes plaintext
      → (c : Bytes) × (encrypt gcm (ok nonce) plaintext ≡ ok c) × (decrypt gcm c ≡ ok plaintext)
  decrypt-encrypt bytes = elim (Bool-cases (is_empty plaintext)) [
    | inl empty ↦
        ([], encrypt_empty gcm (ok nonce) plaintext empty, decrypt_empty gcm plaintext empty)
    | inr some_text ↦ (
      encode std_encoding sealed_data,
      encrypt_of_nonempty some_text,
      decrypt_of_seal bytes some_text,
    )
  ]
