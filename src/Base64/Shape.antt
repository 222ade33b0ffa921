-- ===== src/Base64/Shape.antt =====
-- How long an unpadded encoding is, and that an encoding of something is not empty.
use e5renew.Prelude.{◌+◌, ◌*◌, ◌/◌, ◌≡◌, refl, false, [], ◌∷◌, arith, length}
use e5renew.Text.{Bytes, is_empty}
use e5renew.Base64.{raw_url_encoding, std_encoding, encode, padding}

pub length-encode : (s : Bytes) → length (encode raw_url_encoding s) ≡ (length s * 4 + 2) / 3
unfolding encode padding
length-encode [] = omega arith
length-encode (a ∷ []) = omega arith
length-encode (a ∷ b ∷ []) = omega arith
length-encode (a ∷ b ∷ c ∷ s) = omega (arith, length-encode s)

pub encode-ne-empty : (s : Bytes) → is_empty s ≡ false → is_empty (encode std_encoding s) ≡ false
unfolding encode
encode-ne-empty [] h = h
encode-ne-empty (a ∷ []) h = refl
encode-ne-empty (a ∷ b ∷ []) h = refl
encode-ne-empty (a ∷ b ∷ c ∷ s) h = refl
