-- ===== src/Base64.antt =====
-- Package `encoding/base64` as far as internal/services/encryption.go (StdEncoding) and
-- internal/controller/login.go and usertoken.go (RawURLEncoding) use it.
pub mod RoundTrip
pub mod Shape
use e5renew.Prelude.{
  ℕ, ◌+◌, ◌-◌, ◌*◌, ◌/◌, ◌%◌, Bool, true, false, ◌&&◌, ◌||◌, Option, none, some, [], ◌∷◌, ltb, leb,
  ◌==◌, if◌then◌else◌,
}
use e5renew.Text.{Bytes}

pub record Encoding : Type 0 where
  pub char_62 : ℕ
  pub char_63 : ℕ
  pub padded : Bool

abbrev pub std_encoding : Encoding
std_encoding = record { char_62 = b'+'; char_63 = b'/'; padded = true }

abbrev pub raw_url_encoding : Encoding
raw_url_encoding = record { char_62 = b'-'; char_63 = b'_'; padded = false }

unfoldable pub digit : Encoding → ℕ → ℕ
digit e v =
    if ltb v 26
    then v + 65
    else if ltb v 52
    then v + 71
    else if ltb v 62
    then v - 4
    else if v == 62
    then e.char_62
    else e.char_63

unfoldable pub padding : Encoding → ℕ → Bytes
padding e n = if e.padded then (if n == 1 then b'=' ∷ [] else b'=' ∷ b'=' ∷ []) else []

-- enc.EncodeToString(src)
unfoldable pub encode : Encoding → Bytes → Bytes
encode e [] = []
encode e (a ∷ []) = digit e (a / 4) ∷ digit e (a % 4 * 16) ∷ padding e 2
encode e (a ∷ b ∷ []) =
    digit e (a / 4) ∷ digit e (a % 4 * 16 + b / 16) ∷ digit e (b % 16 * 4) ∷ padding e 1
encode e (a ∷ b ∷ c ∷ s) =
    digit e (a / 4)
    ∷ digit e (a % 4 * 16 + b / 16)
    ∷ digit e (b % 16 * 4 + c / 64)
    ∷ digit e (c % 64)
    ∷ encode e s

-- The value of a digit in the standard alphabet.
unfoldable pub undigit : ℕ → Option ℕ
undigit c =
    if leb b'A' c && leb c b'Z'
    then some (c - 65)
    else if leb b'a' c && leb c b'z'
    then some (c - 71)
    else if leb b'0' c && leb c b'9'
    then some (c + 4)
    else if c == b'+'
    then some 62
    else if c == b'/'
    then some 63
    else none

infixl 5 ◌>>=◌
abbrev ◌>>=◌ {ℓ κ} : {A : Type ℓ} {B : Type κ} → Option A → (A → Option B) → Option B
none >>= f = none
some a >>= f = f a

decode_one : ℕ → ℕ → Option Bytes
decode_one w x = do p ← undigit w; q ← undigit x; some ((p * 4 + q / 16) ∷ [])

decode_two : ℕ → ℕ → ℕ → Option Bytes
decode_two w x y = do
  p ← undigit w
  q ← undigit x
  r ← undigit y
  some ((p * 4 + q / 16) ∷ (q % 16 * 16 + r / 4) ∷ [])

decode_three : ℕ → ℕ → ℕ → ℕ → Option Bytes → Option Bytes
decode_three w x y z more = do
  p ← undigit w
  q ← undigit x
  r ← undigit y
  t ← undigit z
  s ← more
  some ((p * 4 + q / 16) ∷ (q % 16 * 16 + r / 4) ∷ (r % 4 * 64 + t) ∷ s)

-- A quantum that ends in `=` is the last one.
decode_padded : ℕ → ℕ → ℕ → Bytes → Option Bytes
unfolding decode_one decode_two
decode_padded w x y [] = if y == b'=' then decode_one w x else decode_two w x y
decode_padded w x y (c ∷ s) = none

unfoldable pub decode_quanta : Bytes → Option Bytes
unfolding decode_padded decode_three undigit
decode_quanta [] = some []
decode_quanta (w ∷ x ∷ y ∷ z ∷ s) =
    let more = decode_quanta s in
    if z == b'=' then decode_padded w x y s else decode_three w x y z more
decode_quanta (_ ∷ s) = none

drop_newlines : Bytes → Bytes
drop_newlines [] = []
drop_newlines (c ∷ s) = let rest = drop_newlines s in if c == 10 || c == 13 then rest else c ∷ rest

-- base64.StdEncoding.DecodeString(s), which skips line breaks; `none` is its error.
unfoldable pub decode : Bytes → Option Bytes
unfolding decode_quanta drop_newlines
decode s = decode_quanta (drop_newlines s)
