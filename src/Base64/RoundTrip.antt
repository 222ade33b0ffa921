-- ===== src/Base64/RoundTrip.antt =====
-- Decoding an encoded text gives the bytes back.
use e5renew.Prelude.{ℕ, ◌+◌, ◌*◌, ◌/◌, ◌%◌, ◌<◌, ◌≡◌, refl, ap, ◌∙◌, ◌≢◌, some, [], ◌∷◌, arith, All}
use e5renew.Text.{Bytes}
use e5renew.Base64.{
  std_encoding, digit, encode, undigit, padding, decode_quanta, decode_one, decode_two,
  decode_three, drop_newlines, decode,
}

abbrev pub AreBytes : Bytes → Type 0
AreBytes = All (λ c. c < 256)

undigit-digit : (v : ℕ) → v < 64 → undigit (digit std_encoding v) ≡ some v
unfolding undigit digit
undigit-digit v h = ground arith

abbrev IsPlain : ℕ → Type 0
IsPlain c = (c ≢ b'=') × ((c ≢ 10) × (c ≢ 13))

digit-IsPlain : (v : ℕ) → v < 64 → IsPlain (digit std_encoding v)
unfolding digit
digit-IsPlain v h = ground arith

module _ (p q r t : ℕ) (hp : p < 64) (hq : q < 64) where
  decode_one-digit :
      decode_one (digit std_encoding p) (digit std_encoding q) ≡ some ((p * 4 + q / 16) ∷ [])
  unfolding decode_one
  decode_one-digit = rw (undigit-digit p hp, undigit-digit q hq)

  decode_two-digit :
      r < 64
      → decode_two (digit std_encoding p) (digit std_encoding q) (digit std_encoding r)
        ≡ some ((p * 4 + q / 16) ∷ (q % 16 * 16 + r / 4) ∷ [])
  unfolding decode_two
  decode_two-digit hr = rw (undigit-digit p hp, undigit-digit q hq, undigit-digit r hr)

  decode_three-digit :
      (s : Bytes)
      → r < 64
      → t < 64
      → decode_three
          (digit std_encoding p)
          (digit std_encoding q)
          (digit std_encoding r)
          (digit std_encoding t)
          (some s)
        ≡ some ((p * 4 + q / 16) ∷ (q % 16 * 16 + r / 4) ∷ (r % 4 * 64 + t) ∷ s)
  unfolding decode_three
  decode_three-digit s hr ht =
      rw (undigit-digit p hp, undigit-digit q hq, undigit-digit r hr, undigit-digit t ht)

-- The reading of one quantum, by its last character.
module _ (w x y z : ℕ) (s : Bytes) where
  quantum_plain :
      z ≢ b'=' → decode_quanta (w ∷ x ∷ y ∷ z ∷ s) ≡ decode_three w x y z (decode_quanta s)
  unfolding decode_quanta
  quantum_plain h = ground arith

quantum_two : (w x y : ℕ) → y ≢ b'=' → decode_quanta (w ∷ x ∷ y ∷ b'=' ∷ []) ≡ decode_two w x y
unfolding decode_quanta
quantum_two w x y h = ground arith

quantum_one : (w x : ℕ) → decode_quanta (w ∷ x ∷ b'=' ∷ b'=' ∷ []) ≡ decode_one w x
unfolding decode_quanta
quantum_one w x = ground arith

one_byte : (a : ℕ) → a < 256 → a / 4 * 4 + a % 4 * 16 / 16 ≡ a
one_byte a h = omega arith

first_byte : (a b : ℕ) → a < 256 → b < 256 → a / 4 * 4 + (a % 4 * 16 + b / 16) / 16 ≡ a
first_byte a b h k = omega arith

second_byte :
    (a b c : ℕ)
    → b < 256
    → c < 256
    → (a % 4 * 16 + b / 16) % 16 * 16 + (b % 16 * 4 + c / 64) / 4 ≡ b
second_byte a b c k l = omega arith

last_byte : (a b : ℕ) → b < 256 → (a % 4 * 16 + b / 16) % 16 * 16 + b % 16 * 4 / 4 ≡ b
last_byte a b k = omega arith

third_byte : (b c : ℕ) → c < 256 → (b % 16 * 4 + c / 64) % 4 * 64 + c % 64 ≡ c
third_byte b c l = omega arith

decode_quanta-encode : (s : Bytes) → AreBytes s → decode_quanta (encode std_encoding s) ≡ some s
unfolding encode padding
decode_quanta-encode [] h = unfold decode_quanta in refl
decode_quanta-encode (a ∷ []) h =
    quantum_one _ _
    ∙ decode_one-digit (a / 4) (a % 4 * 16) 0 0 (omega arith) (omega arith)
    ∙ ap (λ (m : ℕ). some (m ∷ [])) (one_byte a h.0)
decode_quanta-encode (a ∷ b ∷ []) h =
    quantum_two _ _ _ (digit-IsPlain (b % 16 * 4) (omega arith)).0
    ∙ decode_two-digit (a / 4) (a % 4 * 16 + b / 16) (b % 16 * 4) 0 (omega arith) (omega arith)
        (omega arith)
    ∙ cc (first_byte a b h.0 h.1.0, last_byte a b h.1.0)
decode_quanta-encode (a ∷ b ∷ c ∷ s) h =
    quantum_plain _ _ _ _ _ (digit-IsPlain (c % 64) (omega arith)).0
    ∙ ap (decode_three _ _ _ _) (decode_quanta-encode s h.1.1.1)
    ∙ decode_three-digit (a / 4) (a % 4 * 16 + b / 16) (b % 16 * 4 + c / 64) (c % 64) (omega arith)
        (omega arith) s (omega arith) (omega arith)
    ∙ cc (first_byte a b h.0 h.1.0, second_byte a b c h.1.0 h.1.1.0, third_byte b c h.1.1.0)

abbrev IsNoBreak : ℕ → Type 0
IsNoBreak c = (c ≢ 10) × (c ≢ 13)

drop_newlines-eq : (s : Bytes) → All IsNoBreak s → drop_newlines s ≡ s
unfolding drop_newlines
drop_newlines-eq [] h = refl
drop_newlines-eq (c ∷ s) h = ground (arith, drop_newlines-eq s h.1)

digit-IsNoBreak : (v : ℕ) → v < 64 → IsNoBreak (digit std_encoding v)
digit-IsNoBreak v h = (digit-IsPlain v h).1

encode-IsNoBreak : (s : Bytes) → AreBytes s → All IsNoBreak (encode std_encoding s)
unfolding encode padding
encode-IsNoBreak [] h = tt
encode-IsNoBreak (a ∷ []) h =
    (digit-IsNoBreak _ (omega arith), (digit-IsNoBreak _ (omega arith), omega arith))
encode-IsNoBreak (a ∷ b ∷ []) h = (
  digit-IsNoBreak _ (omega arith),
  (digit-IsNoBreak _ (omega arith), (digit-IsNoBreak _ (omega arith), omega arith)),
)
encode-IsNoBreak (a ∷ b ∷ c ∷ s) h = (
  digit-IsNoBreak _ (omega arith),
  (
    digit-IsNoBreak _ (omega arith),
    (
      digit-IsNoBreak _ (omega arith),
      (digit-IsNoBreak _ (omega arith), encode-IsNoBreak s h.1.1.1),
    ),
  ),
)

-- Decoding undoes the standard encoding of every text of bytes.
pub decode-encode : (s : Bytes) → AreBytes s → decode (encode std_encoding s) ≡ some s
unfolding decode
decode-encode s h =
    ap decode_quanta (drop_newlines-eq _ (encode-IsNoBreak s h)) ∙ decode_quanta-encode s h
