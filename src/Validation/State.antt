-- ===== src/Validation/State.antt =====
-- The OAuth2 state parameter: what validate_state accepts, and that it accepts every state that
-- the login and authorization handlers generate.
use e5renew.Prelude.{
  ℕ, ◌+◌, ◌*◌, ◌/◌, ◌%◌, ◌≤◌, ◌<◌, ◌≡◌, refl, sym, ap, ◌↔◌, inl, inr, true, false, [], ◌∷◌, ◌++◌,
  append-nil, arith, ◌==◌, Bool-cases, length, all,
}
use e5renew.Text.{Bytes, is_empty}
use e5renew.Base64.{encode, raw_url_encoding, padding, digit}
use e5renew.Base64.Shape.{length-encode}
use e5renew.Base64.RoundTrip.{AreBytes}
use e5renew.Validation.{is_state_char, match_state, match_state_tail, validate_state}

-- Some characters of the two base64 alphabets, and then `=` signs.
pub record StateForm (s : Bytes) : Type 0 where
  pub body : Bytes
  pub pad : Bytes
  pub spells : s ≡ body ++ pad
  pub chars : all is_state_char body ≡ true
  pub signs : all (λ a. a == b'=') pad ≡ true

tail-StateForm : (s : Bytes) → match_state_tail s ≡ true → StateForm s
unfolding match_state_tail
tail-StateForm [] h = record { body = []; pad = []; spells = refl; chars = refl; signs = refl }
tail-StateForm (c ∷ s) h = elim (Bool-cases (is_state_char c)) [
  | inl in_body ↦
      let f = tail-StateForm s (rw in_body at h) in
      record {
        body = c ∷ f.body;
        pad = f.pad;
        spells = ap (λ t. c ∷ t) f.spells;
        chars = rw in_body f.chars;
        signs = f.signs;
      }
  | inr out ↦ record { body = []; pad = c ∷ s; spells = refl; chars = refl; signs = rw out at h }
]

sign-ne-state_char : (c : ℕ) → (c == b'=') ≡ true → is_state_char c ≡ false
sign-ne-state_char c h = ground arith

tail-append :
    (body pad : Bytes)
    → all is_state_char body ≡ true
    → all (λ a. a == b'=') pad ≡ true
    → match_state_tail (body ++ pad) ≡ true
unfolding match_state_tail
tail-append [] [] h k = refl
tail-append [] (c ∷ s) h k = ground (arith, sign-ne-state_char c)
tail-append (c ∷ body) pad h k = ground (arith, tail-append body pad)

-- Acceptance, by an independent description of the accepted texts.
abbrev pub IsState : Bytes → Type 0
IsState s = (16 ≤ length s) × (length s ≤ 128) × ((f : StateForm s) × (is_empty f.body ≡ false))

match_state-parts :
    (c : ℕ) (s : Bytes)
    → match_state (c ∷ s) ≡ true
    → (is_state_char c ≡ true) × (match_state_tail s ≡ true)
unfolding match_state
match_state-parts c s h = ground arith

form_of :
    (c : ℕ) (s : Bytes)
    → is_state_char c ≡ true
    → StateForm s
    → (f : StateForm (c ∷ s)) × (is_empty f.body ≡ false)
form_of c s first f = (
  record {
    body = c ∷ f.body;
    pad = f.pad;
    spells = ap (λ t. c ∷ t) f.spells;
    chars = rw first f.chars;
    signs = f.signs;
  },
  refl,
)

match_state-form :
    (s : Bytes) → match_state s ≡ true → (f : StateForm s) × (is_empty f.body ≡ false)
unfolding match_state
match_state-form [] h = ground arith
match_state-form (c ∷ s) h =
    let (first, rest) = match_state-parts c s h in form_of c s first (tail-StateForm s rest)

match_state-append :
    (body pad : Bytes)
    → is_empty body ≡ false
    → all is_state_char body ≡ true
    → all (λ a. a == b'=') pad ≡ true
    → match_state (body ++ pad) ≡ true
unfolding match_state
match_state-append [] pad e h k = ground arith
match_state-append (c ∷ body) pad e h k = ground (arith, tail-append body pad)

pub form-match_state :
    (s : Bytes) (f : StateForm s) → is_empty f.body ≡ false → match_state s ≡ true
form-match_state s f h = rw (f.spells) (match_state-append f.body f.pad h f.chars f.signs)

validate_state-bounds :
    (s : Bytes)
    → (validate_state s).valid ≡ true
    → (16 ≤ length s) × (length s ≤ 128) × (match_state s ≡ true)
unfolding validate_state
validate_state-bounds [] h = ground arith
validate_state-bounds (c ∷ s) h = ground arith

pub validate_state-intro :
    (s : Bytes)
    → 16 ≤ length s
    → length s ≤ 128
    → match_state s ≡ true
    → (validate_state s).valid ≡ true
unfolding validate_state
validate_state-intro [] h k m = ground arith
validate_state-intro (c ∷ s) h k m = ground arith

-- A state parameter is accepted exactly when it has 16 to 128 bytes and is a nonempty run of
-- base64 characters, of either alphabet, followed by any number of `=`.
validate_state_iff : (s : Bytes) → ((validate_state s).valid ≡ true) ↔ IsState s
validate_state_iff s = (
  λ h. let b = validate_state-bounds s h in (b.0, b.1, match_state-form s b.2),
  λ k. validate_state-intro s k.0 k.1 (form-match_state s k.2.0 k.2.1),
)

digit-is_state_char : (v : ℕ) → v < 64 → is_state_char (digit raw_url_encoding v) ≡ true
unfolding digit
digit-is_state_char v h = ground arith

encode-chars : (s : Bytes) → AreBytes s → all is_state_char (encode raw_url_encoding s) ≡ true
unfolding encode padding
encode-chars [] h = refl
encode-chars (a ∷ []) h =
    rw (digit-is_state_char (a / 4) (omega arith), digit-is_state_char (a % 4 * 16) (omega arith))
encode-chars (a ∷ b ∷ []) h = rw (
  digit-is_state_char (a / 4) (omega arith),
  digit-is_state_char (a % 4 * 16 + b / 16) (omega arith),
  digit-is_state_char (b % 16 * 4) (omega arith),
)
encode-chars (a ∷ b ∷ c ∷ s) h =
    rw
      (
        digit-is_state_char (a / 4) (omega arith),
        digit-is_state_char (a % 4 * 16 + b / 16) (omega arith),
        digit-is_state_char (b % 16 * 4 + c / 64) (omega arith),
        digit-is_state_char (c % 64) (omega arith),
      )
      (encode-chars s h.1.1.1)

nonempty : (s : Bytes) → 0 < length s → is_empty s ≡ false
nonempty [] h = absurd (omega arith)
nonempty (c ∷ s) h = refl

-- The raw URL encoding of 32 bytes, which is how the states are generated, is an accepted state
-- parameter, whatever the bytes are.
pub encode-valid_state :
    (b : Bytes)
    → AreBytes b
    → length b ≡ 32
    → (validate_state (encode raw_url_encoding b)).valid ≡ true
encode-valid_state b bytes h =
    validate_state-intro (encode raw_url_encoding b) (omega (arith, length-encode b))
      (omega (arith, length-encode b))
      (form-match_state _
        (record {
          body = encode raw_url_encoding b;
          pad = [];
          spells = sym (append-nil _);
          chars = encode-chars b bytes;
          signs = refl;
        })
        (nonempty _ (omega (arith, length-encode b))))
