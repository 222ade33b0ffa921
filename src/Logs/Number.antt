-- ===== src/Logs/Number.antt =====
-- The number of a page, as a link spells it.
use e5renew.Prelude.{
  ℕ, zero, suc, ◌+◌, ◌-◌, ◌*◌, ◌/◌, ◌%◌, ◌≤◌, ◌<◌, ◌≡◌, refl, sym, ap, ◌∙◌, inl, inr, Bool, true,
  false, ◌&&◌, Option, none, some, [], ◌∷◌, arith, ltb, leb, ◌==◌, if◌then◌else◌, Bool-cases,
}
use e5renew.Prelude.Int.{pos}
use e5renew.Text.{Bytes, decimal, decimal_digits}
use e5renew.Logs.{digits, unsigned, within, atoi, positive_or_1, page_number}

abbrev is_digit : ℕ → Bool
is_digit c = leb b'0' c && leb c b'9'

digits-cons :
    (a c : ℕ) (s : Bytes)
    → digits a (c ∷ s) ≡ (if is_digit c then digits (a * 10 + (c - b'0')) s else none)
unfolding digits
digits-cons a c s = refl

digit_step : (a v : ℕ) (out : Bytes) → v < 10 → digits a ((v + 48) ∷ out) ≡ digits (a * 10 + v) out
digit_step a v out h =
    let digit : is_digit (v + 48) ≡ true = ground (arith, h) in
    digits-cons a (v + 48) out ∙ rw digit (ap (λ x. digits x out) (omega (arith, h)))

digits-decimal_digits :
    (fuel n : ℕ) (out : Bytes) → n < fuel → digits 0 (decimal_digits fuel n out) ≡ digits n out
unfolding decimal_digits
digits-decimal_digits zero n out h = absurd (omega (arith, h))
digits-decimal_digits (suc fuel) n out h = elim (Bool-cases (ltb n 10)) [
  | inl last ↦
      rw last (digit_step 0 n out (ground (arith, last)) ∙ ap (λ x. digits x out) (omega arith))
  | inr more ↦ rw more (
      digits-decimal_digits fuel (n / 10) ((n % 10 + 48) ∷ out) (ground (arith, more, h))
      ∙ digit_step (n / 10) (n % 10) out (omega arith)
      ∙ ap (λ x. digits x out) (omega arith))
]

no_digits : digits 0 [] ≡ some 0
unfolding digits
no_digits = refl

no_more : (n : ℕ) → digits n [] ≡ some n
unfolding digits
no_more n = refl

get : Option ℕ → ℕ
get none = 0
get (some n) = n

atoi_of_digits :
    (s : Bytes) (n : ℕ)
    → 0 < n
    → digits 0 s ≡ some n
    → n ≤ 0x7fff_ffff_ffff_ffff
    → atoi s ≡ some (pos n)
unfolding atoi unsigned within get
atoi_of_digits [] n h d k = absurd (omega (arith, h, ap get (sym no_digits ∙ d)))
atoi_of_digits (c ∷ s) n h d k = elim (Bool-cases (is_digit c)) [
  | inl digit ↦
      let no_minus : c == b'-' ≡ false = ground (arith, digit) in
      let no_plus : c == b'+' ≡ false = ground (arith, digit) in
      let fits : leb n 0x7fff_ffff_ffff_ffff ≡ true = ground (arith, k) in
      rw (no_minus, no_plus, d, fits) refl
  | inr letter ↦ absurd (ground (arith, rw letter at (sym (digits-cons 0 c s) ∙ d)))
]

-- A page that is no number is the first.
pub page_number_missing : (page : Bytes) → atoi page ≡ none → page_number page ≡ 1
unfolding page_number positive_or_1
page_number_missing page h = rw h refl

-- The number of a page is read back from its decimal spelling, with which the links to the next and
-- to the previous page are written, as long as it fits into an int.
pub page_number-decimal : (n : ℕ) → 0 < n → n ≤ 0x7fff_ffff_ffff_ffff → page_number (decimal n) ≡ n
unfolding page_number positive_or_1 decimal
page_number-decimal n h k =
    rw
      (atoi_of_digits (decimal_digits (n + 1) n []) n h
        (digits-decimal_digits (n + 1) n [] (omega arith) ∙ no_more n) k)
      (ground (arith, h))
