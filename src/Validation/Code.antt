-- ===== src/Validation/Code.antt =====
-- The OAuth2 authorization code, an opaque text without white space.
use e5renew.Prelude.{
  ℕ, zero, suc, ◌≤◌, ◌≡◌, refl, ap, ◌≢◌, ◌↔◌, inl, inr, true, false, List, [], ◌∷◌, arith,
  if◌then◌else◌, Bool-cases, length, any, length-append, All,
}
use mathlib.Core.List.{reverse, reverse-cons}
use e5renew.Text.{Bytes, trim_left, trim_space, is_ascii_space, wide_space, wide_space_reversed}
use e5renew.Text.Equality.{bytes_eq_iff}
use e5renew.Validation.{validate_auth_code, is_blank}

abbrev pub IsNoBlank : ℕ → Type 0
IsNoBlank c = (c ≢ 13) × (c ≢ 10) × (c ≢ 9) × (c ≢ 32)

any_blank_iff : (s : Bytes) → (any is_blank s ≡ false) ↔ All IsNoBlank s
any_blank_iff [] = (λ _. tt, λ _. refl)
any_blank_iff (c ∷ s) = ground (arith, any_blank_iff s)

abbrev pub IsCode : Bytes → Type 0
IsCode code = (10 ≤ length code) × (trim_space code ≡ code) × All IsNoBlank code

-- A code is accepted exactly when it has at least 10 bytes, TrimSpace leaves it as it is, and no
-- byte of it is a carriage return, a line feed, a tab or a space.
validate_auth_code_iff : (code : Bytes) → ((validate_auth_code code).valid ≡ true) ↔ IsCode code
unfolding validate_auth_code
validate_auth_code_iff [] = ground arith
validate_auth_code_iff (c ∷ s) =
    ground (arith, bytes_eq_iff (trim_space (c ∷ s)) (c ∷ s), any_blank_iff (c ∷ s))

length-trim_left :
    (wide : Bytes → ℕ) (skip : ℕ) (s : Bytes) → length (trim_left wide skip s) ≤ length s
unfolding trim_left
length-trim_left wide skip [] = omega arith
length-trim_left wide (suc skip) (a ∷ s) = omega (arith, length-trim_left wide skip s)
length-trim_left wide zero (a ∷ s) =
    step (if is_ascii_space a then 1 else wide (a ∷ s)) (λ k. length-trim_left wide k s)
  where
    step :
        (n : ℕ)
        → ((k : ℕ) → length (trim_left wide k s) ≤ length s)
        → length (elim n as (λ _. Bytes) [ zero ↦ a ∷ s | suc more ↦ trim_left wide more s ])
          ≤ suc (length s)
    step zero ih = omega arith
    step (suc more) ih = omega (arith, ih more)

trim_left-space :
    (wide : Bytes → ℕ) (a : ℕ) (s : Bytes)
    → is_ascii_space a ≡ true
    → trim_left wide 0 (a ∷ s) ≡ trim_left wide 0 s
unfolding trim_left
trim_left-space wide a s h = rw (h, trim_left)

length-reverse {ℓ} : {A : Type ℓ} (xs : List A) → length (reverse xs) ≡ length xs
length-reverse [] = refl
length-reverse (x ∷ xs) = rw (reverse-cons, length-append) (omega (arith, length-reverse xs))

length-trim_space-le : (s : Bytes) → length (trim_space s) ≤ length (trim_left wide_space 0 s)
unfolding trim_space
length-trim_space-le s = omega (
  arith,
  length-reverse (trim_left wide_space_reversed 0 (reverse (trim_left wide_space 0 s))),
  length-reverse (trim_left wide_space 0 s),
  length-trim_left wide_space_reversed 0 (reverse (trim_left wide_space 0 s)),
)

pub trim_space-shrinks :
    (c : ℕ) (s : Bytes) → is_ascii_space c ≡ true → length (trim_space (c ∷ s)) ≤ length s
trim_space-shrinks c s h = omega (
  arith,
  length-trim_space-le (c ∷ s),
  ap length (trim_left-space wide_space c s h),
  length-trim_left wide_space 0 s,
)

-- An accepted code does not begin with ASCII white space, vertical tab and form feed included.
pub validate_auth_code_head :
    (c : ℕ) (s : Bytes) → (validate_auth_code (c ∷ s)).valid ≡ true → is_ascii_space c ≡ false
validate_auth_code_head c s h = elim (Bool-cases (is_ascii_space c)) [
  | inl space ↦
      let accepted = (validate_auth_code_iff (c ∷ s)).0 h in
      absurd (omega (arith, trim_space-shrinks c s space, ap length accepted.1))
  | inr other ↦ other
]
