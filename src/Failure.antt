-- ===== src/Failure.antt =====
-- Go's error values and `(value, error)` results, and functions that change a state.
use e5renew.Prelude.{◌≡◌, refl, ◌⊎◌, inl, inr, Bool, true, false, ◌++◌, List, [], ◌∷◌}
use e5renew.Text.{Bytes, codes}

pub data Error : Type 0 where
  no_rows : Error
  other : Bytes → Error
  wrap : Bytes → Error → Error

-- err.Error(). `wrap p e` is fmt.Errorf(p + ": %w", e), and `no_rows` is sql.ErrNoRows.
unfoldable pub error_text : Error → Bytes
error_text no_rows = codes "sql: no rows in result set"
error_text (other text) = text
error_text (wrap prefix e) = prefix ++ (codes ": " ++ error_text e)

-- errors.Is(err, sql.ErrNoRows)
unfoldable pub is_no_rows : Error → Bool
is_no_rows no_rows = true
is_no_rows (other text) = false
is_no_rows (wrap prefix e) = is_no_rows e

pub data Result {ℓ} (A : Type ℓ) : Type ℓ where
  ok : A → Result A
  err : Error → Result A

abbrev pub is_ok {ℓ} : {A : Type ℓ} → Result A → Bool
is_ok (ok a) = true
is_ok (err e) = false

-- A computation on a state. What was written before an error stays written.
abbrev pub Exec {ℓ} : Type ℓ → Type ℓ → Type ℓ
Exec S A = S → Result A × S

abbrev pub pure {ℓ} : {S A : Type ℓ} → A → Exec S A
pure a s = (ok a, s)

abbrev pub fail {ℓ} : {S A : Type ℓ} → Error → Exec S A
fail e s = (err e, s)

abbrev pub lift {ℓ} : {S A : Type ℓ} → Result A → Exec S A
lift r s = (r, s)

abbrev continue {ℓ} : {S A B : Type ℓ} → (A → Exec S B) → Result A → S → Result B × S
continue f (ok a) s = f a s
continue f (err e) s = (err e, s)

infixl 5 ◌>>=◌ ◌>>◌
abbrev pub ◌>>=◌ {ℓ} : {S A B : Type ℓ} → Exec S A → (A → Exec S B) → Exec S B
◌>>=◌ m f s = let (r, s') = m s in continue f r s'

abbrev pub ◌>>◌ {ℓ} : {S A B : Type ℓ} → Exec S A → Exec S B → Exec S B
m >> n = m >>= λ _. n

abbrev pub wrapped {ℓ} : {A : Type ℓ} → Bytes → Result A → Result A
wrapped prefix (ok a) = ok a
wrapped prefix (err e) = err (wrap prefix e)

-- `if err != nil { return fmt.Errorf("…: %w", err) }` behind a call
abbrev pub wrapping {ℓ} : {S A : Type ℓ} → Bytes → Exec S A → Exec S A
wrapping prefix m s = let (r, s') = m s in (wrapped prefix r, s')

-- A call whose error the caller looks at.
abbrev pub attempt {ℓ} : {S A : Type ℓ} → Exec S A → Exec S (Result A)
attempt m s = let (r, s') = m s in (ok r, s')

-- A program that leaves events behind, the last one at the end
abbrev pub emit : {E : Type 0} → E → Exec (List E) (Unit {0})
emit event trace = (ok tt, trace ++ event ∷ [])

-- defer: `event` happens at the end of `m`, however that ends.
abbrev pub deferring : {E A : Type 0} → E → Exec (List E) A → Exec (List E) A
deferring event m trace = let (r, t) = m trace in (r, t ++ event ∷ [])

pub Result-cases {ℓ} :
    {A : Type ℓ} (r : Result A) → ((a : A) × (r ≡ ok a)) ⊎ ((e : Error) × (r ≡ err e))
Result-cases (ok a) = inl (a, refl)
Result-cases (err e) = inr (e, refl)
