-- ===== src/Text.antt =====
-- Go strings as lists of bytes, and the functions of package `strings` that the program calls.
pub mod Equality
pub mod Search
pub mod Patterns
pub mod Parts
use Prim.Native.Char.{code}
use e5renew.Prelude.{
  ℕ, zero, suc, ◌+◌, ◌/◌, ◌%◌, String, Bool, true, false, ◌&&◌, ◌||◌, Option, none, some, List, [],
  ◌∷◌, map, ltb, leb, ◌==◌, if◌then◌else◌, length, take, drop, all,
}
use mathlib.Core.List.{reverse}

abbrev pub Bytes : Type 0
Bytes = List ℕ

-- The bytes of an ASCII literal.
abbrev pub codes : String → Bytes
codes String.[] = []
codes (String.◌∷◌ c s) = code c ∷ codes s

unfoldable pub bytes_eq : Bytes → Bytes → Bool
bytes_eq [] [] = true
bytes_eq (a ∷ s) (b ∷ t) = a == b && bytes_eq s t
bytes_eq _ _ = false

abbrev pub is_empty : Bytes → Bool
is_empty [] = true
is_empty (c ∷ s) = false

-- strings.HasPrefix(s, p)
unfoldable pub has_prefix : Bytes → Bytes → Bool
has_prefix s [] = true
has_prefix [] (c ∷ p) = false
has_prefix (a ∷ s) (c ∷ p) = a == c && has_prefix s p

-- strings.TrimPrefix(s, p)
unfoldable pub trim_prefix : Bytes → Bytes → Bytes
unfolding has_prefix
trim_prefix s p = if has_prefix s p then drop (length p) s else s

-- strings.Contains(s, p)
unfoldable pub contains : Bytes → Bytes → Bool
unfolding has_prefix
contains [] p = has_prefix [] p
contains (a ∷ s) p = has_prefix (a ∷ s) p || contains s p

-- The loops that look for the first of several patterns in a text.
unfoldable pub contains_any : Bytes → List Bytes → Bool
contains_any s [] = false
contains_any s (p ∷ ps) = contains s p || contains_any s ps

-- strings.Index(s, c) for a separator of one byte; `none` is -1
unfoldable pub index : Bytes → ℕ → Option ℕ
index [] c = none
index (a ∷ s) c =
    let rest = index s c in
    if a == c then some 0 else elim rest [ none ↦ none | some i ↦ some (suc i) ]

-- s[:strings.Index(s, c)], and the whole of s if c is not in it
unfoldable pub before : Bytes → ℕ → Bytes
unfolding index
before s c = elim (index s c) [ none ↦ s | some i ↦ take i s ]

-- fmt's %d for a natural number. The fuel n + 1 is enough: n / 10 < n unless n is 0.
unfoldable pub decimal_digits : ℕ → ℕ → Bytes → Bytes
decimal_digits zero n out = out
decimal_digits (suc fuel) n out =
    let longer = decimal_digits fuel (n / 10) ((n % 10 + 48) ∷ out) in
    if ltb n 10 then (n + 48) ∷ out else longer

unfoldable pub decimal : ℕ → Bytes
unfolding decimal_digits
decimal n = decimal_digits (n + 1) n []

abbrev add_to_head : ℕ → List Bytes → List Bytes
add_to_head a [] = (a ∷ []) ∷ []
add_to_head a (p ∷ ps) = (a ∷ p) ∷ ps

-- strings.Split(s, c) for a separator of one byte
unfoldable pub split : Bytes → ℕ → List Bytes
split [] c = [] ∷ []
split (a ∷ s) c = let rest = split s c in if a == c then [] ∷ rest else add_to_head a rest

abbrev lower_byte : ℕ → ℕ
lower_byte c = if leb b'A' c && leb c b'Z' then c + 32 else c

-- strings.ToLower(s). `fold` is its Unicode case mapping, which runs when a byte is not ASCII.
unfoldable pub to_lower : (Bytes → Bytes) → Bytes → Bytes
to_lower fold s = if all (λ c. ltb c 128) s then map lower_byte s else fold s

abbrev pub is_ascii_space : ℕ → Bool
is_ascii_space c = (leb 9 c && leb c 13) || c == 32

-- The size of the white space (unicode.IsSpace, in UTF-8) that a text begins with; 0 if none.
abbrev pub is_wide_space : ℕ → ℕ → ℕ → Bool
is_wide_space a b c =
    (a == 0xe1 && b == 0x9a && c == 0x80)
    || (a == 0xe2
        && b == 0x80
        && ((leb 0x80 c && leb c 0x8a) || c == 0xa8 || c == 0xa9 || c == 0xaf))
    || (a == 0xe2 && b == 0x81 && c == 0x9f)
    || (a == 0xe3 && b == 0x80 && c == 0x80)

abbrev pub wide_space : Bytes → ℕ
wide_space (a ∷ b ∷ c ∷ s) =
    if a == 0xc2 && (b == 0x85 || b == 0xa0) then 2 else if is_wide_space a b c then 3 else 0
wide_space (a ∷ b ∷ []) = if a == 0xc2 && (b == 0x85 || b == 0xa0) then 2 else 0
wide_space _ = 0

abbrev pub wide_space_reversed : Bytes → ℕ
wide_space_reversed (c ∷ b ∷ a ∷ s) =
    if b == 0xc2 && (c == 0x85 || c == 0xa0) then 2 else if is_wide_space a b c then 3 else 0
wide_space_reversed (b ∷ a ∷ []) = if a == 0xc2 && (b == 0x85 || b == 0xa0) then 2 else 0
wide_space_reversed _ = 0

-- Drops `skip` bytes, and then white space as long as there is some.
unfoldable pub trim_left : (Bytes → ℕ) → ℕ → Bytes → Bytes
trim_left wide skip [] = []
trim_left wide (suc skip) (a ∷ s) = trim_left wide skip s
trim_left wide zero (a ∷ s) = elim (if is_ascii_space a then 1 else wide (a ∷ s)) [
  | zero ↦ a ∷ s
  | suc more ↦ trim_left wide more s
]

-- strings.TrimSpace(s)
unfoldable pub trim_space : Bytes → Bytes
unfolding trim_left
trim_space s = reverse (trim_left wide_space_reversed 0 (reverse (trim_left wide_space 0 s)))
