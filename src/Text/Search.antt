-- ===== src/Text/Search.antt =====
-- What the tests for prefixes and substrings mean.
use e5renew.Prelude.{
  ℕ, ◌≡◌, refl, ap, true, [], ◌∷◌, ◌++◌, arith, Bool-cases, length, drop, inl, inr,
}
use e5renew.Text.{Bytes, has_prefix, contains}

pub has_prefix-append : (p r : Bytes) → has_prefix (p ++ r) p ≡ true
unfolding has_prefix
has_prefix-append [] [] = refl
has_prefix-append [] (c ∷ r) = refl
has_prefix-append (c ∷ p) r = ground (arith, has_prefix-append p r)

pub has_prefix_split : (s p : Bytes) → has_prefix s p ≡ true → s ≡ p ++ drop (length p) s
unfolding has_prefix
has_prefix_split [] [] h = refl
has_prefix_split (a ∷ s) [] h = refl
has_prefix_split [] (c ∷ p) h = ground arith
has_prefix_split (a ∷ s) (c ∷ p) h = ground (arith, has_prefix_split s p)

-- `s` has `p` somewhere inside.
pub record Occurs (p s : Bytes) : Type 0 where
  pub before : Bytes
  pub after : Bytes
  pub spells : s ≡ before ++ (p ++ after)

pub contains-Occurs : (s p : Bytes) → contains s p ≡ true → Occurs p s
unfolding contains
contains-Occurs [] p h = record { before = []; after = _; spells = has_prefix_split [] p h }
contains-Occurs (a ∷ s) p h = elim (Bool-cases (has_prefix (a ∷ s) p)) [
  | inl here ↦ record { before = []; after = _; spells = has_prefix_split (a ∷ s) p here }
  | inr later ↦
      let o = contains-Occurs s p (rw later at h) in
      record { before = a ∷ o.before; after = o.after; spells = ap (λ t. a ∷ t) o.spells }
]

contains_of_prefix : (s p : Bytes) → has_prefix s p ≡ true → contains s p ≡ true
unfolding contains
contains_of_prefix [] p h = h
contains_of_prefix (a ∷ s) p h = rw h

contains_of_tail : (a : ℕ) (s p : Bytes) → contains s p ≡ true → contains (a ∷ s) p ≡ true
unfolding contains
contains_of_tail a s p h = ground arith

pub contains-append : (l p r : Bytes) → contains (l ++ (p ++ r)) p ≡ true
contains-append [] p r = contains_of_prefix (p ++ r) p (has_prefix-append p r)
contains-append (a ∷ l) p r = contains_of_tail a (l ++ (p ++ r)) p (contains-append l p r)

pub Occurs-contains : (s p : Bytes) → Occurs p s → contains s p ≡ true
Occurs-contains s p o = rw (o.spells) (contains-append o.before p o.after)
