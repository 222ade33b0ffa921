-- ===== src/Text/Parts.antt =====
-- `strings.Split` loses nothing and its parts hold no separator.
use e5renew.Prelude.{
  ap, ℕ, ◌≡◌, refl, ◌∙◌, ◌≢◌, inl, inr, List, [], ◌∷◌, ◌++◌, arith, ◌==◌, if◌then◌else◌, Bool-cases,
  All,
}
use e5renew.Text.{Bytes, split, before, add_to_head}

abbrev pub Lacks : ℕ → Bytes → Type 0
Lacks c = All (λ a. a ≢ c)

abbrev pub join : List Bytes → ℕ → Bytes
join [] c = []
join (p ∷ []) c = p
join (p ∷ q ∷ ps) c = p ++ c ∷ join (q ∷ ps) c

join-nil-cons : (ps : List Bytes) (c : ℕ) → ps ≢ [] → join ([] ∷ ps) c ≡ c ∷ join ps c
join-nil-cons [] c h = absurd (h refl)
join-nil-cons (p ∷ ps) c h = refl

join-add_to_head : (a c : ℕ) (ps : List Bytes) → join (add_to_head a ps) c ≡ a ∷ join ps c
join-add_to_head a c [] = refl
join-add_to_head a c (p ∷ []) = refl
join-add_to_head a c (p ∷ q ∷ ps) = refl

pub split-ne-nil : (s : Bytes) (c : ℕ) → split s c ≢ []
unfolding split
split-ne-nil [] c = ground arith
split-ne-nil (a ∷ s) c = ground (arith, split-ne-nil s c)

pub join-split : (s : Bytes) (c : ℕ) → join (split s c) c ≡ s
unfolding split
join-split [] c = refl
join-split (a ∷ s) c = ground (
  arith,
  join-split s c,
  join-nil-cons (split s c) c,
  split-ne-nil s c,
  join-add_to_head a c (split s c),
)

Lacks-add_to_head :
    (a c : ℕ) (ps : List Bytes) → a ≢ c → All (Lacks c) ps → All (Lacks c) (add_to_head a ps)
Lacks-add_to_head a c [] h k = ((h, tt), tt)
Lacks-add_to_head a c (p ∷ ps) h k = ((h, k.0), k.1)

pub split-Lacks : (s : Bytes) (c : ℕ) → All (Lacks c) (split s c)
unfolding split
split-Lacks [] c = (tt, tt)
split-Lacks (a ∷ s) c = ground (arith, split-Lacks s c, Lacks-add_to_head a c (split s c))

-- A property of the bytes of a text holds of the bytes of its parts.
module _ (P : ℕ → Type 0) where
  All-add_to_head :
      (a : ℕ) (ps : List Bytes) → P a → All (All P) ps → All (All P) (add_to_head a ps)
  All-add_to_head a [] h k = ((h, tt), tt)
  All-add_to_head a (p ∷ ps) h k = ((h, k.0), k.1)

  pub All-split : (s : Bytes) (c : ℕ) → All P s → All (All P) (split s c)
  unfolding split
  All-split [] c h = (tt, tt)
  All-split (a ∷ s) c h = elim (Bool-cases (a == c)) [
    | inl cut ↦ rw cut (tt, All-split s c h.1)
    | inr more ↦ rw more (All-add_to_head a (split s c) h.0 (All-split s c h.1))
  ]

pub before-nil : (c : ℕ) → before [] c ≡ []
unfolding before
before-nil c = refl

pub before-cons :
    (a : ℕ) (s : Bytes) (c : ℕ) → before (a ∷ s) c ≡ (if a == c then [] else a ∷ before s c)
unfolding before
before-cons a s c = ground arith

pub before-Lacks : (s : Bytes) (c : ℕ) → Lacks c (before s c)
before-Lacks [] c = unfold before in tt
before-Lacks (a ∷ s) c = by_case (before-Lacks s c)
  where
    by_case : Lacks c (before s c) → Lacks c (before (a ∷ s) c)
    by_case ih = elim (Bool-cases (a == c)) [
      | inl cut ↦ rw (before-cons a s c, cut) tt
      | inr more ↦ rw (before-cons a s c, more) (ground arith, ih)
    ]

pub split-append : (p r : Bytes) (c : ℕ) → Lacks c p → split (p ++ c ∷ r) c ≡ p ∷ split r c
unfolding split
split-append [] r c h = ground arith
split-append (a ∷ p) r c h = ground (arith, split-append p r c h.1)

pub before-append : (p r : Bytes) (c : ℕ) → Lacks c p → before (p ++ r) c ≡ p ++ before r c
before-append [] r c h = refl
before-append (a ∷ p) r c h = by_tail (before-append p r c h.1)
  where
    by_tail : before (p ++ r) c ≡ p ++ before r c → before ((a ∷ p) ++ r) c ≡ (a ∷ p) ++ before r c
    by_tail ih = before-cons a (p ++ r) c ∙ ground (arith, ih)

add_to_head-append :
    (a : ℕ) (ps qs : List Bytes) → ps ≢ [] → add_to_head a (ps ++ qs) ≡ add_to_head a ps ++ qs
add_to_head-append a [] qs h = absurd (h refl)
add_to_head-append a (p ∷ ps) qs h = refl

-- A text that is cut at one place is split on both sides of it.
pub split-cut : (p r : Bytes) (c : ℕ) → split (p ++ c ∷ r) c ≡ split p c ++ split r c
unfolding split
split-cut [] r c = ground arith
split-cut (a ∷ p) r c = elim (Bool-cases (a == c)) [
  | inl cut ↦ rw cut (ap (λ ps. [] ∷ ps) (split-cut p r c))
  | inr more ↦ rw more (
      ap (add_to_head a) (split-cut p r c)
      ∙ add_to_head-append a (split p c) (split r c) (split-ne-nil p c))
]
