-- ===== src/Database/Order.antt =====
-- ORDER BY, LIMIT and OFFSET: the result is sorted, and its rows are those of the table.
use e5renew.Prelude.{
  ℕ, zero, suc, ◌≤◌, ◌≡◌, inl, inr, Bool, true, false, List, [], ◌∷◌, arith, Bool-cases, length,
  take, drop, All,
}
use mathlib.Core.List.{Perm}
use mathlib.Core.List.Perm
use e5renew.Database.{keep, insert_by, order_by}

module _ {ℓ} {A : Type ℓ} (le : A → A → Bool) where
  -- Each element stands in order with the one behind it.
  abbrev pub Ordered : List A → Type 0
  Ordered [] = Unit
  Ordered (x ∷ []) = Unit
  Ordered (x ∷ y ∷ ys) = (le x y ≡ true) × Ordered (y ∷ ys)

  pub insert_by-perm : (x : A) (ys : List A) → Perm (insert_by le x ys) (x ∷ ys)
  unfolding insert_by
  insert_by-perm x [] = Perm.refl (x ∷ [])
  insert_by-perm x (y ∷ ys) = elim (Bool-cases (le x y)) [
    | inl first ↦ rw first (Perm.refl (x ∷ y ∷ ys))
    | inr later ↦ rw later (Perm.trans (Perm.cons y (insert_by-perm x ys)) (Perm.swap x y ys))
  ]

  pub order_by-perm : (xs : List A) → Perm (order_by le xs) xs
  unfolding order_by
  order_by-perm [] = Perm.refl []
  order_by-perm (x ∷ xs) =
      Perm.trans (insert_by-perm x (order_by le xs)) (Perm.cons x (order_by-perm xs))

module _ {ℓ} {A : Type ℓ} (le : A → A → Bool)
    (total : (x y : A) → le x y ≡ false → le y x ≡ true) where
  insert_by-Ordered : (x : A) (ys : List A) → Ordered le ys → Ordered le (insert_by le x ys)
  unfolding insert_by
  insert_by-Ordered x [] h = tt
  insert_by-Ordered x (y ∷ []) h = elim (Bool-cases (le x y)) [
    | inl first ↦ rw first (first, tt)
    | inr later ↦ rw later (total x y later, tt)
  ]
  insert_by-Ordered x (y ∷ z ∷ zs) (yz, h) = behind (insert_by-Ordered x (z ∷ zs) h)
    where
      behind : Ordered le (insert_by le x (z ∷ zs)) → Ordered le (insert_by le x (y ∷ z ∷ zs))
      behind ih = elim (Bool-cases (le x y)) [
        | inl first ↦ rw first (first, (yz, h))
        | inr later ↦ elim (Bool-cases (le x z)) [
          | inl second ↦ rw (later, second) (total x y later, (second, h))
          | inr third ↦ rw (later, third) (yz, rw third at ih)
        ]
      ]

  pub order_by-Ordered : (xs : List A) → Ordered le (order_by le xs)
  unfolding order_by
  order_by-Ordered [] = tt
  order_by-Ordered (x ∷ xs) = insert_by-Ordered x (order_by le xs) (order_by-Ordered xs)

module _ {ℓ} {A : Type ℓ} (le : A → A → Bool) where
  pub Ordered-tail : (x : A) (xs : List A) → Ordered le (x ∷ xs) → Ordered le xs
  Ordered-tail x [] h = tt
  Ordered-tail x (y ∷ ys) h = h.1

  pub Ordered-drop : (n : ℕ) (xs : List A) → Ordered le xs → Ordered le (drop n xs)
  Ordered-drop zero xs h = h
  Ordered-drop (suc n) [] h = tt
  Ordered-drop (suc n) (x ∷ xs) h = Ordered-drop n xs (Ordered-tail x xs h)

  pub Ordered-take : (n : ℕ) (xs : List A) → Ordered le xs → Ordered le (take n xs)
  Ordered-take zero xs h = tt
  Ordered-take (suc n) [] h = tt
  Ordered-take (suc zero) (x ∷ xs) h = tt
  Ordered-take (suc (suc n)) (x ∷ []) h = tt
  Ordered-take (suc (suc n)) (x ∷ y ∷ ys) (xy, h) = (xy, Ordered-take (suc n) (y ∷ ys) h)

module _ {ℓ κ} {A : Type ℓ} (P : A → Type κ) where
  pub All-insert_by :
      (le : A → A → Bool) (x : A) (ys : List A) → P x → All P ys → All P (insert_by le x ys)
  unfolding insert_by
  All-insert_by le x [] p h = (p, tt)
  All-insert_by le x (y ∷ ys) p (q, h) = elim (Bool-cases (le x y)) [
    | inl first ↦ rw first (p, (q, h))
    | inr later ↦ rw later (q, All-insert_by le x ys p h)
  ]

  pub All-order_by : (le : A → A → Bool) (xs : List A) → All P xs → All P (order_by le xs)
  unfolding order_by
  All-order_by le [] h = tt
  All-order_by le (x ∷ xs) (p, h) = All-insert_by le x (order_by le xs) p (All-order_by le xs h)

  pub All-drop : (n : ℕ) (xs : List A) → All P xs → All P (drop n xs)
  All-drop zero xs h = h
  All-drop (suc n) [] h = tt
  All-drop (suc n) (x ∷ xs) h = All-drop n xs h.1

  pub All-take : (n : ℕ) (xs : List A) → All P xs → All P (take n xs)
  All-take zero xs h = tt
  All-take (suc n) [] h = tt
  All-take (suc n) (x ∷ xs) h = (h.0, All-take n xs h.1)

pub keep-All {ℓ} : {A : Type ℓ} (p : A → Bool) (xs : List A) → All (λ x. p x ≡ true) (keep p xs)
unfolding keep
keep-All p [] = tt
keep-All p (x ∷ xs) = elim (Bool-cases (p x)) [
  | inl yes_ ↦ rw yes_ (yes_, keep-All p xs)
  | inr no_ ↦ rw no_ (keep-All p xs)
]

pub length-keep-le {ℓ} : {A : Type ℓ} (p : A → Bool) (xs : List A) → length (keep p xs) ≤ length xs
unfolding keep
length-keep-le p [] = omega arith
length-keep-le p (x ∷ xs) = ground (arith, length-keep-le p xs)
