-- ===== src/Sql/Maps.antt =====
-- Filtering, ordering and paging commute with a map over the rows.
use e5renew.Prelude.{
  ℕ, zero, suc, ◌≡◌, refl, ap, ◌∙◌, inl, inr, Bool, true, false, List, [], ◌∷◌, map, Bool-cases,
  take, drop, ◌&&◌,
}
use mathlib.Core.Path.{fun_ext}
use e5renew.Prelude.Int.{ℤ, pos, negsuc}
use e5renew.Failure.{Result, ok, err}
use e5renew.Rows.{keep, insert_by, order_by, page_of}

abbrev pub mapped {ℓ} : {A B : Type ℓ} → (A → B) → Result A → Result B
mapped f (ok a) = ok (f a)
mapped f (err e) = err e

pub &&-true : (b : Bool) → (b && true) ≡ b
&&-true true = refl
&&-true false = refl

module _ {ℓ} {A B : Type ℓ} (f : A → B) where
  pub keep-map : (p : B → Bool) (xs : List A) → keep p (map f xs) ≡ map f (keep (λ x. p (f x)) xs)
  unfolding keep
  keep-map p [] = refl
  keep-map p (x ∷ xs) = elim (Bool-cases (p (f x))) [
    | inl kept ↦ rw kept (ap (λ ys. f x ∷ ys) (keep-map p xs))
    | inr dropped ↦ rw dropped (keep-map p xs)
  ]

  insert_by-map :
      (le : B → B → Bool) (x : A) (ys : List A)
      → insert_by le (f x) (map f ys) ≡ map f (insert_by (λ a b. le (f a) (f b)) x ys)
  unfolding insert_by
  insert_by-map le x [] = refl
  insert_by-map le x (y ∷ ys) = elim (Bool-cases (le (f x) (f y))) [
    | inl first ↦ rw first refl
    | inr later ↦ rw later (ap (λ zs. f y ∷ zs) (insert_by-map le x ys))
  ]

  pub order_by-map :
      (le : B → B → Bool) (xs : List A)
      → order_by le (map f xs) ≡ map f (order_by (λ a b. le (f a) (f b)) xs)
  unfolding order_by
  order_by-map le [] = refl
  order_by-map le (x ∷ xs) =
      ap (insert_by le (f x)) (order_by-map le xs)
      ∙ insert_by-map le x (order_by (λ a b. le (f a) (f b)) xs)

  pub take-map : (n : ℕ) (xs : List A) → take n (map f xs) ≡ map f (take n xs)
  take-map zero xs = refl
  take-map (suc n) [] = refl
  take-map (suc n) (x ∷ xs) = ap (λ ys. f x ∷ ys) (take-map n xs)

  pub drop-map : (n : ℕ) (xs : List A) → drop n (map f xs) ≡ map f (drop n xs)
  drop-map zero xs = refl
  drop-map (suc n) [] = refl
  drop-map (suc n) (x ∷ xs) = drop-map n xs

  pub page_of-map :
      (limit offset : ℤ) (xs : List A)
      → page_of limit offset (map f xs) ≡ mapped (map f) (page_of limit offset xs)
  unfolding page_of
  page_of-map (pos l) (pos o) xs = ap ok (ap (take l) (drop-map o xs) ∙ take-map l (drop o xs))
  page_of-map (pos l) (negsuc o) xs = refl
  page_of-map (negsuc l) offset xs = refl

pub keep-ext {ℓ} :
    {A : Type ℓ} (p q : A → Bool) → ((a : A) → p a ≡ q a) → (xs : List A) → keep p xs ≡ keep q xs
keep-ext p q e xs = ap (λ r. keep r xs) (fun_ext e)

pub keep_all {ℓ} : {A : Type ℓ} (xs : List A) → keep (λ x. true) xs ≡ xs
unfolding keep
keep_all [] = refl
keep_all (x ∷ xs) = ap (λ ys. x ∷ ys) (keep_all xs)
