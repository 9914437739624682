-- ===== src/Prelude/Sorting.antt =====
-- Sorting of the standard library: `sort_by` and `sort_by_key` keep elements that compare equal in
-- their order, which `sort_unstable_by` may do.
use mathlib.Core.Path.{◌≡◌, refl}
use mathlib.Core.Logic.{inl, inr}
use mathlib.Core.Bool.{Bool, true, ◌&&◌, ◌||◌}
use mathlib.Core.List.{List, [], ◌∷◌}
use native.Mathlib.Omega.{arith}
use toml.Prelude.Tests.{if◌then◌else◌, Bool-cases}
use toml.Prelude.Lists.{length, all, any, all_mono, keep}

-- `le a b`: the comparison does not put `a` after `b`
module _ {ℓ} {A : Type ℓ} (le : A → A → Bool) where
  unfoldable pub sort_insert : A → List A → List A
  sort_insert x [] = x ∷ []
  sort_insert x (y ∷ ys) = let rest = sort_insert x ys in if le x y then x ∷ y ∷ ys else y ∷ rest

  unfoldable pub sort_by : List A → List A
  unfolding sort_insert
  sort_by [] = []
  sort_by (x ∷ xs) = sort_insert x (sort_by xs)

  -- each element stands before those that follow
  abbrev pub sorted : List A → Bool
  sorted [] = true
  sorted (x ∷ xs) = all (le x) xs && sorted xs

  all-sort_insert :
      (p : A → Bool) (x : A) (ys : List A) → all p (sort_insert x ys) ≡ (p x && all p ys)
  unfolding sort_insert
  all-sort_insert p x [] = refl
  all-sort_insert p x (y ∷ ys) = ground (arith, all-sort_insert p x ys)

  pub all-sort_by : (p : A → Bool) (xs : List A) → all p (sort_by xs) ≡ all p xs
  unfolding sort_by
  all-sort_by p [] = refl
  all-sort_by p (x ∷ xs) = ground (arith, all-sort_insert p x (sort_by xs), all-sort_by p xs)

  any-sort_insert :
      (p : A → Bool) (x : A) (ys : List A) → any p (sort_insert x ys) ≡ (p x || any p ys)
  unfolding sort_insert
  any-sort_insert p x [] = refl
  any-sort_insert p x (y ∷ ys) = ground (arith, any-sort_insert p x ys)

  pub any-sort_by : (p : A → Bool) (xs : List A) → any p (sort_by xs) ≡ any p xs
  unfolding sort_by
  any-sort_by p [] = refl
  any-sort_by p (x ∷ xs) = ground (arith, any-sort_insert p x (sort_by xs), any-sort_by p xs)

  count-sort_insert :
      (p : A → Bool) (x : A) (ys : List A)
      → length (keep p (sort_insert x ys)) ≡ length (keep p (x ∷ ys))
  unfolding sort_insert
  count-sort_insert p x [] = refl
  count-sort_insert p x (y ∷ ys) = ground (arith, count-sort_insert p x ys)

  -- Sorting changes the order alone: as many elements pass any test.
  pub count-sort_by :
      (p : A → Bool) (xs : List A) → length (keep p (sort_by xs)) ≡ length (keep p xs)
  unfolding sort_by
  count-sort_by p [] = refl
  count-sort_by p (x ∷ xs) = ground (arith, count-sort_insert p x (sort_by xs), count-sort_by p xs)

  module _ (total : (a b : A) → (le a b || le b a) ≡ true)
      (trans : (a b c : A) → le a b ≡ true → le b c ≡ true → le a c ≡ true) where
    sort_insert-sorted : (x : A) (ys : List A) → sorted ys ≡ true → sorted (sort_insert x ys) ≡ true
    unfolding sort_insert
    sort_insert-sorted x [] h = refl
    sort_insert-sorted x (y ∷ ys) h = elim (Bool-cases (le x y)) [
      | inl before ↦ rw before (
          ground (
            arith,
            before,
            h,
            all_mono (le y) (le x) ys (λ z. trans x y z before) (ground (arith, h)),
          ))
      | inr after ↦ rw after (
          ground (
            arith,
            total x y,
            after,
            h,
            all-sort_insert (le y) x ys,
            sort_insert-sorted x ys (ground (arith, h)),
          ))
    ]

    pub sort_by-sorted : (xs : List A) → sorted (sort_by xs) ≡ true
    unfolding sort_by
    sort_by-sorted [] = refl
    sort_by-sorted (x ∷ xs) = sort_insert-sorted x (sort_by xs) (sort_by-sorted xs)
