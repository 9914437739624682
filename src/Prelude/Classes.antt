-- ===== src/Prelude/Classes.antt =====
-- Equality as an interface (`PartialEq` and `Eq`), with its instances, and membership tests.
use Prim.Native.Char.{code}
use Prim.Native.Nat.{ℕ, ◌<◌}
use Prim.Native.String.{String}
use mathlib.Core.Path.{◌≡◌, refl, ap, subst}
use mathlib.Core.Logic.{◌↔◌}
use mathlib.Core.Bool.{Bool, true, false, ◌&&◌, ◌||◌}
use mathlib.Core.Option.{Option, none, some}
use mathlib.Core.List.{List, [], ◌∷◌, ◌++◌}
use native.Mathlib.Omega.{arith}
use toml.Prelude.Tests.{eqb, eqb_iff, Bool-cases}
use toml.Prelude.Lists.{length, all, find, keep, length-keep_mono}
use mathlib.Core.Logic.{inl, inr}

-- a test of keys that decides their equality
pub record Eq {ℓ} (K : Type ℓ) : Type ℓ where
  pub eq : K → K → Bool
  pub eq_iff : (k j : K) → (eq k j ≡ true) ↔ (k ≡ j)

module _ {ℓ} {K : Type ℓ} ⦃key : Eq K⦄ where
  infix 50 ◌==◌
  abbrev pub ◌==◌ : K → K → Bool
  k == j = key.eq k j

  pub eq_self : (k : K) → (k == k) ≡ true
  eq_self k = (key.eq_iff k k).1 refl

instance abbrev pub nat_eq : Eq ℕ
nat_eq = record { eq = eqb; eq_iff = eqb_iff }

module _ {ℓ} {A : Type ℓ} ⦃e : Eq A⦄ where
  abbrev pub list_beq : List A → List A → Bool
  list_beq [] [] = true
  list_beq (x ∷ xs) (y ∷ ys) = x == y && list_beq xs ys
  list_beq _ _ = false

  pub list_eq_iff : (xs ys : List A) → (list_beq xs ys ≡ true) ↔ (xs ≡ ys)
  list_eq_iff [] [] = (λ _. refl, λ _. refl)
  list_eq_iff [] (y ∷ ys) = ground arith
  list_eq_iff (x ∷ xs) [] = ground arith
  list_eq_iff (x ∷ xs) (y ∷ ys) = ground (arith, e.eq_iff x y, list_eq_iff xs ys)

  -- Vec::contains, HashSet::contains
  abbrev pub contains : List A → A → Bool
  contains [] a = false
  contains (x ∷ xs) a = x == a || contains xs a

  pub contains-append :
      (xs ys : List A) (a : A) → contains (xs ++ ys) a ≡ (contains xs a || contains ys a)
  contains-append [] ys a = refl
  contains-append (x ∷ xs) ys a = ground (arith, contains-append xs ys a)

module _ {ℓ} {A : Type ℓ} ⦃e : Eq A⦄ where
  -- A test holds of all elements just when it holds of each that the list contains.
  pub all-contains :
      (q : A → Bool) (xs : List A) → ((x : A) → contains xs x ≡ true → q x ≡ true) → all q xs ≡ true
  all-contains q [] h = refl
  all-contains q (x ∷ xs) h =
      ground
        (arith, h x (ground (arith, eq_self x)), all-contains q xs (λ y c. h y (ground (arith, c))))

  pub contains-keep :
      (p : A → Bool) (xs : List A) (a : A)
      → contains xs a ≡ true
      → p a ≡ true
      → contains (keep p xs) a ≡ true
  contains-keep p [] a h pa = cc
  contains-keep p (x ∷ xs) a h pa = elim (Bool-cases (x == a)) [
    | inl same ↦ ground (arith, ap p ((e.eq_iff x a).0 same), pa, same)
    | inr other ↦ ground (arith, contains-keep p xs a (rw other at h) pa)
  ]

  pub contains-find :
      (p : A → Bool) (xs : List A) (a : A) → find p xs ≡ some a → contains xs a ≡ true
  contains-find p [] a h = cc
  contains-find p (x ∷ xs) a h = elim (Bool-cases (p x)) [
    | inl holds ↦ ground (arith, holds, h, e.eq_iff x a)
    | inr fails ↦ ground (arith, contains-find p xs a (rw fails at h))
  ]

  pub contains-all :
      (q : A → Bool) (xs : List A) (a : A) → all q xs ≡ true → contains xs a ≡ true → q a ≡ true
  contains-all q [] a h c = cc
  contains-all q (x ∷ xs) a h c = elim (Bool-cases (x == a)) [
    | inl same ↦ subst (λ t. q t ≡ true) ((e.eq_iff x a).0 same) (ground arith)
    | inr other ↦ contains-all q xs a (ground arith) (rw other at c)
  ]

-- No element stands twice.
abbrev pub Distinct {ℓ} : {A : Type ℓ} ⦃e : Eq A⦄ → List A → Type 0
Distinct [] = Unit {0}
Distinct (x ∷ xs) = (contains xs x ≡ false) × Distinct xs

module _ {ℓ} {A : Type ℓ} ⦃e : Eq A⦄ where
  pub Distinct-snoc :
      (xs : List A) (a : A) → Distinct xs → contains xs a ≡ false → Distinct (xs ++ a ∷ [])
  Distinct-snoc [] a d h = (refl, tt)
  Distinct-snoc (x ∷ xs) a d h = (
    ground (arith, contains-append xs (a ∷ []) x, e.eq_iff x a, e.eq_iff a x),
    Distinct-snoc xs a d.1 (ground arith),
  )

  pub length-keep_lt :
      (p q : A → Bool) (xs : List A) (a : A)
      → ((x : A) → q x ≡ true → p x ≡ true)
      → contains xs a ≡ true
      → p a ≡ true
      → q a ≡ false
      → length (keep q xs) < length (keep p xs)
  length-keep_lt p q [] a h c pa qa = cc
  length-keep_lt p q (x ∷ xs) a h c pa qa = elim (Bool-cases (x == a)) [
    | inl same ↦
        let here = (e.eq_iff x a).0 same in
        ground (arith, here, ap p here, ap q here, length-keep_mono p q xs h)
    | inr other ↦ ground (arith, length-keep_lt p q xs a h (rw other at c) pa qa, h x)
  ]

instance abbrev pub list_eq {ℓ} : {A : Type ℓ} ⦃e : Eq A⦄ → Eq (List A)
list_eq = record { eq = list_beq; eq_iff = list_eq_iff }

-- A string is the list of its code points.
abbrev pub Text : Type 0
Text = List ℕ

abbrev pub codes : String → Text
codes String.[] = []
codes (String.◌∷◌ c s) = code c ∷ codes s

abbrev pub option_beq {ℓ} : {A : Type ℓ} ⦃e : Eq A⦄ → Option A → Option A → Bool
option_beq none none = true
option_beq (some a) (some b) = a == b
option_beq _ _ = false

pub option_eq_iff {ℓ} : {A : Type ℓ} ⦃e : Eq A⦄ (a b : Option A) → (option_beq a b ≡ true) ↔ (a ≡ b)
option_eq_iff none none = (λ _. refl, λ _. refl)
option_eq_iff none (some b) = ground arith
option_eq_iff (some a) none = ground arith
option_eq_iff ⦃e⦄ (some a) (some b) = ground (arith, e.eq_iff a b)

instance abbrev pub option_eq {ℓ} : {A : Type ℓ} ⦃e : Eq A⦄ → Eq (Option A)
option_eq = record { eq = option_beq; eq_iff = option_eq_iff }

module _ {ℓ κ} {A : Type ℓ} {B : Type κ} ⦃ea : Eq A⦄ ⦃eb : Eq B⦄ where
  abbrev pub pair_beq : A × B → A × B → Bool
  pair_beq (a, b) (a', b') = a == a' && b == b'

  pub pair_eq_iff : (p q : A × B) → (pair_beq p q ≡ true) ↔ (p ≡ q)
  pair_eq_iff (a, b) (a', b') = ground (arith, ea.eq_iff a a', eb.eq_iff b b')

instance abbrev pub pair_eq {ℓ κ} : {A : Type ℓ} {B : Type κ} ⦃ea : Eq A⦄ ⦃eb : Eq B⦄ → Eq (A × B)
pair_eq = record { eq = pair_beq; eq_iff = pair_eq_iff }
