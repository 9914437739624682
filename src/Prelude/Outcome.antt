-- ===== src/Prelude/Outcome.antt =====
-- The outcome of a run: `CargoResult` and its kin, with the two ways not to return.
use mathlib.Core.Path.{◌≡◌, refl, subst}
use mathlib.Core.Logic.{◌≢◌}
use mathlib.Core.Bool.{Bool, true, false}
use toml.Prelude.Tests.{if◌then◌else◌}

-- `panic` is a failed `assert!` or `expect`; `out_of_fuel` has no counterpart in the program.
pub data Result {ℓ} (E A : Type ℓ) : Type ℓ where
  ok : A → Result E A
  err : E → Result E A
  panic out_of_fuel : Result E A

-- the error type of code that has no error value
pub data Never {ℓ} : Type ℓ where

-- the operator `?` and what follows it
module _ {ℓ} {E A B : Type ℓ} where
  infixl 5 ◌>>=◌
  abbrev pub ◌>>=◌ : Result E A → (A → Result E B) → Result E B
  r >>= next = elim r [ ok a ↦ next a | err e ↦ err e | panic ↦ panic | out_of_fuel ↦ out_of_fuel ]

  pub bind-eq-ok :
      (r : Result E A) (next : A → Result E B) {b : B}
      → (r >>= next) ≡ ok b
      → (a : A) × (r ≡ ok a) × (next a ≡ ok b)
  bind-eq-ok (ok a) next same = (a, refl, same)
  bind-eq-ok (err e) next same = cc
  bind-eq-ok panic next same = cc
  bind-eq-ok out_of_fuel next same = cc

module _ {ℓ} {E A : Type ℓ} where
  pub ok-injective : {a b : A} → ◌≡◌ {A = Result E A} (ok a) (ok b) → a ≡ b
  ok-injective same = cc

  -- The run came back, with an error or with a value of which `Q` holds.
  pub data Yields {κ} (Q : A → Type κ) : Result E A → Type (ℓ ⊔ κ) where
    refused : {e : E} → Yields Q (err e)
    given : {a : A} → Q a → Yields Q (ok a)

  pub Yields-map {κ κ'} :
      {Q : A → Type κ} {Q' : A → Type κ'} {r : Result E A}
      → Yields Q r
      → ((a : A) → Q a → Q' a)
      → Yields Q' r
  Yields-map refused weaken = refused
  Yields-map (given {a} q) weaken = given (weaken a q)

  pub Yields-if {κ} :
      {Q : A → Type κ} (b : Bool) {r s : Result E A}
      → (b ≡ true → Yields Q r)
      → Yields Q s
      → Yields Q (if b then r else s)
  Yields-if false left right = right
  Yields-if true left right = left refl

  pub Yields-panic {κ} : {Q : A → Type κ} {r : Result E A} → Yields Q r → r ≢ panic
  Yields-panic refused = cc
  Yields-panic (given q) = cc

  pub Yields-out_of_fuel {κ} : {Q : A → Type κ} {r : Result E A} → Yields Q r → r ≢ out_of_fuel
  Yields-out_of_fuel refused = cc
  Yields-out_of_fuel (given q) = cc

  pub Yields-ok {κ} : {Q : A → Type κ} {r : Result E A} {a : A} → Yields Q r → r ≡ ok a → Q a
  Yields-ok {Q} (given q) same = subst Q (ok-injective same) q
  Yields-ok refused same = cc

module _ {ℓ} {E A B : Type ℓ} where
  pub Yields-bind {κ κ'} :
      {Q : A → Type κ} {Q' : B → Type κ'} {r : Result E A} {next : A → Result E B}
      → Yields Q r
      → ((a : A) → Q a → Yields Q' (next a))
      → Yields Q' (r >>= next)
  Yields-bind refused goes_on = refused
  Yields-bind (given {a} q) goes_on = goes_on a q
