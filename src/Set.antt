-- ===== src/Set.antt =====
-- `HashSet` of the standard library: a list, in the order of iteration.
use toml.Prelude.{
  ◌≡◌, not, ◌&&◌, ◌||◌, List, [], ◌∷◌, arith, Eq, ◌==◌, contains, if◌then◌else◌, Distinct,
  Bool-cases, inl, inr,
}

abbrev pub Set {ℓ} : Type ℓ → Type ℓ
Set K = List K

module _ {ℓ} {K : Type ℓ} ⦃e : Eq K⦄ where
  unfoldable pub insert : K → Set K → Set K
  insert a s = if contains s a then s else a ∷ s

  unfoldable pub remove : K → Set K → Set K
  remove a [] = []
  remove a (x ∷ s) = let rest = remove a s in if x == a then rest else x ∷ rest

  pub contains-insert : (a b : K) (s : Set K) → contains (insert a s) b ≡ (a == b || contains s b)
  unfolding insert
  contains-insert a b s = ground (arith, e.eq_iff a b)

  pub contains-remove :
      (a b : K) (s : Set K) → contains (remove a s) b ≡ (not (a == b) && contains s b)
  unfolding remove
  contains-remove a b [] = ground arith
  contains-remove a b (x ∷ s) =
      ground (arith, e.eq_iff a b, e.eq_iff x a, e.eq_iff x b, contains-remove a b s)

  pub Distinct-insert : (a : K) (s : Set K) → Distinct s → Distinct (insert a s)
  unfolding insert
  Distinct-insert a s d = elim (Bool-cases (contains s a)) [
    | inl old ↦ rw old d
    | inr new ↦ rw new (new, d)
  ]
