-- ===== src/DependencyQueue/Added.antt =====
-- util/dependency_queue.rs: what a call of `queue` adds for the dependencies of a package.
use toml.Prelude.{
  ◌≡◌, ◌&&◌, ◌||◌, List, [], ◌∷◌, arith, Eq, ◌==◌, contains, Distinct, Bool-cases, inl, inr,
  unwrap_or,
}
use toml.Map
use toml.Map.{Map, get-insert, get-update_or, contains-keys, Distinct-insert}
use toml.Set
use toml.Set.{Set, contains-insert, contains-remove, Distinct-insert as Distinct-insert_set}
use toml.DependencyQueue.{add_dependencies}

module _ {ℓ} {K : Type ℓ} ⦃e : Eq K⦄ where
  abbrev rev_in : Map K (Set K) → K → Set K
  rev_in reverse d = unwrap_or (Map.get reverse d) []

  pub record Adds (key : K) (deps : List K) (mine : Set K) (reverse : Map K (Set K)) (mine' : Set K)
      (reverse' : Map K (Set K)) : Type ℓ where
    pub own : (d : K) → contains mine' d ≡ (contains mine d || contains deps d)
    pub back :
        (d k : K)
        → contains (rev_in reverse' d) k
          ≡ (contains (rev_in reverse d) k || key == k && contains deps d)
    pub distinct : ((d : K) → Distinct (rev_in reverse d)) → (d : K) → Distinct (rev_in reverse' d)

  Distinct-back :
      (key dep : K) (reverse : Map K (Set K)) (j : K)
      → Distinct (rev_in reverse dep)
      → Distinct (rev_in reverse j)
      → Distinct (rev_in (Map.update_or dep [] (Set.insert key) reverse) j)
  Distinct-back key dep reverse j h h' = elim (Bool-cases (dep == j)) [
    | inl same ↦
        rw (get-update_or dep j [] (Set.insert key) reverse, same)
          (Distinct-insert_set key (rev_in reverse dep) h)
    | inr other ↦ rw (get-update_or dep j [] (Set.insert key) reverse, other) h'
  ]

  pub add_dependencies-Adds :
      (key : K) (deps : List K) (mine : Set K) (reverse : Map K (Set K))
      → let r = add_dependencies key deps mine reverse in Adds key deps mine reverse r.0 r.1
  unfolding add_dependencies
  add_dependencies-Adds key [] mine reverse = record {
    own = λ d. ground arith;
    back = λ d k. ground arith;
    distinct = λ h. h;
  }
  add_dependencies-Adds key (dep ∷ deps) mine reverse =
      let rest =
        add_dependencies-Adds key deps (Set.insert dep mine)
          (Map.update_or dep [] (Set.insert key) reverse) in
      record {
        own = λ d. ground (arith, rest.own d, contains-insert dep d mine);
        back = λ d k. ground (
          arith,
          rest.back d k,
          get-update_or dep d [] (Set.insert key) reverse,
          contains-insert key k (rev_in reverse dep),
          e.eq_iff dep d,
        );
        distinct = λ h d. rest.distinct (λ j. Distinct-back key dep reverse j (h dep) (h j)) d;
      }
