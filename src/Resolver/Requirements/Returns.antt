-- ===== src/Resolver/Requirements/Returns.antt =====
-- The recursion of `build_requirements` in core/resolver/context.rs ends, and closes what it enters.
use toml.Prelude.{
  ℕ, zero, suc, ◌<◌, Text, true, not, ◌||◌, ◌≡◌, refl, List, [], ◌∷◌, all, length, length-keep,
  ◌==◌, list_eq, list_eq_iff, nat_eq, contains, Result, Yields, refused, given, Yields-map,
  Yields-bind, arith, Bool-cases, Option-cases, inl, inr,
}
use toml.Map
use toml.Core.Feature.{FeatureValue, feature, krate, krate_feature}
use toml.Core.Summary.{Summary, FeatureMap}
use toml.Core.Summary.Known.{all_values, all_values-get}
use toml.Resolver.Requirements.{
  Requirements, RequirementsError, require_value, require_each, require_feature, see, fuel,
  depends_on,
}
use toml.Resolver.Requirements.Updates.{satisfied}
use toml.Resolver.Requirements.Progress.{
  usable, Inv, Done, Progress-refl, Progress-trans, require_crate_feature-Done,
  require_dependency-Done, see-Inv, enter-Progress, unvisited, unvisited-Progress, unvisited-see,
}

length-keys : (m : FeatureMap) → length (Map.keys m) ≡ length m
length-keys [] = refl
length-keys ((f, vs) ∷ m) = omega (arith, length-keys m)

module _ (features : FeatureMap) where
  -- what is asked of `require_feature` with fuel for `n` more features
  abbrev pub Returns : ℕ → (Text → Requirements → Result RequirementsError Requirements) → Type 0
  Returns n require =
      (f : Text) (r : Requirements)
      → usable features (feature f) ≡ true
      → Inv features r
      → unvisited features r < n
      → Yields (Done features r (λ r'. satisfied r' (feature f) ≡ true)) (require f r)

  pub require_value-Yields :
      (n : ℕ) (require : Text → Requirements → Result RequirementsError Requirements)
      → Returns n require
      → (v : FeatureValue) (r : Requirements) → usable features v ≡ true
      → Inv features r
      → unvisited features r < n
      → Yields (Done features r (λ r'. satisfied r' v ≡ true)) (require_value require v r)
  unfolding require_value
  require_value-Yields n require returns (feature f) r fit inv few = returns f r fit inv few
  require_value-Yields n require returns (krate d) r fit inv few =
      given (require_dependency-Done features r d inv (ground arith))
  require_value-Yields n require returns (krate_feature d k) r fit inv few =
      given (require_crate_feature-Done features r d k inv)

  require_each-Yields :
      (n : ℕ) (require : Text → Requirements → Result RequirementsError Requirements)
      → Returns n require
      → (f : Text) (vs : List FeatureValue) (r : Requirements) → all (usable features) vs ≡ true
      → Inv features r
      → unvisited features r < n
      → Yields (Done features r (λ r'. all (satisfied r') vs ≡ true)) (require_each require f vs r)
  unfolding require_each
  require_each-Yields n require returns f [] r fit inv few =
      given (inv, Progress-refl features r, refl)
  require_each-Yields n require returns f (v ∷ vs) r fit inv few =
      elim (Bool-cases (depends_on f v)) [
        | inl itself ↦ rw itself refused
        | inr other ↦ rw other (
            Yields-bind (require_value-Yields n require returns v r (ground arith) inv few)
              (λ r1 (inv1, p, here).
                Yields-map
                  (require_each-Yields n require returns f vs r1 (ground arith) inv1
                    (omega (arith, unvisited-Progress features p)))
                  (λ r2 (inv2, q, there).
                    (inv2, Progress-trans features p q, ground (arith, q.turns v here, there)))))
      ]

module _ {S V R : Type 0} (s : Summary S V R) where
  pub require_feature-Returns :
      all_values (usable s.features) s.features ≡ true
      → (n : ℕ) → Returns s.features n (require_feature s n)
  unfolding require_feature
  require_feature-Returns fits zero f r fit inv few = absurd (omega (arith, few))
  require_feature-Returns fits (suc n) f r fit inv few =
      elim (Bool-cases (f == [] || contains r.visited f)) [
        | inl skip ↦ rw skip (given (inv, Progress-refl s.features r, skip))
        | inr enter ↦ elim (Option-cases (Map.get s.features f)) [
          | inl missing ↦ absurd (ground (arith, missing, enter, fit))
          | inr (vs, there) ↦
              let key : Map.contains_key s.features f ≡ true = ground (arith, there) in
              rw (enter, there)
                (Yields-map
                  (require_each-Yields s.features n (require_feature s n)
                    (require_feature-Returns fits n) f vs (see f r)
                    (all_values-get (usable s.features) s.features f vs fits there)
                    (see-Inv s.features r f inv key)
                    (omega (arith, few, unvisited-see s.features r f key (ground (arith, enter)))))
                  (λ r' (inv', p, sat). (
                    inv',
                    enter-Progress s.features r r' f vs there p sat,
                    ground (arith, p.visits f (ground (arith, list_eq_iff f f))),
                  )))
        ]
      ]

  -- The fuel that `build_requirements` starts with is enough at every state.
  pub fuel-enough : (r : Requirements) → unvisited s.features r < fuel s
  fuel-enough r = omega (
    arith,
    length-keep (λ g. not (contains r.visited g)) (Map.keys s.features),
    length-keys s.features,
  )
