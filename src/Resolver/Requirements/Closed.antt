-- ===== src/Resolver/Requirements/Closed.antt =====
-- What `build_requirements` of core/resolver/context.rs returns is closed: all that is asked for is in it.
use toml.Prelude.{
  Text, codes, true, ◌&&◌, ◌≡◌, refl, some, List, [], ◌∷◌, ◌++◌, all, all_mono, map, all-append,
  keep, list_eq, nat_eq, contains, Yields, given, Yields-map, Yields-bind, if◌then◌else◌, arith,
  Bool-cases, inl, inr,
}
use toml.Map
use toml.Core.Dependency.{Dependency, name_in_toml}
use toml.Core.Feature.{FeatureValue, feature, krate, build}
use toml.Core.Summary.{Summary}
use toml.Core.Summary.Known.{all_values}
use toml.Resolver.Types.{Method, everything, required}
use toml.Resolver.Requirements.{
  Requirements, require_feature, require_features, require_dependencies, require_requested,
  require_all, require_method, wants_default, require_default, build_requirements,
  require_dependency, fuel, new,
}
use toml.Resolver.Requirements.Updates.{satisfied}
use toml.Resolver.Requirements.Progress.{
  usable, Inv, Done, Progress-refl, Progress-trans, require_dependency-Done,
}
use toml.Resolver.Requirements.Returns.{require_value-Yields, require_feature-Returns, fuel-enough}

-- what a method asks for
module _ {S V R : Type 0} (s : Summary S V R) where
  abbrev asked_features : List FeatureValue
  asked_features = map feature (Map.keys s.features)

  abbrev pub asked_dependencies : List (Dependency S R) → List FeatureValue
  asked_dependencies ds = map (λ d. krate (name_in_toml d)) ds

  abbrev pub read_requested : List Text → List FeatureValue
  read_requested fs = map (λ f. build f (Map.contains_key s.features) s.namespaced_features) fs

  abbrev pub asked_all : List FeatureValue
  asked_all = asked_features ++ asked_dependencies (keep (λ d. d.optional) s.dependencies)

  abbrev pub asked_by : Method → List FeatureValue
  asked_by everything = asked_all
  asked_by (required m) = if m.all_features then asked_all else read_requested m.features

  abbrev pub asked_default : Method → List FeatureValue
  asked_default method =
      if wants_default s method && Map.contains_key s.features (codes "default")
      then feature (codes "default") ∷ []
      else []

  abbrev pub wanted : Method → List FeatureValue
  wanted method = asked_by method ++ asked_default method

  require_features-Yields :
      all_values (usable s.features) s.features ≡ true
      → (fs : List Text) (r : Requirements) → all (usable s.features) (map feature fs) ≡ true
      → Inv s.features r
      → Yields
          (Done s.features r (λ r'. all (satisfied r') (map feature fs) ≡ true))
          (require_features s fs r)
  unfolding require_features
  require_features-Yields fits [] r fit inv = given (inv, Progress-refl s.features r, refl)
  require_features-Yields fits (f ∷ fs) r fit inv =
      Yields-bind (require_feature-Returns s fits (fuel s) f r (ground arith) inv (fuel-enough s r))
        (λ r1 (inv1, p, here).
          Yields-map (require_features-Yields fits fs r1 (ground arith) inv1)
            (λ r2 (inv2, q, there). (
              inv2,
              Progress-trans s.features p q,
              ground (arith, q.turns (feature f) here, there),
            )))

  require_dependencies-Done :
      (ds : List (Dependency S R)) (r : Requirements)
      → all (usable s.features) (asked_dependencies ds) ≡ true
      → Inv s.features r
      → Done s.features r
          (λ r'. all (satisfied r') (asked_dependencies ds) ≡ true)
          (require_dependencies s ds r)
  unfolding require_dependencies
  require_dependencies-Done [] r fit inv = (inv, Progress-refl s.features r, refl)
  require_dependencies-Done (d ∷ ds) r fit inv =
      let (inv1, p, here) =
        require_dependency-Done s.features r (name_in_toml d) inv (ground arith) in
      let (inv2, q, there) =
        require_dependencies-Done ds (require_dependency (name_in_toml d) r) (ground arith) inv1 in
      (
        inv2,
        Progress-trans s.features p q,
        ground (arith, q.turns (krate (name_in_toml d)) here, there),
      )

  require_requested-Yields :
      all_values (usable s.features) s.features ≡ true
      → (fs : List Text) (r : Requirements) → all (usable s.features) (read_requested fs) ≡ true
      → Inv s.features r
      → Yields
          (Done s.features r (λ r'. all (satisfied r') (read_requested fs) ≡ true))
          (require_requested s fs r)
  unfolding require_requested
  require_requested-Yields fits [] r fit inv = given (inv, Progress-refl s.features r, refl)
  require_requested-Yields fits (f ∷ fs) r fit inv =
      let v = build f (Map.contains_key s.features) s.namespaced_features in
      Yields-bind
        (require_value-Yields s.features (fuel s) (require_feature s (fuel s))
          (require_feature-Returns s fits (fuel s)) v r (ground arith) inv (fuel-enough s r))
        (λ r1 (inv1, p, here).
          Yields-map (require_requested-Yields fits fs r1 (ground arith) inv1)
            (λ r2 (inv2, q, there).
              (inv2, Progress-trans s.features p q, ground (arith, q.turns v here, there))))

  require_default-Yields :
      all_values (usable s.features) s.features ≡ true
      → (method : Method) (r : Requirements) → Inv s.features r
      → Yields
          (Done s.features r (λ r'. all (satisfied r') (asked_default method) ≡ true))
          (require_default s method r)
  unfolding require_default
  require_default-Yields fits method r inv = elim (Bool-cases (wants_default s method)) [
    | inr not_wanted ↦ rw not_wanted (given (inv, Progress-refl s.features r, refl))
    | inl want ↦ elim (Bool-cases (Map.contains_key s.features (codes "default"))) [
      | inr missing ↦ rw (want, missing) (given (inv, Progress-refl s.features r, refl))
      | inl there ↦
          rw (want, there)
            (Yields-map
              (require_feature-Returns s fits (fuel s) (codes "default") r (ground (arith, there))
                inv (fuel-enough s r))
              (λ r' (inv', p, here). (inv', p, ground (arith, here))))
    ]
  ]

  require_all-Yields :
      all_values (usable s.features) s.features ≡ true
      → (r : Requirements) → all (usable s.features) asked_all ≡ true
      → Inv s.features r
      → Yields (Done s.features r (λ r'. all (satisfied r') asked_all ≡ true)) (require_all s r)
  require_all-Yields fits r fit inv =
      let ds = keep (λ d. d.optional) s.dependencies in
      let split_fit = all-append (usable s.features) asked_features (asked_dependencies ds) in
      Yields-bind
        (require_features-Yields fits (Map.keys s.features) r (ground (arith, split_fit)) inv)
        (λ r1 (inv1, p, here).
          let (inv2, q, there) = require_dependencies-Done ds r1 (ground (arith, split_fit)) inv1 in
          given (
            inv2,
            Progress-trans s.features p q,
            ground (
              arith,
              all-append (satisfied (require_dependencies s ds r1)) asked_features
                  (asked_dependencies ds),
              all_mono (satisfied r1) (satisfied (require_dependencies s ds r1)) asked_features
                  q.turns here,
              there,
            ),
          ))

  require_method-Yields :
      all_values (usable s.features) s.features ≡ true
      → (method : Method) (r : Requirements) → all (usable s.features) (asked_by method) ≡ true
      → Inv s.features r
      → Yields
          (Done s.features r (λ r'. all (satisfied r') (asked_by method) ≡ true))
          (require_method s method r)
  require_method-Yields fits everything r fit inv = require_all-Yields fits r fit inv
  require_method-Yields fits (required m) r fit inv = elim (Bool-cases m.all_features) [
    | inl everything' ↦ rw everything' (require_all-Yields fits r (rw everything' at fit) inv)
    | inr some' ↦ rw some' (require_requested-Yields fits m.features r (rw some' at fit) inv)
  ]

  -- what the result of `build_requirements` is
  abbrev pub Closed : Method → Requirements → Type 0
  Closed method r =
      (all (satisfied r) (wanted method) ≡ true)
      × ((f : Text) (vs : List FeatureValue)
          → contains r.visited f ≡ true
          → Map.get s.features f ≡ some vs
          → all (satisfied r) vs ≡ true)
      × ((f : Text) → contains r.visited f ≡ true → contains r.used f ≡ true)

  -- Where each feature that is named exists and no dependency that is named shares the name of a
  -- feature, `build_requirements` ends and does not panic: it returns the error for a feature that
  -- depends on itself, or requirements that are closed. All that the method asks for is in them, with
  -- each feature all that the feature names, and every feature that was entered counts as used.
  pub build_requirements-Closed :
      all_values (usable s.features) s.features ≡ true
      → (method : Method) → all (usable s.features) (wanted method) ≡ true
      → Yields (Closed method) (build_requirements s method)
  unfolding build_requirements
  build_requirements-Closed fits method fit =
      let split_fit = all-append (usable s.features) (asked_by method) (asked_default method) in
      Yields-bind
        (require_method-Yields fits method new (ground (arith, split_fit))
          (λ d h. absurd (ground arith)))
        (λ r1 (inv1, p, here).
          Yields-map (require_default-Yields fits method r1 inv1) (λ r2 (inv2, q, there). (
            ground (
              arith,
              all-append (satisfied r2) (asked_by method) (asked_default method),
              all_mono (satisfied r1) (satisfied r2) (asked_by method) q.turns here,
              there,
            ),
            λ f vs h there'. (Progress-trans s.features p q).closes f vs h refl there',
            λ f h. (inv2 f h).0,
          )))
