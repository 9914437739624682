-- ===== src/Resolver/Requirements/SameName.antt =====
-- `build_requirements` of core/resolver/context.rs at a feature that has the name of the dependency that
-- it turns on.
use toml.Prelude.{
  Text, Bool, true, false, not, ◌≡◌, refl, sym, subst, ◌∙◌, none, some, List, [], ◌∷◌, ◌++◌, all,
  length, keep, contains, ◌==◌, eq_self, list_eq, list_eq_iff, nat_eq, Result, Never, Yields, given,
  refused, if◌then◌else◌, arith, Bool-cases, inl, inr,
}
use toml.Map
use toml.Map.{contains-keys, get-update_or}
use toml.Core.Dependency.{Dependency, name_in_toml}
use toml.Core.Feature.{FeatureValue, feature, krate, krate_feature}
use toml.Core.Summary.{Summary}
use toml.Resolver.Types.{Method, everything, required}
use toml.Resolver.Requirements.{
  Requirements, RequirementsError, require_value, require_each, require_feature, require_features,
  require_dependencies, require_all, require_default, require_dependency, require_crate_feature,
  build_requirements, require_method, fuel, new,
}
use toml.Resolver.Requirements.Returns.{fuel-enough}
use toml.Resolver.Requirements.Closed.{read_requested}
use toml.Resolver.Requirements.Kept.{
  require_dependency-Grows, Grows, Kept, panicked, failed, went_on, Kept-after, Kept-bind, Keeps,
  require_feature-Requires, require_features-Kept, require_requested-Kept, require_default-Kept,
}

-- The value names a feature that there is, or a dependency other than `f`.
abbrev pub apart : {S V R : Type 0} → Summary S V R → Text → FeatureValue → Bool
apart s f (feature g) = Map.contains_key s.features g
apart s f (krate d) = not (d == f)
apart s f (krate_feature d k) = not (d == f)

module _ {S V R : Type 0} (s : Summary S V R) (f : Text) where
  abbrev Unused : Requirements → Type 0
  Unused r = Map.get r.deps f ≡ none

  visited-Unused :
      (r : Requirements) → contains r.visited f ≡ true → Unused r → Unused (require_dependency f r)
  unfolding require_dependency
  visited-Unused r there unused = rw there unused

  same_name-Keeps :
      Map.get s.features f ≡ some (krate f ∷ [])
      → ((g : Text) (vs : List FeatureValue)
          → Map.get s.features g ≡ some vs
          → (g == f) ≡ false
          → all (apart s f) vs ≡ true)
      → Keeps s f (Never {0}) Unused (apart s f)
  unfolding require_dependency require_crate_feature require_each require_value
  same_name-Keeps there values = record {
    values = values;
    missing = λ g fit gone other. absurd (ground (arith, fit, gone));
    on_see = λ g r other p. p;
    on_dependency = λ d r fit p. elim (Bool-cases (contains r.visited d)) [
      | inl old ↦ rw old p
      | inr fresh ↦
          rw fresh
            (ground (arith, fit, p, get-update_or d f (false, []) (λ (on, fs). (true, fs)) r.deps))
    ];
    on_crate_feature = λ d k r fit p.
        ground
          (arith, fit, p, get-update_or d f (false, []) (λ (on, fs). (on, fs ++ k ∷ [])) r.deps);
    at_itself = λ require r p. rw (there, eq_self f) (went_on (λ g h. h) p);
  }

  -- with the name visited in the end
  Passed : Requirements → Type 0
  Passed r = (contains r.visited f ≡ true) × Unused r

  Kept-visited :
      {r : Requirements} {result : Result RequirementsError Requirements}
      → contains r.visited f ≡ true
      → Kept (Never {0}) Unused r result
      → Kept (Never {0}) Passed r result
  unfolding Passed
  Kept-visited there (panicked q) = panicked q
  Kept-visited there failed = failed
  Kept-visited there (went_on grows p) = went_on grows (grows f there, p)

  Kept-Yields :
      {P : Requirements → Type 0} {r : Requirements}
      {result : Result RequirementsError Requirements}
      → Kept (Never {0}) P r result
      → Yields P result
  Kept-Yields (panicked q) = elim q [ ]
  Kept-Yields failed = refused
  Kept-Yields (went_on grows p) = given p

  -- what a method names itself
  abbrev pub named_by : Method → List FeatureValue
  named_by everything = []
  named_by (required m) = if m.all_features then [] else read_requested s m.features

  module _ (named : (f == []) ≡ false) (keeps : Keeps s f (Never {0}) Unused (apart s f)) where
    -- entering the feature itself
    itself-Passed :
        (r : Requirements) → Unused r → Kept (Never {0}) Passed r (require_feature s (fuel s) f r)
    unfolding require_feature
    itself-Passed r p = elim (Bool-cases (contains r.visited f)) [
      | inl old ↦ rw (named, old) (Kept-visited old (went_on (λ g h. h) p))
      | inr fresh ↦
          rw (named, fresh)
            (Kept-after (λ g h. ground (arith, h))
              (Kept-visited (ground (arith, eq_self f))
                (keeps.at_itself (require_feature s (length s.features)) r p)))
    ]

    all_features-Passed :
        (gs : List Text) (r : Requirements)
        → contains gs f ≡ true
        → ((g : Text) → contains gs g ≡ true → Map.contains_key s.features g ≡ true)
        → Unused r
        → Kept (Never {0}) Passed r (require_features s gs r)
    unfolding require_features Passed
    all_features-Passed [] r there fit p = absurd (ground (arith, there))
    all_features-Passed (g ∷ gs) r there fit p =
        let rest : (h : Text) → contains gs h ≡ true → Map.contains_key s.features h ≡ true =
          λ h inside. fit h (ground (arith, inside)) in
        elim (Bool-cases (g == f)) [
          | inl itself ↦
              let same : f ≡ g = sym ((list_eq_iff g f).0 itself) in
              Kept-bind (require_features s gs)
                (subst (λ g. Kept (Never {0}) Passed r (require_feature s (fuel s) g r)) same
                  (itself-Passed r p))
                (λ r' grows (visits, p').
                  Kept-visited visits
                    (require_features-Kept s f (Never {0}) Unused (apart s f) keeps gs r' rest p'))
          | inr other ↦
              Kept-bind (require_features s gs)
                (require_feature-Requires s f (Never {0}) Unused (apart s f) keeps (fuel s) g r
                  (fit g (ground (arith, eq_self g))) (fuel-enough s r) p)
                (λ r' grows p'. all_features-Passed gs r' (ground (arith, other, there)) rest p')
        ]

    -- The feature was visited, so that its dependency is not turned on either.
    dependency-Passed : (d : Text) (r : Requirements) → Passed r → Passed (require_dependency d r)
    unfolding Passed require_dependency
    dependency-Passed d r (visits, p) = elim (Bool-cases (contains r.visited d)) [
      | inl old ↦ rw old (visits, p)
      | inr fresh ↦ elim (Bool-cases (d == f)) [
        | inl same ↦
            let here : contains r.visited f ≡ false =
              subst (λ t. contains r.visited t ≡ false) ((list_eq_iff d f).0 same) fresh in
            absurd (ground (arith, here, visits))
        | inr other ↦
            (rw fresh (ground (arith, visits)), keeps.on_dependency d r (ground (arith, other)) p)
      ]
    ]

    dependencies-Passed :
        (ds : List (Dependency S R)) (r : Requirements)
        → Passed r
        → Passed (require_dependencies s ds r)
    unfolding require_dependencies
    dependencies-Passed [] r p = p
    dependencies-Passed (d ∷ ds) r p =
        dependencies-Passed ds (require_dependency (name_in_toml d) r)
          (dependency-Passed (name_in_toml d) r p)

    require_dependencies-Grows :
        (ds : List (Dependency S R)) (r : Requirements) → Grows r (require_dependencies s ds r)
    unfolding require_dependencies
    require_dependencies-Grows [] r g h = h
    require_dependencies-Grows (d ∷ ds) r g h =
        require_dependencies-Grows ds (require_dependency (name_in_toml d) r) g
          (require_dependency-Grows (name_in_toml d) r g h)

    require_all-Unused :
        Map.contains_key s.features f ≡ true → Kept (Never {0}) Unused new (require_all s new)
    unfolding Passed Map.get
    require_all-Unused there =
        Kept-bind _
          (all_features-Passed (Map.keys s.features) new (contains-keys s.features f ∙ there)
            (λ g h. sym (contains-keys s.features g) ∙ h) refl)
          (λ r' grows p.
            let ds = keep (λ d. d.optional) s.dependencies in
            went_on (require_dependencies-Grows ds r') (dependencies-Passed ds r' p).1)

    require_method-Unused :
        (method : Method)
        → Map.contains_key s.features f ≡ true
        → all (apart s f) (named_by method) ≡ true
        → Kept (Never {0}) Unused new (require_method s method new)
    unfolding Map.get
    require_method-Unused everything there fit = require_all-Unused there
    require_method-Unused (required m) there fit = elim (Bool-cases m.all_features) [
      | inl whole ↦ rw whole (require_all-Unused there)
      | inr single ↦ rw single (
          require_requested-Kept s f (Never {0}) Unused (apart s f) keeps m.features new
            (rw single at fit) refl)
    ]

  -- A feature that consists of the dependency of its own name, as an implicit feature does, never
  -- turns that dependency on: whatever the method, `build_requirements` returns an error or
  -- requirements without an entry for it, also if all features are asked for. The method and the
  -- other features name only features that there are, and not the dependency itself; the name is not
  -- empty.
  pub same_name-unused :
      (f == []) ≡ false
      → Map.get s.features f ≡ some (krate f ∷ [])
      → ((g : Text) (vs : List FeatureValue)
          → Map.get s.features g ≡ some vs
          → (g == f) ≡ false
          → all (apart s f) vs ≡ true)
      → (method : Method) → all (apart s f) (named_by method) ≡ true
      → Yields (λ r. Map.get r.deps f ≡ none) (build_requirements s method)
  unfolding build_requirements
  same_name-unused named there values method fit =
      let keeps = same_name-Keeps there values in
      Kept-Yields (
        Kept-bind (require_default s method)
          (require_method-Unused named keeps method (ground (arith, there)) fit)
          (λ r' grows p.
            require_default-Kept s f (Never {0}) Unused (apart s f) keeps method r' (λ h. h) p))
