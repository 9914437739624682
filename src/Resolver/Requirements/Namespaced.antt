-- ===== src/Resolver/Requirements/Namespaced.antt =====
-- `build_requirements` of core/resolver/context.rs where features have a namespace of their own: a
-- requested name is read as a feature whether or not there is one, and a feature may have the name
-- of the dependency that it turns on.
use toml.Prelude.{
  Text, Bool, true, false, not, ◌≡◌, ◌⊎◌, refl, sym, subst, none, some, List, [], ◌∷◌, all,
  contains, ◌==◌, list_eq, list_eq_iff, nat_eq, Result, Never, err, panic, arith, Bool-cases, inl,
  inr,
}
use toml.Map
use toml.Map.{contains-keys, get-update_or}
use toml.Core.Feature.{FeatureValue, feature, krate, build}
use toml.Core.Summary.{Summary}
use toml.Resolver.Types.{Required, required}
use toml.Resolver.Requirements.{
  Requirements, RequirementsError, require_value, require_feature, require_requested,
  require_default, require_dependency, require_crate_feature, build_requirements, fuel, new,
}
use toml.Resolver.Requirements.Returns.{fuel-enough}
use toml.Resolver.Requirements.Closed.{read_requested}
use toml.Resolver.Requirements.Kept.{
  Kept, panicked, failed, went_on, Kept-bind, Keeps, require_value-Kept, require_feature-Requires,
}

-- The value does not turn on the dependency `f`, which would mark the name as visited.
abbrev pub quiet : Text → FeatureValue → Bool
quiet f (krate d) = not (d == f)
quiet f _ = true

-- no requirements come back
abbrev pub Refused : Result RequirementsError Requirements → Type 0
Refused result = (result ≡ panic) ⊎ ((e : RequirementsError) × (result ≡ err e))

Kept-Refused :
    {Q : Type 0} {r : Requirements} {result : Result RequirementsError Requirements}
    → Kept Q (λ r'. Never {0}) r result
    → Refused result
Kept-Refused (panicked q) = inl refl
Kept-Refused (failed {e}) = inr (e, refl)
Kept-Refused (went_on grows never) = elim never [ ]

module _ {S V R : Type 0} (s : Summary S V R) (f : Text) where
  abbrev Unvisited : Requirements → Type 0
  Unvisited r = contains r.visited f ≡ false

  undefined-Keeps :
      Map.get s.features f ≡ none
      → ((g : Text) (vs : List FeatureValue)
          → Map.get s.features g ≡ some vs
          → all (quiet f) vs ≡ true)
      → Keeps s f (Unit {0}) Unvisited (quiet f)
  unfolding require_dependency require_crate_feature
  undefined-Keeps missing named = record {
    values = λ g vs there other. named g vs there;
    missing = λ g fit gone other. tt;
    on_see = λ g r other p. ground (arith, other, p);
    on_dependency = λ d r apart p. elim (Bool-cases (contains r.visited d)) [
      | inl old ↦ rw old p
      | inr fresh ↦ rw fresh (ground (arith, apart, p))
    ];
    on_crate_feature = λ d k r fit p. p;
    at_itself = λ require r p. rw missing (panicked tt);
  }

  undefined-requested :
      (f == []) ≡ false
      → Map.get s.features f ≡ none
      → build f (Map.contains_key s.features) s.namespaced_features ≡ feature f
      → Keeps s f (Unit {0}) Unvisited (quiet f)
      → (gs : List Text) (r : Requirements) → contains gs f ≡ true
      → all (quiet f) (read_requested s gs) ≡ true
      → Unvisited r
      → Kept (Unit {0}) (λ r'. Never {0}) r (require_requested s gs r)
  unfolding require_requested require_value require_feature
  undefined-requested named missing read keeps [] r there fit p = absurd (ground (arith, there))
  undefined-requested named missing read keeps (g ∷ gs) r there fit p = elim (Bool-cases (g == f)) [
    | inl itself ↦
        let same : f ≡ g = sym ((list_eq_iff g f).0 itself) in
        subst (λ g. Kept (Unit {0}) (λ r'. Never {0}) r (require_requested s (g ∷ gs) r)) same
          (rw (read, named, p, missing) (panicked tt))
    | inr other ↦
        Kept-bind (require_requested s gs)
          (require_value-Kept s f (Unit {0}) Unvisited (quiet f) keeps (fuel s)
            (require_feature s (fuel s))
            (require_feature-Requires s f (Unit {0}) Unvisited (quiet f) keeps (fuel s))
            (build g (Map.contains_key s.features) s.namespaced_features) r (ground arith)
            (fuel-enough s r) p)
          (λ r' grows p'.
            undefined-requested named missing read keeps gs r' (ground (arith, other, there))
              (ground arith) p')
  ]

  -- If a method names a feature `f`, not empty, that there is not and that is read as one, then
  -- `build_requirements` panics or returns an error, whatever else the method names and in whatever
  -- order. Asked for are single features, not all of them, and neither they nor the features of the
  -- summary turn on a dependency with the name `f`.
  pub undefined-Refused :
      (m : Required)
      → m.all_features ≡ false
      → (f == []) ≡ false
      → contains m.features f ≡ true
      → build f (Map.contains_key s.features) s.namespaced_features ≡ feature f
      → Map.get s.features f ≡ none
      → ((g : Text) (vs : List FeatureValue)
          → Map.get s.features g ≡ some vs
          → all (quiet f) vs ≡ true)
      → all (quiet f) (read_requested s m.features) ≡ true
      → Refused (build_requirements s (required m))
  unfolding build_requirements
  undefined-Refused m single named there read missing values fit = rw single (
      Kept-Refused (
        Kept-bind (require_default s (required m))
          (undefined-requested named missing read (undefined-Keeps missing values) m.features new
            there fit refl)
          (λ r' grows never. elim never [ ])))
