-- ===== src/Core/Summary/Known.antt =====
-- What the values of a feature map of core/summary.rs may name, and the map of dependencies by name.
use toml.Prelude.{
  Text, Bool, true, false, ◌&&◌, ◌||◌, ◌≡◌, refl, Option, none, some, List, [], ◌∷◌, ◌++◌, any, all,
  any-append, all_mono, ◌==◌, list_eq, list_eq_iff, nat_eq, is_some, unwrap_or, arith, Bool-cases,
  inl, inr, Option-cases, ap,
}
use toml.Map
use toml.Map.{Map, get-insert, get-update_or}
use toml.Core.Dependency.{Dependency, name_in_toml}
use toml.Core.Feature.{FeatureValue, feature, krate, krate_feature, build, split_once}
use toml.Core.Summary.{FeatureMap, dep_map_of, optional_in}

-- every value of every feature
abbrev pub all_values : (FeatureValue → Bool) → FeatureMap → Bool
all_values p [] = true
all_values p ((f, vs) ∷ m) = all p vs && all_values p m

pub all_values-insert :
    (p : FeatureValue → Bool) (f : Text) (vs : List FeatureValue) (m : FeatureMap)
    → all p vs ≡ true
    → all_values p m ≡ true
    → all_values p (Map.insert f vs m) ≡ true
unfolding Map.insert
all_values-insert p f vs [] h hs = ground (arith, h)
all_values-insert p f vs ((g, ws) ∷ m) h hs =
    ground (arith, h, all_values-insert p f vs m h (ground arith))

pub all_values-get :
    (p : FeatureValue → Bool) (m : FeatureMap) (f : Text) (vs : List FeatureValue)
    → all_values p m ≡ true
    → Map.get m f ≡ some vs
    → all p vs ≡ true
unfolding Map.get
all_values-get p [] f vs h g = cc
all_values-get p ((k, ws) ∷ m) f vs h g = elim (Bool-cases (k == f)) [
  | inl same ↦ ground (arith, same)
  | inr other ↦ all_values-get p m f vs (ground arith) (rw other at g)
]

pub all_values_mono :
    (p q : FeatureValue → Bool) (m : FeatureMap)
    → ((v : FeatureValue) → p v ≡ true → q v ≡ true)
    → all_values p m ≡ true
    → all_values q m ≡ true
all_values_mono p q [] pq h = refl
all_values_mono p q ((f, vs) ∷ m) pq h =
    ground (arith, all_mono p q vs pq (ground arith), all_values_mono p q m pq (ground arith))

-- Outside namespaced features, only a feature that is there is read as one.
pub build-feature :
    (v g : Text) (is_feature : Text → Bool)
    → build v is_feature false ≡ feature g
    → is_feature g ≡ true
unfolding build
build-feature v g is_feature h = elim (Option-cases (split_once b'/' v)) [
  | inl missing ↦ ground (arith, missing)
  | inr (lr, there) ↦ ground (arith, there)
]

-- what a value may name: a feature, an optional dependency, or a dependency
abbrev pub known : (Text → Bool) → (Text → Bool) → (Text → Bool) → FeatureValue → Bool
known is_feature is_optional is_dependency (feature g) = is_feature g
known is_feature is_optional is_dependency (krate d) = is_optional d
known is_feature is_optional is_dependency (krate_feature d _) = is_dependency d

pub known_mono :
    (p q o d : Text → Bool)
    → ((g : Text) → p g ≡ true → q g ≡ true)
    → (v : FeatureValue) → known p o d v ≡ true
    → known q o d v ≡ true
known_mono p q o d pq (feature g) h = pq g h
known_mono p q o d pq (krate n) h = h
known_mono p q o d pq (krate_feature n f) h = h

module _ {S R : Type 0} where
  optional_in-snoc :
      (o : Option (List (Dependency S R))) (d : Dependency S R)
      → optional_in (some (unwrap_or o [] ++ d ∷ [])) ≡ (optional_in o || d.optional)
  optional_in-snoc none d = ground arith
  optional_in-snoc (some ds) d = ground (arith, any-append (λ x. x.optional) ds (d ∷ []))

  pub optional_in-dep_map_of :
      (deps : List (Dependency S R)) (m : Map Text (List (Dependency S R))) (n : Text)
      → optional_in (Map.get (dep_map_of deps m) n)
        ≡ (optional_in (Map.get m n) || any (λ d. name_in_toml d == n && d.optional) deps)
  unfolding dep_map_of
  optional_in-dep_map_of [] m n = ground arith
  optional_in-dep_map_of (d ∷ deps) m n = ground (
    arith,
    optional_in-dep_map_of deps (Map.update_or (name_in_toml d) [] (λ ds. ds ++ d ∷ []) m) n,
    get-update_or (name_in_toml d) n [] (λ ds. ds ++ d ∷ []) m,
    optional_in-snoc (Map.get m n) d,
    ap (Map.get m),
    list_eq_iff (name_in_toml d) n,
  )

  pub is_some-dep_map_of :
      (deps : List (Dependency S R)) (m : Map Text (List (Dependency S R))) (n : Text)
      → is_some (Map.get (dep_map_of deps m) n)
        ≡ (is_some (Map.get m n) || any (λ d. name_in_toml d == n) deps)
  unfolding dep_map_of
  is_some-dep_map_of [] m n = ground arith
  is_some-dep_map_of (d ∷ deps) m n = ground (
    arith,
    is_some-dep_map_of deps (Map.update_or (name_in_toml d) [] (λ ds. ds ++ d ∷ []) m) n,
    get-update_or (name_in_toml d) n [] (λ ds. ds ++ d ∷ []) m,
  )
