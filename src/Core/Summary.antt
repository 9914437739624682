-- ===== src/Core/Summary.antt =====
-- core/summary.rs: a package's dependencies and its features.
pub mod Known
pub mod Checks
pub mod Valid
pub mod Plain
pub mod Examples
use toml.Prelude.{
  ℕ, Text, Bool, true, false, not, ◌&&◌, ◌||◌, ◌≡◌, Option, none, some, List, [], ◌∷◌, ◌++◌, map,
  any, Eq, ◌==◌, list_eq, nat_eq, is_some, unwrap_or, Result, ok, err, ◌>>=◌, if◌then◌else◌,
}
use toml.Map
use toml.Map.{Map}
use toml.Core.PackageId
use toml.Core.PackageId.{PackageId}
use toml.Core.Dependency
use toml.Core.Dependency.{Dependency, name_in_toml, is_transitive}
use toml.Core.Feature.{FeatureValue, feature, krate, krate_feature, build}

abbrev pub FeatureMap : Type 0
FeatureMap = Map Text (List FeatureValue)

-- the `features` table of a manifest
abbrev pub Features : Type 0
Features = Map Text (List Text)

pub record Summary (S V R : Type 0) : Type 0 where
  pub package_id : PackageId S V
  pub dependencies : List (Dependency S R)
  pub features : FeatureMap
  pub checksum : Option Text
  pub links : Option Text
  pub namespaced_features : Bool

-- the errors of `Summary::new` and `build_feature_map`, with the feature and what it names
pub data SummaryError : Type 0 where
  same_name optional_dev_dependency : Text → SummaryError
  not_optional dependency_left_implicit : Text → SummaryError
  undefined_feature : Text → Text → Bool → SummaryError
  not_optional_dependency unknown_dependency not_a_dependency : Text → Text → SummaryError

module _ {S R : Type 0} where
  -- the loop of `Summary::new`
  abbrev check_dependency : Bool → Features → Dependency S R → Result SummaryError (Unit {0})
  check_dependency namespaced features dep =
      if not namespaced && Map.contains_key features (name_in_toml dep)
      then err (same_name (name_in_toml dep))
      else if dep.optional && not (is_transitive dep)
      then err (optional_dev_dependency (name_in_toml dep))
      else ok tt

  unfoldable pub check_dependencies :
      Bool → Features → List (Dependency S R) → Result SummaryError (Unit {0})
  unfolding Map.get name_in_toml is_transitive
  check_dependencies namespaced features [] = ok tt
  check_dependencies namespaced features (dep ∷ deps) =
      check_dependency namespaced features dep >>= λ _. check_dependencies namespaced features deps

  -- the dependencies under each name
  unfoldable pub dep_map_of :
      List (Dependency S R) → Map Text (List (Dependency S R)) → Map Text (List (Dependency S R))
  unfolding Map.update_or name_in_toml
  dep_map_of [] m = m
  dep_map_of (dep ∷ deps) m =
      dep_map_of deps (Map.update_or (name_in_toml dep) [] (λ ds. ds ++ dep ∷ []) m)

  abbrev pub optional_in : Option (List (Dependency S R)) → Bool
  optional_in none = false
  optional_in (some ds) = any (λ d. d.optional) ds

  abbrev pub found_at_first : Text → Option (List (Dependency S R)) → Result SummaryError Bool
  found_at_first f none = ok true
  found_at_first f (some ds) =
      if not (any (λ d. d.optional) ds) then err (not_optional f) else ok false

  -- `dependency_found` before the loop over the list
  unfoldable pub initially_found :
      Bool → Map Text (List (Dependency S R)) → Text → Result SummaryError Bool
  unfolding Map.get
  initially_found namespaced dep_map f =
      if namespaced then found_at_first f (Map.get dep_map f) else ok true

abbrev pub dep_name : FeatureValue → Text
dep_name (feature n) = n
dep_name (krate n) = n
dep_name (krate_feature n _) = n

-- The match on the value, whether a dependency of that name exists and whether one is optional. It
-- returns the map, to which an implicit feature may have been added.
unfoldable pub check_value :
    Bool
    → Features
    → Text
    → FeatureMap
    → FeatureValue
    → Bool
    → Bool
    → Result SummaryError FeatureMap
unfolding Map.get Map.insert
check_value namespaced features f map (feature feat) dep_exists true =
    if namespaced && not (Map.contains_key features feat)
    then ok (Map.insert feat (krate feat ∷ []) map)
    else ok map
check_value namespaced features f map (feature feat) dep_exists false =
    if namespaced && not (Map.contains_key features feat)
    then err (undefined_feature f feat dep_exists)
    else ok map
check_value namespaced features f map (krate dep) true false = err (not_optional_dependency f dep)
check_value namespaced features f map (krate dep) false _ = err (unknown_dependency f dep)
check_value namespaced features f map (krate dep) true true = ok map
check_value namespaced features f map (krate_feature dep _) false _ = err (not_a_dependency f dep)
check_value namespaced features f map (krate_feature dep _) true _ = ok map

abbrev pub finds : Text → FeatureValue → Bool
finds f (krate n) = f == n
finds f _ = false

module _ {S R : Type 0} (namespaced : Bool) (features : Features)
    (dep_map : Map Text (List (Dependency S R))) where
  -- the loop over the values of feature `f`
  unfoldable pub check_values :
      Text
      → List Text
      → FeatureMap
      → List FeatureValue
      → Bool
      → Result SummaryError (FeatureMap × List FeatureValue × Bool)
  unfolding check_value build Map.get
  check_values f [] map values found = ok (map, values, found)
  check_values f (v ∷ vs) map values found =
      let val = build v (Map.contains_key features) namespaced in
      let data' = Map.get dep_map (dep_name val) in
      check_value namespaced features f map val (is_some data') (optional_in data') >>= λ map'.
      check_values f vs map' (values ++ val ∷ []) (found || finds f val)

  unfoldable pub check_feature : Text → List Text → FeatureMap → Result SummaryError FeatureMap
  unfolding check_values initially_found Map.insert
  check_feature f list map = initially_found namespaced dep_map f >>= λ found.
      check_values f list map [] found >>= λ (map', values, found').
      if not found' then err (dependency_left_implicit f) else ok (Map.insert f values map')

  unfoldable pub check_features : Features → FeatureMap → Result SummaryError FeatureMap
  unfolding check_feature
  check_features [] map = ok map
  check_features ((f, list) ∷ rest) map = check_feature f list map >>= check_features rest

unfoldable pub build_feature_map :
    {S R : Type 0} → Features → List (Dependency S R) → Bool → Result SummaryError FeatureMap
unfolding check_features dep_map_of
build_feature_map features dependencies namespaced =
    check_features namespaced features (dep_map_of dependencies []) features []

module _ {S V R : Type 0} where
  abbrev pub made :
      PackageId S V → List (Dependency S R) → Option Text → Bool → FeatureMap → Summary S V R
  made pkg_id dependencies links namespaced_features feature_map = record {
    package_id = pkg_id;
    dependencies = dependencies;
    features = feature_map;
    checksum = none;
    links = links;
    namespaced_features = namespaced_features;
  }

  unfoldable pub new :
      PackageId S V
      → List (Dependency S R)
      → Features
      → Option Text
      → Bool
      → Result SummaryError (Summary S V R)
  unfolding check_dependencies build_feature_map
  new pkg_id dependencies features links namespaced_features =
      check_dependencies namespaced_features features dependencies >>= λ _.
      build_feature_map features dependencies namespaced_features >>= λ feature_map.
      ok (made pkg_id dependencies links namespaced_features feature_map)

  abbrev pub override_id : Summary S V R → PackageId S V → Summary S V R
  override_id s id = record s { package_id = id }

  abbrev pub set_checksum : Summary S V R → Text → Summary S V R
  set_checksum s cksum = record s { checksum = some cksum }

  unfoldable pub map_dependencies :
      Summary S V R → (Dependency S R → Dependency S R) → Summary S V R
  map_dependencies s f = record s { dependencies = map f s.dependencies }

module _ {S V R : Type 0} ⦃es : Eq S⦄ where
  unfoldable pub map_source : Summary S V R → S → S → Summary S V R
  unfolding map_dependencies Dependency.map_source PackageId.with_source_id
  map_source s to_replace replace_with =
      let me =
        if s.package_id.source_id == to_replace
        then override_id s (PackageId.with_source_id s.package_id replace_with)
        else s in
      map_dependencies me (λ dep. Dependency.map_source dep to_replace replace_with)
