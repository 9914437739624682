-- ===== src/Core/Summary/Valid.antt =====
-- The feature map that `Summary::new` of core/summary.rs builds names only what there is.
use toml.Prelude.{
  ◌∙◌, Text, Bool, true, ◌&&◌, ◌≡◌, refl, Option, some, List, [], any, all, ◌==◌, list_eq, nat_eq,
  ok, ◌>>=◌, bind-eq-ok, ok-injective, arith, sym,
}
use toml.Map
use toml.Map.{Map, get-insert, get-update_or}
use toml.Core.PackageId.{PackageId}
use toml.Core.Dependency.{Dependency, name_in_toml}
use toml.Core.Feature.{FeatureValue, feature, krate, krate_feature}
use toml.Core.Summary.{
  Summary, FeatureMap, Features, dep_map_of, check_dependencies, build_feature_map, made, new,
}
use toml.Core.Summary.Known.{
  all_values, all_values-get, all_values_mono, is_some-dep_map_of, known, optional_in-dep_map_of,
}
use toml.Core.Summary.Checks.{known_in, check_features-Keeps}

-- what the features of a summary may name
abbrev pub available : {S V R : Type 0} → Summary S V R → FeatureValue → Bool
available s =
    known (Map.contains_key s.features)
      (λ n. any (λ d. name_in_toml d == n && d.optional) s.dependencies)
      (λ n. any (λ d. name_in_toml d == n) s.dependencies)

module _ {S V R : Type 0} where
  known-available :
      (id : PackageId S V) (deps : List (Dependency S R)) (links : Option Text) (namespaced : Bool)
      (features : Features) (map : FeatureMap)
      → ((g : Text) → Map.contains_key features g ≡ true → Map.contains_key map g ≡ true)
      → (v : FeatureValue) → known_in namespaced features (dep_map_of deps []) map v ≡ true
      → available (made id deps links namespaced map) v ≡ true
  unfolding Map.get
  known-available id deps links namespaced features map there (feature g) h =
      ground (arith, there g, h)
  known-available id deps links namespaced features map there (krate n) h =
      sym (optional_in-dep_map_of deps [] n) ∙ h
  known-available id deps links namespaced features map there (krate_feature n k) h =
      sym (is_some-dep_map_of deps [] n) ∙ h

  pub new-all_values :
      (id : PackageId S V) (deps : List (Dependency S R)) (features : Features)
      (links : Option Text) (namespaced : Bool) (s : Summary S V R)
      → new id deps features links namespaced ≡ ok s
      → all_values (available s) s.features ≡ true
  unfolding new build_feature_map
  new-all_values id deps features links namespaced s h =
      let (u, checked, built) =
        bind-eq-ok (check_dependencies namespaced features deps)
          (λ _. build_feature_map features deps namespaced >>= λ feature_map.
            ok (made id deps links namespaced feature_map))
          h in
      let (feature_map, built', same) =
        bind-eq-ok (build_feature_map features deps namespaced)
          (λ feature_map. ok (made id deps links namespaced feature_map)) built in
      let (grows, all_known, all_there) =
        check_features-Keeps namespaced features (dep_map_of deps []) features [] feature_map built'
          refl in
      let here : made id deps links namespaced feature_map ≡ s = ok-injective same in
      rw (sym here) (
        all_values_mono (known_in namespaced features (dep_map_of deps []) feature_map)
          (available (made id deps links namespaced feature_map)) feature_map
          (known-available id deps links namespaced features feature_map all_there) all_known)

  -- In a summary that `Summary::new` returns, what a feature names is there: a feature it requires
  -- is a feature of the summary, a dependency it turns on is an optional dependency, and one whose
  -- feature it turns on is a dependency.
  pub new-available :
      (id : PackageId S V) (deps : List (Dependency S R)) (features : Features)
      (links : Option Text) (namespaced : Bool) (s : Summary S V R)
      → new id deps features links namespaced ≡ ok s
      → (f : Text) (values : List FeatureValue) → Map.get s.features f ≡ some values
      → all (available s) values ≡ true
  new-available id deps features links namespaced s h f values there =
      all_values-get (available s) s.features f values
        (new-all_values id deps features links namespaced s h) there
