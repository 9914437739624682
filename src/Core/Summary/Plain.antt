-- ===== src/Core/Summary/Plain.antt =====
-- `Summary::new` of core/summary.rs where features share the names of dependencies: it adds no
-- feature, and refuses a dependency that is named like one.
use toml.Prelude.{
  Text, Bool, true, false, not, ◌||◌, ◌≡◌, refl, Option, List, [], ◌∷◌, ◌++◌, all, all_mono,
  list_eq, nat_eq, is_some, ok, err, ◌>>=◌, bind-eq-ok, ok-injective, if◌then◌else◌, arith,
  Bool-cases, inl, inr, ap, sym, ◌∙◌,
}
use toml.Map
use toml.Map.{Map, get-insert}
use toml.Core.PackageId.{PackageId}
use toml.Core.Dependency.{Dependency, name_in_toml}
use toml.Core.Feature.{FeatureValue, feature, krate, krate_feature, build}
use toml.Core.Summary.{
  Summary, FeatureMap, Features, dep_map_of, optional_in, dep_name, finds, check_value,
  check_values, check_feature, check_features, check_dependency, check_dependencies,
  build_feature_map, made, new, initially_found, dependency_left_implicit,
}

check_value-same :
    (features : Features) (f : Text) (map map' : FeatureMap) (val : FeatureValue) (e o : Bool)
    → check_value false features f map val e o ≡ ok map'
    → map ≡ map'
unfolding check_value
check_value-same features f map map' (feature g) e true h = ok-injective h
check_value-same features f map map' (feature g) e false h = ok-injective h
check_value-same features f map map' (krate n) true true h = ok-injective h
check_value-same features f map map' (krate n) true false h = absurd cc
check_value-same features f map map' (krate n) false o h = absurd cc
check_value-same features f map map' (krate_feature n k) true o h = ok-injective h
check_value-same features f map map' (krate_feature n k) false o h = absurd cc

module _ {S R : Type 0} (features : Features) (dep_map : Map Text (List (Dependency S R))) where
  check_values-same :
      (f : Text) (vs : List Text) (map map' : FeatureMap) (values values' : List FeatureValue)
      (found found' : Bool)
      → check_values false features dep_map f vs map values found ≡ ok (map', values', found')
      → map ≡ map'
  unfolding check_values
  check_values-same f [] map map' values values' found found' h =
      ap (λ (m, _, _). m) (ok-injective h)
  check_values-same f (v ∷ vs) map map' values values' found found' h =
      let val = build v (Map.contains_key features) false in
      let there = is_some (Map.get dep_map (dep_name val)) in
      let optional = optional_in (Map.get dep_map (dep_name val)) in
      let (map1, checked, rest) =
        bind-eq-ok (check_value false features f map val there optional)
          (λ m.
            check_values false features dep_map f vs m (values ++ val ∷ []) (found || finds f val))
          h in
      check_value-same features f map map1 val there optional checked
      ∙ check_values-same f vs map1 map' (values ++ val ∷ []) values' (found || finds f val) found'
          rest

  check_feature-insert :
      (f : Text) (list : List Text) (map map' : FeatureMap)
      → check_feature false features dep_map f list map ≡ ok map'
      → (values : List FeatureValue) × (map' ≡ Map.insert f values map)
  unfolding check_feature
  check_feature-insert f list map map' h =
      let (found, initial, after) =
        bind-eq-ok (initially_found false dep_map f)
          (λ found.
            check_values false features dep_map f list map [] found >>= λ (map', values, found').
            if not found' then err (dependency_left_implicit f) else ok (Map.insert f values map'))
          h in
      let ((map1, values, found'), checked, last) =
        bind-eq-ok (check_values false features dep_map f list map [] found)
          (λ (map', values, found').
            if not found' then err (dependency_left_implicit f) else ok (Map.insert f values map'))
          after in
      let same = check_values-same f list map map1 [] values found found' checked in
      let inserted : Map.insert f values map1 ≡ map' = ground (arith, last) in
      (values, sym inserted ∙ ap (Map.insert f values) (sym same))

  check_features-keys :
      (rest : Features) (map map' : FeatureMap)
      → check_features false features dep_map rest map ≡ ok map'
      → (g : Text) → Map.contains_key map' g ≡ true
      → (Map.contains_key rest g || Map.contains_key map g) ≡ true
  unfolding check_features Map.get
  check_features-keys [] map map' h g there =
      let same : map ≡ map' = ok-injective h in rw same there
  check_features-keys ((f, list) ∷ rest) map map' h g there =
      let (map1, checked, after) =
        bind-eq-ok (check_feature false features dep_map f list map)
          (check_features false features dep_map rest) h in
      let (values, same) = check_feature-insert f list map map1 checked in
      let later = check_features-keys rest map1 map' after g there in
      ground (arith, later, ap (λ m. Map.get m g) same, get-insert f g values map)

module _ {S R : Type 0} (features : Features) where
  check_dependencies-unnamed :
      (deps : List (Dependency S R)) {u : Unit {0}}
      → check_dependencies false features deps ≡ ok u
      → all (λ d. not (Map.contains_key features (name_in_toml d))) deps ≡ true
  unfolding check_dependencies
  check_dependencies-unnamed [] h = refl
  check_dependencies-unnamed (d ∷ deps) h =
      let (u, checked, rest) =
        bind-eq-ok (check_dependency false features d) (λ _. check_dependencies false features deps)
          h in
      ground (arith, checked, check_dependencies-unnamed deps rest)

module _ {S V R : Type 0} where
  -- In a summary without namespaced features that `Summary::new` returns, no dependency has the
  -- name of a feature.
  pub new-unnamed :
      (id : PackageId S V) (deps : List (Dependency S R)) (features : Features)
      (links : Option Text) (s : Summary S V R)
      → new id deps features links false ≡ ok s
      → (s.namespaced_features ≡ false)
        × (all (λ d. not (Map.contains_key s.features (name_in_toml d))) s.dependencies ≡ true)
  unfolding new build_feature_map
  new-unnamed id deps features links s h =
      let (u, checked, built) =
        bind-eq-ok (check_dependencies false features deps)
          (λ _. build_feature_map features deps false >>= λ feature_map.
            ok (made id deps links false feature_map))
          h in
      let (feature_map, built', same) =
        bind-eq-ok (build_feature_map features deps false)
          (λ feature_map. ok (made id deps links false feature_map)) built in
      let here : made id deps links false feature_map ≡ s = ok-injective same in
      rw (sym here) (
        refl,
        all_mono (λ d. not (Map.contains_key features (name_in_toml d)))
            (λ d. not (Map.contains_key feature_map (name_in_toml d))) deps
            (λ d no_feature. unnamed d no_feature feature_map built')
            (check_dependencies-unnamed features deps checked),
      )
    where
      unnamed :
          (d : Dependency S R)
          → not (Map.contains_key features (name_in_toml d)) ≡ true
          → (map : FeatureMap) → build_feature_map features deps false ≡ ok map
          → not (Map.contains_key map (name_in_toml d)) ≡ true
      unnamed d no_feature map built = elim (Bool-cases (Map.contains_key map (name_in_toml d))) [
        | inr missing ↦ rw missing refl
        | inl there ↦ ground (
          arith,
          no_feature,
          check_features-keys features (dep_map_of deps []) features [] map built (name_in_toml d)
              there,
        )
      ]
