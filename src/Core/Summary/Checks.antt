-- ===== src/Core/Summary/Checks.antt =====
--
use toml.Prelude.{
  Text, Bool, true, false, not, ◌&&◌, ◌||◌, ◌≡◌, refl, List, [], ◌∷◌, ◌++◌, all, all_mono,
  all-append, ◌==◌, eq_self, list_eq, list_eq_iff, nat_eq, is_some, ok, err, ◌>>=◌, bind-eq-ok,
  ok-injective, if◌then◌else◌, arith, Bool-cases, inl, inr, subst, ap, sym,
}
use toml.Map
use toml.Map.{Map, get-insert, get-update_or}
use toml.Core.Dependency.{Dependency}
use toml.Core.Feature.{FeatureValue, feature, krate, krate_feature, build}
use toml.Core.Summary.{
  FeatureMap, Features, optional_in, dep_name, finds, check_value, check_values, check_feature,
  check_features, initially_found, dependency_left_implicit, new,
}
use toml.Core.Summary.Known.{
  all_values, all_values-insert, all_values_mono, build-feature, known, known_mono,
}

module _ {S R : Type 0} (namespaced : Bool) (features : Features)
    (dep_map : Map Text (List (Dependency S R))) where
  -- what is known when the map is `map`
  abbrev pub known_in : FeatureMap → FeatureValue → Bool
  known_in map =
      known (λ g. Map.contains_key features g || Map.contains_key map g)
        (λ n. optional_in (Map.get dep_map n)) (λ n. is_some (Map.get dep_map n))

  abbrev Grows : FeatureMap → FeatureMap → Type 0
  Grows map map' = (g : Text) → Map.contains_key map g ≡ true → Map.contains_key map' g ≡ true

  known_in_mono :
      (map map' : FeatureMap)
      → Grows map map'
      → (v : FeatureValue) → known_in map v ≡ true
      → known_in map' v ≡ true
  known_in_mono map map' grows =
      known_mono (λ g. Map.contains_key features g || Map.contains_key map g)
        (λ g. Map.contains_key features g || Map.contains_key map' g)
        (λ n. optional_in (Map.get dep_map n)) (λ n. is_some (Map.get dep_map n))
        (λ g h. ground (arith, h, grows g))

  -- `map'` is `map` grown, its values and `v` are known in it
  abbrev Keeps : FeatureMap → FeatureMap → (FeatureMap → Type 0) → Type 0
  Keeps map map' Q = Grows map map' × (all_values (known_in map') map' ≡ true) × Q map'

  -- An entry is added whose values are known.
  insert-Keeps :
      (map : FeatureMap) (f : Text) (vs : List FeatureValue)
      → all_values (known_in map) map ≡ true
      → all (known_in map) vs ≡ true
      → Keeps map (Map.insert f vs map) (λ m. Map.contains_key m f ≡ true)
  insert-Keeps map f vs all_known new =
      let grows : Grows map (Map.insert f vs map) =
        λ g h. ground (arith, get-insert f g vs map, h) in
      let mono = known_in_mono map (Map.insert f vs map) grows in
      (
        grows,
        all_values-insert (known_in (Map.insert f vs map)) f vs map
            (all_mono (known_in map) (known_in (Map.insert f vs map)) vs mono new)
            (all_values_mono (known_in map) (known_in (Map.insert f vs map)) map mono all_known),
        ground (arith, get-insert f f vs map, eq_self f),
      )

  check_value-Keeps :
      (f : Text) (val : FeatureValue) (map map' : FeatureMap)
      → ((g : Text) → val ≡ feature g → namespaced ≡ false → Map.contains_key features g ≡ true)
      → check_value namespaced features f map val
          (is_some (Map.get dep_map (dep_name val)))
          (optional_in (Map.get dep_map (dep_name val)))
        ≡ ok map'
      → all_values (known_in map) map ≡ true
      → Keeps map map' (λ m. known_in m val ≡ true)
  unfolding check_value
  check_value-Keeps f (krate n) map map' plain h all_known =
      elim (Bool-cases (is_some (Map.get dep_map n))) [
        | inr missing ↦ absurd (ground (arith, missing, h))
        | inl there ↦ elim (Bool-cases (optional_in (Map.get dep_map n))) [
          | inr fixed ↦ absurd (ground (arith, fixed, there, h))
          | inl optional ↦
              let same : map ≡ map' = ok-injective (rw (optional, there) at h) in
              rw (sym same) (λ g c. c, all_known, optional)
        ]
      ]
  check_value-Keeps f (krate_feature n k) map map' plain h all_known =
      elim (Bool-cases (is_some (Map.get dep_map n))) [
        | inr missing ↦ absurd (ground (arith, missing, h))
        | inl there ↦
            let same : map ≡ map' = ok-injective (rw there at h) in
            rw (sym same) (λ g c. c, all_known, there)
      ]
  check_value-Keeps f (feature g) map map' plain h all_known =
      elim (Bool-cases (optional_in (Map.get dep_map g))) [
        | inl optional ↦ elim (Bool-cases (namespaced && not (Map.contains_key features g))) [
          | inl implicit ↦
              let same : Map.insert g (krate g ∷ []) map ≡ map' =
                ok-injective (rw (optional, implicit) at h) in
              let (grows, all_known', there) =
                insert-Keeps map g (krate g ∷ []) all_known (ground (arith, optional)) in
              rw (sym same) (grows, all_known', ground (arith, there))
          | inr plainly ↦ unchanged plainly (ok-injective (rw (optional, plainly) at h))
        ]
        | inr fixed ↦ elim (Bool-cases (namespaced && not (Map.contains_key features g))) [
          | inl implicit ↦ absurd (ground (arith, fixed, implicit, h))
          | inr plainly ↦ unchanged plainly (ok-injective (rw (fixed, plainly) at h))
        ]
      ]
    where
      unchanged :
          (namespaced && not (Map.contains_key features g)) ≡ false
          → map ≡ map'
          → Keeps map map' (λ m. known_in m (feature g) ≡ true)
      unchanged plainly same =
          rw (sym same) (λ i c. c, all_known, ground (arith, plainly, plain g refl))

  check_values-Keeps :
      (f : Text) (vs : List Text) (map map' : FeatureMap) (values values' : List FeatureValue)
      (found found' : Bool)
      → check_values namespaced features dep_map f vs map values found ≡ ok (map', values', found')
      → all_values (known_in map) map ≡ true
      → all (known_in map) values ≡ true
      → Keeps map map' (λ m. all (known_in m) values' ≡ true)
  unfolding check_values
  check_values-Keeps f [] map map' values values' found found' h all_known known_values =
      let same = ok-injective h in
      let same_map : map ≡ map' = ap (λ (m, _, _). m) same in
      let same_values : values ≡ values' = ap (λ (_, vs, _). vs) same in
      rw (sym same_map, sym same_values) (λ g c. c, all_known, known_values)
  check_values-Keeps f (v ∷ vs) map map' values values' found found' h all_known known_values =
      let val = build v (Map.contains_key features) namespaced in
      let (map1, checked, rest) =
        bind-eq-ok
          (check_value namespaced features f map val (is_some (Map.get dep_map (dep_name val)))
            (optional_in (Map.get dep_map (dep_name val))))
          (λ m.
            check_values namespaced features dep_map f vs m (values ++ val ∷ [])
              (found || finds f val))
          h in
      let (grows, all_known1, known_val) =
        check_value-Keeps f val map map1
          (λ g is outside. build-feature v g (Map.contains_key features) (rw outside at is)) checked
          all_known in
      let before =
        all_mono (known_in map) (known_in map1) values (known_in_mono map map1 grows)
          known_values in
      let (grows', all_known', known') =
        check_values-Keeps f vs map1 map' (values ++ val ∷ []) values' (found || finds f val) found'
          rest all_known1
          (ground (arith, all-append (known_in map1) values (val ∷ []), before, known_val)) in
      (λ g c. grows' g (grows g c), all_known', known')

  check_feature-Keeps :
      (f : Text) (list : List Text) (map map' : FeatureMap)
      → check_feature namespaced features dep_map f list map ≡ ok map'
      → all_values (known_in map) map ≡ true
      → Keeps map map' (λ m. Map.contains_key m f ≡ true)
  unfolding check_feature
  check_feature-Keeps f list map map' h all_known =
      let (found, initial, after) =
        bind-eq-ok (initially_found namespaced dep_map f)
          (λ found.
            check_values namespaced features dep_map f list map [] found
            >>= λ (map', values, found').
                if not found'
                then err (dependency_left_implicit f)
                else ok (Map.insert f values map'))
          h in
      let ((map1, values, found'), checked, last) =
        bind-eq-ok (check_values namespaced features dep_map f list map [] found)
          (λ (map', values, found').
            if not found' then err (dependency_left_implicit f) else ok (Map.insert f values map'))
          after in
      let (grows, all_known1, known_values) =
        check_values-Keeps f list map map1 [] values found found' checked all_known refl in
      let inserted : Map.insert f values map1 ≡ map' = ground (arith, last) in
      let (grows', all_known', there) = insert-Keeps map1 f values all_known1 known_values in
      rw (sym inserted) (λ g c. grows' g (grows g c), all_known', there)

  -- At the end each feature of the table is in the map.
  pub check_features-Keeps :
      (rest : Features) (map map' : FeatureMap)
      → check_features namespaced features dep_map rest map ≡ ok map'
      → all_values (known_in map) map ≡ true
      → Keeps map map'
          (λ m. (g : Text) → Map.contains_key rest g ≡ true → Map.contains_key m g ≡ true)
  unfolding check_features Map.get
  check_features-Keeps [] map map' h all_known =
      let same : map ≡ map' = ok-injective h in
      rw (sym same) (λ g c. c, all_known, λ g c. absurd cc)
  check_features-Keeps ((f, list) ∷ rest) map map' h all_known =
      let (map1, checked, after) =
        bind-eq-ok (check_feature namespaced features dep_map f list map)
          (check_features namespaced features dep_map rest) h in
      let (grows, all_known1, there) = check_feature-Keeps f list map map1 checked all_known in
      let (grows', all_known', others) = check_features-Keeps rest map1 map' after all_known1 in
      (
        λ g c. grows' g (grows g c),
        all_known',
        λ g c. elim (Bool-cases (f == g)) [
          | inl same ↦
              subst (λ t. Map.contains_key map' t ≡ true) ((list_eq_iff f g).0 same)
                (grows' f there)
          | inr other ↦ others g (rw other at c)
        ],
      )
