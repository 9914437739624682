-- ===== src/Profiles/Packages.antt =====
-- `validate_packages` of core/profiles.rs. What `shell.warn` is given is collected.
use toml.Prelude.{
  ℕ, Text, Bool, true, false, not, Option, none, some, List, [], ◌∷◌, ◌++◌, keep, Eq, ◌==◌,
  contains, list_eq, nat_eq, ltb, Result, Never, ok, err, panic, out_of_fuel, ◌>>=◌, if◌then◌else◌,
}
use toml.Set
use toml.Set.{Set}
use toml.LevDistance.{lev_distance}
use toml.Core.PackageId.{PackageId}
use toml.Core.PackageIdSpec.{PackageIdSpec, matches, package_id_spec_eq}
use toml.Profiles.Toml.{
  TomlProfile, Overrides, no_overrides, overrides, Entries, nil, entry, spec, all_packages,
  overrides_of,
}
use toml.Profiles.Maker.{ProfileMaker, Profiles}

pub data PackagesError (S V U : Type 0) : Type 0 where
  multiple_overrides : Text → PackageId S V → List (PackageIdSpec V U) → PackagesError S V U

pub data PackagesWarning (S V U : Type 0) : Type 0 where
  unmatched : PackageIdSpec V U → Option Text → PackagesWarning S V U
  other_version_or_url : PackageIdSpec V U → List (PackageId S V) → PackagesWarning S V U

-- what has no error value, as a part of what has
abbrev pub lift : {E A : Type 0} → Result Never A → Result E A
lift (ok a) = ok a
lift (err e) = elim e [ ]
lift panic = panic
lift out_of_fuel = out_of_fuel

abbrev pub specs_of : {V U : Type 0} → Entries V U → List (PackageIdSpec V U)
specs_of nil = []
specs_of (entry all_packages p es) = specs_of es
specs_of (entry (spec s) p es) = s ∷ specs_of es

-- `filter(|&(d, _)| d < 4).min_by_key(|p| p.0)`, of what came before and one more
abbrev pub nearer : Option (ℕ × Text) → ℕ → Text → Option (ℕ × Text)
nearer none d name = if ltb d 4 then some (d, name) else none
nearer (some (e, other)) d name = if ltb d e then some (d, name) else some (e, other)

abbrev pub name_of_nearest : Option (ℕ × Text) → Option Text
name_of_nearest none = none
name_of_nearest (some (d, name)) = some name

module _ {S V : Type 0} where
  unfoldable pub nearest :
      Text → List (PackageId S V) → Option (ℕ × Text) → Result Never (Option (ℕ × Text))
  nearest name [] best = ok best
  nearest name (id ∷ ids) best =
      lev_distance name id.name >>= λ d. nearest name ids (nearer best d id.name)

  abbrev pub suggestion : Text → List (PackageId S V) → Result Never (Option Text)
  suggestion name ids = nearest name ids none >>= λ best. ok (name_of_nearest best)

  abbrev pub name_matches : Text → List (PackageId S V) → List (PackageId S V)
  name_matches name ids = keep (λ id. id.name == name) ids

module _ {S V U : Type 0} ⦃ev : Eq V⦄ ⦃eu : Eq U⦄ (url_of : S → U) where
  abbrev pub matching_specs : Entries V U → PackageId S V → List (PackageIdSpec V U)
  matching_specs es id = keep (λ s. matches url_of s id) (specs_of es)

  abbrev pub found_one :
      Text
      → PackageId S V
      → List (PackageIdSpec V U)
      → Set (PackageIdSpec V U)
      → Result (PackagesError S V U) (Set (PackageIdSpec V U))
  found_one name id [] found = ok found
  found_one name id (s ∷ []) found = ok (Set.insert s found)
  found_one name id (s ∷ other ∷ specs) found = err (multiple_overrides name id (s ∷ other ∷ specs))

  unfoldable pub found_specs :
      Text
      → Entries V U
      → List (PackageId S V)
      → Set (PackageIdSpec V U)
      → Result (PackagesError S V U) (Set (PackageIdSpec V U))
  unfolding matches Set.insert
  found_specs name es [] found = ok found
  found_specs name es (id ∷ ids) found =
      found_one name id (matching_specs es id) found >>= λ found. found_specs name es ids found

  abbrev pub warning_for :
      List (PackageId S V)
      → PackageIdSpec V U
      → List (PackageId S V)
      → Result (PackagesError S V U) (PackagesWarning S V U)
  warning_for ids s [] = lift (suggestion s.name ids) >>= λ n. ok (unmatched s n)
  warning_for ids s (id ∷ same) = ok (other_version_or_url s (id ∷ same))

  unfoldable pub missing_warnings :
      List (PackageId S V)
      → List (PackageIdSpec V U)
      → Result (PackagesError S V U) (List (PackagesWarning S V U))
  unfolding nearest
  missing_warnings ids [] = ok []
  missing_warnings ids (s ∷ specs) = warning_for ids s (name_matches s.name ids) >>= λ w.
      missing_warnings ids specs >>= λ ws. ok (w ∷ ws)

  unfoldable pub validate_overrides :
      Text
      → List (PackageId S V)
      → Bool
      → Overrides V U
      → Result (PackagesError S V U) (List (PackagesWarning S V U))
  unfolding found_specs missing_warnings
  validate_overrides name ids warn_unmatched no_overrides = ok []
  validate_overrides name ids warn_unmatched (overrides es) =
      found_specs name es ids [] >>= λ found.
      if not warn_unmatched
      then ok []
      else missing_warnings ids (keep (λ s. not (contains found s)) (specs_of es))

  abbrev pub validate_packages_toml :
      Text
      → List (PackageId S V)
      → Option (TomlProfile V U)
      → Bool
      → Result (PackagesError S V U) (List (PackagesWarning S V U))
  validate_packages_toml name ids none warn_unmatched = ok []
  validate_packages_toml name ids (some toml) warn_unmatched =
      validate_overrides name ids warn_unmatched (overrides_of toml)

  -- `ProfileMaker::validate_packages`
  abbrev pub validate_maker :
      List (PackageId S V)
      → ProfileMaker V U
      → Result (PackagesError S V U) (List (PackagesWarning S V U))
  validate_maker ids maker = validate_packages_toml maker.default.name ids maker.toml true >>= λ ws.
      validate_packages_toml maker.default.name ids maker.config false >>= λ more. ok (ws ++ more)

  unfoldable pub validate_packages :
      List (PackageId S V)
      → Profiles V U
      → Result (PackagesError S V U) (List (PackagesWarning S V U))
  unfolding validate_overrides
  validate_packages ids profiles = validate_maker ids profiles.dev >>= λ dev.
      validate_maker ids profiles.release >>= λ release.
      validate_maker ids profiles.test >>= λ test. validate_maker ids profiles.bench >>= λ bench.
      validate_maker ids profiles.doc >>= λ doc. ok (dev ++ release ++ test ++ bench ++ doc)
