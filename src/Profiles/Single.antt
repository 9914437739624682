-- ===== src/Profiles/Single.antt =====
-- What `validate_packages` of core/profiles.rs makes sure of.
use toml.Prelude.{
  ◌≤◌, suc, Text, Bool, true, false, Option, none, some, List, [], ◌∷◌, length, contains, Eq, ◌==◌,
  ok, bind-eq-ok, Bool-cases, ◌≡◌, refl, ap, subst, inl, inr, arith,
}
use toml.Set.{Set}
use toml.Core.PackageId.{PackageId, package_id_eq}
use toml.Core.PackageIdSpec.{PackageIdSpec, matches}
use toml.Profiles.{UnitFor}
use toml.Profiles.Toml.{
  TomlProfile, Overrides, overrides_of, no_overrides, overrides, Entries, nil, entry, spec,
  all_packages,
}
use toml.Profiles.Maker.{
  CompileMode, test, build, bench, check, doc, doctest, run_custom_build, ProfileMaker, Profiles,
  matching, maker_of, clear_panic, get_profile,
}
use toml.Profiles.Packages.{
  PackagesWarning, matching_specs, found_one, found_specs, validate_overrides,
  validate_packages_toml, validate_maker, validate_packages,
}
use toml.Profiles.Precedence.{resolved, layers, Single, FileSingle, make_profile-resolved}

-- what holds of all makers
pub maker_of-cases :
    {V U : Type 0} (P : ProfileMaker V U → Type 0) (profiles : Profiles V U) (mode : CompileMode)
    (release : Bool)
    → P profiles.dev
    → P profiles.release
    → P profiles.test
    → P profiles.bench
    → P profiles.doc
    → P (maker_of profiles mode release)
maker_of-cases P profiles test true dev rel tst ben dc = ben
maker_of-cases P profiles test false dev rel tst ben dc = tst
maker_of-cases P profiles bench release dev rel tst ben dc = ben
maker_of-cases P profiles (doc deps) release dev rel tst ben dc = dc
maker_of-cases P profiles build true dev rel tst ben dc = rel
maker_of-cases P profiles build false dev rel tst ben dc = dev
maker_of-cases P profiles (check t) true dev rel tst ben dc = rel
maker_of-cases P profiles (check t) false dev rel tst ben dc = dev
maker_of-cases P profiles doctest true dev rel tst ben dc = rel
maker_of-cases P profiles doctest false dev rel tst ben dc = dev
maker_of-cases P profiles run_custom_build true dev rel tst ben dc = rel
maker_of-cases P profiles run_custom_build false dev rel tst ben dc = dev

module _ {S V U : Type 0} ⦃es : Eq S⦄ ⦃ev : Eq V⦄ ⦃eu : Eq U⦄ (url_of : S → U) where
  -- The overrides that count are those of the specs that match.
  length-matching :
      (id : PackageId S V) (o : Entries V U)
      → length (matching url_of id o) ≡ length (matching_specs url_of o id)
  unfolding matching
  length-matching id nil = refl
  length-matching id (entry all_packages p o) = length-matching id o
  length-matching id (entry (spec s) p o) = elim (Bool-cases (matches url_of s id)) [
    | inl hit ↦ rw hit (ap suc (length-matching id o))
    | inr miss ↦ rw miss (length-matching id o)
  ]

  found_one-few :
      (name : Text) (id : PackageId S V) (specs : List (PackageIdSpec V U))
      (found after : Set (PackageIdSpec V U))
      → found_one url_of name id specs found ≡ ok after
      → length specs ≤ 1
  found_one-few name id [] found after same = omega arith
  found_one-few name id (s ∷ []) found after same = omega arith
  found_one-few name id (s ∷ other ∷ specs) found after same = cc

  found_specs-Single :
      (name : Text) (o : Entries V U) (ids : List (PackageId S V))
      (found after : Set (PackageIdSpec V U)) (id : PackageId S V)
      → found_specs url_of name o ids found ≡ ok after
      → contains ids id ≡ true
      → length (matching url_of id o) ≤ 1
  unfolding found_specs
  found_specs-Single name o [] found after id same inside = absurd (ground (arith, inside))
  found_specs-Single name o (i ∷ ids) found after id same inside =
      let (next, here, rest) =
        bind-eq-ok (found_one url_of name i (matching_specs url_of o i) found)
          (λ found. found_specs url_of name o ids found) same in
      elim (Bool-cases (i == id)) [
        | inl equal ↦
            let few = found_one-few name i (matching_specs url_of o i) found next here in
            subst (λ i. length (matching url_of i o) ≤ 1) ((package_id_eq.eq_iff i id).0 equal)
              (omega (arith, few, length-matching i o))
        | inr differ ↦
            found_specs-Single name o ids next after id rest (ground (arith, inside, differ))
      ]

  validate_overrides-Single :
      (name : Text) (ids : List (PackageId S V)) (warn_unmatched : Bool) (o : Overrides V U)
      (id : PackageId S V) {ws : List (PackagesWarning S V U)}
      → validate_overrides url_of name ids warn_unmatched o ≡ ok ws
      → contains ids id ≡ true
      → Single url_of (some id) o
  unfolding validate_overrides
  validate_overrides-Single name ids warn_unmatched no_overrides id same inside = tt
  validate_overrides-Single name ids warn_unmatched (overrides o) id same inside =
      let (found, here, rest) = bind-eq-ok (found_specs url_of name o ids []) _ same in
      found_specs-Single name o ids [] found id here inside

  validate_toml-Single :
      (name : Text) (ids : List (PackageId S V)) (toml : Option (TomlProfile V U))
      (warn_unmatched : Bool) (id : PackageId S V) {ws : List (PackagesWarning S V U)}
      → validate_packages_toml url_of name ids toml warn_unmatched ≡ ok ws
      → contains ids id ≡ true
      → FileSingle url_of (some id) toml
  validate_toml-Single name ids none warn_unmatched id same inside = tt
  validate_toml-Single name ids (some toml) warn_unmatched id same inside =
      validate_overrides-Single name ids warn_unmatched (overrides_of toml) id same inside

  -- the maker has checked this package
  abbrev Checked : PackageId S V → ProfileMaker V U → Type 0
  Checked id maker =
      FileSingle url_of (some id) maker.toml × FileSingle url_of (some id) maker.config

  validate_maker-Checked :
      (ids : List (PackageId S V)) (maker : ProfileMaker V U) (id : PackageId S V)
      {ws : List (PackagesWarning S V U)}
      → validate_maker url_of ids maker ≡ ok ws
      → contains ids id ≡ true
      → Checked id maker
  validate_maker-Checked ids maker id same inside =
      let (ws, in_toml, rest) =
        bind-eq-ok (validate_packages_toml url_of maker.default.name ids maker.toml true) _ same in
      let (more, in_config, end) =
        bind-eq-ok (validate_packages_toml url_of maker.default.name ids maker.config false) _
          rest in
      (
        validate_toml-Single maker.default.name ids maker.toml true id in_toml inside,
        validate_toml-Single maker.default.name ids maker.config false id in_config inside,
      )

  validate_packages-Checked :
      (profiles : Profiles V U) (ids : List (PackageId S V)) (id : PackageId S V)
      (mode : CompileMode) (release : Bool) {ws : List (PackagesWarning S V U)}
      → validate_packages url_of ids profiles ≡ ok ws
      → contains ids id ≡ true
      → Checked id (maker_of profiles mode release)
  unfolding validate_packages
  validate_packages-Checked profiles ids id mode release same inside =
      let (a, dev, rest) = bind-eq-ok (validate_maker url_of ids profiles.dev) _ same in
      let (b, rel, rest) = bind-eq-ok (validate_maker url_of ids profiles.release) _ rest in
      let (c, tst, rest) = bind-eq-ok (validate_maker url_of ids profiles.test) _ rest in
      let (d, ben, rest) = bind-eq-ok (validate_maker url_of ids profiles.bench) _ rest in
      let (e, dc, rest) = bind-eq-ok (validate_maker url_of ids profiles.doc) _ rest in
      let checked : (maker : ProfileMaker V U) (ws : List (PackagesWarning S V U))
          → validate_maker url_of ids maker ≡ ok ws
          → Checked id maker =
        λ maker ws h. validate_maker-Checked ids maker id h inside in
      maker_of-cases (Checked id) profiles mode release (checked profiles.dev a dev)
        (checked profiles.release b rel) (checked profiles.test c tst)
        (checked profiles.bench d ben) (checked profiles.doc e dc)

  -- Once `validate_packages` has succeeded, `get_profile` returns for every package of the set,
  -- whether it is a member or not and whatever it is built for, and its assertion does not fail.
  -- Each field of the result but the panic strategy is the first that is given in this order: in the
  -- configuration and then in the manifest, the override that names the package, the override of all
  -- packages if it is not a member, the build override if it is built for a build script, and the
  -- profile itself; and it is the default if none gives it. The panic strategy is that field too,
  -- but none for what does not allow one and for tests.
  pub get_profile_precedence :
      (profiles : Profiles V U) (ids : List (PackageId S V)) (id : PackageId S V) (is_member : Bool)
      (unit_for : UnitFor) (mode : CompileMode) (release : Bool) (ws : List (PackagesWarning S V U))
      → validate_packages url_of ids profiles ≡ ok ws
      → contains ids id ≡ true
      → get_profile url_of profiles id is_member unit_for mode release
        ≡ ok (
            clear_panic unit_for mode (
              resolved
                (maker_of profiles mode release).default
                (layers url_of (maker_of profiles mode release) (some id) is_member unit_for)))
  unfolding get_profile
  get_profile_precedence profiles ids id is_member unit_for mode release ws same inside =
      let maker = maker_of profiles mode release in
      let (in_toml, in_config) =
        validate_packages-Checked profiles ids id mode release same inside in
      rw (make_profile-resolved url_of maker (some id) is_member unit_for in_toml in_config) refl
