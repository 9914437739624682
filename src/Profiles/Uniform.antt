-- ===== src/Profiles/Uniform.antt =====
-- Which settings of core/profiles.rs are the same for every package: `TomlProfile::validate` of
-- util/toml/mod.rs lets no override give them.
use toml.Prelude.{
  Bool, true, false, not, ◌||◌, Option, none, some, List, [], ◌∷◌, ◌++◌, All, contains, Eq, ok,
  Bool-cases, ◌≡◌, refl, ap, ◌∙◌, inl, inr,
}
use toml.Core.PackageId.{PackageId, package_id_eq}
use toml.Core.PackageIdSpec.{matches}
use toml.Profiles.{Profile, UnitFor, or_old, lto_of}
use toml.Profiles.Toml.{
  Settings, TomlProfile, profile, Overrides, no_overrides, overrides, Entries, nil, entry, spec,
  all_packages, BuildOverride, no_build_override, build_override, settings, TomlWarning,
  TomlProfiles, ConfigProfiles,
}
use toml.Profiles.Maker.{
  CompileMode, ProfileMaker, Profiles, matching, all_of, maker_of, is_any_test, clear_panic,
  get_profile, new_profiles,
}
use toml.Profiles.Packages.{PackagesWarning, validate_packages}
use toml.Profiles.Precedence.{
  or_else, first_given, resolved, list_of, build_layer, override_layers, file_layers, layers,
}
use toml.Profiles.Single.{get_profile_precedence}
use toml.Profiles.Validated.{
  Silent, SilentOverrides, SilentBuild, SilentEntries, Plain?, PlainMaker, new_profiles-Plain,
}

-- the three fields agree
abbrev Alike : List Settings → List Settings → Type 0
Alike xs ys =
    (first_given (λ s. s.panic) xs ≡ first_given (λ s. s.panic) ys)
    × (first_given (λ s. s.lto) xs ≡ first_given (λ s. s.lto) ys)
    × (first_given (λ s. s.rpath) xs ≡ first_given (λ s. s.rpath) ys)

Alike-Silent : (xs ys : List Settings) → All Silent xs → Alike (xs ++ ys) ys
Alike-Silent [] ys quiet = (refl, refl, refl)
Alike-Silent (x ∷ xs) ys ((p, l, r), quiet) =
    let (p', l', r') = Alike-Silent xs ys quiet in (rw p p', rw l l', rw r r')

first_given-append :
    {A : Type 0} (f : Settings → Option A) (xs ys : List Settings)
    → first_given f (xs ++ ys) ≡ or_else (first_given f xs) (first_given f ys)
first_given-append f [] ys = refl
first_given-append f (x ∷ xs) ys =
    elim (f x)
      as (λ o.
        or_else o (first_given f (xs ++ ys))
        ≡ or_else (or_else o (first_given f xs)) (first_given f ys)) [
          | none ↦ first_given-append f xs ys
          | some a ↦ refl
        ]

Alike-append :
    (xs xs' ys ys' : List Settings) → Alike xs xs' → Alike ys ys' → Alike (xs ++ ys) (xs' ++ ys')
Alike-append xs xs' ys ys' (p, l, r) (p', l', r') = (
  rw (first_given-append (λ s. s.panic) xs ys, first_given-append (λ s. s.panic) xs' ys', p, p')
      refl,
  rw (first_given-append (λ s. s.lto) xs ys, first_given-append (λ s. s.lto) xs' ys', l, l') refl,
  rw (first_given-append (λ s. s.rpath) xs ys, first_given-append (λ s. s.rpath) xs' ys', r, r')
      refl,
)

module _ {V U : Type 0} where
  -- the settings of the profile itself
  abbrev pub own : Option (TomlProfile V U) → List Settings
  own none = []
  own (some p) = settings p ∷ []

  abbrev pub own_layers : ProfileMaker V U → List Settings
  own_layers maker = own maker.config ++ own maker.toml

  build_layer-Silent :
      (unit_for : UnitFor) (b : BuildOverride V U)
      → SilentBuild b
      → All Silent (build_layer unit_for b)
  build_layer-Silent unit_for no_build_override quiet = tt
  build_layer-Silent unit_for (build_override p) quiet = elim (Bool-cases unit_for.custom_build) [
    | inl custom ↦ rw custom (quiet, tt)
    | inr other ↦ rw other tt
  ]

  all_of-Silent : (es : Entries V U) → SilentEntries es → All Silent (list_of (all_of es))
  all_of-Silent nil quiet = tt
  all_of-Silent (entry all_packages p es) (here, rest) = (here, tt)
  all_of-Silent (entry (spec s) p es) (here, rest) = all_of-Silent es rest

All-append : (xs ys : List Settings) → All Silent xs → All Silent ys → All Silent (xs ++ ys)
All-append [] ys a b = b
All-append (x ∷ xs) ys (h, a) b = (h, All-append xs ys a b)

module _ {S V U : Type 0} ⦃es : Eq S⦄ ⦃ev : Eq V⦄ ⦃eu : Eq U⦄ (url_of : S → U) where
  matching-Silent :
      (id : PackageId S V) (o : Entries V U) → SilentEntries o → All Silent (matching url_of id o)
  unfolding matching
  matching-Silent id nil quiet = tt
  matching-Silent id (entry all_packages p o) (here, rest) = matching-Silent id o rest
  matching-Silent id (entry (spec s) p o) (here, rest) = elim (Bool-cases (matches url_of s id)) [
    | inl hit ↦ rw hit (here, matching-Silent id o rest)
    | inr miss ↦ rw miss (matching-Silent id o rest)
  ]

  override_layers-Silent :
      (id : PackageId S V) (is_member : Bool) (o : Overrides V U)
      → SilentOverrides o
      → All Silent (override_layers url_of (some id) is_member o)
  override_layers-Silent id is_member no_overrides quiet = tt
  override_layers-Silent id true (overrides o) quiet =
      All-append (matching url_of id o) [] (matching-Silent id o quiet) tt
  override_layers-Silent id false (overrides o) quiet =
      All-append (matching url_of id o) (list_of (all_of o)) (matching-Silent id o quiet)
        (all_of-Silent o quiet)

  file_layers-Alike :
      (id : PackageId S V) (is_member : Bool) (unit_for : UnitFor) (p : Option (TomlProfile V U))
      → Plain? p
      → Alike (file_layers url_of (some id) is_member unit_for p) (own p)
  file_layers-Alike id is_member unit_for none quiet = (refl, refl, refl)
  file_layers-Alike id is_member unit_for (some (profile s o b)) (named, build) =
      let top = override_layers url_of (some id) is_member o in
      let mid = build_layer unit_for b in
      let (p, l, r) =
        Alike-Silent top (mid ++ s ∷ []) (override_layers-Silent id is_member o named) in
      let (p', l', r') = Alike-Silent mid (s ∷ []) (build_layer-Silent unit_for b build) in
      (p ∙ p', l ∙ l', r ∙ r')

  layers-Alike :
      (id : PackageId S V) (is_member : Bool) (unit_for : UnitFor) (maker : ProfileMaker V U)
      → PlainMaker maker
      → Alike (layers url_of maker (some id) is_member unit_for) (own_layers maker)
  unfolding layers
  layers-Alike id is_member unit_for maker (in_toml, in_config) =
      Alike-append (file_layers url_of (some id) is_member unit_for maker.config) (own maker.config)
        (file_layers url_of (some id) is_member unit_for maker.toml) (own maker.toml)
        (file_layers-Alike id is_member unit_for maker.config in_config)
        (file_layers-Alike id is_member unit_for maker.toml in_toml)

clear_panic-Alike :
    (unit_for : UnitFor) (mode : CompileMode) (p q : Profile)
    → p.lto ≡ q.lto
    → p.rpath ≡ q.rpath
    → p.panic ≡ q.panic
    → ((clear_panic unit_for mode p).lto ≡ q.lto)
      × ((clear_panic unit_for mode p).rpath ≡ q.rpath)
      × ((clear_panic unit_for mode p).panic ≡ (clear_panic unit_for mode q).panic)
clear_panic-Alike unit_for mode p q lto rpath panic =
    elim (Bool-cases (not unit_for.panic_ok || is_any_test mode)) [
      | inl clear ↦ rw clear (lto, rpath, refl)
      | inr keep ↦ rw keep (lto, rpath, panic)
    ]

-- If `Profiles::new` and `validate_packages` have succeeded, `get_profile` returns for every package
-- of the set, and the `lto` and the `rpath` of the result are those that the profile itself gives,
-- in the configuration or else in the manifest, or the default: they are the same for all packages,
-- whether members or not and whatever they are built for. So is the panic strategy, but where it is
-- cleared.
pub get_profile_uniform :
    {S V U : Type 0} ⦃es : Eq S⦄ ⦃ev : Eq V⦄ ⦃eu : Eq U⦄ (url_of : S → U)
    (manifest : Option (TomlProfiles V U)) (config : ConfigProfiles V U) (gate : Bool)
    (before : List TomlWarning) (profiles : Profiles V U) (after : List TomlWarning)
    (ids : List (PackageId S V)) (ws : List (PackagesWarning S V U)) (id : PackageId S V)
    (is_member : Bool) (unit_for : UnitFor) (mode : CompileMode) (release : Bool)
    → new_profiles manifest config gate before ≡ ok (profiles, after)
    → validate_packages url_of ids profiles ≡ ok ws
    → contains ids id ≡ true
    → let maker = maker_of profiles mode release in
      let itself = resolved maker.default (own_layers maker) in
      (p : Profile) × (get_profile url_of profiles id is_member unit_for mode release ≡ ok p)
      × (p.lto ≡ itself.lto)
      × (p.rpath ≡ itself.rpath)
      × (p.panic ≡ (clear_panic unit_for mode itself).panic)
get_profile_uniform url_of manifest config gate before profiles after ids ws id is_member unit_for
      mode release made checked inside =
    let maker = maker_of profiles mode release in
    let (p, l, r) =
      layers-Alike url_of id is_member unit_for maker
        (new_profiles-Plain manifest config gate before profiles after mode release made) in
    let found = resolved maker.default (layers url_of maker (some id) is_member unit_for) in
    let (lto, rpath, panic) =
      clear_panic-Alike unit_for mode found (resolved maker.default (own_layers maker))
        (ap (λ o. or_old lto_of o maker.default.lto) l)
        (ap (λ o. or_old (λ b. b) o maker.default.rpath) r)
        (ap (λ o. or_old (λ n. some n) o maker.default.panic) p) in
    (
      clear_panic unit_for mode found,
      get_profile_precedence url_of profiles ids id is_member unit_for mode release ws checked
          inside,
      lto,
      rpath,
      panic,
    )
