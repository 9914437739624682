-- ===== src/Profiles/Maker.antt =====
-- `Profiles` and `ProfileMaker` of core/profiles.rs, and `CompileMode` of
-- core/compiler/build_config.rs. `config.profiles()` is an argument.
use toml.Prelude.{
  Bool, true, false, not, ◌||◌, Option, none, some, List, [], ◌∷◌, Eq, Result, Never, ok, panic,
  ◌>>=◌, if◌then◌else◌,
}
use toml.Core.PackageId.{PackageId}
use toml.Core.PackageIdSpec.{matches}
use toml.Profiles.{
  Profile, default, default_dev, default_release, default_test, default_bench, default_doc, UnitFor,
  new_normal, merge_profile,
}
use toml.Profiles.Toml.{
  Settings, TomlProfile, profile, Overrides, no_overrides, overrides, Entries, nil, entry,
  BuildOverride, no_build_override, build_override, spec, all_packages, settings, TomlProfiles,
  TomlError, TomlWarning, validate_profiles, ConfigProfiles, validate_config,
}

pub data CompileMode : Type 0 where
  test build bench doctest run_custom_build : CompileMode
  check doc : Bool → CompileMode

abbrev pub is_any_test : CompileMode → Bool
is_any_test test = true
is_any_test bench = true
is_any_test (check t) = t
is_any_test doctest = true
is_any_test _ = false

pub record ProfileMaker (V U : Type 0) : Type 0 where
  pub default : Profile
  pub toml : Option (TomlProfile V U)
  pub config : Option (TomlProfile V U)

pub record Profiles (V U : Type 0) : Type 0 where
  pub dev : ProfileMaker V U
  pub release : ProfileMaker V U
  pub test : ProfileMaker V U
  pub bench : ProfileMaker V U
  pub doc : ProfileMaker V U

abbrev pub merge_given : Profile → Option Settings → Profile
merge_given p none = p
merge_given p (some s) = merge_profile p s

-- the second match fails the assertion
abbrev pub merge_single : Profile → List Settings → Result Never Profile
merge_single p [] = ok p
merge_single p (s ∷ []) = ok (merge_profile p s)
merge_single p (s ∷ other ∷ rest) = panic

abbrev pub clear_panic : UnitFor → CompileMode → Profile → Profile
clear_panic unit_for mode p =
    if not unit_for.panic_ok || is_any_test mode then record p { panic = none } else p

module _ {V U : Type 0} where
  -- `overrides.get(&ProfilePackageSpec::All)`
  abbrev pub all_of : Entries V U → Option Settings
  all_of nil = none
  all_of (entry all_packages p es) = some (settings p)
  all_of (entry (spec s) p es) = all_of es

  abbrev pub merge_build_override : UnitFor → Profile → BuildOverride V U → Profile
  merge_build_override unit_for p no_build_override = p
  merge_build_override unit_for p (build_override toml) =
      if unit_for.custom_build then merge_profile p (settings toml) else p

  -- `profiles.and_then(|p| p.dev.clone())` and its like
  abbrev pub of_profiles :
      Option (TomlProfiles V U)
      → (TomlProfiles V U → Option (TomlProfile V U))
      → Option (TomlProfile V U)
  of_profiles none field = none
  of_profiles (some p) field = field p

  abbrev pub validate_given :
      Bool → Option (TomlProfiles V U) → List TomlWarning → Result TomlError (List TomlWarning)
  validate_given gate none warnings = ok warnings
  validate_given gate (some p) warnings = validate_profiles gate p warnings

  abbrev pub maker_of : Profiles V U → CompileMode → Bool → ProfileMaker V U
  maker_of profiles test release = if release then profiles.bench else profiles.test
  maker_of profiles bench release = profiles.bench
  maker_of profiles (doc deps) release = profiles.doc
  maker_of profiles _ release = if release then profiles.release else profiles.dev

  abbrev pub profiles_of : Option (TomlProfiles V U) → ConfigProfiles V U → Profiles V U
  profiles_of manifest config_profiles = record {
    dev = record {
      default = default_dev;
      toml = of_profiles manifest (λ p. p.dev);
      config = config_profiles.dev;
    };
    release = record {
      default = default_release;
      toml = of_profiles manifest (λ p. p.release);
      config = config_profiles.release;
    };
    test = record {
      default = default_test;
      toml = of_profiles manifest (λ p. p.test);
      config = none;
    };
    bench = record {
      default = default_bench;
      toml = of_profiles manifest (λ p. p.bench);
      config = none;
    };
    doc = record { default = default_doc; toml = of_profiles manifest (λ p. p.doc); config = none };
  }

  -- with the warnings
  unfoldable pub new_profiles :
      Option (TomlProfiles V U)
      → ConfigProfiles V U
      → Bool
      → List TomlWarning
      → Result TomlError (Profiles V U × List TomlWarning)
  new_profiles manifest config_profiles gate warnings =
      validate_given gate manifest warnings >>= λ w.
      validate_config gate config_profiles w >>= λ w. ok (profiles_of manifest config_profiles, w)

module _ {S V U : Type 0} ⦃ev : Eq V⦄ ⦃eu : Eq U⦄ (url_of : S → U) where
  -- the settings whose spec matches the package
  unfoldable pub matching : PackageId S V → Entries V U → List Settings
  matching id nil = []
  matching id (entry all_packages p es) = matching id es
  matching id (entry (spec s) p es) =
      let rest = matching id es in if matches url_of s id then settings p ∷ rest else rest

  abbrev pub merge_spec : Option (PackageId S V) → Profile → Entries V U → Result Never Profile
  merge_spec none p es = ok p
  merge_spec (some id) p es = merge_single p (matching id es)

  abbrev pub merge_overrides :
      Option (PackageId S V) → Bool → Profile → Overrides V U → Result Never Profile
  merge_overrides pkg_id is_member p no_overrides = ok p
  merge_overrides pkg_id is_member p (overrides es) =
      merge_spec pkg_id (if not is_member then merge_given p (all_of es) else p) es

  unfoldable pub merge_toml :
      Option (PackageId S V) → Bool → UnitFor → Profile → TomlProfile V U → Result Never Profile
  unfolding matching
  merge_toml pkg_id is_member unit_for p (profile s o b) =
      merge_overrides pkg_id is_member (merge_build_override unit_for (merge_profile p s) b) o

  abbrev pub merge_toml? :
      Option (PackageId S V)
      → Bool
      → UnitFor
      → Option (TomlProfile V U)
      → Profile
      → Result Never Profile
  merge_toml? pkg_id is_member unit_for none p = ok p
  merge_toml? pkg_id is_member unit_for (some toml) p = merge_toml pkg_id is_member unit_for p toml

  -- `ProfileMaker::get_profile`
  unfoldable pub make_profile :
      ProfileMaker V U → Option (PackageId S V) → Bool → UnitFor → Result Never Profile
  unfolding merge_toml
  make_profile maker pkg_id is_member unit_for =
      merge_toml? pkg_id is_member unit_for maker.toml maker.default
      >>= merge_toml? pkg_id is_member unit_for maker.config

  unfoldable pub get_profile :
      Profiles V U → PackageId S V → Bool → UnitFor → CompileMode → Bool → Result Never Profile
  unfolding make_profile
  get_profile profiles id is_member unit_for mode release =
      make_profile (maker_of profiles mode release) (some id) is_member unit_for >>= λ p.
      ok (clear_panic unit_for mode p)

  unfoldable pub base_profile : Profiles V U → Bool → Result Never Profile
  unfolding make_profile
  base_profile profiles release =
      if release
      then make_profile profiles.release none true new_normal
      else make_profile profiles.dev none true new_normal

abbrev pub get_profile_run_custom_build : Profile → Profile
get_profile_run_custom_build for_unit_profile = record default {
  debuginfo = for_unit_profile.debuginfo;
  opt_level = for_unit_profile.opt_level;
}
