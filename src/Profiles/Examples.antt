-- ===== src/Profiles/Examples.antt =====
-- core/profiles.rs at a profile with overrides.
use toml.Prelude.{ℕ, Text, codes, true, false, none, some, List, [], ◌∷◌, nat_eq, ok, ◌≡◌, refl}
use toml.Core.PackageId.{PackageId}
use toml.Core.PackageIdSpec.{PackageIdSpec}
use toml.Profiles.{Profile, UnitFor, new_normal, new_build, default_dev, lto_bool, named}
use toml.Profiles.Toml.{
  Settings, TomlProfile, profile, no_overrides, overrides, nil, entry, spec, all_packages,
  no_build_override, build_override, TomlProfiles, ConfigProfiles, TomlWarning, panic_ignored,
  string, u32,
}
use toml.Profiles.Maker.{
  build, Profiles, profiles_of, maker_of, clear_panic, get_profile, new_profiles,
}
use toml.Profiles.Packages.{unmatched, validate_packages}
use toml.Profiles.Precedence.{resolved, layers}
use toml.Profiles.Single.{get_profile_precedence}
use toml.Profiles.Uniform.{get_profile_uniform}

abbrev blank : Settings
blank = record {
  opt_level = none;
  lto = none;
  codegen_units = none;
  debug = none;
  debug_assertions = none;
  rpath = none;
  panic = none;
  overflow_checks = none;
  incremental = none;
}

abbrev level : Text → Settings
level o = record blank { opt_level = some o }

abbrev flat : Settings → TomlProfile ℕ ℕ
flat s = profile s no_overrides no_build_override

abbrev spec_of : Text → PackageIdSpec ℕ ℕ
spec_of n = record { name = n; version = none; url = none }

abbrev dev : TomlProfile ℕ ℕ
dev =
    profile
      (record (level (codes "1")) {
        lto = some (string (codes "thin"));
        panic = some (codes "abort");
      })
      (overrides (
        entry (spec (spec_of (codes "image"))) (flat (level (codes "3"))) (
          entry (spec (spec_of (codes "sed"))) (flat (level (codes "s"))) (
            entry all_packages (flat (record (level (codes "2")) { codegen_units = some 4 }))
              nil))))
      (build_override (flat (level (codes "0"))))

abbrev manifest : TomlProfiles ℕ ℕ
manifest = record {
  test = some (flat (record blank { panic = some (codes "abort") }));
  doc = none;
  bench = none;
  dev = some dev;
  release = none;
}

abbrev config : ConfigProfiles ℕ ℕ
config = record { dev = none; release = some (flat (record blank { debug = some (u32 1) })) }

abbrev image : PackageId ℕ ℕ
image = record { name = codes "image"; version = 1; source_id = 7 }

abbrev serde : PackageId ℕ ℕ
serde = record { name = codes "serde"; version = 2; source_id = 7 }

abbrev url_of : ℕ → ℕ
url_of s = s

abbrev profiles : Profiles ℕ ℕ
profiles = profiles_of (some manifest) config

abbrev ids : List (PackageId ℕ ℕ)
ids = image ∷ serde ∷ []

made :
    new_profiles (some manifest) config true [] ≡ ok (profiles, panic_ignored (codes "test") ∷ [])
unfolding new_profiles toml.Profiles.Toml.validate_profiles toml.Profiles.Toml.validate_config
made = refl

-- The override that matches nothing is like the name of a package.
checked :
    validate_packages url_of ids profiles
    ≡ ok (unmatched (spec_of (codes "sed")) (some (codes "serde")) ∷ [])
unfolding validate_packages toml.LevDistance.lev_distance
checked = refl

image_profile :
    get_profile url_of profiles image false new_normal build false
    ≡ ok (record default_dev {
      opt_level = codes "3";
      codegen_units = some 4;
      lto = named (codes "thin");
      panic = some (codes "abort");
    })
unfolding get_profile toml.Core.PackageIdSpec.matches toml.Profiles.merge_profile
image_profile = refl

get_profile_precedence_example :
    get_profile url_of profiles image false new_build build false
    ≡ ok (
        clear_panic new_build build (
          resolved
            (maker_of profiles build false).default
            (layers url_of (maker_of profiles build false) (some image) false new_build)))
get_profile_precedence_example =
    get_profile_precedence url_of profiles ids image false new_build build false
      (unmatched (spec_of (codes "sed")) (some (codes "serde")) ∷ []) checked refl

get_profile_uniform_example :
    (p : Profile) × (get_profile url_of profiles serde true new_normal build false ≡ ok p)
    × (p.lto ≡ named (codes "thin"))
    × (p.rpath ≡ false)
    × (p.panic ≡ some (codes "abort"))
get_profile_uniform_example =
    get_profile_uniform url_of (some manifest) config true [] profiles
      (panic_ignored (codes "test") ∷ []) ids
      (unmatched (spec_of (codes "sed")) (some (codes "serde")) ∷ []) serde true new_normal build
      false made checked refl
