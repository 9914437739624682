-- ===== src/Profiles/Toml.antt =====
-- `TomlProfile` and `TomlProfiles` of util/toml/mod.rs, with their validation.
use toml.Prelude.{
  ℕ, Text, codes, Bool, true, false, not, ◌&&◌, ◌||◌, Option, none, some, is_some, List, [], ◌∷◌,
  ◌++◌, ◌==◌, list_eq, nat_eq, Result, ok, err, panic, out_of_fuel, ◌>>=◌, if◌then◌else◌,
}
use toml.Core.PackageIdSpec.{PackageIdSpec}

pub data U32OrBool : Type 0 where
  u32 : ℕ → U32OrBool
  bool : Bool → U32OrBool

pub data StringOrBool : Type 0 where
  string : Text → StringOrBool
  boolean : Bool → StringOrBool

-- the fields of `TomlProfile` but the overrides
pub record Settings : Type 0 where
  pub opt_level : Option Text
  pub lto : Option StringOrBool
  pub codegen_units : Option ℕ
  pub debug : Option U32OrBool
  pub debug_assertions : Option Bool
  pub rpath : Option Bool
  pub panic : Option Text
  pub overflow_checks : Option Bool
  pub incremental : Option Bool

pub data ProfilePackageSpec (V U : Type 0) : Type 0 where
  spec : PackageIdSpec V U → ProfilePackageSpec V U
  all_packages : ProfilePackageSpec V U

-- A profile with its overrides and its build override, each of which may be missing. The overrides
-- are in the order of their keys.
mutual
  pub data TomlProfile (V U : Type 0) : Type 0 where
    profile : Settings → Overrides V U → BuildOverride V U → TomlProfile V U

  pub data Overrides (V U : Type 0) : Type 0 where
    no_overrides : Overrides V U
    overrides : Entries V U → Overrides V U

  pub data Entries (V U : Type 0) : Type 0 where
    nil : Entries V U
    entry : ProfilePackageSpec V U → TomlProfile V U → Entries V U → Entries V U

  pub data BuildOverride (V U : Type 0) : Type 0 where
    no_build_override : BuildOverride V U
    build_override : TomlProfile V U → BuildOverride V U

pub data TomlError : Type 0 where
  feature_required : TomlError
  nested_overrides : TomlError
  panic_in_override lto_in_override rpath_in_override : TomlError
  overrides_in_other_profile : Text → TomlError
  config_not_valid : Text → TomlError → TomlError

pub data TomlWarning : Type 0 where
  doc_deprecated : TomlWarning
  panic_ignored : Text → TomlWarning

-- `features.require(Feature::profile_overrides())?`
abbrev pub require_feature : Bool → Result TomlError (Unit {0})
require_feature profile_overrides = if profile_overrides then ok tt else err feature_required

abbrev pub may_override : Text → Bool
may_override name = name == codes "dev" || name == codes "release"

abbrev pub warnings_for : Text → Settings → List TomlWarning → List TomlWarning
warnings_for name s warnings =
    if name == codes "doc"
    then warnings ++ doc_deprecated ∷ []
    else if (name == codes "test" || name == codes "bench") && is_some s.panic
    then warnings ++ panic_ignored name ∷ []
    else warnings

module _ {V U : Type 0} where
  abbrev pub settings : TomlProfile V U → Settings
  settings (profile s o b) = s

  abbrev pub list_of : Entries V U → List (ProfilePackageSpec V U × Settings)
  list_of nil = []
  list_of (entry k p es) = (k, settings p) ∷ list_of es

  abbrev pub overrides_of : TomlProfile V U → Overrides V U
  overrides_of (profile s o b) = o

  abbrev pub build_override_of : TomlProfile V U → BuildOverride V U
  build_override_of (profile s o b) = b

  abbrev pub has_overrides : Overrides V U → BuildOverride V U → Bool
  has_overrides no_overrides no_build_override = false
  has_overrides _ _ = true

  unfoldable pub validate_override : TomlProfile V U → Result TomlError (Unit {0})
  validate_override (profile s o b) =
      if has_overrides o b
      then err nested_overrides
      else if is_some s.panic
      then err panic_in_override
      else if is_some s.lto
      then err lto_in_override
      else if is_some s.rpath
      then err rpath_in_override
      else ok tt

  unfoldable pub validate_entries : Entries V U → Result TomlError (Unit {0})
  unfolding validate_override
  validate_entries nil = ok tt
  validate_entries (entry k p es) = validate_override p >>= λ _. validate_entries es

  module _ (profile_overrides : Bool) where
    abbrev pub check_build_override : BuildOverride V U → Result TomlError (Unit {0})
    check_build_override no_build_override = ok tt
    check_build_override (build_override p) =
        require_feature profile_overrides >>= λ _. validate_override p

    abbrev pub check_overrides : Overrides V U → Result TomlError (Unit {0})
    check_overrides no_overrides = ok tt
    check_overrides (overrides es) = require_feature profile_overrides >>= λ _. validate_entries es

    unfoldable pub validate :
        TomlProfile V U → Text → List TomlWarning → Result TomlError (List TomlWarning)
    unfolding validate_override validate_entries
    validate (profile s o b) name warnings = check_build_override b >>= λ _.
        check_overrides o >>= λ _.
        if not (may_override name) && has_overrides o b
        then err (overrides_in_other_profile name)
        else ok (warnings_for name s warnings)

    abbrev pub validate? :
        Option (TomlProfile V U) → Text → List TomlWarning → Result TomlError (List TomlWarning)
    validate? none name warnings = ok warnings
    validate? (some p) name warnings = validate p name warnings

pub record TomlProfiles (V U : Type 0) : Type 0 where
  pub test : Option (TomlProfile V U)
  pub doc : Option (TomlProfile V U)
  pub bench : Option (TomlProfile V U)
  pub dev : Option (TomlProfile V U)
  pub release : Option (TomlProfile V U)

unfoldable pub validate_profiles :
    {V U : Type 0}
    → Bool
    → TomlProfiles V U
    → List TomlWarning
    → Result TomlError (List TomlWarning)
unfolding validate
validate_profiles gate p warnings =
    validate? gate p.test (codes "test") warnings
    >>= validate? gate p.doc (codes "doc")
    >>= validate? gate p.bench (codes "bench")
    >>= validate? gate p.dev (codes "dev")
    >>= validate? gate p.release (codes "release")

-- `ConfigProfiles` of core/profiles.rs
pub record ConfigProfiles (V U : Type 0) : Type 0 where
  pub dev : Option (TomlProfile V U)
  pub release : Option (TomlProfile V U)

-- `chain_err` with the name of the profile
abbrev pub chain_err : {A : Type 0} → Text → Result TomlError A → Result TomlError A
chain_err name (ok a) = ok a
chain_err name (err e) = err (config_not_valid name e)
chain_err name panic = panic
chain_err name out_of_fuel = out_of_fuel

unfoldable pub validate_config :
    {V U : Type 0}
    → Bool
    → ConfigProfiles V U
    → List TomlWarning
    → Result TomlError (List TomlWarning)
unfolding validate
validate_config gate p warnings =
    chain_err (codes "dev") (validate? gate p.dev (codes "dev") warnings) >>= λ warnings.
    chain_err (codes "release") (validate? gate p.release (codes "release") warnings)
