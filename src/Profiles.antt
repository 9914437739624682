-- ===== src/Profiles.antt =====
-- core/profiles.rs: the compiler settings of a package. The settings of a manifest are from
-- util/toml/mod.rs; a feature gate is an argument.
pub mod Toml
pub mod Maker
pub mod Packages
pub mod Precedence
pub mod Single
pub mod Validated
pub mod Uniform
mod Examples
use toml.Prelude.{
  ℕ, Text, codes, Bool, true, false, not, ◌&&◌, ◌||◌, Option, none, some, is_some, List, [], ◌∷◌,
}
use toml.Profiles.Toml.{Settings, U32OrBool, u32, bool, StringOrBool, string, boolean}

-- the link-time optimization
pub data Lto : Type 0 where
  lto_bool : Bool → Lto
  named : Text → Lto

pub record Profile : Type 0 where
  pub name : Text
  pub opt_level : Text
  pub lto : Lto
  pub codegen_units : Option ℕ
  pub debuginfo : Option ℕ
  pub debug_assertions : Bool
  pub overflow_checks : Bool
  pub rpath : Bool
  pub incremental : Bool
  pub panic : Option Text

abbrev pub default : Profile
default = record {
  name = [];
  opt_level = codes "0";
  lto = lto_bool false;
  codegen_units = none;
  debuginfo = none;
  debug_assertions = false;
  overflow_checks = false;
  rpath = false;
  incremental = false;
  panic = none;
}

abbrev pub default_dev : Profile
default_dev = record default {
  name = codes "dev";
  debuginfo = some 2;
  debug_assertions = true;
  overflow_checks = true;
  incremental = true;
}

abbrev pub default_release : Profile
default_release = record default { name = codes "release"; opt_level = codes "3" }

abbrev pub default_test : Profile
default_test = record default_dev { name = codes "test" }

abbrev pub default_bench : Profile
default_bench = record default_release { name = codes "bench" }

abbrev pub default_doc : Profile
default_doc = record default_dev { name = codes "doc" }

pub record UnitFor : Type 0 where
  pub custom_build : Bool
  pub panic_ok : Bool

abbrev pub new_normal : UnitFor
new_normal = record { custom_build = false; panic_ok = true }

abbrev pub new_build : UnitFor
new_build = record { custom_build = true; panic_ok = false }

abbrev pub new_compiler : UnitFor
new_compiler = record { custom_build = false; panic_ok = false }

abbrev pub new_test : UnitFor
new_test = record { custom_build = false; panic_ok = false }

abbrev pub with_for_host : UnitFor → Bool → UnitFor
with_for_host unit_for for_host = record unit_for { panic_ok = unit_for.panic_ok && not for_host }

abbrev pub all_values : List UnitFor
all_values = new_normal ∷ new_build ∷ new_compiler ∷ []

-- what the settings give for a field
abbrev pub lto_of : StringOrBool → Lto
lto_of (boolean b) = lto_bool b
lto_of (string n) = named n

abbrev pub debuginfo_of : U32OrBool → Option ℕ
debuginfo_of (u32 n) = some n
debuginfo_of (bool true) = some 2
debuginfo_of (bool false) = none

-- a field that is given replaces the old one
abbrev pub or_old : {A B : Type 0} → (A → B) → Option A → B → B
or_old f none old = old
or_old f (some a) old = f a

unfoldable pub merge_profile : Profile → Settings → Profile
merge_profile profile toml = record profile {
  opt_level = or_old (λ o. o) toml.opt_level profile.opt_level;
  lto = or_old lto_of toml.lto profile.lto;
  codegen_units = or_old (λ n. some n) toml.codegen_units profile.codegen_units;
  debuginfo = or_old debuginfo_of toml.debug profile.debuginfo;
  debug_assertions = or_old (λ b. b) toml.debug_assertions profile.debug_assertions;
  rpath = or_old (λ b. b) toml.rpath profile.rpath;
  panic = or_old (λ p. some p) toml.panic profile.panic;
  overflow_checks = or_old (λ b. b) toml.overflow_checks profile.overflow_checks;
  incremental = or_old (λ b. b) toml.incremental profile.incremental;
}
