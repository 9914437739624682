-- ===== src/Resolver/Requirements.antt =====
-- `build_requirements` of core/resolver/context.rs: what the requested features of a package turn on.
pub mod Updates
pub mod Progress
pub mod Returns
pub mod Closed
pub mod Kept
pub mod Plain
pub mod Namespaced
pub mod SameName
pub mod Examples
use toml.Prelude.{
  ℕ, zero, suc, Text, codes, Bool, true, false, ◌||◌, Option, none, some, List, [], ◌∷◌, ◌++◌, keep,
  length, Eq, ◌==◌, list_eq, nat_eq, contains, Result, ok, err, panic, out_of_fuel, ◌>>=◌,
  if◌then◌else◌,
}
use toml.Map
use toml.Map.{Map}
use toml.Set
use toml.Set.{Set}
use toml.Core.Dependency.{Dependency, name_in_toml}
use toml.Core.Feature.{FeatureValue, feature, krate, krate_feature, build}
use toml.Core.Summary.{Summary}
use toml.Resolver.Types.{Method, Required, everything, required}

pub record Requirements : Type 0 where
  pub deps : Map Text (Bool × List Text)
  pub used : Set Text
  pub visited : Set Text

abbrev pub new : Requirements
new = record { deps = []; used = []; visited = [] }

-- the feature that depends on itself
pub data RequirementsError : Type 0 where
  cyclic : Text → RequirementsError

unfoldable pub require_crate_feature : Text → Text → Requirements → Requirements
unfolding Set.insert Map.update_or
require_crate_feature pkg feat r = record r {
  used = Set.insert pkg r.used;
  deps = Map.update_or pkg (false, []) (λ (on, fs). (on, fs ++ feat ∷ [])) r.deps;
}

-- `seen`: what it answers, and the sets it leaves when it answers `false`
abbrev pub seen : Text → Requirements → Bool
seen feat r = contains r.visited feat

abbrev pub see : Text → Requirements → Requirements
see feat r = record r { visited = feat ∷ r.visited; used = Set.insert feat r.used }

-- `or_insert((false, Vec::new())).0 = true`
abbrev pub turn_on : Text → Requirements → Requirements
turn_on pkg r = record r { deps = Map.update_or pkg (false, []) (λ (on, fs). (true, fs)) r.deps }

unfoldable pub require_dependency : Text → Requirements → Requirements
unfolding Map.update_or Set.insert
require_dependency pkg r = if seen pkg r then r else turn_on pkg (see pkg r)

-- `require` stands for `require_feature`.
unfoldable pub require_value :
    (Text → Requirements → Result RequirementsError Requirements)
    → FeatureValue
    → Requirements
    → Result RequirementsError Requirements
unfolding require_dependency require_crate_feature
require_value require (feature feat) r = require feat r
require_value require (krate dep) r = ok (require_dependency dep r)
require_value require (krate_feature dep dep_feat) r = ok (require_crate_feature dep dep_feat r)

abbrev pub depends_on : Text → FeatureValue → Bool
depends_on feat (feature dep_feat) = dep_feat == feat
depends_on feat _ = false

-- the loop over the values of `feat`
unfoldable pub require_each :
    (Text → Requirements → Result RequirementsError Requirements)
    → Text
    → List FeatureValue
    → Requirements
    → Result RequirementsError Requirements
unfolding require_value
require_each require feat [] r = ok r
require_each require feat (fv ∷ fvs) r =
    if depends_on feat fv
    then err (cyclic feat)
    else require_value require fv r >>= require_each require feat fvs

module _ {S V R : Type 0} (s : Summary S V R) where
  -- what `get` found, or a failed `expect`
  abbrev pub require_found :
      (Text → Requirements → Result RequirementsError Requirements)
      → Text
      → Option (List FeatureValue)
      → Requirements
      → Result RequirementsError Requirements
  require_found require feat none r = panic
  require_found require feat (some fvs) r = require_each require feat fvs r

  -- The fuel bounds the depth of the calls.
  unfoldable pub require_feature : ℕ → Text → Requirements → Result RequirementsError Requirements
  unfolding require_each Map.get Set.insert
  require_feature zero feat r = out_of_fuel
  require_feature (suc n) feat r =
      let found = require_found (require_feature n) feat (Map.get s.features feat) (see feat r) in
      if feat == [] || seen feat r then ok r else found

  abbrev pub fuel : ℕ
  fuel = suc (length s.features)

  unfoldable pub require_features : List Text → Requirements → Result RequirementsError Requirements
  unfolding require_feature
  require_features [] r = ok r
  require_features (f ∷ fs) r = require_feature fuel f r >>= require_features fs

  unfoldable pub require_dependencies : List (Dependency S R) → Requirements → Requirements
  unfolding require_dependency name_in_toml
  require_dependencies [] r = r
  require_dependencies (d ∷ ds) r = require_dependencies ds (require_dependency (name_in_toml d) r)

  unfoldable pub require_requested :
      List Text → Requirements → Result RequirementsError Requirements
  unfolding require_value require_feature build Map.get
  require_requested [] r = ok r
  require_requested (f ∷ fs) r =
      require_value (require_feature fuel)
        (build f (Map.contains_key s.features) s.namespaced_features) r
      >>= require_requested fs

  abbrev pub require_all : Requirements → Result RequirementsError Requirements
  require_all r = require_features (Map.keys s.features) r >>= λ r'.
      ok (require_dependencies (keep (λ d. d.optional) s.dependencies) r')

  -- the first match on the method
  abbrev pub require_method : Method → Requirements → Result RequirementsError Requirements
  require_method everything r = require_all r
  require_method (required m) r =
      if m.all_features then require_all r else require_requested m.features r

  abbrev pub wants_default : Method → Bool
  wants_default everything = true
  wants_default (required m) = m.uses_default_features

  -- the second one
  unfoldable pub require_default : Method → Requirements → Result RequirementsError Requirements
  unfolding require_feature Map.get
  require_default method r =
      if wants_default method
      then (if Map.contains_key s.features (codes "default")
          then require_feature fuel (codes "default") r
          else ok r)
      else ok r

  unfoldable pub build_requirements : Method → Result RequirementsError Requirements
  unfolding require_default require_features require_dependencies require_requested
  build_requirements method = require_method method new >>= require_default method
