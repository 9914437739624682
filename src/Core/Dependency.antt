-- ===== src/Core/Dependency.antt =====
-- core/dependency.rs
pub mod Laws
pub mod Equality
mod Examples
use toml.Prelude.{
  ℕ, Text, codes, Bool, true, false, not, ◌&&◌, ◌||◌, ◌≡◌, Option, none, some, List, [], ◌∷◌, Eq,
  ◌==◌, unwrap_or, list_eq, nat_eq, Result, ok, err, panic, ◌>>=◌, if◌then◌else◌,
}
use toml.Core.PackageId.{PackageId}
use toml.Core.Platform.{Platform}
use toml.Core.Semver.{Semver, ParsedReq, valid, deprecated, invalid}
use toml.Cfg.Key.{starts_with}

pub data Kind : Type 0 where
  normal development build : Kind

pub record Dependency (S R : Type 0) : Type 0 where
  pub name : Text
  pub source_id : S
  pub registry_id : Option S
  pub req : R
  pub specified_req : Bool
  pub kind : Kind
  pub only_match_name : Bool
  pub explicit_name_in_toml : Option Text
  pub optional : Bool
  pub default_features : Bool
  pub features : List Text
  pub platform : Option Platform

-- the messages of `parse_req_with_deprecated`, and a shell that cannot be written to
pub data DependencyError : Type 0 where
  deprecated_requirement : DependencyError
  bad_requirement : Text → Text → DependencyError
  shell_error : DependencyError

module _ {V R : Type 0} (m : Semver V R) where
  open m use {any_req, parse_req}

  -- `extra` is present where there is a shell to warn, and holds what the warning returns.
  abbrev parsed_req :
      Text
      → Text
      → Option (Result DependencyError (Unit {0}))
      → ParsedReq R
      → Result DependencyError R
  parsed_req name req extra (valid v) = ok v
  parsed_req name req none (deprecated v) = err deprecated_requirement
  parsed_req name req (some warned) (deprecated v) = warned >>= λ _. ok v
  parsed_req name req extra invalid = err (bad_requirement req name)

  unfoldable pub parse_req_with_deprecated :
      Text → Text → Option (Result DependencyError (Unit {0})) → Result DependencyError R
  parse_req_with_deprecated name req extra = parsed_req name req extra (parse_req req)

  abbrev requested :
      Text
      → Option Text
      → Option (Result DependencyError (Unit {0}))
      → Result DependencyError (Bool × R)
  requested name (some v) extra = parse_req_with_deprecated name v extra >>= λ r. ok (true, r)
  requested name none extra = ok (false, any_req)

module _ {S V R : Type 0} (m : Semver V R) where
  open m use {any_req, req_to_string}

  unfoldable pub new_override : Text → S → Result DependencyError (Dependency S R)
  new_override name source_id =
      if name == []
      then panic
      else ok (record {
        name = name;
        source_id = source_id;
        registry_id = none;
        req = any_req;
        specified_req = false;
        kind = normal;
        only_match_name = true;
        explicit_name_in_toml = none;
        optional = false;
        default_features = true;
        features = [];
        platform = none;
      })

  -- `parse` has a shell to warn, `parse_no_deprecated` none
  unfoldable pub parse :
      Text
      → Option Text
      → S
      → Option (Result DependencyError (Unit {0}))
      → Result DependencyError (Dependency S R)
  unfolding parse_req_with_deprecated new_override
  parse name version source_id extra =
      requested m name version extra >>= λ (specified, version_req).
      new_override name source_id >>= λ ret.
      ok (record ret { only_match_name = false; req = version_req; specified_req = specified })

  abbrev pub parse_no_deprecated : Text → Option Text → S → Result DependencyError (Dependency S R)
  parse_no_deprecated name version source_id = parse name version source_id none

  unfoldable pub is_locked : Dependency S R → Bool
  is_locked d = starts_with (req_to_string d.req) (codes "=")

abbrev transitive : Kind → Bool
transitive normal = true
transitive build = true
transitive development = false

abbrev building : Kind → Bool
building build = true
building _ = false

module _ {S R : Type 0} where
  unfoldable pub name_in_toml : Dependency S R → Text
  name_in_toml d = unwrap_or d.explicit_name_in_toml d.name

  abbrev pub set_version_req : Dependency S R → R → Dependency S R
  set_version_req d req = record d { req = req }

  abbrev pub set_source_id : Dependency S R → S → Dependency S R
  set_source_id d id = record d { source_id = id }

  abbrev pub set_registry_id : Dependency S R → S → Dependency S R
  set_registry_id d id = record d { registry_id = some id }

  abbrev pub set_kind : Dependency S R → Kind → Dependency S R
  set_kind d kind = record d { kind = kind }

  abbrev pub set_features : Dependency S R → List Text → Dependency S R
  set_features d features = record d { features = features }

  abbrev pub set_default_features : Dependency S R → Bool → Dependency S R
  set_default_features d default_features = record d { default_features = default_features }

  abbrev pub set_optional : Dependency S R → Bool → Dependency S R
  set_optional d optional = record d { optional = optional }

  abbrev pub set_platform : Dependency S R → Option Platform → Dependency S R
  set_platform d platform = record d { platform = platform }

  abbrev pub set_explicit_name_in_toml : Dependency S R → Text → Dependency S R
  set_explicit_name_in_toml d name = record d { explicit_name_in_toml = some name }

  unfoldable pub is_transitive : Dependency S R → Bool
  is_transitive d = transitive d.kind

  unfoldable pub is_build : Dependency S R → Bool
  is_build d = building d.kind

module _ {S V R : Type 0} ⦃es : Eq S⦄ (m : Semver V R) where
  open m use {req_matches, exact}

  unfoldable pub lock_to : Dependency S R → PackageId S V → Result DependencyError (Dependency S R)
  lock_to d id =
      if d.source_id == id.source_id && req_matches d.req id.version
      then ok (set_source_id (set_version_req d (exact id.version)) id.source_id)
      else panic

  unfoldable pub matches_ignoring_source : Dependency S R → PackageId S V → Bool
  matches_ignoring_source d id = d.name == id.name && req_matches d.req id.version

  unfoldable pub matches_id : Dependency S R → PackageId S V → Bool
  matches_id d id =
      d.name == id.name
      && (d.only_match_name || req_matches d.req id.version && d.source_id == id.source_id)

module _ {S R : Type 0} ⦃es : Eq S⦄ where
  unfoldable pub map_source : Dependency S R → S → S → Dependency S R
  map_source d to_replace replace_with =
      if not (d.source_id == to_replace) then d else set_source_id d replace_with
