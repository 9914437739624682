-- ===== src/Core/PackageIdSpec.antt =====
-- core/package_id_spec.rs. `U` is the type of URLs, and `url` reads the one of a source id.
use toml.Prelude.{
  Text, Bool, true, false, not, Option, none, some, List, [], ◌∷◌, keep, Eq, ◌==◌, list_eq, nat_eq,
  list_eq_iff, option_eq, option_eq_iff, ◌&&◌, ◌≡◌, ◌↔◌, arith, Result, ok, err, if◌then◌else◌,
}
use toml.Core.PackageId.{PackageId}

pub record PackageIdSpec (V U : Type 0) : Type 0 where
  pub name : Text
  pub version : Option V
  pub url : Option U

module _ {V U : Type 0} ⦃ev : Eq V⦄ ⦃eu : Eq U⦄ where
  -- `derive(PartialEq)` on the fields
  abbrev pub spec_beq : PackageIdSpec V U → PackageIdSpec V U → Bool
  spec_beq a b = a.name == b.name && (a.version == b.version && a.url == b.url)

  pub spec_eq_iff : (a b : PackageIdSpec V U) → (spec_beq a b ≡ true) ↔ (a ≡ b)
  spec_eq_iff a b = ground (
    arith,
    list_eq_iff a.name b.name,
    option_eq_iff a.version b.version,
    option_eq_iff a.url b.url,
  )

instance abbrev pub package_id_spec_eq :
    {V U : Type 0} ⦃ev : Eq V⦄ ⦃eu : Eq U⦄ → Eq (PackageIdSpec V U)
package_id_spec_eq = record { eq = spec_beq; eq_iff = spec_eq_iff }

-- the errors of `query`, the second with the packages that match
pub data SpecError (S V : Type 0) : Type 0 where
  no_package : SpecError S V
  ambiguous : List (PackageId S V) → SpecError S V

-- a field that is given must be equal
abbrev pub agrees : {A : Type 0} ⦃e : Eq A⦄ → Option A → A → Bool
agrees none a = true
agrees (some b) a = b == a

module _ {V U : Type 0} where
  abbrev pub set_url : PackageIdSpec V U → U → PackageIdSpec V U
  set_url spec url = record spec { url = some url }

module _ {S V U : Type 0} (url_of : S → U) where
  abbrev pub from_package_id : PackageId S V → PackageIdSpec V U
  from_package_id id = record {
    name = id.name;
    version = some id.version;
    url = some (url_of id.source_id);
  }

module _ {S V U : Type 0} ⦃ev : Eq V⦄ ⦃eu : Eq U⦄ (url_of : S → U) where
  unfoldable pub matches : PackageIdSpec V U → PackageId S V → Bool
  matches spec id =
      if not (spec.name == id.name)
      then false
      else if not (agrees spec.version id.version)
      then false
      else agrees spec.url (url_of id.source_id)

  abbrev pub single : List (PackageId S V) → Result (SpecError S V) (PackageId S V)
  single [] = err no_package
  single (id ∷ []) = ok id
  single (id ∷ other ∷ ids) = err (ambiguous (id ∷ other ∷ ids))

  unfoldable pub query :
      PackageIdSpec V U → List (PackageId S V) → Result (SpecError S V) (PackageId S V)
  unfolding matches
  query spec ids = single (keep (matches spec) ids)
