-- ===== src/Resolver/Context/Replacements.antt =====
-- `Context::resolve_replacements` of core/resolver/context.rs.
use toml.Prelude.{◌≡◌, refl, Option, none, some, List, [], ◌∷◌, Eq, ◌==◌, if◌then◌else◌, arith}
use toml.Map
use toml.Map.{Map, get-insert}
use toml.Core.PackageId.{PackageId, package_id_eq}
use toml.Resolver.Context.{replacements}

module _ {S V : Type 0} ⦃es : Eq S⦄ ⦃ev : Eq V⦄ where
  abbrev pub or_else : Option (PackageId S V) → Option (PackageId S V) → Option (PackageId S V)
  or_else none later = later
  or_else (some v) later = some v

  -- the replacement that was recorded first: the list has the last one in front
  abbrev pub oldest : List (PackageId S V × PackageId S V) → PackageId S V → Option (PackageId S V)
  oldest [] k = none
  oldest ((j, v) ∷ rest) k = or_else (oldest rest k) (if j == k then some v else none)

  get-replacements_acc :
      (ps : List (PackageId S V × PackageId S V)) (acc : Map (PackageId S V) (PackageId S V))
      (k : PackageId S V)
      → Map.get (replacements ps acc) k ≡ or_else (oldest ps k) (Map.get acc k)
  unfolding replacements
  get-replacements_acc [] acc k = refl
  get-replacements_acc ((j, v) ∷ rest) acc k =
      ground (arith, get-replacements_acc rest (Map.insert j v acc) k, get-insert j k v acc)

  -- The map has for each package the replacement that was recorded first for it, and nothing for a
  -- package without one.
  pub get-replacements :
      (ps : List (PackageId S V × PackageId S V)) (k : PackageId S V)
      → Map.get (replacements ps []) k ≡ oldest ps k
  unfolding Map.get
  get-replacements ps k = ground (arith, get-replacements_acc ps [] k)
