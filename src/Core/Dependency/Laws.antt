-- ===== src/Core/Dependency/Laws.antt =====
-- Which packages a dependency of core/dependency.rs matches, once it is locked.
use toml.Prelude.{◌≡◌, true, false, ◌↔◌, arith, Eq, list_eq, list_eq_iff, nat_eq, ok}
use toml.Core.PackageId.{PackageId}
use toml.Core.Semver.{Semver, IsSemver}
use toml.Core.Dependency.{Dependency, lock_to, matches_id}

module _ {S V R : Type 0} ⦃es : Eq S⦄ (m : Semver V R) where
  -- A dependency that matches a package by more than its name can be locked to it, no assertion
  -- failing, and the locked dependency matches that package and no other.
  pub lock_to-matches_id :
      IsSemver m
      → (d : Dependency S R) (id : PackageId S V) → d.only_match_name ≡ false
      → matches_id m d id ≡ true
      → (d' : Dependency S R) × (lock_to m d id ≡ ok d')
        × ((other : PackageId S V) → (matches_id m d' other ≡ true) ↔ (other ≡ id))
  unfolding lock_to matches_id
  lock_to-matches_id is d id whole h = (
    record d { req = m.exact id.version; source_id = id.source_id },
    ground (arith, whole, h),
    λ other. ground (
      arith,
      whole,
      h,
      list_eq_iff d.name id.name,
      list_eq_iff d.name other.name,
      is.exact_matches id.version other.version,
      es.eq_iff id.source_id other.source_id,
    ),
  )
