-- ===== src/Resolver/ConflictCache.antt =====
-- core/resolver/conflict_cache.rs: sets of packages that together rule a dependency out. A set is
-- a map from packages to reasons.
pub mod Index
use toml.Prelude.{
  Bool, true, not, ◌&&◌, Option, none, some, List, [], ◌∷◌, ◌++◌, all, any, keep, find, length, Eq,
  ◌==◌, nat_eq, option_eq, if◌then◌else◌, unwrap_or,
}
use toml.Map
use toml.Map.{Map}
use toml.Set
use toml.Set.{Set}
use toml.Core.PackageId.{PackageId, package_id_eq}
use toml.Core.Dependency.{Dependency}
use toml.Core.Dependency.Equality.{dependency_eq, dependency_eq_iff}
use toml.Resolver.Types.{ConflictReason, reason_eq}
use toml.Resolver.Context.{Context, is_conflicting}

abbrev pub Conflicts : Type 0 → Type 0 → Type 0
Conflicts S V = Map (PackageId S V) ConflictReason

pub record ConflictCache (S V R : Type 0) : Type 0 where
  pub con_from_dep : Map (Dependency S R) (List (Conflicts S V))
  pub dep_from_pid : Map (PackageId S V) (Set (Dependency S R))

abbrev pub new : {S V R : Type 0} → ConflictCache S V R
new = record { con_from_dep = []; dep_from_pid = [] }

module _ {S V : Type 0} ⦃es : Eq S⦄ ⦃ev : Eq V⦄ where
  -- `==` of two maps: as many entries, and those of one in the other
  abbrev pub same_conflicts : Conflicts S V → Conflicts S V → Bool
  same_conflicts a b = length a == length b && all (λ (id, reason). Map.get b id == some reason) a

module _ {S V R : Type 0} ⦃es : Eq S⦄ ⦃ev : Eq V⦄ ⦃er : Eq R⦄ where
  -- what is known to rule the dependency out
  abbrev pub past : ConflictCache S V R → Dependency S R → List (Conflicts S V)
  past cache dep = unwrap_or (Map.get cache.con_from_dep dep) []

  unfoldable pub find_conflicting :
      ConflictCache S V R
      → Context S V R
      → Dependency S R
      → (Conflicts S V → Bool)
      → Option (Conflicts S V)
  unfolding Map.get is_conflicting
  find_conflicting cache cx dep filter =
      find (λ conflicting. is_conflicting cx none conflicting) (keep filter (past cache dep))

  unfoldable pub conflicting :
      ConflictCache S V R → Context S V R → Dependency S R → Option (Conflicts S V)
  unfolding find_conflicting
  conflicting cache cx dep = find_conflicting cache cx dep (λ _. true)

  -- the loop of `insert`
  unfoldable pub mention :
      Dependency S R
      → List (PackageId S V)
      → Map (PackageId S V) (Set (Dependency S R))
      → Map (PackageId S V) (Set (Dependency S R))
  unfolding Map.update_or Set.insert
  mention dep [] m = m
  mention dep (c ∷ cs) m = mention dep cs (Map.update_or c [] (Set.insert dep) m)

  unfoldable pub insert : ConflictCache S V R → Dependency S R → Conflicts S V → ConflictCache S V R
  unfolding mention Map.update_or Map.get
  insert cache dep con =
      if any (λ old. same_conflicts old con) (past cache dep) then cache else record cache {
        con_from_dep = Map.update_or dep [] (λ old. old ++ con ∷ []) cache.con_from_dep;
        dep_from_pid = mention dep (Map.keys con) cache.dep_from_pid;
      }

  unfoldable pub dependencies_conflicting_with :
      ConflictCache S V R → PackageId S V → Option (Set (Dependency S R))
  unfolding Map.get
  dependencies_conflicting_with cache pid = Map.get cache.dep_from_pid pid
