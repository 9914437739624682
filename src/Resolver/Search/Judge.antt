-- ===== src/Resolver/Search/Judge.antt =====
-- What `activate_deps_loop` of core/resolver/mod.rs learns of a package that it has just activated
-- from the conflicts that are known.
use toml.Prelude.{
  Bool, true, false, Option, none, some, List, [], ◌∷◌, Eq, ◌==◌, list_eq, nat_eq, contains, Result,
  ok, panic, if◌then◌else◌,
}
use toml.Map
use toml.Map.{Map}
use toml.Core.PackageId.{PackageId, package_id_eq}
use toml.Core.Dependency.{Dependency}
use toml.Core.Dependency.Equality.{dependency_eq}
use toml.Resolver.Types.{ConflictReason}
use toml.Resolver.Queue.{DepInfo, DepsFrame, rest_of, iter}
use toml.Resolver.Context.{Context}
use toml.Resolver.ConflictCache.{
  Conflicts, ConflictCache, conflicting, find_conflicting, dependencies_conflicting_with,
}
use toml.Resolver.Search.State.{Failure}

module _ {S V : Type 0} ⦃es : Eq S⦄ ⦃ev : Eq V⦄ where
  -- `extend` by the conflicts but the one of the package `pid`
  unfoldable pub extend_but : PackageId S V → Conflicts S V → Conflicts S V → Conflicts S V
  unfolding Map.insert
  extend_but pid [] into = into
  extend_but pid ((p, r) ∷ conflicts) into =
      if p == pid
      then extend_but pid conflicts into
      else extend_but pid conflicts (Map.insert p r into)

module _ {S V R : Type 0} ⦃es : Eq S⦄ ⦃ev : Eq V⦄ ⦃er : Eq R⦄ (past : ConflictCache S V R)
    (cx : Context S V R) where
  -- The first known conflict of a dependency of the frame.
  unfoldable pub first_conflict : List (DepInfo S V R) → Option (Conflicts S V)
  unfolding conflicting
  first_conflict [] = none
  first_conflict (info ∷ infos) =
      let rest = first_conflict infos in
      elim (conflicting past cx info.dep) [ some con ↦ some con | none ↦ rest ]

  -- The first known conflict with the package `pid`, of one of the dependencies still to be
  -- activated that are `known` to have one; with the package whose dependency it is.
  unfoldable pub first_related :
      PackageId S V
      → List (Dependency S R)
      → List (PackageId S V × Dependency S R)
      → Option (PackageId S V × Conflicts S V)
  unfolding find_conflicting Map.get
  first_related pid known [] = none
  first_related pid known ((other_parent, other_dep) ∷ others) =
      let rest = first_related pid known others in
      if contains known other_dep
      then elim (find_conflicting past cx other_dep (λ con. Map.contains_key con pid)) [
        | some con ↦ some (other_parent, con)
        | none ↦ rest
      ]
      else rest

module _ {S V R U E : Type 0} ⦃es : Eq S⦄ ⦃ev : Eq V⦄ ⦃er : Eq R⦄ (past : ConflictCache S V R)
    (cx : Context S V R) (pid : PackageId S V) where
  -- `conflict.get(&pid).unwrap()`, and the conflicts that are added
  abbrev pub blame :
      PackageId S V
      → Conflicts S V
      → Conflicts S V
      → Option ConflictReason
      → Result (Failure S V R U E) (Bool × Conflicts S V)
  blame other_parent con conflicts none = panic
  blame other_parent con conflicts (some rel) =
      ok (true, Map.insert other_parent rel (extend_but pid con conflicts))

  abbrev pub blame_related :
      Conflicts S V
      → Option (PackageId S V × Conflicts S V)
      → Result (Failure S V R U E) (Bool × Conflicts S V)
  blame_related conflicts none = ok (false, conflicts)
  blame_related conflicts (some (other_parent, con)) =
      blame other_parent con conflicts (Map.get con pid)

  abbrev pub judge_related :
      List (DepsFrame S V R)
      → Conflicts S V
      → Option (List (Dependency S R))
      → Result (Failure S V R U E) (Bool × Conflicts S V)
  judge_related remaining_deps conflicts none = ok (false, conflicts)
  judge_related remaining_deps conflicts (some known) =
      blame_related conflicts (first_related past cx pid known (iter remaining_deps))

  abbrev pub judge_frame :
      List (DepsFrame S V R)
      → Conflicts S V
      → Option (Conflicts S V)
      → Result (Failure S V R U E) (Bool × Conflicts S V)
  judge_frame remaining_deps conflicts (some con) = ok (true, extend_but pid con conflicts)
  judge_frame remaining_deps conflicts none =
      judge_related remaining_deps conflicts (dependencies_conflicting_with past pid)

  -- `has_past_conflicting_dep` for the frame of a package that was activated, with the conflicts
  unfoldable pub judge :
      List (DepsFrame S V R)
      → Bool
      → Conflicts S V
      → DepsFrame S V R
      → Result (Failure S V R U E) (Bool × Conflicts S V)
  unfolding first_conflict first_related dependencies_conflicting_with Map.get Map.insert
  judge remaining_deps for_error_messages conflicts frame =
      if for_error_messages
      then ok (true, conflicts)
      else judge_frame remaining_deps conflicts
          (first_conflict past cx (rest_of frame.remaining_siblings))
