-- ===== src/Resolver/Search/Judged.antt =====
-- The `unwrap` in `activate_deps_loop` of core/resolver/mod.rs.
use toml.Prelude.{
  Bool, true, false, Option, none, some, List, [], ◌∷◌, contains, Eq, Result, ok, ◌≡◌, refl, subst,
  arith, Bool-cases, Option-cases, inl, inr,
}
use toml.Map
use toml.Core.PackageId.{PackageId, package_id_eq}
use toml.Core.Dependency.{Dependency}
use toml.Core.Dependency.Equality.{dependency_eq}
use toml.Resolver.Queue.{DepsFrame, rest_of, iter}
use toml.Resolver.Context.{Context}
use toml.Resolver.ConflictCache.{
  Conflicts, ConflictCache, find_conflicting, dependencies_conflicting_with,
}
use toml.Resolver.ConflictCache.Index.{find_conflicting_sound}
use toml.Resolver.Search.State.{Failure}
use toml.Resolver.Search.Judge.{
  first_conflict, first_related, blame, judge_related, judge_frame, judge,
}

module _ {S V R : Type 0} ⦃es : Eq S⦄ ⦃ev : Eq V⦄ ⦃er : Eq R⦄ (past : ConflictCache S V R)
    (cx : Context S V R) (pid : PackageId S V) where
  first_related-keyed :
      (known : List (Dependency S R)) (others : List (PackageId S V × Dependency S R))
      (p : PackageId S V) (con : Conflicts S V)
      → first_related past cx pid known others ≡ some (p, con)
      → Map.contains_key con pid ≡ true
  unfolding first_related
  first_related-keyed known [] p con h = absurd cc
  first_related-keyed known ((q, dep) ∷ others) p con h = elim (Bool-cases (contains known dep)) [
    | inr unrelated ↦ first_related-keyed known others p con (rw (first_related, unrelated) at h)
    | inl related ↦
        elim (Option-cases (find_conflicting past cx dep (λ con. Map.contains_key con pid))) [
          | inl nothing ↦
              first_related-keyed known others p con (rw (first_related, related, nothing) at h)
          | inr (found, there) ↦
              let same : found ≡ con = ground (arith, rw (first_related, related, there) at h) in
              let (listed, keyed, active) =
                find_conflicting_sound past cx dep (λ con. Map.contains_key con pid) found there in
              subst (λ t. Map.contains_key t pid ≡ true) same keyed
        ]
  ]

module _ {S V R U E : Type 0} ⦃es : Eq S⦄ ⦃ev : Eq V⦄ ⦃er : Eq R⦄ (past : ConflictCache S V R)
    (cx : Context S V R) (pid : PackageId S V) where
  abbrev Judged : Result (Failure S V R U E) (Bool × Conflicts S V) → Type 0
  Judged r = (judged : Bool × Conflicts S V) × (r ≡ ok judged)

  blame-Judged :
      (p : PackageId S V) (con conflicts : Conflicts S V)
      → Map.contains_key con pid ≡ true
      → Judged (blame past cx pid p con conflicts (Map.get con pid))
  blame-Judged p con conflicts keyed = elim (Option-cases (Map.get con pid)) [
    | inl gone ↦ absurd (ground (arith, gone, keyed))
    | inr (rel, there) ↦ rw there (_, refl)
  ]

  related-Judged :
      (remaining : List (DepsFrame S V R)) (conflicts : Conflicts S V)
      (known : Option (List (Dependency S R)))
      → Judged (judge_related past cx pid remaining conflicts known)
  related-Judged remaining conflicts none = ((false, conflicts), refl)
  related-Judged remaining conflicts (some known) =
      elim (Option-cases (first_related past cx pid known (iter remaining))) [
        | inl nothing ↦ rw nothing ((false, conflicts), refl)
        | inr ((p, con), there) ↦ rw there (
            blame-Judged p con conflicts
              (first_related-keyed past cx pid known (iter remaining) p con there))
      ]

  frame-Judged :
      (remaining : List (DepsFrame S V R)) (conflicts : Conflicts S V)
      (con : Option (Conflicts S V))
      → Judged (judge_frame past cx pid remaining conflicts con)
  frame-Judged remaining conflicts none =
      related-Judged remaining conflicts (dependencies_conflicting_with past pid)
  frame-Judged remaining conflicts (some con) = (_, refl)

  -- A frame is always judged: the `unwrap` of the reason for which the known conflict names the
  -- package never panics.
  pub judge-succeeds :
      (remaining : List (DepsFrame S V R)) (for_error_messages : Bool) (conflicts : Conflicts S V)
      (frame : DepsFrame S V R)
      → (judged : Bool × Conflicts S V) × (judge {U = U} {E = E} past cx pid remaining
            for_error_messages conflicts frame
          ≡ ok judged)
  unfolding judge
  judge-succeeds remaining true conflicts frame = ((true, conflicts), refl)
  judge-succeeds remaining false conflicts frame =
      frame-Judged remaining conflicts (first_conflict past cx (rest_of frame.remaining_siblings))
