-- ===== src/Resolver/Search/Served.antt =====
-- What is done, or still to do, for the dependencies of the packages that `activate_deps_loop` of
-- core/resolver/mod.rs has activated.
use toml.Prelude.{
  Text, Bool, true, false, not, ◌||◌, ◌&&◌, Option, none, some, List, [], ◌∷◌, map, all, any,
  all_mono, any-append, keep, Eq, ◌==◌, eq_self, pair_eq, list_eq, nat_eq, contains, contains-keep,
  sort_by, any-sort_by, ◌≡◌, refl, sym, ap, ◌∙◌, subst, arith, Bool-cases, inl, inr,
}
use toml.Map
use toml.Core.PackageId.{PackageId, package_id_eq}
use toml.Core.Dependency.{Dependency, is_transitive, name_in_toml}
use toml.Core.Dependency.Equality.{dependency_eq}
use toml.Core.Summary.{Summary}
use toml.Resolver.Types.{Method, GraphNode, add, link}
use toml.Resolver.Queue.{DepInfo, DepsFrame, flatten, iter}
use toml.Resolver.Queue.Moves.{rest_of-new}
use toml.Resolver.Requirements.{Requirements}
use toml.Resolver.Context.{Context}
use toml.Resolver.Context.Features.{dependencies_for, takes_dev}
use toml.Resolver.Context.Selection.{selected}
use toml.Resolver.Search.{frame_of, fewer}
use toml.Resolver.Search.Activated.{push_marked}
use toml.Resolver.Search.Effects.{is_replaced, stored}

module _ {S R : Type 0} where
  -- a dependency that every build of the package takes
  abbrev pub is_required : Dependency S R → Bool
  is_required d = is_transitive d && not d.optional

module _ {S V R : Type 0} ⦃es : Eq S⦄ ⦃ev : Eq V⦄ ⦃er : Eq R⦄ where
  abbrev pub links_for : PackageId S V → Dependency S R → GraphNode S V R → Bool
  links_for id d (add p) = false
  links_for id d (link a b dep) = a == id && dep == d

  -- a dependency of a package that is to be activated
  abbrev pub awaits : PackageId S V → Dependency S R → PackageId S V × Dependency S R → Bool
  awaits id d (p, dep) = p == id && dep == d

  abbrev pub taken_awaits :
      PackageId S V → Dependency S R → Option (Summary S V R × Dependency S R) → Bool
  taken_awaits id d none = false
  taken_awaits id d (some (parent, dep)) = awaits id d (parent.package_id, dep)

  -- what is done, or still to do, for a dependency of an active package
  abbrev pub served :
      Context S V R
      → List (DepsFrame S V R)
      → Option (Summary S V R × Dependency S R)
      → PackageId S V
      → Dependency S R
      → Bool
  served cx frames taken id d =
      is_replaced cx id
      || (any (links_for id d) cx.resolve_graph
          || (any (awaits id d) (iter frames) || taken_awaits id d taken))

  abbrev pub package_served :
      Context S V R
      → List (DepsFrame S V R)
      → Option (Summary S V R × Dependency S R)
      → Summary S V R
      → Bool
  package_served cx frames taken s =
      all (λ d. not (is_required d) || served cx frames taken s.package_id d) s.dependencies

  abbrev pub AllServed :
      Context S V R → List (DepsFrame S V R) → Option (Summary S V R × Dependency S R) → Type 0
  AllServed cx frames taken =
      (k : Text × S) → all (package_served cx frames taken) (stored cx k) ≡ true

  -- the links of the context alone
  abbrev pub required_linked : Context S V R → Summary S V R → Bool
  required_linked cx s =
      all
        (λ d.
          not (is_required d)
          || (is_replaced cx s.package_id || any (links_for s.package_id d) cx.resolve_graph))
        s.dependencies

  -- More served for one is more served for all.
  pub package_served_mono :
      (cx cx' : Context S V R) (frames frames' : List (DepsFrame S V R))
      (taken taken' : Option (Summary S V R × Dependency S R))
      → ((id : PackageId S V) (d : Dependency S R)
          → served cx frames taken id d ≡ true
          → served cx' frames' taken' id d ≡ true)
      → (s : Summary S V R) → package_served cx frames taken s ≡ true
      → package_served cx' frames' taken' s ≡ true
  package_served_mono cx cx' frames frames' taken taken' more s =
      all_mono (λ d. not (is_required d) || served cx frames taken s.package_id d)
        (λ d. not (is_required d) || served cx' frames' taken' s.package_id d) s.dependencies
        (λ d h. ground (arith, more s.package_id d, h))

  any-awaits :
      (id : PackageId S V) (d : Dependency S R) (infos : List (DepInfo S V R))
      → any (awaits id d) (map (λ info. (id, info.dep)) infos) ≡ any (λ info. info.dep == d) infos
  any-awaits id d [] = refl
  any-awaits id d (info ∷ infos) = ground (arith, any-awaits id d infos, eq_self id)

  any-deps :
      (d : Dependency S R) (infos : List (DepInfo S V R))
      → any (λ info. info.dep == d) infos ≡ contains (map (λ info. info.dep) infos) d
  any-deps d [] = refl
  any-deps d (info ∷ infos) = ground (arith, any-deps d infos)

  -- the frame of a package lists its dependencies
  pub frame_of-awaits :
      (s : Summary S V R) (infos : List (DepInfo S V R)) (mark : Bool) (d : Dependency S R)
      → contains (map (λ info. info.dep) infos) d ≡ true
      → any
          (awaits s.package_id d)
          (flatten (record (frame_of s (sort_by fewer infos)) { just_for_error_messages = mark }))
        ≡ true
  unfolding flatten
  frame_of-awaits s infos mark d there =
      let listed : any (awaits s.package_id d)
            (map (λ info. (s.package_id, info.dep)) (sort_by fewer infos))
          ≡ true =
        any-awaits s.package_id d (sort_by fewer infos)
        ∙ any-sort_by fewer (λ info. info.dep == d) infos
        ∙ any-deps d infos
        ∙ there in
      subst (λ t. any (awaits s.package_id d) (map (λ info. (s.package_id, info.dep)) t) ≡ true)
        (sym (rest_of-new (sort_by fewer infos))) listed

  pub pushed-awaits :
      (frame : Option (DepsFrame S V R)) (frames : List (DepsFrame S V R)) (mark : Bool)
      (id : PackageId S V) (d : Dependency S R)
      → any (awaits id d) (iter frames) ≡ true
      → any (awaits id d) (iter (push_marked mark frame frames)) ≡ true
  unfolding iter
  pushed-awaits none frames mark id d h = h
  pushed-awaits (some f) frames mark id d h = ground (
    arith,
    any-append (awaits id d) (flatten (record f { just_for_error_messages = mark })) (iter frames),
    h,
  )

  pub pushed-own :
      (f : DepsFrame S V R) (frames : List (DepsFrame S V R)) (mark : Bool) (id : PackageId S V)
      (d : Dependency S R)
      → any (awaits id d) (flatten (record f { just_for_error_messages = mark })) ≡ true
      → any (awaits id d) (iter (push_marked mark (some f) frames)) ≡ true
  unfolding iter
  pushed-own f frames mark id d h = ground (
    arith,
    any-append (awaits id d) (flatten (record f { just_for_error_messages = mark })) (iter frames),
    h,
  )

  -- the dependencies that `resolve_features` selects, without their features
  selected-deps :
      (s : Summary S V R) (reqs : Requirements) (deps : List (Dependency S R))
      → map (λ (d, _). d) (selected s reqs deps)
        ≡ keep (λ d. not d.optional || Map.contains_key reqs.deps (name_in_toml d)) deps
  selected-deps s reqs [] = refl
  selected-deps s reqs (d ∷ deps) =
      elim (Bool-cases (not d.optional || Map.contains_key reqs.deps (name_in_toml d))) [
        | inl take ↦ rw take (ap (λ t. d ∷ t) (selected-deps s reqs deps))
        | inr skip ↦ rw skip (selected-deps s reqs deps)
      ]

  pub selected-required :
      (s : Summary S V R) (reqs : Requirements) (method : Method) (d : Dependency S R)
      → contains s.dependencies d ≡ true
      → is_required d ≡ true
      → contains (map (λ (d, _). d) (selected s reqs (dependencies_for s method))) d ≡ true
  selected-required s reqs method d there required =
      rw (selected-deps s reqs (dependencies_for s method)) (
        contains-keep (λ d. not d.optional || Map.contains_key reqs.deps (name_in_toml d))
          (dependencies_for s method) d
          (contains-keep (λ d. is_transitive d || takes_dev method) s.dependencies d there
            (ground (arith, required)))
          (ground (arith, required)))
