-- ===== src/Resolver/Search/Start.antt =====
-- The initial activations of `activate_deps_loop` of core/resolver/mod.rs.
use toml.Prelude.{
  Text, Bool, true, false, ◌&&◌, Option, none, some, [], Eq, Result, ok, err, panic, out_of_fuel,
  ◌>>=◌, ◌≡◌, ◌≢◌, refl, ap, ◌∙◌, arith, Bool-cases, inl, inr, if◌then◌else◌, sort_by, ◌==◌,
  list_eq, nat_eq,
}
use toml.Map
use toml.Map.{Map}
use toml.Core.PackageId.{PackageId}
use toml.Core.Summary.{Summary}
use toml.Resolver.Types.{Method, ConflictReason, fatal, conflict, ActivateResult}
use toml.Resolver.Queue.{Candidate}
use toml.Resolver.Registry
use toml.Resolver.Registry.{World, RegistryQueryer}
use toml.Resolver.Requirements.{build_requirements}
use toml.Resolver.Context.{
  Context, ContextError, bad_requirements, slash_in_feature, activated, claim_links, enter,
  flag_activated,
}
use toml.Resolver.Context.Features.{
  fatally, collect, dependencies_for, begun, conclude, remaining, resolve_features,
}
use toml.Resolver.Search.{
  of_context, of_query, fewer, query_each, build_deps, choose, expand, activate, push_replacement,
  frame_of,
}

-- the result is a conflict
abbrev pub conflicts : {S V E A : Type 0} → ActivateResult S V E A → Bool
conflicts (err (conflict id reason)) = true
conflicts _ = false

module _ {S V E A B : Type 0} where
  conflicts-bind :
      (r : ActivateResult S V E A) (next : A → ActivateResult S V E B)
      → conflicts r ≡ false
      → ((a : A) → conflicts (next a) ≡ false)
      → conflicts (r >>= next) ≡ false
  conflicts-bind (ok a) next h later = later a
  conflicts-bind (err (fatal e)) next h later = refl
  conflicts-bind (err (conflict id reason)) next h later = absurd cc
  conflicts-bind panic next h later = refl
  conflicts-bind out_of_fuel next h later = refl

module _ (R U E : Type 0) {S V A : Type 0} where
  conflicts-of_context :
      (r : ActivateResult S V (ContextError S V) A)
      → conflicts (of_context {R = R} {U = U} {E = E} r) ≡ conflicts r
  conflicts-of_context (ok a) = refl
  conflicts-of_context (err (fatal e)) = refl
  conflicts-of_context (err (conflict id reason)) = refl
  conflicts-of_context panic = refl
  conflicts-of_context out_of_fuel = refl

module _ {S V R U E A : Type 0} where
  conflicts-of_query :
      (r : Result (Registry.QueryError S V R U E) A) → conflicts (of_query r) ≡ false
  conflicts-of_query (ok a) = refl
  conflicts-of_query (err e) = refl
  conflicts-of_query panic = refl
  conflicts-of_query out_of_fuel = refl

conflicts-fatally :
    (S V : Type 0) {E E' A : Type 0} (wrap : E → E') (r : Result E A)
    → conflicts (fatally {S = S} {V = V} wrap r) ≡ false
conflicts-fatally S V wrap (ok a) = refl
conflicts-fatally S V wrap (err e) = refl
conflicts-fatally S V wrap panic = refl
conflicts-fatally S V wrap out_of_fuel = refl

module _ {S V : Type 0} ⦃es : Eq S⦄ ⦃ev : Eq V⦄ where
  claim_links-conflicts :
      (id : PackageId S V) (l : Option Text) (links : Map Text (PackageId S V))
      → conflicts (claim_links id l links) ≡ false
  claim_links-conflicts id none links = refl
  claim_links-conflicts id (some l) links = elim (Bool-cases (Map.contains_key links l)) [
    | inl taken ↦ rw taken refl
    | inr free ↦ rw free refl
  ]

module _ {S V R : Type 0} ⦃es : Eq S⦄ ⦃ev : Eq V⦄ where
  flag_activated-conflicts :
      (cx : Context S V R) (s : Summary S V R) (method : Method)
      → conflicts (flag_activated cx s method) ≡ false
  unfolding flag_activated
  flag_activated-conflicts cx s method = elim (Bool-cases (activated cx s)) [
    | inl old ↦ rw (flag_activated, old) refl
    | inr fresh ↦
        rw (flag_activated, fresh)
          (conflicts-bind (claim_links s.package_id s.links cx.links_of)
            (λ links. ok (enter cx s links, false))
            (claim_links-conflicts s.package_id s.links cx.links_of) (λ links. refl))
  ]

  resolve_features-conflicts :
      (cx : Context S V R) (s : Summary S V R) (method : Method)
      → conflicts (resolve_features cx none s method) ≡ false
  unfolding resolve_features
  resolve_features-conflicts cx s method =
      conflicts-bind (fatally bad_requirements (build_requirements s method))
        (λ reqs.
          fatally slash_in_feature (collect s reqs (dependencies_for s method) (begun cx))
          >>= conclude cx none s reqs)
        (conflicts-fatally S V bad_requirements (build_requirements s method))
        (λ reqs.
          conflicts-bind
            (fatally slash_in_feature (collect s reqs (dependencies_for s method) (begun cx)))
            (conclude cx none s reqs)
            (conflicts-fatally S V slash_in_feature
              (collect s reqs (dependencies_for s method) (begun cx)))
            (λ c. elim (Bool-cases (remaining reqs c == [])) [
              | inl none_left ↦ rw none_left refl
              | inr left ↦ rw left refl
            ]))

module _ {S V R U E : Type 0} ⦃es : Eq S⦄ ⦃ev : Eq V⦄ ⦃er : Eq R⦄ ⦃eu : Eq U⦄
    (world : World S V R U E) where
  choose-conflicts :
      (cx : Context S V R) (s : Summary S V R) (replace : Option (Summary S V R)) (seen : Bool)
      (method : Method)
      → conflicts (choose world cx s replace seen method) ≡ false
  choose-conflicts cx s none seen method = refl
  choose-conflicts cx s (some r) seen method =
      conflicts-bind (of_context (flag_activated (push_replacement cx s r) r method))
        (λ (cx', again). ok (cx', if again && seen then none else some r))
        (conflicts-of_context R U E (flag_activated (push_replacement cx s r) r method)
          ∙ flag_activated-conflicts (push_replacement cx s r) r method)
        (λ a. refl)

  build_deps-conflicts :
      (q : RegistryQueryer S V R U) (cx : Context S V R) (s : Summary S V R) (method : Method)
      → conflicts (build_deps world q cx none s method) ≡ false
  unfolding build_deps
  build_deps-conflicts q cx s method =
      conflicts-bind (of_context (resolve_features cx none s method))
        (λ (cx', deps).
          of_query (query_each world q deps) >>= λ (q', infos). ok (q', cx', sort_by fewer infos))
        (conflicts-of_context R U E (resolve_features cx none s method)
          ∙ resolve_features-conflicts cx s method)
        (λ a.
          conflicts-bind (of_query (query_each world q a.1))
            (λ (q', infos). ok (q', a.0, sort_by fewer infos))
            (conflicts-of_query (query_each world q a.1)) (λ b. refl))

  expand-conflicts :
      (q : RegistryQueryer S V R U) (cx : Context S V R) (chosen : Option (Summary S V R))
      (method : Method)
      → conflicts (expand world q cx none chosen method) ≡ false
  expand-conflicts q cx none method = refl
  expand-conflicts q cx (some s) method =
      conflicts-bind (build_deps world q cx none s method)
        (λ (q', cx', deps). ok (q', cx', some (frame_of s deps)))
        (build_deps-conflicts q cx s method) (λ a. refl)

  activate-conflicts :
      (q : RegistryQueryer S V R U) (cx : Context S V R) (c : Candidate S V R) (method : Method)
      → conflicts (activate world q cx none c method) ≡ false
  unfolding activate
  activate-conflicts q cx c method =
      conflicts-bind (of_context (flag_activated cx c.summary method))
        (λ (cx', seen). choose world cx' c.summary c.replace seen method >>= λ (cx'', chosen).
          expand world q cx'' none chosen method)
        (conflicts-of_context R U E (flag_activated cx c.summary method)
          ∙ flag_activated-conflicts cx c.summary method)
        (λ a.
          conflicts-bind (choose world a.0 c.summary c.replace a.1 method)
            (λ (cx'', chosen). expand world q cx'' none chosen method)
            (choose-conflicts a.0 c.summary c.replace a.1 method)
            (λ b. expand-conflicts q b.0 b.1 method))

  -- Without a parent, `activate` never fails with a conflict, so that the initial activations never
  -- get to the panic "bad error from activate".
  pub initial-no_conflict :
      (q : RegistryQueryer S V R U) (cx : Context S V R) (c : Candidate S V R) (method : Method)
      (id : PackageId S V) (reason : ConflictReason)
      → activate world q cx none c method ≢ err (conflict id reason)
  initial-no_conflict q cx c method id reason h =
      absurd (ground (arith, activate-conflicts q cx c method, ap conflicts h))
