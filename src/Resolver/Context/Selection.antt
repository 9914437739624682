-- ===== src/Resolver/Context/Selection.antt =====
-- What `Context::resolve_features` of core/resolver/context.rs selects.
use toml.Prelude.{
  Text, Bool, true, false, not, ◌||◌, ◌≡◌, refl, Option, List, [], ◌∷◌, ◌++◌, map, any, keep, find,
  Eq, ◌==◌, eq_self, list_eq, list_eq_iff, nat_eq, contains, unwrap_or, Result, ok, err, panic,
  out_of_fuel, ◌>>=◌, arith, Bool-cases, Option-cases, inl, inr, ap, sym, subst, ◌∙◌, append_assoc,
  append-nil, bind-eq-ok, ok-injective,
}
use toml.Map
use toml.Map.{Map, get-update_or, contains-keys}
use toml.Set
use toml.Set.{contains-insert}
use toml.Core.PackageId.{PackageId, package_id_eq}
use toml.Core.Dependency.{Dependency, name_in_toml, is_transitive}
use toml.Core.Summary.{Summary}
use toml.Resolver.Types.{Method}
use toml.Resolver.Requirements.{Requirements, build_requirements}
use toml.Resolver.Context.{Context, bad_requirements, slash_in_feature}
use toml.Resolver.Context.Features.{
  Collected, collect, skipped, features_of, warn, dependencies_for, takes_dev, begun, fatally,
  record_used, insert_all, remaining, conclude, resolve_features,
}

module _ {S V R : Type 0} (s : Summary S V R) (reqs : Requirements) where
  -- the dependencies that are taken, each with its features
  abbrev pub selected : List (Dependency S R) → List (Dependency S R × List Text)
  selected deps =
      map (λ d. (d, (unwrap_or (Map.get reqs.deps (name_in_toml d)) (false, [])).1 ++ d.features))
        (keep (λ d. not d.optional || Map.contains_key reqs.deps (name_in_toml d)) deps)

  not_skipped :
      (d : Dependency S R) {b : Bool}
      → skipped s reqs d ≡ b
      → (not d.optional || Map.contains_key reqs.deps (name_in_toml d)) ≡ not b
  not_skipped d h = ground (arith, h)

  collect-ret :
      (deps : List (Dependency S R)) (c c' : Collected S V R)
      → collect s reqs deps c ≡ ok c'
      → (c'.ret ≡ c.ret ++ selected deps)
        × ((n : Text)
            → contains c'.used_features n ≡ true
            → (contains c.used_features n || any (λ d. name_in_toml d == n) deps) ≡ true)
  unfolding collect
  collect-ret [] c c' h =
      let same : c ≡ c' = ok-injective h in
      rw (sym same) (sym (append-nil c.ret), λ n there. ground (arith, there))
  collect-ret (d ∷ deps) c c' h = elim (Bool-cases (skipped s reqs d)) [
    | inl skip ↦
        let (ret, used) = collect-ret deps c c' (rw skip at h) in
        (rw (not_skipped d skip) ret, λ n there. ground (arith, used n there))
    | inr take ↦ elim (Option-cases (find (λ f. contains f b'/') (features_of s reqs d))) [
      | inr (f, slash) ↦ absurd (ground (arith, slash, take, h))
      | inl no_slash ↦
          let (ret, used) =
            collect-ret deps
              (record {
                warned = warn s reqs d c.warned;
                used_features = Set.insert (name_in_toml d) c.used_features;
                ret = c.ret ++ (d, features_of s reqs d) ∷ [];
              })
              c' (rw (take, no_slash) at h) in
          (
            rw (not_skipped d take)
                (ret ∙ append_assoc c.ret ((d, features_of s reqs d) ∷ []) (selected deps)),
            λ n there.
                ground (arith, used n there, contains-insert (name_in_toml d) n c.used_features),
          )
    ]
  ]

contains-insert_all :
    (fs set : List Text) (f : Text)
    → contains (insert_all fs set) f ≡ (contains fs f || contains set f)
unfolding insert_all
contains-insert_all [] set f = refl
contains-insert_all (g ∷ fs) set f =
    ground (arith, contains-insert_all fs (Set.insert g set) f, contains-insert g f set)

fatally-ok :
    {S V E E' A : Type 0} (wrap : E → E') (r : Result E A) {a : A}
    → fatally {S = S} {V = V} wrap r ≡ ok a
    → r ≡ ok a
fatally-ok wrap (ok a) h = ap (λ t. ok t) (ok-injective h)
fatally-ok wrap (err e) h = absurd cc
fatally-ok wrap panic h = absurd cc
fatally-ok wrap out_of_fuel h = absurd cc

module _ {S V : Type 0} ⦃es : Eq S⦄ ⦃ev : Eq V⦄ where
  contains-record_used :
      (id : PackageId S V) (used : List Text) (features : Map (PackageId S V) (List Text))
      (f : Text)
      → contains (unwrap_or (Map.get (record_used id used features) id) []) f
        ≡ (contains used f || contains (unwrap_or (Map.get features id) []) f)
  contains-record_used id [] features f = refl
  contains-record_used id (u ∷ used) features f =
      rw (get-update_or id id [] (insert_all (u ∷ used)) features, eq_self id)
        (contains-insert_all (u ∷ used) (unwrap_or (Map.get features id) []) f)

contains-keep_none :
    (p : Text → Bool) (xs : List Text) (a : Text)
    → keep p xs ≡ []
    → contains xs a ≡ true
    → p a ≡ false
contains-keep_none p [] a h there = absurd cc
contains-keep_none p (x ∷ xs) a h there = elim (Bool-cases (p x)) [
  | inl holds ↦ absurd (ground (arith, holds, h))
  | inr fails ↦ elim (Bool-cases (x == a)) [
    | inl same ↦ subst (λ t. p t ≡ false) ((list_eq_iff x a).0 same) fails
    | inr other ↦ contains-keep_none p xs a (rw fails at h) (rw other at there)
  ]
]

module _ {S V R : Type 0} ⦃es : Eq S⦄ ⦃ev : Eq V⦄ where
  -- all dependencies, but those for development only where the method takes them
  abbrev pub counted : Summary S V R → Method → List (Dependency S R)
  counted s method = keep (λ d. is_transitive d || takes_dev method) s.dependencies

  -- what a run of `resolve_features` that returns has found
  abbrev pub Found :
      Context S V R
      → Summary S V R
      → Method
      → Context S V R
      → List (Dependency S R × List Text)
      → Requirements
      → Type 0
  Found ctx s method ctx' ret reqs =
      (build_requirements s method ≡ ok reqs)
      × (ret ≡ selected s reqs (counted s method))
      × ((n : Text)
          → Map.contains_key reqs.deps n ≡ true
          → any (λ d. name_in_toml d == n) (counted s method) ≡ true)
      × ((f : Text)
          → contains (unwrap_or (Map.get ctx'.resolve_features s.package_id) []) f ≡ (
              contains reqs.used f
              || contains (unwrap_or (Map.get ctx.resolve_features s.package_id) []) f))

  concluded :
      (ctx ctx' : Context S V R) (ret : List (Dependency S R × List Text))
      (parent : Option (Summary S V R)) (s : Summary S V R) (reqs : Requirements)
      (c : Collected S V R)
      → conclude ctx parent s reqs c ≡ ok (ctx', ret)
      → (remaining reqs c ≡ [])
        × (record ctx {
          warnings = c.warned;
          resolve_features = record_used s.package_id reqs.used ctx.resolve_features;
        }
            ≡ ctx')
        × (c.ret ≡ ret)
  concluded ctx ctx' ret parent s reqs c last = elim (Bool-cases (remaining reqs c == [])) [
    | inr left ↦ absurd (ground (arith, left, last))
    | inl none_left ↦
        let same = ok-injective (rw none_left at last) in
        (
          (list_eq_iff (remaining reqs c) []).0 none_left,
          ap (λ (x, _). x) same,
          ap (λ (_, y). y) same,
        )
  ]

  -- When `resolve_features` returns, it selects from the dependencies that the method looks at all
  -- those that are not optional and the optional ones that the requirements turn on, in their order,
  -- each with the features that the requirements ask of it and those it asks for itself; every
  -- dependency in the requirements is one of the package; and the features that are used are
  -- recorded for the package in addition to those recorded before.
  pub resolve_features-Found :
      (ctx : Context S V R) (parent : Option (Summary S V R)) (s : Summary S V R) (method : Method)
      (ctx' : Context S V R) (ret : List (Dependency S R × List Text))
      → resolve_features ctx parent s method ≡ ok (ctx', ret)
      → (reqs : Requirements) × Found ctx s method ctx' ret reqs
  unfolding resolve_features
  resolve_features-Found ctx parent s method ctx' ret h =
      let (reqs, built, rest) =
        bind-eq-ok (fatally bad_requirements (build_requirements s method))
          (λ reqs.
            fatally slash_in_feature (collect s reqs (dependencies_for s method) (begun ctx))
            >>= conclude ctx parent s reqs)
          h in
      let (c, collected, last) =
        bind-eq-ok
          (fatally slash_in_feature (collect s reqs (dependencies_for s method) (begun ctx)))
          (conclude ctx parent s reqs) rest in
      let (selects, names) = collect-ret s reqs (dependencies_for s method) (begun ctx) c (
        fatally-ok slash_in_feature (collect s reqs (dependencies_for s method) (begun ctx))
          collected) in
      let (none_left, same_ctx, same_ret) = concluded ctx ctx' ret parent s reqs c last in
      (
        reqs,
        (
          fatally-ok bad_requirements (build_requirements s method) built,
          sym same_ret ∙ selects,
          λ n there. names n (
              ground (
                arith,
                contains-keep_none (λ n. not (contains c.used_features n)) (Map.keys reqs.deps) n
                    none_left (contains-keys reqs.deps n ∙ there),
              )),
          λ f.
              rw (sym same_ctx)
                (contains-record_used s.package_id reqs.used ctx.resolve_features f),
        ),
      )

  -- the parts of a context that `resolve_features` leaves alone
  pub resolve_features-keeps :
      (ctx : Context S V R) (parent : Option (Summary S V R)) (s : Summary S V R) (method : Method)
      (ctx' : Context S V R) (ret : List (Dependency S R × List Text))
      → resolve_features ctx parent s method ≡ ok (ctx', ret)
      → (ctx'.activations ≡ ctx.activations)
        × (ctx'.resolve_graph ≡ ctx.resolve_graph)
        × (ctx'.resolve_replacements ≡ ctx.resolve_replacements)
  unfolding resolve_features
  resolve_features-keeps ctx parent s method ctx' ret h =
      let (reqs, built, rest) =
        bind-eq-ok (fatally bad_requirements (build_requirements s method))
          (λ reqs.
            fatally slash_in_feature (collect s reqs (dependencies_for s method) (begun ctx))
            >>= conclude ctx parent s reqs)
          h in
      let (c, collected, last) =
        bind-eq-ok
          (fatally slash_in_feature (collect s reqs (dependencies_for s method) (begun ctx)))
          (conclude ctx parent s reqs) rest in
      let (none_left, same, same_ret) = concluded ctx ctx' ret parent s reqs c last in
      (
        ap (λ t. t.activations) (sym same),
        ap (λ t. t.resolve_graph) (sym same),
        ap (λ t. t.resolve_replacements) (sym same),
      )
