-- ===== src/Resolver/Context/Features.antt =====
-- `Context::resolve_features` of core/resolver/context.rs: the dependencies that the requested features
-- of a package take, each with the features that are wanted of it.
use toml.Prelude.{
  Text, Bool, true, false, not, ◌||◌, ◌&&◌, Option, none, some, List, [], ◌∷◌, ◌++◌, any, keep,
  find, Eq, ◌==◌, list_eq, nat_eq, pair_eq, contains, unwrap_or, Result, ok, err, panic,
  out_of_fuel, ◌>>=◌, if◌then◌else◌,
}
use toml.Map
use toml.Map.{Map}
use toml.Set
use toml.Set.{Set}
use toml.Core.PackageId.{PackageId, package_id_eq}
use toml.Core.Dependency.{Dependency, name_in_toml, is_transitive}
use toml.Core.Summary.{Summary}
use toml.Resolver.Types.{
  Method, everything, required, missing_features, ActivateError, fatal, conflict, ActivateResult,
}
use toml.Resolver.Context.{
  Context, ContextError, bad_requirements, slash_in_feature, no_such_features, Warning,
  required_as_feature,
}
use toml.Resolver.Requirements.{Requirements, build_requirements}

-- `self.warnings`, `used_features` and `ret`
pub record Collected (S V R : Type 0) : Type 0 where
  pub warned : List (Warning S V)
  pub used_features : Set Text
  pub ret : List (Dependency S R × List Text)

-- what goes on where no feature was found that has a slash
abbrev pub refuse_slash : {A : Type 0} → Option Text → Result Text A → Result Text A
refuse_slash none goes_on = goes_on
refuse_slash (some f) goes_on = err f

abbrev pub takes_dev : Method → Bool
takes_dev everything = true
takes_dev (required m) = m.dev_deps

module _ {S V R : Type 0} (s : Summary S V R) (reqs : Requirements) where
  -- the entry of a dependency
  abbrev pub base_of : Dependency S R → Bool × List Text
  base_of dep = unwrap_or (Map.get reqs.deps (name_in_toml dep)) (false, [])

  abbrev pub skipped : Dependency S R → Bool
  skipped dep = dep.optional && not (Map.contains_key reqs.deps (name_in_toml dep))

  abbrev pub features_of : Dependency S R → List Text
  features_of dep = (base_of dep).1 ++ dep.features

  abbrev pub always_required : Dependency S R → Bool
  always_required dep =
      not dep.optional
      && not (any (λ d. d.optional && name_in_toml d == name_in_toml dep) s.dependencies)

  abbrev pub warn : Dependency S R → List (Warning S V) → List (Warning S V)
  warn dep ws =
      if always_required dep && (base_of dep).0
      then required_as_feature s.package_id (name_in_toml dep) ∷ ws
      else ws

  -- The loop over the dependencies. The error is the feature that has a slash.
  unfoldable pub collect : List (Dependency S R) → Collected S V R → Result Text (Collected S V R)
  unfolding Map.get name_in_toml Set.insert
  collect [] c = ok c
  collect (dep ∷ deps) c =
      let rest = collect deps (record {
        warned = warn dep c.warned;
        used_features = Set.insert (name_in_toml dep) c.used_features;
        ret = c.ret ++ (dep, features_of dep) ∷ [];
      }) in
      let without = collect deps c in
      if skipped dep
      then without
      else refuse_slash (find (λ f. contains f b'/') (features_of dep)) rest

abbrev pub fatally : {S V E E' A : Type 0} → (E → E') → Result E A → ActivateResult S V E' A
fatally wrap (ok a) = ok a
fatally wrap (err e) = err (fatal (wrap e))
fatally wrap panic = panic
fatally wrap out_of_fuel = out_of_fuel

abbrev pub missing :
    {S V R : Type 0}
    → Option (Summary S V R)
    → PackageId S V
    → List Text
    → ActivateError S V (ContextError S V)
missing none id remaining = fatal (no_such_features id remaining)
missing (some p) id remaining = conflict p.package_id (missing_features remaining)

module _ {S V R : Type 0} where
  -- the dependencies that the method looks at
  abbrev pub dependencies_for : Summary S V R → Method → List (Dependency S R)
  dependencies_for s method = keep (λ d. is_transitive d || takes_dev method) s.dependencies

  -- the dependencies in the requirements that no dependency of the package was found for
  abbrev pub remaining : Requirements → Collected S V R → List Text
  remaining reqs c = keep (λ n. not (contains c.used_features n)) (Map.keys reqs.deps)

  abbrev pub begun : Context S V R → Collected S V R
  begun ctx = record { warned = ctx.warnings; used_features = []; ret = [] }

-- `for feature in reqs.used { set.insert(feature); }`
unfoldable pub insert_all : List Text → Set Text → Set Text
unfolding Set.insert
insert_all [] set = set
insert_all (f ∷ fs) set = insert_all fs (Set.insert f set)

module _ {S V : Type 0} ⦃es : Eq S⦄ ⦃ev : Eq V⦄ where
  abbrev pub record_used :
      PackageId S V → Set Text → Map (PackageId S V) (Set Text) → Map (PackageId S V) (Set Text)
  record_used id used features =
      if used == [] then features else Map.update_or id [] (insert_all used) features

module _ {S V R : Type 0} ⦃es : Eq S⦄ ⦃ev : Eq V⦄ where
  -- what follows the loop over the dependencies
  abbrev pub conclude :
      Context S V R
      → Option (Summary S V R)
      → Summary S V R
      → Requirements
      → Collected S V R
      → ActivateResult S V (ContextError S V) (Context S V R × List (Dependency S R × List Text))
  conclude ctx parent s reqs c =
      if not (remaining reqs c == [])
      then err (missing parent s.package_id (remaining reqs c))
      else ok (
        record ctx {
          warnings = c.warned;
          resolve_features = record_used s.package_id reqs.used ctx.resolve_features;
        },
        c.ret,
      )

  unfoldable pub resolve_features :
      Context S V R
      → Option (Summary S V R)
      → Summary S V R
      → Method
      → ActivateResult S V (ContextError S V) (Context S V R × List (Dependency S R × List Text))
  unfolding collect build_requirements Map.update_or is_transitive
  resolve_features ctx parent s method =
      fatally bad_requirements (build_requirements s method) >>= λ reqs.
      fatally slash_in_feature (collect s reqs (dependencies_for s method) (begun ctx))
      >>= conclude ctx parent s reqs
