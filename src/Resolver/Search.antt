-- ===== src/Resolver/Search.antt =====
-- The activation of a package, `activate` of core/resolver/mod.rs and `Context::build_deps` of
-- core/resolver/context.rs, and the frames that the search goes back to.
pub mod State
pub mod Judge
pub mod Loop
pub mod Effects
pub mod Invariant
pub mod Reached
pub mod Links
pub mod Served
pub mod Complete
pub mod Requested
pub mod Backtrack
pub mod Judged
mod Examples
pub mod Start
pub mod Activated
pub mod FitAnswers
pub mod Fits
use toml.Prelude.{
  ℕ, Text, Bool, true, false, not, ◌&&◌, Option, none, some, List, [], ◌∷◌, length, leb, Eq, ◌==◌,
  list_eq, nat_eq, Result, ok, err, panic, out_of_fuel, ◌>>=◌, if◌then◌else◌, sort_by,
}
use toml.Map
use toml.Core.PackageId.{PackageId, package_id_eq}
use toml.Core.Dependency.{Dependency}
use toml.Core.Dependency.Equality.{dependency_eq}
use toml.Core.Summary.{Summary}
use toml.Resolver.Types.{Method, ActivateError, fatal, conflict, ActivateResult, GraphNode, link}
use toml.Resolver.Queue
use toml.Resolver.Queue.{Candidate, DepInfo, DepsFrame}
use toml.Resolver.Registry.{World, QueryError, RegistryQueryer, query}
use toml.Resolver.Context.{Context, ContextError, flag_activated, is_conflicting}
use toml.Resolver.Context.Features.{resolve_features}
use toml.Resolver.Candidates.{Release, RemainingCandidates, next_candidate}
use toml.Resolver.ConflictCache.{Conflicts}

-- the fatal errors: of a method of `Context`, and of a query
pub data SearchError (S V R U E : Type 0) : Type 0 where
  in_context : ContextError S V → SearchError S V R U E
  in_query : QueryError S V R U E → SearchError S V R U E

module _ {S V R U E A : Type 0} where
  abbrev pub of_context :
      ActivateResult S V (ContextError S V) A → ActivateResult S V (SearchError S V R U E) A
  of_context (ok a) = ok a
  of_context (err (fatal e)) = err (fatal (in_context e))
  of_context (err (conflict id reason)) = err (conflict id reason)
  of_context panic = panic
  of_context out_of_fuel = out_of_fuel

  abbrev pub of_query :
      Result (QueryError S V R U E) A → ActivateResult S V (SearchError S V R U E) A
  of_query (ok a) = ok a
  of_query (err e) = err (fatal (in_query e))
  of_query panic = panic
  of_query out_of_fuel = out_of_fuel

module _ {S V R : Type 0} where
  -- the key that sorts the dependencies of a package
  abbrev pub fewer : DepInfo S V R → DepInfo S V R → Bool
  fewer a b = leb (length a.candidates) (length b.candidates)

  abbrev pub summary_of : Option (Summary S V R × Dependency S R) → Option (Summary S V R)
  summary_of none = none
  summary_of (some (parent, _)) = some parent

  abbrev pub push_link :
      Context S V R → Option (Summary S V R × Dependency S R) → Summary S V R → Context S V R
  push_link cx none s = cx
  push_link cx (some (parent, dep)) s = record cx {
    resolve_graph = link parent.package_id s.package_id dep ∷ cx.resolve_graph;
  }

  abbrev pub push_replacement : Context S V R → Summary S V R → Summary S V R → Context S V R
  push_replacement cx s replace = record cx {
    resolve_replacements = (s.package_id, replace.package_id) ∷ cx.resolve_replacements;
  }

  abbrev pub frame_of : Summary S V R → List (DepInfo S V R) → DepsFrame S V R
  frame_of parent deps = record {
    parent = parent;
    just_for_error_messages = false;
    remaining_siblings = Queue.new deps;
  }

module _ {S V R U E : Type 0} ⦃es : Eq S⦄ ⦃ev : Eq V⦄ ⦃er : Eq R⦄ ⦃eu : Eq U⦄
    (world : World S V R U E) where
  -- the candidates for each dependency
  unfoldable pub query_each :
      RegistryQueryer S V R U
      → List (Dependency S R × List Text)
      → Result (QueryError S V R U E) (RegistryQueryer S V R U × List (DepInfo S V R))
  unfolding query
  query_each q [] = ok (q, [])
  query_each q ((dep, features) ∷ deps) = query world q dep >>= λ (q', candidates).
      query_each q' deps >>= λ (q'', infos).
      ok (q'', record { dep = dep; candidates = candidates; features = features } ∷ infos)

  unfoldable pub build_deps :
      RegistryQueryer S V R U
      → Context S V R
      → Option (Summary S V R)
      → Summary S V R
      → Method
      → ActivateResult S V
          (SearchError S V R U E)
          (RegistryQueryer S V R U × Context S V R × List (DepInfo S V R))
  unfolding query_each resolve_features sort_by
  build_deps q cx parent candidate method =
      of_context (resolve_features cx parent candidate method) >>= λ (cx', deps).
      of_query (query_each q deps) >>= λ (q', infos). ok (q', cx', sort_by fewer infos)

  -- The match on the replacement: the package to go on with, if any.
  abbrev pub choose :
      Context S V R
      → Summary S V R
      → Option (Summary S V R)
      → Bool
      → Method
      → ActivateResult S V (SearchError S V R U E) (Context S V R × Option (Summary S V R))
  choose cx s none activated method = ok (cx, if activated then none else some s)
  choose cx s (some replace) activated method =
      of_context (flag_activated (push_replacement cx s replace) replace method) >>= λ (cx', again).
      ok (cx', if again && activated then none else some replace)

  -- the frame of the package, where there is one to go on with
  abbrev pub expand :
      RegistryQueryer S V R U
      → Context S V R
      → Option (Summary S V R)
      → Option (Summary S V R)
      → Method
      → ActivateResult S V
          (SearchError S V R U E)
          (RegistryQueryer S V R U × Context S V R × Option (DepsFrame S V R))
  expand q cx parent none method = ok (q, cx, none)
  expand q cx parent (some s) method =
      build_deps q cx parent s method >>= λ (q', cx', deps). ok (q', cx', some (frame_of s deps))

  unfoldable pub activate :
      RegistryQueryer S V R U
      → Context S V R
      → Option (Summary S V R × Dependency S R)
      → Candidate S V R
      → Method
      → ActivateResult S V
          (SearchError S V R U E)
          (RegistryQueryer S V R U × Context S V R × Option (DepsFrame S V R))
  unfolding flag_activated build_deps
  activate q cx parent candidate method =
      of_context (flag_activated (push_link cx parent candidate.summary) candidate.summary method)
      >>= λ (cx', activated).
          choose cx' candidate.summary candidate.replace activated method >>= λ (cx'', chosen).
          expand q cx'' (summary_of parent) chosen method

pub record BacktrackFrame (S V R : Type 0) : Type 0 where
  pub cur : ℕ
  pub context : Context S V R
  pub remaining_deps : List (DepsFrame S V R)
  pub remaining_candidates : RemainingCandidates S V R
  pub parent : Summary S V R
  pub dep : Dependency S R
  pub features : List Text
  pub conflicting_activations : Conflicts S V

-- a candidate with whether there is another, and the frame it comes from
abbrev pub Found : Type 0 → Type 0 → Type 0 → Type 0
Found S V R = Option (Candidate S V R × Bool × BacktrackFrame S V R)

module _ {S V R : Type 0} ⦃es : Eq S⦄ ⦃ev : Eq V⦄ (release : V → Release) (parent : Summary S V R)
    (backtracked : Bool) (conflicting_activations : Conflicts S V) where
  -- going back to the frame would not help
  abbrev pub hopeless : BacktrackFrame S V R → Bool
  hopeless f =
      not backtracked && is_conflicting f.context (some parent.package_id) conflicting_activations

  -- the frame after its iterator was moved
  abbrev pub moved :
      BacktrackFrame S V R → RemainingCandidates S V R → Conflicts S V → BacktrackFrame S V R
  moved f candidates conflicts = record f {
    remaining_candidates = candidates;
    conflicting_activations = conflicts;
  }

  -- The top of the stack is the head of the list.
  unfoldable pub find_candidate :
      List (BacktrackFrame S V R) → Found S V R × List (BacktrackFrame S V R)
  unfolding next_candidate is_conflicting
  find_candidate [] = (none, [])
  find_candidate (f ∷ fs) =
      let (next, candidates, conflicts) =
        next_candidate release f.context f.dep f.remaining_candidates f.conflicting_activations in
      let rest = find_candidate fs in
      elim next [
        | none ↦ rest
        | some (candidate, has_another) ↦
            if hopeless f
            then rest
            else (some (candidate, has_another, moved f candidates conflicts), fs)
      ]
