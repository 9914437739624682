-- ===== src/Resolver/Search/Examples.antt =====
-- core/resolver/mod.rs at a package that depends on another one.
use toml.Prelude.{
  ℕ, codes, Bool, true, false, none, some, List, [], ◌∷◌, all, leb, Result, ok, err, ◌≡◌, ◌≢◌, refl,
  ◌==◌, list_eq, nat_eq, Bool-cases, inl, inr, arith, ◌>>=◌, ok-injective, sym, list_eq_iff,
  pair_eq, subst, ◌∙◌, ap,
}
use toml.Map
use toml.Core.PackageId.{PackageId, package_id_eq}
use toml.Core.Dependency.{Dependency}
use toml.Core.Dependency.Equality.{dependency_eq, dependency_eq_iff}
use toml.Core.Summary.{Summary, made}
use toml.Core.Summary.Examples.{on_serde}
use toml.Resolver.Types.{Method, everything, semver, conflict, add, link}
use toml.Resolver.Queue.{Candidate}
use toml.Resolver.Registry
use toml.Resolver.Registry.{World, RegistryQueryer, query, answer, comes_before}
use toml.Resolver.Context
use toml.Resolver.Context.{Context}
use toml.Resolver.Candidates
use toml.Resolver.Candidates.{Release, passed_over, next_candidate}
use toml.Resolver.Search.{activate, BacktrackFrame, find_candidate, frame_of}
use toml.Resolver.Search.State.{Search, State, outer, done, Failure}
use toml.Resolver.Search.Loop.{Reachable, start, next, step, activate_initial, empty_search}
use toml.Resolver.Search.FitAnswers.{AnswersFit}
use toml.Resolver.Search.Links.{node_good, meets_summary, done-node_good}
use toml.Resolver.Search.Served.{required_linked}
use toml.Resolver.Search.Complete.{done-required_linked}
use toml.Resolver.Search.Effects.{stored}
use toml.Resolver.Search.Requested.{requested_active, done-requested_active}
use toml.Resolver.Search.Backtrack.{FirstUseful, find_candidate-FirstUseful}
use toml.Resolver.ConflictCache
use toml.Resolver.ConflictCache.{Conflicts}
use toml.Resolver.Search.Judge.{judge}
use toml.Resolver.Search.Judged.{judge-succeeds}
use toml.Resolver.Search.Start.{initial-no_conflict}
use toml.Resolver.Registry.Answers.{CacheValid, query-answer}

abbrev needs_serde : Dependency ℕ ℕ
needs_serde = record on_serde { optional = false; features = []; default_features = false }

abbrev app : Summary ℕ ℕ ℕ
app =
    made (record { name = codes "app"; version = 1; source_id = 0 }) (needs_serde ∷ []) none false
      []

abbrev serde : Summary ℕ ℕ ℕ
serde = made (record { name = codes "serde"; version = 2; source_id = 0 }) [] none false []

abbrev answers : Bool → Result ℕ (List (Summary ℕ ℕ ℕ))
answers true = ok (serde ∷ [])
answers false = ok []

abbrev world : World ℕ ℕ ℕ ℕ ℕ
world = record {
  lookup = λ dep. answers (dep.name == codes "serde");
  version_le = leb;
  url_of = λ s. s;
}

abbrev release_of : ℕ → Release
release_of v = record { major = v; minor = 0; patch = 0 }

abbrev registry : RegistryQueryer ℕ ℕ ℕ ℕ
registry = Registry.new [] [] false

abbrev same_name : Dependency ℕ ℕ → PackageId ℕ ℕ → Bool
same_name dep id = id.name == dep.name

answers-fit :
    (dep : Dependency ℕ ℕ) (b : Bool) (ss : List (Summary ℕ ℕ ℕ))
    → (dep.name == codes "serde") ≡ b
    → answers b ≡ ok ss
    → all (meets_summary same_name dep) ss ≡ true
answers-fit dep true ss named found =
    let same : serde ∷ [] ≡ ss = ok-injective found in
    let name_is = (list_eq_iff dep.name (codes "serde")).0 named in rw (sym same, name_is) refl
answers-fit dep false ss named found = let same : [] ≡ ss = ok-injective found in rw (sym same) refl

world-AnswersFit : AnswersFit world (meets_summary same_name)
world-AnswersFit dep ss found = answers-fit dep (dep.name == codes "serde") ss refl found

abbrev asked : List (Summary ℕ ℕ ℕ × Method)
asked = (app, everything) ∷ []

abbrev empty : Search ℕ ℕ ℕ ℕ
empty = empty_search world release_of registry Context.new

abbrev search_of : Result (Failure ℕ ℕ ℕ ℕ ℕ) (Search ℕ ℕ ℕ ℕ) → Search ℕ ℕ ℕ ℕ
search_of (ok s) = s
search_of _ = empty

abbrev state_of : Result (Failure ℕ ℕ ℕ ℕ ℕ) (State ℕ ℕ ℕ ℕ) → State ℕ ℕ ℕ ℕ
state_of (ok s) = s
state_of _ = outer empty

abbrev begun : Search ℕ ℕ ℕ ℕ
begun = search_of (activate_initial world release_of asked empty)

abbrev taken : State ℕ ℕ ℕ ℕ
taken = state_of (step world release_of (outer begun))

abbrev linked : State ℕ ℕ ℕ ℕ
linked = state_of (step world release_of taken)

abbrev context_of : State ℕ ℕ ℕ ℕ → Context ℕ ℕ ℕ
context_of (done cx) = cx
context_of _ = Context.new

abbrev resolved : Context ℕ ℕ ℕ
resolved = context_of (state_of (step world release_of linked))

begins : activate_initial world release_of asked empty ≡ ok begun
unfolding activate_initial
begins = refl

takes : step world release_of (outer begun) ≡ ok taken
unfolding step activate_initial
takes = refl

links : step world release_of taken ≡ ok linked
unfolding step activate_initial passed_over
links = refl

ends : step world release_of linked ≡ ok (done resolved)
unfolding step activate_initial passed_over
ends = refl

reached : Reachable world release_of registry asked (done resolved)
reached = next (next (next (start begins) takes) links) ends

done-node_good_example : all (node_good same_name resolved) resolved.resolve_graph ≡ true
done-node_good_example =
    done-node_good world same_name release_of [] [] false asked resolved world-AnswersFit reached

done-required_linked_example :
    all (required_linked resolved) (stored resolved (codes "app", 0)) ≡ true
done-required_linked_example =
    done-required_linked world release_of [] [] false asked resolved reached (codes "app", 0)

done-requested_active_example : all (requested_active resolved) asked ≡ true
done-requested_active_example =
    done-requested_active world release_of [] [] false asked resolved reached

-- The links of the context are what they should be.
serde_linked :
    resolved.resolve_graph
    ≡ add serde.package_id
      ∷ link app.package_id serde.package_id needs_serde
      ∷ add app.package_id
      ∷ []
unfolding step activate_initial passed_over
serde_linked = refl

initial-no_conflict_example :
    activate world registry Context.new none (record { summary = app; replace = none }) everything
    ≢ err (conflict app.package_id semver)
initial-no_conflict_example =
    initial-no_conflict world registry Context.new (record { summary = app; replace = none })
      everything app.package_id semver

abbrev serde_alone : List (Candidate ℕ ℕ ℕ)
serde_alone = record { summary = serde; replace = none } ∷ []

abbrev cached : RegistryQueryer ℕ ℕ ℕ ℕ
cached = record registry { cache = (needs_serde, serde_alone) ∷ [] }

serde_answer : answer world registry needs_serde ≡ ok serde_alone
unfolding answer
serde_answer = refl

cached-answer : answer world cached needs_serde ≡ ok serde_alone
unfolding answer
cached-answer = refl

cached-CacheValid : CacheValid world cached
unfolding Map.get
cached-CacheValid dep out there = elim (Bool-cases (needs_serde == dep)) [
  | inl same ↦
      let here = (dependency_eq_iff needs_serde dep).0 same in
      let given : serde_alone ≡ out = ground (arith, same, there) in
      subst (λ t. answer world cached t ≡ ok out) here (cached-answer ∙ ap (λ t. ok t) given)
  | inr other ↦ absurd (ground (arith, other, there))
]

query-answer_example :
    ((query world cached needs_serde >>= λ (q, out). ok out) ≡ answer world cached needs_serde)
    × ((q : RegistryQueryer ℕ ℕ ℕ ℕ) (out : List (Candidate ℕ ℕ ℕ))
        → query world cached needs_serde ≡ ok (q, out)
        → CacheValid world q)
query-answer_example = query-answer world cached needs_serde cached-CacheValid

abbrev tried : BacktrackFrame ℕ ℕ ℕ
tried = record {
  cur = 0;
  context = Context.new;
  remaining_deps = [];
  remaining_candidates = Candidates.new serde_alone;
  parent = app;
  dep = needs_serde;
  features = [];
  conflicting_activations = [];
}

-- Both packages that conflict are active in this frame.
abbrev blocked : BacktrackFrame ℕ ℕ ℕ
blocked = record tried { context = resolved }

abbrev serde_conflicts : Conflicts ℕ ℕ
serde_conflicts = (serde.package_id, semver) ∷ []

find_candidate-FirstUseful_example :
    FirstUseful release_of app false serde_conflicts
      (blocked ∷ tried ∷ [])
      (find_candidate release_of app false serde_conflicts (blocked ∷ tried ∷ [])).0
      (find_candidate release_of app false serde_conflicts (blocked ∷ tried ∷ [])).1
find_candidate-FirstUseful_example =
    find_candidate-FirstUseful release_of app false serde_conflicts (blocked ∷ tried ∷ [])

serde_found : find_candidate release_of app false serde_conflicts (blocked ∷ tried ∷ []) ≡ (
  some (
    record { summary = serde; replace = none },
    false,
    record tried {
      remaining_candidates = record { remaining = []; has_another = none };
      conflicting_activations = [];
    },
  ),
  [],
)
unfolding find_candidate passed_over step activate_initial
serde_found = refl

judge-succeeds_example :
    (judged : Bool × Conflicts ℕ ℕ) × (judge {U = ℕ} {E = ℕ} ConflictCache.new resolved
        serde.package_id [] false []
        (frame_of serde [])
      ≡ ok judged)
judge-succeeds_example =
    judge-succeeds ConflictCache.new resolved serde.package_id [] false [] (frame_of serde [])
