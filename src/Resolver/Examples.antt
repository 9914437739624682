-- ===== src/Resolver/Examples.antt =====
-- core/resolver/context.rs at a package with an optional dependency and two features.
use toml.Prelude.{
  ℕ, codes, ◌≡◌, refl, true, false, ◌||◌, none, some, List, [], ◌∷◌, all, ok, Yields, nat_eq,
  list_eq, pair_eq, is_some, any, unwrap_or, ◌==◌, Text,
}
use toml.Map
use toml.Graph.{edge, contains_node}
use toml.Core.PackageId.{PackageId, package_id_eq}
use toml.Core.Dependency.{Dependency}
use toml.Core.Feature.{build}
use toml.Core.Summary.{Summary}
use toml.Core.Summary.Examples.{on_serde, table, summary, summary-new}
use toml.Core.Summary.Known.{all_values}
use toml.Resolver.Context.Replacements.{oldest, get-replacements}
use toml.Resolver.Candidates
use toml.Resolver.Candidates.{
  Release, compatible, RemainingCandidates, next_candidate, pending, first_of, others_of,
  next_candidate-pending,
}
use toml.Resolver.Queue
use toml.Resolver.Queue.{DepsFrame, DepInfo, Popped, pop_most_constrained}
use toml.Resolver.Queue.Constrained.{Takes, pop_most_constrained-Takes}
use toml.Resolver.ConflictCache
use toml.Resolver.ConflictCache.{
  Conflicts, ConflictCache, insert, past, conflicting, find_conflicting,
}
use toml.Resolver.ConflictCache.Index.{Indexed, insert-Indexed, insert-conflicting}
use toml.Core.Dependency.Equality.{dependency_eq}
use toml.Resolver.Types.{semver, reason_eq, everything, required, add, link}
use toml.Resolver.Requirements.{Requirements, build_requirements}
use toml.Resolver.Requirements.Progress.{usable}
use toml.Resolver.Requirements.Closed.{Closed, wanted, build_requirements-Closed}
use toml.Resolver.Requirements.Plain.{new-Closed}
use toml.Resolver.Requirements.Examples.{only}
use toml.Resolver.Context
use toml.Resolver.Context.{
  Context, flag_activated, is_active, is_conflicting, replacements, graph, enter,
}
use toml.Resolver.Context.Features.{resolve_features, insert_all}
use toml.Resolver.Context.Selection.{Found, resolve_features-Found}
use toml.Resolver.Context.Laws.{flag_activated-is_active, flag_activated-LinksHeld, LinksHeld}
use toml.Resolver.Context.Graphs.{graph-linked, present, linked}

abbrev fresh : Context ℕ ℕ ℕ
fresh = Context.new

new-Closed_example : Yields (Closed summary everything) (build_requirements summary everything)
new-Closed_example =
    new-Closed summary.package_id (on_serde ∷ []) table none summary summary-new everything

feature_map-usable : all_values (usable summary.features) summary.features ≡ true
unfolding Map.get
feature_map-usable = refl

full-usable : all (usable summary.features) (wanted summary (required (only (codes "full")))) ≡ true
unfolding Map.get build
full-usable = refl

build_requirements-Closed_example :
    Yields
      (Closed summary (required (only (codes "full"))))
      (build_requirements summary (required (only (codes "full"))))
build_requirements-Closed_example =
    build_requirements-Closed summary feature_map-usable (required (only (codes "full")))
      full-usable

abbrev entered : Context ℕ ℕ ℕ
entered = enter fresh summary []

first_activation : flag_activated fresh summary everything ≡ ok (entered, false)
unfolding flag_activated
first_activation = refl

flag_activated-is_active_example :
    is_active entered summary.package_id
    ≡ (is_active fresh summary.package_id || summary.package_id == summary.package_id)
flag_activated-is_active_example =
    flag_activated-is_active fresh summary everything entered false first_activation
      summary.package_id

fresh-LinksHeld : LinksHeld fresh
unfolding Map.get
fresh-LinksHeld k = refl

abbrev linking : Summary ℕ ℕ ℕ
linking = record summary { links = some (codes "z") }

abbrev with_links : Context ℕ ℕ ℕ
with_links = enter fresh linking ((codes "z", linking.package_id) ∷ [])

linking_entered : flag_activated fresh linking everything ≡ ok (with_links, false)
unfolding flag_activated
linking_entered = refl

flag_activated-LinksHeld_example : LinksHeld with_links
flag_activated-LinksHeld_example =
    flag_activated-LinksHeld fresh linking everything with_links false fresh-LinksHeld
      linking_entered

abbrev linked_graph : Context ℕ ℕ ℕ
linked_graph = record fresh {
  resolve_graph = link summary.package_id linking.package_id on_serde ∷ add summary.package_id ∷ [];
}

graph-linked_example :
    (contains_node (graph linked_graph) summary.package_id
      ≡ any (present summary.package_id) linked_graph.resolve_graph)
    × (unwrap_or (edge (graph linked_graph) summary.package_id linking.package_id) []
        ≡ linked linked_graph.resolve_graph summary.package_id linking.package_id)
graph-linked_example = graph-linked linked_graph summary.package_id linking.package_id

abbrev with_features : Context ℕ ℕ ℕ
with_features = record fresh {
  resolve_features = (summary.package_id, codes "full" ∷ codes "serde" ∷ []) ∷ [];
}

abbrev wanted_serde : List (Dependency ℕ ℕ × List Text)
wanted_serde = (on_serde, codes "derive" ∷ codes "std" ∷ []) ∷ []

full_resolved :
    resolve_features fresh none summary (required (only (codes "full")))
    ≡ ok (with_features, wanted_serde)
unfolding resolve_features insert_all
full_resolved = refl

resolve_features-Found_example :
    (reqs : Requirements) × Found fresh summary
      (required (only (codes "full")))
      with_features
      wanted_serde
      reqs
resolve_features-Found_example =
    resolve_features-Found fresh none summary (required (only (codes "full"))) with_features
      wanted_serde full_resolved

abbrev app_semver : Conflicts ℕ ℕ
app_semver = (summary.package_id, semver) ∷ []

abbrev no_conflicts : ConflictCache ℕ ℕ ℕ
no_conflicts = ConflictCache.new

no_conflicts-Indexed : Indexed no_conflicts
unfolding Map.get
no_conflicts-Indexed d = refl

insert-Indexed_example : Indexed (insert no_conflicts on_serde app_semver)
insert-Indexed_example = insert-Indexed no_conflicts on_serde app_semver no_conflicts-Indexed

app_active : all (is_active entered) (Map.keys app_semver) ≡ true
unfolding is_active Map.get Map.update_or
app_active = refl

insert-conflicting_example :
    is_some (conflicting (insert no_conflicts on_serde app_semver) entered on_serde) ≡ true
insert-conflicting_example = insert-conflicting no_conflicts on_serde app_semver entered app_active

abbrev one_left : DepsFrame ℕ ℕ ℕ
one_left = record {
  parent = summary;
  just_for_error_messages = false;
  remaining_siblings = Queue.new (record { dep = on_serde; candidates = []; features = [] } ∷ []);
}

abbrev none_left : DepsFrame ℕ ℕ ℕ
none_left = record one_left { remaining_siblings = Queue.new [] }

pop_most_constrained-Takes_example :
    (popped : Popped ℕ ℕ ℕ) × (pop_most_constrained (none_left ∷ one_left ∷ []) ≡ ok popped)
    × Takes (none_left ∷ one_left ∷ []) popped
pop_most_constrained-Takes_example = pop_most_constrained-Takes (none_left ∷ one_left ∷ [])

abbrev replaced : List (PackageId ℕ ℕ × PackageId ℕ ℕ)
replaced =
    (summary.package_id, record summary.package_id { version = 3 })
    ∷ (summary.package_id, record summary.package_id { version = 2 })
    ∷ []

get-replacements_example :
    Map.get (replacements replaced []) summary.package_id ≡ oldest replaced summary.package_id
get-replacements_example = get-replacements replaced summary.package_id

first_kept : oldest replaced summary.package_id ≡ some (record summary.package_id { version = 2 })
first_kept = refl

abbrev release_of : ℕ → Release
release_of v = record { major = v; minor = 0; patch = 0 }

abbrev two_candidates : RemainingCandidates ℕ ℕ ℕ
two_candidates = Candidates.new (
    record { summary = summary; replace = none }
    ∷ record { summary = linking; replace = none }
    ∷ [])

next_candidate-pending_example :
    ((next_candidate release_of with_links on_serde two_candidates []).0
      ≡ first_of release_of with_links on_serde
          (pending release_of with_links on_serde two_candidates))
    × (pending release_of with_links on_serde
          (next_candidate release_of with_links on_serde two_candidates []).1
        ≡ others_of release_of with_links on_serde
            (pending release_of with_links on_serde two_candidates))
next_candidate-pending_example =
    next_candidate-pending release_of with_links on_serde two_candidates []
