-- ===== src/Resolver/Cycles/Examples.antt =====
-- `check_cycles` of core/resolver/mod.rs at three packages that need one another.
use toml.Prelude.{
  ℕ, codes, Bool, true, false, Option, none, some, is_some, List, [], ◌∷◌, map, contains, Eq, ◌==◌,
  nat_eq, ok, err, Bool-cases, inl, inr, ◌≡◌, refl, arith,
}
use toml.Map
use toml.Map.{Map}
use toml.Core.PackageId.{PackageId, package_id_eq}
use toml.Core.Semver.{Semver, invalid}
use toml.Core.Dependency.{Dependency, Kind, normal, development}
use toml.Core.Summary.{Summary}
use toml.Resolver.Cycles.{Resolve, cyclic, collect_all, deps_not_replaced, check_cycles}
use toml.Resolver.Cycles.Sound.{Complete, Verdict, check_cycles-Verdict}

abbrev any_version : Semver ℕ ℕ
any_version = record {
  req_matches = λ r v. true;
  exact = λ v. v;
  any_req = 0;
  req_to_string = λ r. [];
  parse_req = λ s. invalid;
}

abbrev pkg : ℕ → PackageId ℕ ℕ
pkg n = record { name = n ∷ []; version = 1; source_id = 0 }

abbrev on : Kind → ℕ → Dependency ℕ ℕ
on kind n = record {
  name = n ∷ [];
  source_id = 0;
  registry_id = none;
  req = 0;
  specified_req = false;
  kind = kind;
  only_match_name = false;
  explicit_name_in_toml = none;
  optional = false;
  default_features = false;
  features = [];
  platform = none;
}

abbrev with_dependencies : ℕ → List (Dependency ℕ ℕ) → Summary ℕ ℕ ℕ
with_dependencies n deps = record {
  package_id = pkg n;
  dependencies = deps;
  features = [];
  checksum = none;
  links = none;
  namespaced_features = false;
}

abbrev le : PackageId ℕ ℕ → PackageId ℕ ℕ → Bool
le a b = true

abbrev edge_to : ℕ → PackageId ℕ ℕ × List (Dependency ℕ ℕ)
edge_to n = (pkg n, [])

abbrev node : ℕ → List ℕ → PackageId ℕ ℕ × Map (PackageId ℕ ℕ) (List (Dependency ℕ ℕ))
node n to = (pkg n, map edge_to to)

abbrev resolve_of :
    List (PackageId ℕ ℕ × Map (PackageId ℕ ℕ) (List (Dependency ℕ ℕ))) → Resolve ℕ ℕ ℕ
resolve_of nodes = record { graph = record { nodes = nodes }; replacements = [] }

-- 1 needs 3, and 2 for its tests; 2 needs 3, and 3 needs 1
abbrev activations : Map ℕ (List (Summary ℕ ℕ ℕ))
activations =
    (1, with_dependencies 1 (on development 2 ∷ on normal 3 ∷ []) ∷ [])
    ∷ (2, with_dependencies 2 (on normal 3 ∷ []) ∷ [])
    ∷ (3, with_dependencies 3 (on normal 1 ∷ []) ∷ [])
    ∷ []

-- The cycle of 1 and 3 is reported if 3 is visited first, and is not if 2 is: through 2 the visited
-- packages are forgotten, and 3 is checked then.
cycle_found :
    check_cycles any_version le
      (resolve_of (node 1 (3 ∷ 2 ∷ []) ∷ node 2 (3 ∷ []) ∷ node 3 (1 ∷ []) ∷ []))
      activations
    ≡ err (cyclic (pkg 1) (some (pkg 1 ∷ pkg 3 ∷ pkg 2 ∷ [])))
unfolding check_cycles toml.Prelude.sort_by toml.Graph.iter Map.get Map.insert toml.Graph.edges
    toml.Core.Dependency.matches_id toml.Core.Dependency.is_transitive toml.Set.insert
    toml.Graph.path_to_top
cycle_found = refl

cycle_missed :
    check_cycles any_version le
      (resolve_of (node 1 (2 ∷ 3 ∷ []) ∷ node 2 (3 ∷ []) ∷ node 3 (1 ∷ []) ∷ []))
      activations
    ≡ ok (pkg 3 ∷ pkg 2 ∷ pkg 1 ∷ [])
unfolding check_cycles toml.Prelude.sort_by toml.Graph.iter Map.get Map.insert toml.Graph.edges
    toml.Core.Dependency.matches_id toml.Core.Dependency.is_transitive toml.Set.insert
cycle_missed = refl

abbrev pair : Resolve ℕ ℕ ℕ
pair = resolve_of (node 1 (2 ∷ []) ∷ node 2 (1 ∷ []) ∷ [])

abbrev pair_activations : Map ℕ (List (Summary ℕ ℕ ℕ))
pair_activations =
    (1, with_dependencies 1 (on normal 2 ∷ []) ∷ with_dependencies 2 (on normal 1 ∷ []) ∷ []) ∷ []

pair_deps :
    (x d : PackageId ℕ ℕ)
    → contains (deps_not_replaced pair x) d ≡ true
    → Map.contains_key (collect_all pair_activations []) d ≡ true
unfolding Map.get Map.insert toml.Graph.edges
pair_deps x d h = elim (Bool-cases (pkg 1 == x)) [
  | inl first ↦ ground (arith, rw first at h)
  | inr other ↦ elim (Bool-cases (pkg 2 == x)) [
    | inl second ↦ ground (arith, rw (other, second) at h)
    | inr neither ↦ absurd (ground (arith, rw (other, neither) at h))
  ]
]

pair-Complete : Complete any_version pair (collect_all pair_activations [])
unfolding Map.get Map.insert toml.Graph.iter
pair-Complete = record {
  nodes = λ x h. ground (arith, h);
  deps = pair_deps;
  replacements = λ d r h. absurd cc;
}

check_cycles-Verdict_example :
    Verdict any_version pair
      (collect_all pair_activations [])
      (check_cycles any_version le pair pair_activations)
check_cycles-Verdict_example =
    check_cycles-Verdict any_version le pair pair_activations pair-Complete
