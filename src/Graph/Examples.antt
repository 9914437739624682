-- ===== src/Graph/Examples.antt =====
-- util/graph.rs at small graphs, one of them a cycle.
use toml.Prelude.{ℕ, ◌+◌, ◌≡◌, refl, some, List, [], ◌∷◌, nat_eq}
use toml.Map
use toml.Graph.{Graph, new, add, link, path_to_top}
use toml.Graph.Path.{IsPathToTop, path_to_top-IsPathToTop}

abbrev G : Type 0
G = Graph ℕ ℕ

-- 1 → 2 → 3 → 1 is a cycle, and 4 → 3
abbrev sample : G
sample =
    link 0 (link 0 (link 0 (link 0 (add new 1) 1 2 (λ n. n + 1)) 2 3 (λ n. n + 1)) 3 1 (λ n. n + 1))
      4 3 (λ n. n + 5)

path_to_top-sample : path_to_top sample 3 ≡ some (3 ∷ 2 ∷ 1 ∷ [])
unfolding path_to_top link add new Map.update_or Map.get
path_to_top-sample = refl

abbrev cycle : G
cycle = record { nodes = (1, (2, 0) ∷ []) ∷ (2, (1, 0) ∷ []) ∷ [] }

path_to_top-IsPathToTop_example :
    (path : List ℕ) × (path_to_top cycle 1 ≡ some path) × IsPathToTop cycle 1 path
path_to_top-IsPathToTop_example = path_to_top-IsPathToTop cycle 1 (refl, (refl, tt))
