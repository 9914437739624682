-- ===== src/Graph.antt =====
-- util/graph.rs: a directed graph with a value on each edge.
pub mod Path
pub mod Laws
mod Examples
use toml.Prelude.{
  ℕ, zero, suc, ◌≡◌, Bool, not, Option, none, some, List, [], ◌∷◌, ◌++◌, Eq, ◌==◌, contains, keep,
  find, length, if◌then◌else◌, unwrap_or,
}
use toml.Map
use toml.Map.{Map}

pub record Graph {ℓ} (N E : Type ℓ) : Type ℓ where
  pub nodes : Map N (Map N E)

module _ {ℓ} {N E : Type ℓ} where
  unfoldable pub new : Graph N E
  new = record { nodes = [] }

module _ {ℓ} {N E : Type ℓ} ⦃e : Eq N⦄ where
  unfoldable pub add : Graph N E → N → Graph N E
  add g node = record { nodes = Map.update_or node [] (λ adjacent. adjacent) g.nodes }

  -- The caller changes the edge through the reference that `link` returns: `change` is what it
  -- does there, and `d` is `E::default()`.
  unfoldable pub link : E → Graph N E → N → N → (E → E) → Graph N E
  link d g node child change = record {
    nodes = Map.update_or node [] (Map.update_or child d change) g.nodes;
  }

  unfoldable pub contains_node : Graph N E → N → Bool
  contains_node g k = Map.contains_key g.nodes k

  unfoldable pub edge : Graph N E → N → N → Option E
  edge g from to = elim (Map.get g.nodes from) [ none ↦ none | some x ↦ Map.get x to ]

  unfoldable pub edges : Graph N E → N → List (N × E)
  edges g from = unwrap_or (Map.get g.nodes from) []

  unfoldable pub iter : Graph N E → List N
  iter g = Map.keys g.nodes

  -- `self.nodes.iter().filter(..).find(..)` of `path_to_top`
  first_pkg_depending_on : Graph N E → N → List N → Option (N × Map N E)
  first_pkg_depending_on g pkg res =
      find (λ p. not (contains res p.0)) (keep (λ p. Map.contains_key p.1 pkg) g.nodes)

  -- The `while let` loop. `none` means that the fuel ran out.
  climb : ℕ → Graph N E → N → List N → Option (List N)
  climb zero g pkg result = none
  climb (suc fuel) g pkg result = elim (first_pkg_depending_on g pkg result) [
    | none ↦ some result
    | some p ↦ climb fuel g p.0 (result ++ p.0 ∷ [])
  ]

  unfoldable pub path_to_top : Graph N E → N → Option (List N)
  unfolding climb first_pkg_depending_on
  path_to_top g pkg = climb (suc (length (Map.keys g.nodes))) g pkg (pkg ∷ [])
