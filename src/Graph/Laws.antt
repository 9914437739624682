-- ===== src/Graph/Laws.antt =====
-- What `link` and `add` of util/graph.rs do to the edges and the nodes.
use toml.Prelude.{◌≡◌, ◌&&◌, ◌||◌, some, [], arith, Eq, ◌==◌, Distinct, if◌then◌else◌, unwrap_or}
use toml.Map
use toml.Map.{get-update_or, Distinct-update_or}
use toml.Graph.{Graph, add, link, contains_node, edge}

module _ {ℓ} {N E : Type ℓ} ⦃e : Eq N⦄ where
  -- After `link` the edge from a to b holds what the caller made of its old value, or of the
  -- default where there was no edge, and every other edge is as before.
  pub edge-link :
      (d : E) (g : Graph N E) (a b x y : N) (change : E → E)
      → edge (link d g a b change) x y
        ≡ (if a == x && b == y then some (change (unwrap_or (edge g a b) d)) else edge g x y)
  unfolding edge link Map.get
  edge-link d g a b x y change = ground (
    arith,
    get-update_or a x [] (Map.update_or b d change) g.nodes,
    get-update_or b y d change (unwrap_or (Map.get g.nodes a) []),
    e.eq_iff a x,
  )

  pub edge-add : (g : Graph N E) (a x y : N) → edge (add g a) x y ≡ edge g x y
  unfolding edge add Map.get
  edge-add g a x y =
      ground (arith, get-update_or a x [] (λ adjacent. adjacent) g.nodes, e.eq_iff a x)

  pub contains_node-link :
      (d : E) (g : Graph N E) (a b x : N) (change : E → E)
      → contains_node (link d g a b change) x ≡ (a == x || contains_node g x)
  unfolding contains_node link
  contains_node-link d g a b x change =
      ground (arith, get-update_or a x [] (Map.update_or b d change) g.nodes)

  -- No node has two entries.
  abbrev pub IsMap : Graph N E → Type 0
  IsMap g = Distinct (Map.keys g.nodes)

  pub IsMap-add : (g : Graph N E) (a : N) → IsMap g → IsMap (add g a)
  unfolding add
  IsMap-add g a h = Distinct-update_or a [] (λ adjacent. adjacent) g.nodes h

  pub IsMap-link :
      (d : E) (g : Graph N E) (a b : N) (change : E → E) → IsMap g → IsMap (link d g a b change)
  unfolding link
  IsMap-link d g a b change h = Distinct-update_or a [] (Map.update_or b d change) g.nodes h
