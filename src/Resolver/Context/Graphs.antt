-- ===== src/Resolver/Context/Graphs.antt =====
-- The graph that `Context::graph` of core/resolver/context.rs makes of the construction list.
use toml.Prelude.{
  Bool, ◌||◌, ◌&&◌, ◌≡◌, refl, List, [], ◌∷◌, ◌++◌, any, Eq, ◌==◌, unwrap_or, if◌then◌else◌, arith,
  Bool-cases, inl, inr, append_assoc, append-nil, ap, sym, ◌∙◌, Bool-and,
}
use toml.Graph
use toml.Graph.{Graph, edge, contains_node}
use toml.Graph.Laws.{edge-link, edge-add, contains_node-link}
use toml.Map
use toml.Map.{get-update_or}
use toml.Core.PackageId.{PackageId, package_id_eq, id_eq_iff}
use toml.Core.Dependency.{Dependency}
use toml.Resolver.Types.{GraphNode, add, link}
use toml.Resolver.Context.{Context, graph, graph_loop}

module _ {S V R : Type 0} ⦃es : Eq S⦄ ⦃ev : Eq V⦄ where
  -- the dependencies for which a package was linked to another
  abbrev pub linked : List (GraphNode S V R) → PackageId S V → PackageId S V → List (Dependency S R)
  linked [] a b = []
  linked (add p ∷ ns) a b = linked ns a b
  linked (link x y dep ∷ ns) a b =
      let rest = linked ns a b in if x == a && y == b then dep ∷ rest else rest

  abbrev pub present : PackageId S V → GraphNode S V R → Bool
  present p (add q) = q == p
  present p (link x y dep) = x == p

  edge-graph_loop :
      (ns : List (GraphNode S V R)) (g : Graph (PackageId S V) (List (Dependency S R)))
      (a b : PackageId S V)
      → unwrap_or (edge (graph_loop ns g) a b) [] ≡ unwrap_or (edge g a b) [] ++ linked ns a b
  unfolding graph_loop
  edge-graph_loop [] g a b = sym (append-nil (unwrap_or (edge g a b) []))
  edge-graph_loop (add p ∷ ns) g a b =
      rw (edge-graph_loop ns (Graph.add g p) a b, edge-add g p a b) refl
  edge-graph_loop (link x y dep ∷ ns) g a b = elim (Bool-cases (x == a && y == b)) [
    | inl same ↦
        let to_a : x ≡ a = (id_eq_iff x a).0 (Bool-and same).0 in
        let to_b : y ≡ b = (id_eq_iff y b).0 (Bool-and same).1 in
        rw
          (
            edge-graph_loop ns (Graph.link [] g x y (λ deps. deps ++ dep ∷ [])) a b,
            edge-link [] g x y a b (λ deps. deps ++ dep ∷ []),
            same,
          )
          (append_assoc (unwrap_or (edge g x y) []) (dep ∷ []) (linked ns a b)
            ∙ ap (λ t. unwrap_or t [] ++ dep ∷ linked ns a b)
                (ap (λ p. edge g p y) to_a ∙ ap (edge g a) to_b))
    | inr other ↦
        rw
          (
            edge-graph_loop ns (Graph.link [] g x y (λ deps. deps ++ dep ∷ [])) a b,
            edge-link [] g x y a b (λ deps. deps ++ dep ∷ []),
            other,
          )
          refl
  ]

  contains_node-add :
      (g : Graph (PackageId S V) (List (Dependency S R))) (p q : PackageId S V)
      → contains_node (Graph.add g p) q ≡ (p == q || contains_node g q)
  unfolding contains_node Graph.add
  contains_node-add g p q = ground (arith, get-update_or p q [] (λ adjacent. adjacent) g.nodes)

  contains_node-graph_loop :
      (ns : List (GraphNode S V R)) (g : Graph (PackageId S V) (List (Dependency S R)))
      (p : PackageId S V)
      → contains_node (graph_loop ns g) p ≡ (contains_node g p || any (present p) ns)
  unfolding graph_loop
  contains_node-graph_loop [] g p = ground arith
  contains_node-graph_loop (add q ∷ ns) g p =
      ground (arith, contains_node-graph_loop ns (Graph.add g q) p, contains_node-add g q p)
  contains_node-graph_loop (link x y dep ∷ ns) g p = ground (
    arith,
    contains_node-graph_loop ns (Graph.link [] g x y (λ deps. deps ++ dep ∷ [])) p,
    contains_node-link [] g x y p (λ deps. deps ++ dep ∷ []),
  )

  -- The graph has a node for each package that was added or linked to another, and on the edge
  -- between two packages the dependencies they were linked for, the last one first.
  pub graph-linked :
      (ctx : Context S V R) (a b : PackageId S V)
      → (contains_node (graph ctx) a ≡ any (present a) ctx.resolve_graph)
        × (unwrap_or (edge (graph ctx) a b) [] ≡ linked ctx.resolve_graph a b)
  unfolding graph contains_node edge Graph.new Map.get
  graph-linked ctx a b = (
    contains_node-graph_loop ctx.resolve_graph Graph.new a,
    edge-graph_loop ctx.resolve_graph Graph.new a b,
  )
