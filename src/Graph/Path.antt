-- ===== src/Graph/Path.antt =====
-- `path_to_top` of util/graph.rs ends, on a cycle too, and returns a path.
use toml.Prelude.{
  ℕ, zero, suc, ◌<◌, ◌≡◌, refl, sym, ◌∙◌, eq_self, length-keep_lt, true, false, not, ◌&&◌, none,
  some, List, [], ◌∷◌, ◌++◌, arith, Eq, contains, contains-append, Distinct, Distinct-snoc, keep,
  find, find-keep, find-holds, last?, last?-snoc, length, length-keep, Option-cases, is_some, inl,
  inr,
}
use mathlib.Core.List.{head?}
use toml.Map
use toml.Map.{Map, get-find, get-find-none}
use toml.Graph.{Graph, edge, first_pkg_depending_on, climb, path_to_top}
use toml.Graph.Laws.{IsMap}

module _ {ℓ} {N E : Type ℓ} ⦃e : Eq N⦄ where
  -- each node of the list has an edge to the one before it
  abbrev pub Linked : Graph N E → List N → Type 0
  Linked g [] = Unit {0}
  Linked g (x ∷ xs) = elim xs [
    | [] ↦ Unit {0}
    | y ∷ _ ↦ (is_some (edge g y x) ≡ true) × Linked g xs
  ]

  first-found :
      (g : Graph N E) (pkg : N) (res : List N) (p : N × Map N E)
      → IsMap g
      → first_pkg_depending_on g pkg res ≡ some p
      → (is_some (edge g p.0 pkg) ≡ true) × (contains res p.0 ≡ false)
  unfolding first_pkg_depending_on edge Map.get
  first-found g pkg res p d h =
      let fresh = λ (q : N × Map N E). not (contains res q.0) in
      let adjacent = λ (q : N × Map N E). Map.contains_key q.1 pkg in
      let both = λ (q : N × Map N E). adjacent q && fresh q in
      let found : find both g.nodes ≡ some p = sym (find-keep fresh adjacent g.nodes) ∙ h in
      let at = get-find both g.nodes p.0 p.1 d found in
      (
        ground (arith, at, find-holds both g.nodes found),
        ground (arith, find-holds both g.nodes found),
      )

  Linked-snoc :
      (g : Graph N E) (xs : List N) (y q : N)
      → last? xs ≡ some y
      → is_some (edge g q y) ≡ true
      → Linked g xs
      → Linked g (xs ++ q ∷ [])
  Linked-snoc g [] y q l h t = cc
  Linked-snoc g (x ∷ []) y q l h t = (ground (arith, h), tt)
  Linked-snoc g (x ∷ z ∷ xs) y q l h t = (t.0, Linked-snoc g (z ∷ xs) y q l h t.1)

  -- What the loop of `path_to_top` keeps: `pkg` is the last element of `result`.
  pub record IsPath (g : Graph N E) (start pkg : N) (result : List N) : Type ℓ where
    pub starts : head? result ≡ some start
    pub ends : last? result ≡ some pkg
    pub linked : Linked g result
    pub distinct : Distinct result

  -- A path whose last node is depended on by nodes of the path alone.
  pub record IsPathToTop (g : Graph N E) (start : N) (result : List N) : Type ℓ where
    pub top : N
    pub path : IsPath g start top result
    pub maximal : (n : N) → is_some (edge g n top) ≡ true → contains result n ≡ true

  none-found :
      (g : Graph N E) (pkg : N) (res : List N) (n : N)
      → first_pkg_depending_on g pkg res ≡ none
      → is_some (edge g n pkg) ≡ true
      → contains res n ≡ true
  unfolding first_pkg_depending_on edge
  none-found g pkg res n h at = elim (Option-cases (Map.get g.nodes n)) [
    | inl missing ↦ absurd (ground (arith, missing))
    | inr (adj, there) ↦
        let fresh = λ (q : N × Map N E). not (contains res q.0) in
        let adjacent = λ (q : N × Map N E). Map.contains_key q.1 pkg in
        let all_old = sym (find-keep fresh adjacent g.nodes) ∙ h in
        ground
          (arith, there, get-find-none (λ q. adjacent q && fresh q) g.nodes n adj all_old there)
  ]

  IsPath-step :
      (g : Graph N E) (start pkg q : N) (result : List N)
      → (is_some (edge g q pkg) ≡ true) × (contains result q ≡ false)
      → IsPath g start pkg result
      → IsPath g start q (result ++ q ∷ [])
  IsPath-step g start pkg q [] f h = cc (h.starts)
  IsPath-step g start pkg q (x ∷ xs) f h = record {
    starts = h.starts;
    ends = last?-snoc (x ∷ xs) q;
    linked = Linked-snoc g (x ∷ xs) pkg q h.ends f.0 h.linked;
    distinct = Distinct-snoc (x ∷ xs) q h.distinct f.1;
  }

  -- The nodes that the path has not met: each round of the loop meets one.
  abbrev unmet : Graph N E → List N → ℕ
  unmet g result = length (keep (λ k. not (contains result k)) (Map.keys g.nodes))

  unmet-step :
      (g : Graph N E) (pkg q : N) (result : List N)
      → (is_some (edge g q pkg) ≡ true) × (contains result q ≡ false)
      → unmet g (result ++ q ∷ []) < unmet g result
  unfolding edge
  unmet-step g pkg q result f =
      length-keep_lt (λ k. not (contains result k)) (λ k. not (contains (result ++ q ∷ []) k))
        (Map.keys g.nodes) q (λ x h. ground (arith, contains-append result (q ∷ []) x))
        (ground (arith, f.0, Map.contains-keys g.nodes q)) (ground (arith, f.1))
        (ground (arith, contains-append result (q ∷ []) q, eq_self q))

  climb-IsPathToTop :
      (fuel : ℕ) (g : Graph N E) (start pkg : N) (result : List N)
      → IsMap g
      → unmet g result < fuel
      → IsPath g start pkg result
      → (path : List N) × (climb fuel g pkg result ≡ some path) × IsPathToTop g start path
  unfolding climb
  climb-IsPathToTop zero g start pkg result m lt h = absurd (omega arith)
  climb-IsPathToTop (suc fuel) g start pkg result m lt h =
      elim (Option-cases (first_pkg_depending_on g pkg result)) [
        | inl done ↦ (
          result,
          rw (done, climb),
          record { top = pkg; path = h; maximal = λ n. none-found g pkg result n done },
        )
        | inr (p, next) ↦
            let f = first-found g pkg result p m next in
            rw (next, climb)
              (climb-IsPathToTop fuel g start p.0 (result ++ p.0 ∷ []) m
                (omega (arith, unmet-step g pkg p.0 result f))
                (IsPath-step g start pkg p.0 result f h))
      ]

-- For a graph that has each node once, `path_to_top` ends, and returns a list that begins with the
-- given package, in which no node stands twice, each node has an edge to the one before it, and
-- every node with an edge to the last one is in the list.
pub path_to_top-IsPathToTop {ℓ} :
    {N E : Type ℓ} ⦃e : Eq N⦄ (g : Graph N E) (pkg : N)
    → IsMap g
    → (path : List N) × (path_to_top g pkg ≡ some path) × IsPathToTop g pkg path
unfolding path_to_top
path_to_top-IsPathToTop g pkg m =
    climb-IsPathToTop (suc (length (Map.keys g.nodes))) g pkg pkg (pkg ∷ []) m
      (omega (arith, length-keep (λ k. not (contains (pkg ∷ []) k)) (Map.keys g.nodes)))
      (record { starts = refl; ends = refl; linked = tt; distinct = (refl, tt) })
