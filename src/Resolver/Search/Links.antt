-- ===== src/Resolver/Search/Links.antt =====
-- The graph that `activate_deps_loop` of core/resolver/mod.rs returns.
use toml.Prelude.{
  Bool, true, ◌&&◌, Option, none, some, List, all, all_mono, Eq, ◌≡◌, refl, sym, ◌∙◌, subst, arith,
}
use toml.Set.{Set}
use toml.Core.PackageId.{PackageId}
use toml.Core.PackageIdSpec.{PackageIdSpec}
use toml.Core.Dependency.{Dependency}
use toml.Core.Summary.{Summary}
use toml.Resolver.Types.{Method, GraphNode, add, link}
use toml.Resolver.Queue.{Candidate, DepsFrame}
use toml.Resolver.Queue.Moves.{all-Taken}
use toml.Resolver.Registry
use toml.Resolver.Registry.{World, RegistryQueryer}
use toml.Resolver.Context.{Context, is_active}
use toml.Resolver.Candidates.{Release}
use toml.Resolver.Search.{summary_of, push_link, push_replacement}
use toml.Resolver.Search.State.{done}
use toml.Resolver.Search.Activated.{
  Activates, activate-Activates, Expanded, Chosen, choose-Chosen, unless-some, push_marked,
}
use toml.Resolver.Search.Effects.{
  Extends, Extends-refl, Extends-trans, push_link-Extends, push_replacement-Extends,
  resolve_features-Extends, flag_activated-Extends, flag_activated-nodes, flag_activated-now,
}
use toml.Resolver.Context.Selection.{resolve_features-keeps}
use toml.Resolver.Search.FitAnswers.{AnswersFit}
use toml.Resolver.Search.Fits.{new-CacheFits}
use toml.Resolver.Search.Invariant.{Maintained, fit_for}
use toml.Resolver.Search.Reached.{Reachable-Good, start-Good}
use toml.Resolver.Search.Loop.{Reachable}

module _ {S V R U E : Type 0} ⦃es : Eq S⦄ ⦃ev : Eq V⦄ ⦃er : Eq R⦄ ⦃eu : Eq U⦄
    (world : World S V R U E) where
  pub Chosen-Extends :
      (cx cx' : Context S V R) (s : Summary S V R) (replace : Option (Summary S V R)) (seen : Bool)
      (method : Method) (chosen : Option (Summary S V R))
      → Chosen world cx s replace seen method cx' chosen
      → Extends cx cx'
  Chosen-Extends cx cx' s none seen method chosen (same, is) =
      subst (Extends cx) same (Extends-refl cx)
  Chosen-Extends cx cx' s (some r) seen method chosen (again, flagged, is) =
      Extends-trans (push_replacement-Extends cx s r)
        (flag_activated-Extends (push_replacement cx s r) cx' r method again flagged)

  pub Expanded-Extends :
      (q q' : RegistryQueryer S V R U) (cx cx' : Context S V R)
      (parent chosen : Option (Summary S V R)) (method : Method) (frame : Option (DepsFrame S V R))
      → Expanded world q cx parent chosen method q' cx' frame
      → Extends cx cx'
  Expanded-Extends q q' cx cx' parent none method frame (same_q, same, no_frame) =
      subst (Extends cx) same (Extends-refl cx)
  Expanded-Extends q q' cx cx' parent (some s) method frame
        (f, is_f, (deps, infos, resolved, queried, built)) =
      resolve_features-Extends cx cx' parent s method deps resolved

  pub Activates-Extends :
      (q q' : RegistryQueryer S V R U) (cx cx' : Context S V R)
      (parent : Option (Summary S V R × Dependency S R)) (c : Candidate S V R) (method : Method)
      (frame : Option (DepsFrame S V R))
      → Activates world q cx parent c method q' cx' frame
      → Extends cx cx'
  Activates-Extends q q' cx cx' parent c method frame
        (cx1, seen, cx2, chosen, flagged, chose, expanded) =
      Extends-trans (push_link-Extends cx parent c.summary) (
        Extends-trans
          (flag_activated-Extends (push_link cx parent c.summary) cx1 c.summary method seen flagged)
          (Extends-trans
            (Chosen-Extends cx1 cx2 c.summary c.replace seen method chosen
              (choose-Chosen world cx1 cx2 c.summary c.replace seen method chosen chose))
            (Expanded-Extends q q' cx2 cx' (summary_of parent) chosen method frame expanded)))

module _ {S V R : Type 0} ⦃es : Eq S⦄ ⦃ev : Eq V⦄
    (meets : Dependency S R → PackageId S V → Bool) where
  abbrev pub meets_summary : Dependency S R → Summary S V R → Bool
  meets_summary dep s = meets dep s.package_id

  -- A node is an active package. A link is from an active package to one that meets the dependency.
  abbrev pub node_good : Context S V R → GraphNode S V R → Bool
  node_good cx (add p) = is_active cx p
  node_good cx (link a b dep) = is_active cx a && (is_active cx b && meets dep b)

  abbrev pub taken_active : Context S V R → Option (Summary S V R × Dependency S R) → Bool
  taken_active cx none = true
  taken_active cx (some (parent, dep)) = is_active cx parent.package_id

  abbrev pub parent_active : Context S V R → DepsFrame S V R → Bool
  parent_active cx f = is_active cx f.parent.package_id

  abbrev pub GraphGood :
      Context S V R → List (DepsFrame S V R) → Option (Summary S V R × Dependency S R) → Type 0
  GraphGood cx frames taken =
      (all (node_good cx) cx.resolve_graph ≡ true)
      × (all (parent_active cx) frames ≡ true)
      × (taken_active cx taken ≡ true)

  node_good-Extends :
      (cx cx' : Context S V R)
      → Extends cx cx'
      → (node : GraphNode S V R) → node_good cx node ≡ true
      → node_good cx' node ≡ true
  node_good-Extends cx cx' extends (add p) h = extends.active p h
  node_good-Extends cx cx' extends (link a b dep) h =
      ground (arith, h, extends.active a, extends.active b)

module _ {S V R U E : Type 0} ⦃es : Eq S⦄ ⦃ev : Eq V⦄ ⦃er : Eq R⦄ ⦃eu : Eq U⦄
    (world : World S V R U E) (meets : Dependency S R → PackageId S V → Bool) where
  pushed-nodes :
      (cx cx' : Context S V R) (parent : Option (Summary S V R × Dependency S R))
      (c : Candidate S V R)
      → all (node_good meets cx') cx.resolve_graph ≡ true
      → taken_active meets cx' parent ≡ true
      → is_active cx' c.summary.package_id ≡ true
      → fit_for (meets_summary meets) parent c ≡ true
      → all (node_good meets cx') (push_link cx parent c.summary).resolve_graph ≡ true
  pushed-nodes cx cx' none c before from to fit = before
  pushed-nodes cx cx' (some (parent, dep)) c before from to fit =
      ground (arith, before, from, to, fit)

  Chosen-nodes :
      (cx cx' cx'' : Context S V R) (s : Summary S V R) (replace : Option (Summary S V R))
      (seen : Bool) (method : Method) (chosen : Option (Summary S V R))
      → Chosen world cx s replace seen method cx' chosen
      → Extends cx' cx''
      → is_active cx s.package_id ≡ true
      → all (node_good meets cx'') cx.resolve_graph ≡ true
      → (all (node_good meets cx'') cx'.resolve_graph ≡ true)
        × ((t : Summary S V R) → chosen ≡ some t → is_active cx' t.package_id ≡ true)
  Chosen-nodes cx cx' cx'' s none seen method chosen (same, is) extends here before = (
    subst (λ t. all (node_good meets cx'') t.resolve_graph ≡ true) same before,
    λ t h.
        let (b, x) = unless-some seen s t (sym is ∙ h) in
        subst (λ u. is_active u t.package_id ≡ true) same
          (subst (λ u. is_active cx u.package_id ≡ true) x here),
  )
  Chosen-nodes cx cx' cx'' s (some r) seen method chosen (again, flagged, is) extends here before =
      let now = flag_activated-now (push_replacement cx s r) cx' r method again flagged in
      (
        flag_activated-nodes (push_replacement cx s r) cx' r method again (node_good meets cx'')
            flagged (extends.active r.package_id now) before,
        λ t h.
            let (b, x) = unless-some (again && seen) r t (sym is ∙ h) in
            subst (λ u. is_active cx' u.package_id ≡ true) x now,
      )

  Expanded-nodes :
      (q q' : RegistryQueryer S V R U) (cx cx' : Context S V R)
      (parent chosen : Option (Summary S V R)) (method : Method) (frame : Option (DepsFrame S V R))
      (frames : List (DepsFrame S V R)) (mark : Bool)
      → Expanded world q cx parent chosen method q' cx' frame
      → ((t : Summary S V R) → chosen ≡ some t → is_active cx' t.package_id ≡ true)
      → all (node_good meets cx') cx.resolve_graph ≡ true
      → all (parent_active meets cx') frames ≡ true
      → (all (node_good meets cx') cx'.resolve_graph ≡ true)
        × (all (parent_active meets cx') (push_marked mark frame frames) ≡ true)
  Expanded-nodes q q' cx cx' parent none method frame frames mark (same_q, same, no_frame) here
        nodes parents =
      (
        subst (λ t. all (node_good meets cx') t.resolve_graph ≡ true) same nodes,
        rw no_frame parents,
      )
  Expanded-nodes q q' cx cx' parent (some s) method frame frames mark
        (f, is_f, (deps, infos, resolved, queried, built)) here nodes parents =
      let (activations', graph', replacements') =
        resolve_features-keeps cx parent s method cx' deps resolved in
      (
        subst (λ t. all (node_good meets cx') t ≡ true) (sym graph') nodes,
        rw (is_f, built, here s refl) parents,
      )

  taken_active-Extends :
      (cx cx' : Context S V R) (taken : Option (Summary S V R × Dependency S R))
      → Extends cx cx'
      → taken_active meets cx taken ≡ true
      → taken_active meets cx' taken ≡ true
  taken_active-Extends cx cx' none extends h = refl
  taken_active-Extends cx cx' (some (parent, dep)) extends h = extends.active parent.package_id h

  Activates-GraphGood :
      (q q' : RegistryQueryer S V R U) (cx cx' : Context S V R) (frames : List (DepsFrame S V R))
      (parent : Option (Summary S V R × Dependency S R)) (c : Candidate S V R) (method : Method)
      (frame : Option (DepsFrame S V R)) (mark : Bool)
      → GraphGood meets cx frames parent
      → fit_for (meets_summary meets) parent c ≡ true
      → Activates world q cx parent c method q' cx' frame
      → GraphGood meets cx' (push_marked mark frame frames) none
  Activates-GraphGood q q' cx cx' frames parent c method frame mark (nodes, parents, taken) fit
        activates =
      let whole = Activates-Extends world q q' cx cx' parent c method frame activates in
      let (cx1, seen, cx2, chosen, flagged, chose, expanded) = activates in
      let chosen' = choose-Chosen world cx1 cx2 c.summary c.replace seen method chosen chose in
      let to_2 = Chosen-Extends world cx1 cx2 c.summary c.replace seen method chosen chosen' in
      let from_2 =
        Expanded-Extends world q q' cx2 cx' (summary_of parent) chosen method frame expanded in
      let now =
        flag_activated-now (push_link cx parent c.summary) cx1 c.summary method seen flagged in
      let nodes' =
        all_mono (node_good meets cx) (node_good meets cx') cx.resolve_graph
          (node_good-Extends meets cx cx' whole) nodes in
      let there = from_2.active c.summary.package_id (to_2.active c.summary.package_id now) in
      let pushed =
        pushed-nodes cx cx' parent c nodes' (taken_active-Extends cx cx' parent whole taken) there
          fit in
      let flagged' =
        flag_activated-nodes (push_link cx parent c.summary) cx1 c.summary method seen
          (node_good meets cx') flagged there pushed in
      let (chosen_nodes, chosen_active) =
        Chosen-nodes cx1 cx2 cx' c.summary c.replace seen method chosen chosen' from_2 now
          flagged' in
      let (final_nodes, final_parents) =
        Expanded-nodes q q' cx2 cx' (summary_of parent) chosen method frame frames mark expanded
          (λ t h. from_2.active t.package_id (chosen_active t h)) chosen_nodes
          (all_mono (parent_active meets cx) (parent_active meets cx') frames
            (λ f. whole.active f.parent.package_id) parents) in
      (final_nodes, final_parents, refl)

  GraphGood-Maintained : Maintained world (meets_summary meets) (GraphGood meets)
  GraphGood-Maintained = record {
    takes = λ cx frames rest parent i info (nodes, parents, taken) moves.
        let left =
          all-Taken (parent_active meets cx) frames rest parent (i, info) (λ f. refl) moves
            parents in
        let (f, others, at, same, there, forth, back) = moves in
        let here : parent_active meets cx f ≡ true =
          ground (arith, forth (parent_active meets cx) parents) in
        (nodes, left, rw same here);
    activates = λ q q' cx cx' frames parent c method frame mark good fit runs.
        Activates-GraphGood q q' cx cx' frames parent c method frame mark good fit
          (activate-Activates world q q' cx cx' parent c method frame runs);
  }

  -- The graph of a resolution. The registry is taken to answer a query for a dependency with packages
  -- that meet it, whatever that means. When the search for some packages ends with a context, every
  -- node of the graph is an active package, and every link for a dependency is from an active package
  -- to an active package that meets the dependency, whatever was tried and undone before.
  pub done-node_good :
      (release : V → Release) (replacements : List (PackageIdSpec V U × Dependency S R))
      (try_to_use : Set (PackageId S V)) (minimal_versions : Bool)
      (summaries : List (Summary S V R × Method)) (cx : Context S V R)
      → AnswersFit world (meets_summary meets)
      → Reachable world release
          (Registry.new replacements try_to_use minimal_versions)
          summaries
          (done cx)
      → all (node_good meets cx) cx.resolve_graph ≡ true
  done-node_good release replacements try_to_use minimal_versions summaries cx answers reached =
      let registry = Registry.new replacements try_to_use minimal_versions in
      let (frames, rest, (nodes, parents, taken), over) =
        Reachable-Good world release (meets_summary meets) (GraphGood meets) answers
          GraphGood-Maintained registry summaries (done cx)
          (λ s0 begins.
            start-Good world release (meets_summary meets) (GraphGood meets) answers
              GraphGood-Maintained registry summaries s0
              (new-CacheFits world (meets_summary meets) replacements try_to_use minimal_versions)
              (refl, refl, refl) begins)
          reached in
      nodes
