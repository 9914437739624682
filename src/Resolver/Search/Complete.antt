-- ===== src/Resolver/Search/Complete.antt =====
-- Which dependencies the context that `activate_deps_loop` of core/resolver/mod.rs returns has links
-- for.
use toml.Prelude.{
  Text, Bool, true, false, not, ◌||◌, Option, none, some, List, [], ◌∷◌, map, all, any, all_mono,
  Eq, eq_self, unwrap_or, pair_eq, list_eq, nat_eq, contains, all-contains, ◌≡◌, refl, sym, ap, ◌∙◌,
  subst, arith, Bool-cases, inl, inr,
}
use toml.Map
use toml.Set.{Set}
use toml.Core.PackageId.{PackageId, package_id_eq}
use toml.Core.PackageIdSpec.{PackageIdSpec}
use toml.Core.Dependency.{Dependency}
use toml.Core.Dependency.Equality.{dependency_eq}
use toml.Core.Summary.{Summary}
use toml.Resolver.Types.{Method}
use toml.Resolver.Queue.{Candidate, DepsFrame, flatten}
use toml.Resolver.Queue.Moves.{iter-Taken, iter-none}
use toml.Resolver.Registry
use toml.Resolver.Registry.{World, RegistryQueryer}
use toml.Resolver.Context
use toml.Resolver.Context.{Context, flag_activated, is_active}
use toml.Resolver.Context.Selection.{resolve_features-Found, resolve_features-keeps}
use toml.Resolver.Candidates.{Release}
use toml.Resolver.Search.{summary_of, push_link, push_replacement}
use toml.Resolver.Search.State.{done}
use toml.Resolver.Search.Activated.{
  Activates, activate-Activates, Expanded, Built, Chosen, choose-Chosen, push_marked,
}
use toml.Resolver.Search.Effects.{
  is_replaced, stored, flag_activated-Extends, flag_activated-stored,
}
use toml.Resolver.Search.Links.{Chosen-Extends, Expanded-Extends, Activates-Extends}
use toml.Resolver.Search.FitAnswers.{AnswersFit, query_each-deps}
use toml.Resolver.Search.Fits.{new-CacheFits}
use toml.Resolver.Search.Invariant.{Maintained}
use toml.Resolver.Search.Reached.{Reachable-Good, start-Good}
use toml.Resolver.Search.Loop.{Reachable}
use toml.Resolver.Search.Served.{
  required_linked, is_required, links_for, awaits, taken_awaits, served, package_served, AllServed,
  package_served_mono, frame_of-awaits, pushed-awaits, pushed-own, selected-required,
}

module _ {S V R U E : Type 0} ⦃es : Eq S⦄ ⦃ev : Eq V⦄ ⦃er : Eq R⦄ ⦃eu : Eq U⦄
    (world : World S V R U E) where
  -- A package whose dependencies were built is served by its frame.
  Built-served :
      (q q' : RegistryQueryer S V R U) (cx cx' : Context S V R) (parent : Option (Summary S V R))
      (s : Summary S V R) (method : Method) (f : DepsFrame S V R) (mark : Bool)
      (frames : List (DepsFrame S V R))
      → Built world q cx parent s method q' cx' f
      → package_served cx' (push_marked mark (some f) frames) none s ≡ true
  Built-served q q' cx cx' parent s method f mark frames (deps, infos, resolved, queried, built) =
      let (reqs, (required, selects, named, used)) =
        resolve_features-Found cx parent s method cx' deps resolved in
      let listed = query_each-deps world q q' deps infos queried in
      all-contains
        (λ d.
          not (is_required d) || served cx' (push_marked mark (some f) frames) none s.package_id d)
        s.dependencies
        (λ d there. elim (Bool-cases (is_required d)) [
          | inr optional ↦ ground (arith, optional)
          | inl needed ↦
              let among = selected-required s reqs method d there needed in
              let queried' : contains (map (λ info. info.dep) infos) d ≡ true =
                rw (listed, selects) among in
              let own =
                subst
                  (λ t.
                    any (awaits s.package_id d)
                      (flatten (record t { just_for_error_messages = mark }))
                    ≡ true)
                  (sym built) (frame_of-awaits s infos mark d queried') in
              let listed' = pushed-own f frames mark s.package_id d own in ground (arith, listed')
        ])

  -- The dependency that was taken is linked.
  taken-linked :
      (q q' : RegistryQueryer S V R U) (cx cx' : Context S V R)
      (parent : Option (Summary S V R × Dependency S R)) (c : Candidate S V R) (method : Method)
      (frame : Option (DepsFrame S V R))
      → Activates world q cx parent c method q' cx' frame
      → (id : PackageId S V) (d : Dependency S R) → taken_awaits id d parent ≡ true
      → any (links_for id d) cx'.resolve_graph ≡ true
  taken-linked q q' cx cx' none c method frame activates id d h = absurd cc
  taken-linked q q' cx cx' (some (parent, dep)) c method frame
        (cx1, seen, cx2, chosen, flagged, chose, expanded) id d h =
      let cx0 = push_link cx (some (parent, dep)) c.summary in
      let pushed : any (links_for id d) cx0.resolve_graph ≡ true = ground (arith, h) in
      let to_1 = flag_activated-Extends cx0 cx1 c.summary method seen flagged in
      let to_2 =
        Chosen-Extends world cx1 cx2 c.summary c.replace seen method chosen
          (choose-Chosen world cx1 cx2 c.summary c.replace seen method chosen chose) in
      let to_3 = Expanded-Extends world q q' cx2 cx' (some parent) chosen method frame expanded in
      to_3.recorded (links_for id d)
        (to_2.recorded (links_for id d) (to_1.recorded (links_for id d) pushed))

  served-Activates :
      (q q' : RegistryQueryer S V R U) (cx cx' : Context S V R) (frames : List (DepsFrame S V R))
      (parent : Option (Summary S V R × Dependency S R)) (c : Candidate S V R) (method : Method)
      (frame : Option (DepsFrame S V R)) (mark : Bool)
      → Activates world q cx parent c method q' cx' frame
      → (id : PackageId S V) (d : Dependency S R) → served cx frames parent id d ≡ true
      → served cx' (push_marked mark frame frames) none id d ≡ true
  served-Activates q q' cx cx' frames parent c method frame mark activates id d h =
      let whole = Activates-Extends world q q' cx cx' parent c method frame activates in
      let linked = taken-linked q q' cx cx' parent c method frame activates id d in
      let waits = pushed-awaits frame frames mark id d in
      ground (arith, h, whole.replaced id, whole.recorded (links_for id d), linked, waits)

  new_served :
      (q q' : RegistryQueryer S V R U) (cx cx' : Context S V R)
      (parent chosen : Option (Summary S V R)) (method : Method) (frame : Option (DepsFrame S V R))
      (mark : Bool) (frames : List (DepsFrame S V R)) (s : Summary S V R)
      → Expanded world q cx parent chosen method q' cx' frame
      → chosen ≡ some s
      → package_served cx' (push_marked mark frame frames) none s ≡ true
  new_served q q' cx cx' parent none method frame mark frames s expanded is = absurd cc
  new_served q q' cx cx' parent (some t) method frame mark frames s (f, is_f, built) is =
      let same : t ≡ s = cc in
      rw is_f (
        subst (λ u. package_served cx' (push_marked mark (some f) frames) none u ≡ true) same
          (Built-served q q' cx cx' parent t method f mark frames built))

  replaced_served :
      (cx : Context S V R) (frames : List (DepsFrame S V R)) (s : Summary S V R)
      → is_replaced cx s.package_id ≡ true
      → package_served cx frames none s ≡ true
  replaced_served cx frames s h =
      all-contains (λ d. not (is_required d) || served cx frames none s.package_id d) s.dependencies
        (λ d there. ground (arith, h))

  -- The two calls of `flag_activated`: what they enter is replaced, or served by the new frame.
  Chosen-served :
      (q q' : RegistryQueryer S V R U) (cx1 cx2 cx' : Context S V R)
      (parent chosen : Option (Summary S V R)) (s : Summary S V R)
      (replace : Option (Summary S V R)) (seen : Bool) (method : Method)
      (frame : Option (DepsFrame S V R)) (mark : Bool) (frames : List (DepsFrame S V R))
      → Chosen world cx1 s replace seen method cx2 chosen
      → Expanded world q cx2 parent chosen method q' cx' frame
      → (seen ≡ false → package_served cx' (push_marked mark frame frames) none s ≡ true)
        × ((k : Text × S)
            → all (package_served cx' (push_marked mark frame frames) none) (stored cx1 k) ≡ true
            → all (package_served cx' (push_marked mark frame frames) none) (stored cx2 k) ≡ true)
  Chosen-served q q' cx1 cx2 cx' parent chosen s none seen method frame mark frames (same, is)
        expanded =
      (
        λ fresh.
            new_served q q' cx2 cx' parent chosen method frame mark frames s expanded
              (is ∙ rw fresh refl),
        λ k h.
            subst
              (λ t.
                all (package_served cx' (push_marked mark frame frames) none) (stored t k) ≡ true)
              same h,
      )
  Chosen-served q q' cx1 cx2 cx' parent chosen s (some r) seen method frame mark frames
        (again, flagged, is) expanded =
      let to_2 = flag_activated-Extends (push_replacement cx1 s r) cx2 r method again flagged in
      let to_3 = Expanded-Extends world q q' cx2 cx' parent chosen method frame expanded in
      let recorded : is_replaced (push_replacement cx1 s r) s.package_id ≡ true =
        ground (arith, eq_self s.package_id) in
      let replaced = to_3.replaced s.package_id (to_2.replaced s.package_id recorded) in
      (
        λ fresh. replaced_served cx' (push_marked mark frame frames) s replaced,
        λ k h.
            flag_activated-stored (push_replacement cx1 s r) cx2 r method again
              (package_served cx' (push_marked mark frame frames) none) k flagged
              (λ fresh.
                new_served q q' cx2 cx' parent chosen method frame mark frames r expanded
                  (is ∙ rw fresh refl))
              h,
      )

  Expanded-stored :
      (q q' : RegistryQueryer S V R U) (cx cx' : Context S V R)
      (parent chosen : Option (Summary S V R)) (method : Method) (frame : Option (DepsFrame S V R))
      (k : Text × S)
      → Expanded world q cx parent chosen method q' cx' frame
      → stored cx k ≡ stored cx' k
  Expanded-stored q q' cx cx' parent none method frame k (same_q, same, no_frame) =
      ap (λ t. stored t k) same
  Expanded-stored q q' cx cx' parent (some s) method frame k
        (f, is_f, (deps, infos, resolved, queried, built)) =
      let (activations', graph', replacements') =
        resolve_features-keeps cx parent s method cx' deps resolved in
      ap (λ t. unwrap_or (Map.get t k) []) (sym activations')

  push_link-stored :
      (cx : Context S V R) (parent : Option (Summary S V R × Dependency S R)) (s : Summary S V R)
      (k : Text × S)
      → stored cx k ≡ stored (push_link cx parent s) k
  push_link-stored cx none s k = refl
  push_link-stored cx (some (parent, dep)) s k = refl

  Activates-AllServed :
      (q q' : RegistryQueryer S V R U) (cx cx' : Context S V R) (frames : List (DepsFrame S V R))
      (parent : Option (Summary S V R × Dependency S R)) (c : Candidate S V R) (method : Method)
      (frame : Option (DepsFrame S V R)) (mark : Bool)
      → AllServed cx frames parent
      → Activates world q cx parent c method q' cx' frame
      → AllServed cx' (push_marked mark frame frames) none
  Activates-AllServed q q' cx cx' frames parent c method frame mark before activates k =
      let frames' = push_marked mark frame frames in
      let (cx1, seen, cx2, chosen, flagged, chose, expanded) = activates in
      let (first, second) =
        Chosen-served q q' cx1 cx2 cx' (summary_of parent) chosen c.summary c.replace seen method
          frame mark frames
          (choose-Chosen world cx1 cx2 c.summary c.replace seen method chosen chose) expanded in
      let earlier =
        all_mono (package_served cx frames parent) (package_served cx' frames' none) (stored cx k)
          (package_served_mono cx cx' frames frames' parent none
            (served-Activates q q' cx cx' frames parent c method frame mark activates))
          (before k) in
      let linked =
        subst (λ t. all (package_served cx' frames' none) t ≡ true)
          (push_link-stored cx parent c.summary k) earlier in
      let entered =
        flag_activated-stored (push_link cx parent c.summary) cx1 c.summary method seen
          (package_served cx' frames' none) k flagged first linked in
      subst (λ t. all (package_served cx' frames' none) t ≡ true)
        (Expanded-stored q q' cx2 cx' (summary_of parent) chosen method frame k expanded)
        (second k entered)

  AllServed-Maintained : Maintained world (λ dep s. true) AllServed
  AllServed-Maintained = record {
    takes = λ cx frames rest parent i info before moves k.
        all_mono (package_served cx frames none) (package_served cx rest (some (parent, info.dep)))
          (stored cx k)
          (package_served_mono cx cx frames rest none (some (parent, info.dep))
            (λ id d h. ground (arith, h, iter-Taken (awaits id d) frames rest parent i info moves)))
          (before k);
    activates = λ q q' cx cx' frames parent c method frame mark before fit runs.
        Activates-AllServed q q' cx cx' frames parent c method frame mark before
          (activate-Activates world q q' cx cx' parent c method frame runs);
  }

  all-true : {A : Type 0} (xs : List A) → all (λ x. true) xs ≡ true
  all-true [] = refl
  all-true (x ∷ xs) = all-true xs

  new-AllServed : AllServed {S = S} {V = V} {R = R} Context.new [] none
  unfolding Map.get
  new-AllServed k = refl

  -- Nothing is forgotten. When the search for some packages ends with a context, the graph has, for
  -- every active package that was not replaced and every dependency of it that is neither optional
  -- nor for development, a link for that dependency, whatever was tried and undone before.
  pub done-required_linked :
      (release : V → Release) (replacements : List (PackageIdSpec V U × Dependency S R))
      (try_to_use : Set (PackageId S V)) (minimal_versions : Bool)
      (summaries : List (Summary S V R × Method)) (cx : Context S V R)
      → Reachable world release
          (Registry.new replacements try_to_use minimal_versions)
          summaries
          (done cx)
      → (k : Text × S) → all (required_linked cx) (stored cx k) ≡ true
  done-required_linked release replacements try_to_use minimal_versions summaries cx reached k =
      let registry = Registry.new replacements try_to_use minimal_versions in
      let anything : AnswersFit world (λ dep s. true) = λ dep ss found. all-true ss in
      let (frames, rest, before, over) =
        Reachable-Good world release (λ dep s. true) AllServed anything AllServed-Maintained
          registry summaries (done cx)
          (λ s0 begins.
            start-Good world release (λ dep s. true) AllServed anything AllServed-Maintained
              registry summaries s0
              (new-CacheFits world (λ dep s. true) replacements try_to_use minimal_versions)
              new-AllServed begins)
          reached in
      all_mono (package_served cx frames none) (required_linked cx) (stored cx k)
        (λ s.
          all_mono (λ d. not (is_required d) || served cx frames none s.package_id d)
            (λ d.
              not (is_required d)
              || (is_replaced cx s.package_id || any (links_for s.package_id d) cx.resolve_graph))
            s.dependencies
            (λ d h. ground (arith, h, iter-none (awaits s.package_id d) frames rest over)))
        (before k)
