-- ===== src/Resolver/Search/Requested.antt =====
-- The packages that `activate_deps_loop` of core/resolver/mod.rs is asked to activate.
use toml.Prelude.{
  Bool, true, Option, none, some, List, [], ◌∷◌, all, all_mono, All, Eq, Result, ok, err, panic,
  out_of_fuel, bind-eq-ok, ok-injective, ◌≡◌, refl, sym, ap, ◌∙◌, subst, arith,
}
use toml.Set.{Set}
use toml.Core.PackageId.{PackageId}
use toml.Core.PackageIdSpec.{PackageIdSpec}
use toml.Core.Dependency.{Dependency}
use toml.Core.Summary.{Summary}
use toml.Resolver.Types.{Method, ActivateError, fatal, conflict}
use toml.Resolver.Queue.{Candidate, DepInfo, DepsFrame}
use toml.Resolver.Registry
use toml.Resolver.Registry.{World, RegistryQueryer}
use toml.Resolver.Context
use toml.Resolver.Context.{Context, is_active}
use toml.Resolver.Candidates.{Release}
use toml.Resolver.Search.{SearchError, activate, summary_of, push_link}
use toml.Resolver.Search.State.{Search, done}
use toml.Resolver.Search.Activated.{Activates, activate-Activates, choose-Chosen}
use toml.Resolver.Search.Effects.{Extends, Extends-refl, Extends-trans, flag_activated-now}
use toml.Resolver.Search.Links.{Activates-Extends, Chosen-Extends, Expanded-Extends}
use toml.Resolver.Search.FitAnswers.{AnswersFit, fit_frame, fit_info}
use toml.Resolver.Search.Invariant.{Maintained, SavedGood}
use toml.Resolver.Search.Reached.{Reachable-Good}
use toml.Resolver.Search.Loop.{started, activate_initial, empty_search, Reachable}

module _ {S V R : Type 0} ⦃es : Eq S⦄ ⦃ev : Eq V⦄ where
  abbrev pub requested_active : Context S V R → Summary S V R × Method → Bool
  requested_active cx (s, method) = is_active cx s.package_id

  abbrev Requested :
      List (Summary S V R × Method)
      → Context S V R
      → List (DepsFrame S V R)
      → Option (Summary S V R × Dependency S R)
      → Type 0
  Requested summaries cx frames taken = all (requested_active cx) summaries ≡ true

all-true : {A : Type 0} (p : A → Bool) (xs : List A) → ((x : A) → p x ≡ true) → all p xs ≡ true
all-true p [] h = refl
all-true p (x ∷ xs) h = ground (arith, h x, all-true p xs h)

module _ {S V R U E : Type 0} ⦃es : Eq S⦄ ⦃ev : Eq V⦄ ⦃er : Eq R⦄ ⦃eu : Eq U⦄
    (world : World S V R U E) where
  Activates-now :
      (q q' : RegistryQueryer S V R U) (cx cx' : Context S V R)
      (parent : Option (Summary S V R × Dependency S R)) (c : Candidate S V R) (method : Method)
      (frame : Option (DepsFrame S V R))
      → Activates world q cx parent c method q' cx' frame
      → is_active cx' c.summary.package_id ≡ true
  Activates-now q q' cx cx' parent c method frame
        (cx1, seen, cx2, chosen, flagged, chose, expanded) =
      let now =
        flag_activated-now (push_link cx parent c.summary) cx1 c.summary method seen flagged in
      let to_2 =
        Chosen-Extends world cx1 cx2 c.summary c.replace seen method chosen
          (choose-Chosen world cx1 cx2 c.summary c.replace seen method chosen chose) in
      let to_3 =
        Expanded-Extends world q q' cx2 cx' (summary_of parent) chosen method frame expanded in
      to_3.active c.summary.package_id (to_2.active c.summary.package_id now)

  module _ (release : V → Release) where
    started-cx :
        (s s' : Search S V R U)
        (r : Result
          (ActivateError S V (SearchError S V R U E))
          (RegistryQueryer S V R U × Context S V R × Option (DepsFrame S V R)))
        → started world release s r ≡ ok s'
        → (q : RegistryQueryer S V R U) × (frame : Option (DepsFrame S V R)) × (r
            ≡ ok (q, s'.cx, frame))
          × (s'.backtrack_stack ≡ s.backtrack_stack)
    started-cx s s' (ok (q, cx, some frame)) h =
        let same = ok-injective h in
        (
          q,
          some frame,
          ap (λ t. ok (q, t.cx, some frame)) same,
          ap (λ t. t.backtrack_stack) (sym same),
        )
    started-cx s s' (ok (q, cx, none)) h =
        let same = ok-injective h in
        (q, none, ap (λ t. ok (q, t.cx, none)) same, ap (λ t. t.backtrack_stack) (sym same))
    started-cx s s' (err (fatal e)) h = absurd cc
    started-cx s s' (err (conflict id reason)) h = absurd cc
    started-cx s s' panic h = absurd cc
    started-cx s s' out_of_fuel h = absurd cc

    activate_initial-active :
        (summaries : List (Summary S V R × Method)) (s s' : Search S V R U)
        → activate_initial world release summaries s ≡ ok s'
        → Extends s.cx s'.cx
          × (all (requested_active s'.cx) summaries ≡ true)
          × (s'.backtrack_stack ≡ s.backtrack_stack)
    unfolding activate_initial
    activate_initial-active [] s s' h =
        let same = ok-injective h in
        (
          subst (λ t. Extends s.cx t.cx) same (Extends-refl s.cx),
          refl,
          ap (λ t. t.backtrack_stack) (sym same),
        )
    activate_initial-active ((summary, method) ∷ summaries) s s' h =
        let c : Candidate S V R = record { summary = summary; replace = none } in
        let (s1, first, rest) =
          bind-eq-ok (started world release s (activate world s.registry s.cx none c method))
            (activate_initial world release summaries) h in
        let (q, frame, runs, stack) =
          started-cx s s1 (activate world s.registry s.cx none c method) first in
        let activates = activate-Activates world s.registry q s.cx s1.cx none c method frame runs in
        let (later, others, stack') = activate_initial-active summaries s1 s' rest in
        let now = Activates-now s.registry q s.cx s1.cx none c method frame activates in
        (
          Extends-trans
              (Activates-Extends world s.registry q s.cx s1.cx none c method frame activates) later,
          ground (arith, later.active summary.package_id now, others),
          stack' ∙ stack,
        )

  Requested-Maintained :
      (summaries : List (Summary S V R × Method))
      → Maintained world (λ dep s. true) (Requested summaries)
  Requested-Maintained summaries = record {
    takes = λ cx frames rest parent i info before moves. before;
    activates = λ q q' cx cx' frames parent c method frame mark before fit runs.
        let whole =
          Activates-Extends world q q' cx cx' parent c method frame
            (activate-Activates world q q' cx cx' parent c method frame runs) in
        all_mono (requested_active cx) (requested_active cx') summaries
          (λ (s, m). whole.active s.package_id) before;
  }

  fits_all : (infos : List (DepInfo S V R)) → all (fit_info (λ dep s. true)) infos ≡ true
  fits_all infos =
      all-true (fit_info (λ dep s. true)) infos
        (λ info. all-true (λ c. true) info.candidates (λ c. refl))

  -- When the search for some packages ends with a context, all these packages are active in it,
  -- whatever was tried and undone before.
  pub done-requested_active :
      (release : V → Release) (replacements : List (PackageIdSpec V U × Dependency S R))
      (try_to_use : Set (PackageId S V)) (minimal_versions : Bool)
      (summaries : List (Summary S V R × Method)) (cx : Context S V R)
      → Reachable world release
          (Registry.new replacements try_to_use minimal_versions)
          summaries
          (done cx)
      → all (requested_active cx) summaries ≡ true
  done-requested_active release replacements try_to_use minimal_versions summaries cx reached =
      let registry = Registry.new replacements try_to_use minimal_versions in
      let answers : AnswersFit world (λ dep s. true) =
        λ dep ss found. all-true (λ s. true) ss (λ s. refl) in
      let (frames, rest, before, over) =
        Reachable-Good world release (λ dep s. true) (Requested summaries) answers
          (Requested-Maintained summaries) registry summaries (done cx)
          (λ s0 begins.
            let (later, active, stack) =
              activate_initial-active release summaries
                (empty_search world release registry Context.new) s0 begins in
            (
              (
                λ dep out there. all-true (λ c. true) out (λ c. refl),
                all-true (fit_frame (λ dep s. true)) s0.remaining_deps
                    (λ f. fits_all f.remaining_siblings.vec),
                subst (All (SavedGood world release (λ dep s. true) (Requested summaries)))
                    (sym stack) tt,
              ),
              active,
            ))
          reached in
      before
