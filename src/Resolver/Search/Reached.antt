-- ===== src/Resolver/Search/Reached.antt =====
-- The states that `activate_deps_loop` of core/resolver/mod.rs comes to keep what its rounds maintain.
use toml.Prelude.{
  Bool, true, false, not, ◌&&◌, Option, none, some, List, [], ◌∷◌, all, Eq, Result, ok, err, panic,
  out_of_fuel, bind-eq-ok, ok-injective, ◌≡◌, refl, ap, subst, arith, Bool-cases, inl, inr, Never,
}
use toml.Core.Dependency.{Dependency}
use toml.Core.Summary.{Summary}
use toml.Resolver.Types.{Method, ActivateError, fatal, conflict}
use toml.Resolver.Queue.{Candidate, DepsFrame, Popped, pop_most_constrained}
use toml.Resolver.Queue.Moves.{all-Taken, iter_next-all, iter_next-vec, pop_most_constrained-Taken}
use toml.Resolver.Registry.{World, RegistryQueryer}
use toml.Resolver.Context
use toml.Resolver.Context.{Context}
use toml.Resolver.Candidates.{Release, next_candidate}
use toml.Resolver.Search.{SearchError, activate, find_candidate}
use toml.Resolver.Search.State.{Search, Attempt, State, outer, inner, done}
use toml.Resolver.Search.Activated.{push_marked}
use toml.Resolver.Search.FitAnswers.{AnswersFit, CacheFits, fit_info, fit_frame, fit_given}
use toml.Resolver.Search.Fits.{fit_frame?, next_candidate-fits, activate-fits}
use toml.Resolver.Search.Invariant.{
  Maintained, SearchGood, AttemptGood, Good, try_candidate-Good, go_back-Good, find_candidate-Good,
}
use toml.Resolver.Search.Loop.{
  poisoned, attempt, advanced, inner_step, entered, surely, step, started, activate_initial,
  empty_search, Reachable, start, next,
}

module _ {S V R U E : Type 0} ⦃es : Eq S⦄ ⦃ev : Eq V⦄ ⦃er : Eq R⦄ ⦃eu : Eq U⦄
    (world : World S V R U E) (release : V → Release) (fits : Dependency S R → Summary S V R → Bool)
    (Inv : Context S V R
      → List (DepsFrame S V R)
      → Option (Summary S V R × Dependency S R)
      → Type 0)
    (answers : AnswersFit world fits) (maintained : Maintained world fits Inv) where
  poisoned-Good :
      (s : Search S V R U) (t : Attempt S V R)
      → SearchGood world release fits Inv s
      → SearchGood world release fits Inv (poisoned world release s t)
  poisoned-Good s t good = elim (Bool-cases (not t.for_error_messages && not t.backtracked)) [
    | inl known ↦ rw known good
    | inr unknown ↦ rw unknown good
  ]

  attempt-Good :
      (s : Search S V R U) (t : Attempt S V R) (given : Option (Candidate S V R × Bool))
      (s' : State S V R U)
      → SearchGood world release fits Inv s
      → AttemptGood world release fits Inv s t
      → fit_given fits t.dep given ≡ true
      → attempt world release s t given ≡ ok s'
      → Good world release fits Inv s'
  attempt-Good s t (some (c, has_another)) s' good trying fit h =
      try_candidate-Good world release fits Inv answers maintained s t c has_another s' good trying
        fit h
  attempt-Good s t none s' good trying fit h =
      let (f, goods) =
        find_candidate-Good world release fits Inv t.parent t.backtracked t.conflicting_activations
          s.backtrack_stack good.2 in
      go_back-Good world release fits Inv answers maintained (poisoned world release s t) t
        (find_candidate release t.parent t.backtracked t.conflicting_activations s.backtrack_stack)
        s' (poisoned-Good s t good) f goods h

  entered-Good :
      (s : Search S V R U) (popped : Popped S V R)
      → Good world release fits Inv (outer s)
      → pop_most_constrained s.remaining_deps ≡ ok popped
      → Good world release fits Inv (entered world release s popped)
  entered-Good s (none, rest) (good, inv) h = (s.remaining_deps, rest, inv, h)
  entered-Good s (some (just, parent, (i, info)), rest) ((cached, frames, stack), inv) h =
      let taken = pop_most_constrained-Taken s.remaining_deps rest just parent (i, info) h in
      let (f, others, left, same, there, forth, back) = taken in
      let fit_f : fit_frame fits f ≡ true = ground (arith, forth (fit_frame fits) frames) in
      let fit : fit_info fits info ≡ true =
        iter_next-all (fit_info fits) f.remaining_siblings i info fit_f there in
      (
        (
          cached,
          all-Taken (fit_frame fits) s.remaining_deps rest parent (i, info)
              (λ g. ap (all (fit_info fits)) (iter_next-vec g.remaining_siblings)) taken frames,
          stack,
        ),
        (maintained.takes s.cx s.remaining_deps rest parent i info inv taken, fit),
      )

  surely-ok :
      {A F : Type 0} (r : Result Never A) {a : A} → surely world release {F = F} r ≡ ok a → r ≡ ok a
  surely-ok (ok a) h = ap (λ t. ok t) (ok-injective h)
  surely-ok (err e) h = elim e [ ]
  surely-ok panic h = absurd cc
  surely-ok out_of_fuel h = absurd cc

  step-Good :
      (s s' : State S V R U)
      → Good world release fits Inv s
      → step world release s ≡ ok s'
      → Good world release fits Inv s'
  unfolding step
  step-Good (outer s) s' good h =
      let (popped, pops, last) =
        bind-eq-ok (surely world release (pop_most_constrained s.remaining_deps))
          (λ popped. ok (entered world release s popped)) h in
      subst (Good world release fits Inv) (ok-injective last)
        (entered-Good s popped good (surely-ok (pop_most_constrained s.remaining_deps) pops))
  step-Good (inner s t) s' (good, (inv, rest)) h =
      let (fit, rest') =
        next_candidate-fits release fits s.cx t.dep t.remaining_candidates t.conflicting_activations
          rest in
      let given =
        next_candidate release s.cx t.dep t.remaining_candidates t.conflicting_activations in
      attempt-Good s (advanced world release t given.1 given.2) given.0 s' good (inv, rest') fit
        (unfold inner_step in h)
  step-Good (done cx) s' good h = subst (Good world release fits Inv) (ok-injective h) good

  started-Good :
      (s s' : Search S V R U)
      (r : Result
        (ActivateError S V (SearchError S V R U E))
        (RegistryQueryer S V R U × Context S V R × Option (DepsFrame S V R)))
      → SearchGood world release fits Inv s
      → ((q : RegistryQueryer S V R U) (cx : Context S V R) (frame : Option (DepsFrame S V R))
          → r ≡ ok (q, cx, frame)
          → CacheFits world fits q
            × (fit_frame? world fits frame ≡ true)
            × ((mark : Bool) → Inv cx (push_marked mark frame s.remaining_deps) none))
      → started world release s r ≡ ok s'
      → Good world release fits Inv (outer s')
  started-Good s s' (ok (q, cx, some frame)) (cached0, frames, stack) after h =
      let (cached, fit, inv) = after q cx (some frame) refl in
      subst (λ t. Good world release fits Inv (outer t)) (ok-injective h)
        ((cached, ground (arith, fit, frames), stack), inv frame.just_for_error_messages)
  started-Good s s' (ok (q, cx, none)) (cached0, frames, stack) after h =
      let (cached, fit, inv) = after q cx none refl in
      subst (λ t. Good world release fits Inv (outer t)) (ok-injective h)
        ((cached, frames, stack), inv false)
  started-Good s s' (err (fatal e)) good after h = absurd cc
  started-Good s s' (err (conflict id reason)) good after h = absurd cc
  started-Good s s' panic good after h = absurd cc
  started-Good s s' out_of_fuel good after h = absurd cc

  activate_initial-Good :
      (summaries : List (Summary S V R × Method)) (s s' : Search S V R U)
      → Good world release fits Inv (outer s)
      → activate_initial world release summaries s ≡ ok s'
      → Good world release fits Inv (outer s')
  unfolding activate_initial
  activate_initial-Good [] s s' good h =
      subst (λ t. Good world release fits Inv (outer t)) (ok-injective h) good
  activate_initial-Good ((summary, method) ∷ summaries) s s' (good, inv) h =
      let c : Candidate S V R = record { summary = summary; replace = none } in
      let (s1, first, rest) =
        bind-eq-ok (started world release s (activate world s.registry s.cx none c method))
          (activate_initial world release summaries) h in
      let good1 =
        started-Good s s1 (activate world s.registry s.cx none c method) good
          (λ q cx frame r.
            let (cached, fit) =
              activate-fits world fits s.registry q s.cx cx none c method frame answers good.0 r in
            (
              cached,
              fit,
              λ mark.
                  maintained.activates s.registry q s.cx cx s.remaining_deps none c method frame
                    mark inv refl r,
            ))
          first in
      activate_initial-Good summaries s1 s' good1 rest

  -- Every state that the search comes to is good, where those are that it starts from.
  pub Reachable-Good :
      (registry : RegistryQueryer S V R U) (summaries : List (Summary S V R × Method))
      (s : State S V R U)
      → ((s0 : Search S V R U)
          → activate_initial world release summaries
              (empty_search world release registry Context.new)
            ≡ ok s0
          → Good world release fits Inv (outer s0))
      → Reachable world release registry summaries s
      → Good world release fits Inv s
  Reachable-Good registry summaries s base (start {s = s0} begins) = base s0 begins
  Reachable-Good registry summaries s base (next {s = s1} before steps) =
      step-Good s1 s (Reachable-Good registry summaries s1 base before) steps

  -- They are where the invariant holds of the empty context.
  pub start-Good :
      (registry : RegistryQueryer S V R U) (summaries : List (Summary S V R × Method))
      (s0 : Search S V R U)
      → CacheFits world fits registry
      → Inv Context.new [] none
      → activate_initial world release summaries (empty_search world release registry Context.new)
        ≡ ok s0
      → Good world release fits Inv (outer s0)
  start-Good registry summaries s0 cached initially begins =
      activate_initial-Good summaries (empty_search world release registry Context.new) s0
        ((cached, refl, tt), initially) begins
