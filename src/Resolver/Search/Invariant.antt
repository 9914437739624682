-- ===== src/Resolver/Search/Invariant.antt =====
-- What every round of `activate_deps_loop` of core/resolver/mod.rs keeps: an invariant of the context
-- and the heap that taking a dependency and activating a candidate maintain holds in every state, and
-- in every frame that the search may come back to.
use toml.Prelude.{
  ℕ, Bool, true, false, not, ◌&&◌, ◌||◌, Option, none, some, List, [], ◌∷◌, all, All, Eq, Result,
  ok, err, panic, out_of_fuel, bind-eq-ok, ok-injective, ◌≡◌, refl, subst, arith, Bool-cases,
  Option-cases, inl, inr, if◌then◌else◌,
}
use toml.Core.PackageId.{PackageId}
use toml.Core.Dependency.{Dependency}
use toml.Core.Summary.{Summary}
use toml.Resolver.Types.{Method, ActivateError, fatal, conflict}
use toml.Resolver.Queue.{Candidate, DepInfo, DepsFrame, pop_most_constrained}
use toml.Resolver.Queue.Moves.{Taken}
use toml.Resolver.Registry.{World, RegistryQueryer}
use toml.Resolver.Context.{Context}
use toml.Resolver.Candidates.{Release, next_candidate}
use toml.Resolver.ConflictCache.{Conflicts}
use toml.Resolver.Search.{SearchError, BacktrackFrame, Found, activate, find_candidate, hopeless}
use toml.Resolver.Search.State.{
  Search, Attempt, State, outer, inner, done, method_of, backtrack_frame, saved, restored_search,
  restored_attempt,
}
use toml.Resolver.Search.Judge.{judge}
use toml.Resolver.Search.Activated.{push_marked}
use toml.Resolver.Search.FitAnswers.{AnswersFit, CacheFits, fit_candidate, fit_frame, fit_rest}
use toml.Resolver.Search.Fits.{fit_frame?, next_candidate-fits, activate-fits}
use toml.Resolver.Search.Loop.{last_resort, conclude_frame, activated, try_candidate, go_back}

module _ {S V R : Type 0} where
  abbrev pub fit_for :
      (Dependency S R → Summary S V R → Bool)
      → Option (Summary S V R × Dependency S R)
      → Candidate S V R
      → Bool
  fit_for fits none c = true
  fit_for fits (some (parent, dep)) c = fit_candidate fits dep c

-- An invariant of a context, the heap, and the dependency that was taken from the heap, if any.
pub record Maintained {S V R U E : Type 0} ⦃es : Eq S⦄ ⦃ev : Eq V⦄ ⦃er : Eq R⦄ ⦃eu : Eq U⦄
    (world : World S V R U E) (fits : Dependency S R → Summary S V R → Bool)
    (Inv : Context S V R
      → List (DepsFrame S V R)
      → Option (Summary S V R × Dependency S R)
      → Type 0)
    : Type 0 where
  pub takes :
      (cx : Context S V R) (frames rest : List (DepsFrame S V R)) (parent : Summary S V R) (i : ℕ)
      (info : DepInfo S V R)
      → Inv cx frames none
      → Taken frames parent (i, info) rest
      → Inv cx rest (some (parent, info.dep))
  pub activates :
      (q q' : RegistryQueryer S V R U) (cx cx' : Context S V R) (frames : List (DepsFrame S V R))
      (parent : Option (Summary S V R × Dependency S R)) (c : Candidate S V R) (method : Method)
      (frame : Option (DepsFrame S V R)) (mark : Bool)
      → Inv cx frames parent
      → fit_for fits parent c ≡ true
      → activate world q cx parent c method ≡ ok (q', cx', frame)
      → Inv cx' (push_marked mark frame frames) none

module _ {S V R U E : Type 0} ⦃es : Eq S⦄ ⦃ev : Eq V⦄ ⦃er : Eq R⦄ ⦃eu : Eq U⦄
    (world : World S V R U E) (release : V → Release) (fits : Dependency S R → Summary S V R → Bool)
    (Inv : Context S V R
      → List (DepsFrame S V R)
      → Option (Summary S V R × Dependency S R)
      → Type 0) where
  -- of what a backtrack frame has saved
  abbrev pub SavedGood : BacktrackFrame S V R → Type 0
  SavedGood f =
      Inv f.context f.remaining_deps (some (f.parent, f.dep))
      × (all (fit_frame fits) f.remaining_deps ≡ true)
      × (fit_rest fits f.dep f.remaining_candidates ≡ true)

  -- of what the context does not depend on
  abbrev pub SearchGood : Search S V R U → Type 0
  SearchGood s =
      CacheFits world fits s.registry
      × (all (fit_frame fits) s.remaining_deps ≡ true)
      × All SavedGood s.backtrack_stack

  abbrev pub AttemptGood : Search S V R U → Attempt S V R → Type 0
  AttemptGood s t =
      Inv s.cx s.remaining_deps (some (t.parent, t.dep))
      × (fit_rest fits t.dep t.remaining_candidates ≡ true)

  abbrev pub Good : State S V R U → Type 0
  Good (outer s) = SearchGood s × Inv s.cx s.remaining_deps none
  Good (inner s t) = SearchGood s × AttemptGood s t
  Good (done cx) =
      (frames : List (DepsFrame S V R)) × (rest : List (DepsFrame S V R)) × Inv cx frames none
      × (pop_most_constrained frames ≡ ok (none, rest))

  saved-Good :
      (has_another : Bool) (f : BacktrackFrame S V R) (stack : List (BacktrackFrame S V R))
      → SavedGood f
      → All SavedGood stack
      → All SavedGood (saved has_another f stack)
  saved-Good true f stack good goods = (good, goods)
  saved-Good false f stack good goods = goods

  cleared-Good :
      (clear : Bool) (stack : List (BacktrackFrame S V R))
      → All SavedGood stack
      → All SavedGood (if clear then [] else stack)
  cleared-Good true stack goods = tt
  cleared-Good false stack goods = goods

  -- Whatever is judged of a frame, the state that follows is good.
  conclude_frame-Good :
      (s : Search S V R U) (t : Attempt S V R) (has_another : Bool)
      (registry : RegistryQueryer S V R U) (cx : Context S V R) (frame : DepsFrame S V R)
      (past_conflicting : Bool) (conflicts : Conflicts S V)
      → SearchGood s
      → AttemptGood s t
      → CacheFits world fits registry
      → fit_frame fits frame ≡ true
      → ((mark : Bool) → Inv cx (push_marked mark (some frame) s.remaining_deps) none)
      → Good (
          conclude_frame world release s t has_another registry cx frame
            (past_conflicting, conflicts))
  conclude_frame-Good s t has_another registry cx frame past_conflicting conflicts
        (cached, frames, stack) (inv, rest) cached' good inv' =
      let clear = last_resort world release s t has_another past_conflicting conflicts in
      let cleared = cleared-Good clear s.backtrack_stack stack in
      elim (Bool-cases (not past_conflicting || clear)) [
        | inl goes_on ↦ rw goes_on (
          (
            cached',
            ground (arith, good, frames),
            saved-Good has_another (backtrack_frame s t) (if clear then [] else s.backtrack_stack)
                (inv, frames, rest) cleared,
          ),
          inv' past_conflicting,
        )
        | inr skips ↦ rw skips ((cached', frames, cleared), (inv, rest))
      ]

  abbrev pub FoundGood : Found S V R → Type 0
  FoundGood none = Unit {0}
  FoundGood (some (c, has_another, f)) = SavedGood f × (fit_candidate fits f.dep c ≡ true)

  pub find_candidate-Good :
      (parent : Summary S V R) (backtracked : Bool) (conflicts : Conflicts S V)
      (stack : List (BacktrackFrame S V R))
      → All SavedGood stack
      → FoundGood (find_candidate release parent backtracked conflicts stack).0
        × All SavedGood (find_candidate release parent backtracked conflicts stack).1
  unfolding find_candidate
  find_candidate-Good parent backtracked conflicts [] goods = (tt, tt)
  find_candidate-Good parent backtracked conflicts (f ∷ fs) ((inv, frames, rest), goods) =
      let (good, rest') =
        next_candidate-fits release fits f.context f.dep f.remaining_candidates
          f.conflicting_activations rest in
      let later = find_candidate-Good parent backtracked conflicts fs goods in
      elim (Option-cases
        (next_candidate release f.context f.dep f.remaining_candidates
          f.conflicting_activations).0) [
            | inl nothing ↦ rw (find_candidate, nothing) later
            | inr ((c, has_another), there) ↦
                let fit : fit_candidate fits f.dep c ≡ true = ground (arith, rw there at good) in
                elim (Bool-cases (hopeless release parent backtracked conflicts f)) [
                  | inl skip ↦ rw (find_candidate, there, skip) later
                  | inr take ↦ rw (find_candidate, there, take) (((inv, frames, rest'), fit), goods)
                ]
          ]

  activated-Good :
      (s : Search S V R U) (t : Attempt S V R) (pid : PackageId S V) (has_another : Bool)
      (r : Result
        (ActivateError S V (SearchError S V R U E))
        (RegistryQueryer S V R U × Context S V R × Option (DepsFrame S V R)))
      (s' : State S V R U)
      → SearchGood s
      → AttemptGood s t
      → ((q : RegistryQueryer S V R U) (cx : Context S V R) (frame : Option (DepsFrame S V R))
          → r ≡ ok (q, cx, frame)
          → CacheFits world fits q
            × (fit_frame? world fits frame ≡ true)
            × ((mark : Bool) → Inv cx (push_marked mark frame s.remaining_deps) none))
      → activated world release s t pid has_another r ≡ ok s'
      → Good s'
  activated-Good s t pid has_another (ok (q, cx, some frame)) s' good trying after h =
      let (cached, fit, inv) = after q cx (some frame) refl in
      let (judged, j, last) =
        bind-eq-ok
          (judge s.past cx pid s.remaining_deps t.for_error_messages t.conflicting_activations
            frame)
          (λ judged. ok (conclude_frame world release s t has_another q cx frame judged)) h in
      subst Good (ok-injective last) (
        conclude_frame-Good s t has_another q cx frame judged.0 judged.1 good trying cached fit inv)
  activated-Good s t pid has_another (ok (q, cx, none)) s' (cached0, frames, stack) (inv0, rest)
        after h =
      let (cached, fit, inv) = after q cx none refl in
      subst Good (ok-injective h) (
        (
          cached,
          frames,
          saved-Good has_another (backtrack_frame s t) s.backtrack_stack (inv0, frames, rest) stack,
        ),
        inv false,
      )
  activated-Good s t pid has_another (err (fatal e)) s' good trying after h = absurd cc
  activated-Good s t pid has_another (err (conflict id reason)) s' good trying after h =
      subst Good (ok-injective h) (good, trying)
  activated-Good s t pid has_another panic s' good trying after h = absurd cc
  activated-Good s t pid has_another out_of_fuel s' good trying after h = absurd cc

  module _ (answers : AnswersFit world fits) (maintained : Maintained world fits Inv) where
    pub try_candidate-Good :
        (s : Search S V R U) (t : Attempt S V R) (c : Candidate S V R) (has_another : Bool)
        (s' : State S V R U)
        → SearchGood s
        → AttemptGood s t
        → fit_candidate fits t.dep c ≡ true
        → try_candidate world release s t c has_another ≡ ok s'
        → Good s'
    try_candidate-Good s t c has_another s' good trying fit h =
        elim (Bool-cases (t.for_error_messages && (not t.backtracked && has_another))) [
          | inl skip ↦ subst Good (ok-injective (rw skip at h)) (good, trying)
          | inr try ↦
              activated-Good s t c.summary.package_id has_another
                (activate world s.registry s.cx (some (t.parent, t.dep)) c (method_of t)) s' good
                trying
                (λ q cx frame r.
                  let (cached, fit_f) =
                    activate-fits world fits s.registry q s.cx cx (some (t.parent, t.dep)) c
                      (method_of t) frame answers good.0 r in
                  (
                    cached,
                    fit_f,
                    λ mark.
                        maintained.activates s.registry q s.cx cx s.remaining_deps
                          (some (t.parent, t.dep)) c (method_of t) frame mark trying.0 fit r,
                  ))
                (rw try at h)
        ]

    pub go_back-Good :
        (s : Search S V R U) (t : Attempt S V R) (found : Found S V R × List (BacktrackFrame S V R))
        (s' : State S V R U)
        → SearchGood s
        → FoundGood found.0
        → All SavedGood found.1
        → go_back world release s t found ≡ ok s'
        → Good s'
    go_back-Good s t (none, stack) s' good f goods h = absurd cc
    go_back-Good s t (some (c, has_another, f), stack) s' (cached, frames, old)
          ((inv, frames', rest), fit) goods h =
        try_candidate-Good (restored_search s f stack) (restored_attempt t f) c has_another s'
          (cached, frames', goods) (inv, rest) fit h
