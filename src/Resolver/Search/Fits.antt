-- ===== src/Resolver/Search/Fits.antt =====
-- What holds of all the registry's answers holds of the candidates that the search of
-- core/resolver/mod.rs meets.
use toml.Prelude.{
  Bool, true, Option, none, some, List, [], ◌∷◌, all, Eq, ok, all-sort_by, ◌≡◌, refl, ◌∙◌, subst,
  arith, Option-cases, inl, inr,
}
use toml.Map
use toml.Map.{Map, get-insert}
use toml.Core.PackageId.{PackageId}
use toml.Core.Dependency.{Dependency}
use toml.Core.Dependency.Equality.{dependency_eq}
use toml.Core.Summary.{Summary}
use toml.Resolver.Types.{Method, ConflictReason}
use toml.Resolver.Queue.{Candidate, DepsFrame}
use toml.Set.{Set}
use toml.Core.PackageIdSpec.{PackageIdSpec}
use toml.Resolver.Registry
use toml.Resolver.Registry.{
  World, RegistryQueryer, plain, looked_up, override_all, comes_before, answer, query,
}
use toml.Resolver.Context.{Context}
use toml.Resolver.Candidates.{
  Release, RemainingCandidates, next_candidate, next_loop, last_one, passed_over, note_conflict,
}
use toml.Resolver.Search.Activated.{Expanded, activate-Activates}
use toml.Resolver.Search.{fewer, summary_of, activate}
use toml.Resolver.Search.FitAnswers.{
  fit_candidate, fit_info, fit_frame, fit_kept, fit_rest, fit_given, AnswersFit, CacheFits,
  query_each-fits,
}

module _ {S V R : Type 0} ⦃es : Eq S⦄ ⦃ev : Eq V⦄ (release : V → Release)
    (fits : Dependency S R → Summary S V R → Bool) (cx : Context S V R) (dep : Dependency S R) where
  last_one-fits :
      (another : Option (Candidate S V R))
      → fit_kept fits dep another ≡ true
      → fit_given fits dep (last_one release cx dep another) ≡ true
  last_one-fits none h = refl
  last_one-fits (some c) h = h

  next_loop-fits :
      (bs : List (Candidate S V R)) (another : Option (Candidate S V R))
      (conflicts : Map (PackageId S V) ConflictReason)
      → fit_kept fits dep another ≡ true
      → all (fit_candidate fits dep) bs ≡ true
      → (fit_given fits dep (next_loop release cx dep bs another conflicts).0 ≡ true)
        × (fit_rest fits dep (next_loop release cx dep bs another conflicts).1 ≡ true)
  unfolding next_loop
  next_loop-fits [] another conflicts kept rest = (last_one-fits another kept, refl)
  next_loop-fits (b ∷ bs) none conflicts kept rest =
      elim (Option-cases (passed_over release cx dep b)) [
        | inr (c, blocked) ↦
            rw (next_loop, blocked)
              (next_loop-fits bs none (note_conflict c conflicts) refl (ground (arith, rest)))
        | inl free ↦
            rw (next_loop, free)
              (next_loop-fits bs (some b) conflicts (ground (arith, rest)) (ground (arith, rest)))
      ]
  next_loop-fits (b ∷ bs) (some r) conflicts kept rest =
      elim (Option-cases (passed_over release cx dep b)) [
        | inr (c, blocked) ↦
            rw (next_loop, blocked)
              (next_loop-fits bs (some r) (note_conflict c conflicts) kept (ground (arith, rest)))
        | inl free ↦ rw (next_loop, free) (kept, rest)
      ]

  pub next_candidate-fits :
      (rc : RemainingCandidates S V R) (conflicts : Map (PackageId S V) ConflictReason)
      → fit_rest fits dep rc ≡ true
      → (fit_given fits dep (next_candidate release cx dep rc conflicts).0 ≡ true)
        × (fit_rest fits dep (next_candidate release cx dep rc conflicts).1 ≡ true)
  unfolding next_candidate
  next_candidate-fits rc conflicts h =
      next_loop-fits rc.remaining rc.has_another conflicts (ground (arith, h)) (ground (arith, h))

module _ {S V R U E : Type 0} ⦃es : Eq S⦄ ⦃ev : Eq V⦄ ⦃er : Eq R⦄ ⦃eu : Eq U⦄
    (world : World S V R U E) (fits : Dependency S R → Summary S V R → Bool) where
  abbrev pub fit_frame? : Option (DepsFrame S V R) → Bool
  fit_frame? none = true
  fit_frame? (some f) = fit_frame fits f

  Expanded-fits :
      (q q' : RegistryQueryer S V R U) (cx cx' : Context S V R)
      (parent chosen : Option (Summary S V R)) (method : Method) (frame : Option (DepsFrame S V R))
      → AnswersFit world fits
      → CacheFits world fits q
      → Expanded world q cx parent chosen method q' cx' frame
      → CacheFits world fits q' × (fit_frame? frame ≡ true)
  Expanded-fits q q' cx cx' parent none method frame answers cached (same_q, same_cx, no_frame) =
      (subst (CacheFits world fits) same_q cached, rw no_frame refl)
  Expanded-fits q q' cx cx' parent (some s) method frame answers cached
        (f, is_f, (deps, infos, resolved, queried, built)) =
      let (cached', good) = query_each-fits world fits q q' deps infos answers cached queried in
      (cached', rw (is_f, built) (all-sort_by fewer (fit_info fits) infos ∙ good))

  pub activate-fits :
      (q q' : RegistryQueryer S V R U) (cx cx' : Context S V R)
      (parent : Option (Summary S V R × Dependency S R)) (c : Candidate S V R) (method : Method)
      (frame : Option (DepsFrame S V R))
      → AnswersFit world fits
      → CacheFits world fits q
      → activate world q cx parent c method ≡ ok (q', cx', frame)
      → CacheFits world fits q' × (fit_frame? frame ≡ true)
  activate-fits q q' cx cx' parent c method frame answers cached h =
      let (cx1, seen, cx2, chosen, flagged, chose, expanded) =
        activate-Activates world q q' cx cx' parent c method frame h in
      Expanded-fits q q' cx2 cx' (summary_of parent) chosen method frame answers cached expanded

  pub new-CacheFits :
      (replacements : List (PackageIdSpec V U × Dependency S R)) (try_to_use : Set (PackageId S V))
      (minimal_versions : Bool)
      → CacheFits world fits (Registry.new replacements try_to_use minimal_versions)
  unfolding Map.get
  new-CacheFits replacements try_to_use minimal_versions dep out there = absurd cc
