-- ===== src/Resolver/Search/FitAnswers.antt =====
-- What holds of all the registry's answers holds of what the queries of core/resolver/mod.rs give.
use toml.Prelude.{
  Text, Bool, true, ◌&&◌, Option, none, some, List, [], ◌∷◌, map, all, Eq, ◌==◌, ok, ◌>>=◌,
  bind-eq-ok, ok-injective, sort_by, all-sort_by, ◌≡◌, refl, sym, ap, ◌∙◌, subst, arith, Bool-cases,
  Option-cases, inl, inr,
}
use toml.Map
use toml.Map.{Map, get-insert}
use toml.Core.Dependency.{Dependency}
use toml.Core.Dependency.Equality.{dependency_eq, dependency_eq_iff}
use toml.Core.Summary.{Summary}
use toml.Resolver.Queue.{Candidate, DepInfo, DepsFrame}
use toml.Resolver.Registry.{
  World, RegistryQueryer, plain, looked_up, override_all, comes_before, answer, query,
}
use toml.Resolver.Registry.Overrides.{failing-ok, override_all-settled}
use toml.Resolver.Candidates.{RemainingCandidates}
use toml.Resolver.Search.{query_each}

module _ {S V R : Type 0} (fits : Dependency S R → Summary S V R → Bool) where
  abbrev pub fit_candidate : Dependency S R → Candidate S V R → Bool
  fit_candidate dep c = fits dep c.summary

  abbrev pub fit_info : DepInfo S V R → Bool
  fit_info info = all (fit_candidate info.dep) info.candidates

  abbrev pub fit_frame : DepsFrame S V R → Bool
  fit_frame f = all fit_info f.remaining_siblings.vec

  abbrev pub fit_kept : Dependency S R → Option (Candidate S V R) → Bool
  fit_kept dep none = true
  fit_kept dep (some c) = fit_candidate dep c

  abbrev pub fit_rest : Dependency S R → RemainingCandidates S V R → Bool
  fit_rest dep rc = fit_kept dep rc.has_another && all (fit_candidate dep) rc.remaining

  abbrev pub fit_given : Dependency S R → Option (Candidate S V R × Bool) → Bool
  fit_given dep none = true
  fit_given dep (some (c, has_another)) = fit_candidate dep c

  all-summaries :
      (dep : Dependency S R) (cs : List (Candidate S V R))
      → all (fit_candidate dep) cs ≡ all (fits dep) (map (λ c. c.summary) cs)
  all-summaries dep [] = refl
  all-summaries dep (c ∷ cs) = ground (arith, all-summaries dep cs)

module _ {S V R U E : Type 0} ⦃es : Eq S⦄ ⦃ev : Eq V⦄ ⦃er : Eq R⦄ ⦃eu : Eq U⦄
    (world : World S V R U E) where
  -- the first query of several, and the others
  query_each-first :
      (q q' : RegistryQueryer S V R U) (dep : Dependency S R) (features : List Text)
      (deps : List (Dependency S R × List Text)) (infos : List (DepInfo S V R))
      → query_each world q ((dep, features) ∷ deps) ≡ ok (q', infos)
      → (a : RegistryQueryer S V R U × List (Candidate S V R)) × (b : RegistryQueryer S V R U
          × List (DepInfo S V R))
        × (query world q dep ≡ ok a)
        × (query_each world a.0 deps ≡ ok b)
        × (◌≡◌ {A = RegistryQueryer S V R U × List (DepInfo S V R)}
            (b.0, record { dep = dep; candidates = a.1; features = features } ∷ b.1)
            (q', infos))
  unfolding query_each
  query_each-first q q' dep features deps infos h =
      let (a, first, rest) =
        bind-eq-ok (query world q dep)
          (λ (q1, candidates). query_each world q1 deps >>= λ (q2, infos).
            ok (q2, record { dep = dep; candidates = candidates; features = features } ∷ infos))
          h in
      let (b, others, last) =
        bind-eq-ok (query_each world a.0 deps)
          (λ (q2, infos).
            ok (q2, record { dep = dep; candidates = a.1; features = features } ∷ infos))
          rest in
      (a, b, first, others, ok-injective last)

  -- the dependencies that are queried, in their order
  pub query_each-deps :
      (q q' : RegistryQueryer S V R U) (deps : List (Dependency S R × List Text))
      (infos : List (DepInfo S V R))
      → query_each world q deps ≡ ok (q', infos)
      → map (λ info. info.dep) infos ≡ map (λ (dep, _). dep) deps
  unfolding query_each
  query_each-deps q q' [] infos h = ap (λ (_, y). map (λ info. info.dep) y) (sym (ok-injective h))
  query_each-deps q q' ((dep, features) ∷ deps) infos h =
      let (a, b, first, others, last) = query_each-first q q' dep features deps infos h in
      ap (λ (_, y). map (λ info. info.dep) y) (sym last)
      ∙ ap (λ t. dep ∷ t) (query_each-deps a.0 b.0 deps b.1 others)

module _ {S V R U E : Type 0} ⦃es : Eq S⦄ ⦃ev : Eq V⦄ ⦃er : Eq R⦄ ⦃eu : Eq U⦄
    (world : World S V R U E) (fits : Dependency S R → Summary S V R → Bool) where
  -- what the registry answers fits
  abbrev pub AnswersFit : Type 0
  AnswersFit =
      (dep : Dependency S R) (ss : List (Summary S V R))
      → world.lookup dep ≡ ok ss
      → all (fits dep) ss ≡ true

  abbrev pub CacheFits : RegistryQueryer S V R U → Type 0
  CacheFits q =
      (dep : Dependency S R) (out : List (Candidate S V R))
      → Map.get q.cache dep ≡ some out
      → all (fit_candidate fits dep) out ≡ true

  answer-fits :
      (q : RegistryQueryer S V R U) (dep : Dependency S R) (out : List (Candidate S V R))
      → AnswersFit
      → answer world q dep ≡ ok out
      → all (fit_candidate fits dep) out ≡ true
  unfolding answer
  answer-fits q dep out answers h =
      let (ss, found, rest) =
        bind-eq-ok (looked_up world dep)
          (λ ss.
            override_all world q (map plain ss) >>= λ ret. ok (sort_by (comes_before world q) ret))
          h in
      let (ret, overrides, last) =
        bind-eq-ok (override_all world q (map plain ss))
          (λ ret. ok (sort_by (comes_before world q) ret)) rest in
      let same : sort_by (comes_before world q) ret ≡ out = ok-injective last in
      let (good, summaries) = override_all-settled world q ss ret overrides in
      subst (λ t. all (fit_candidate fits dep) t ≡ true) same
        (all-sort_by (comes_before world q) (fit_candidate fits dep) ret
          ∙ all-summaries fits dep ret
          ∙ ap (all (fits dep)) summaries
          ∙ answers dep ss (failing-ok (world.lookup dep) found))

  query-fits :
      (q q' : RegistryQueryer S V R U) (dep : Dependency S R) (out : List (Candidate S V R))
      → AnswersFit
      → CacheFits q
      → query world q dep ≡ ok (q', out)
      → CacheFits q' × (all (fit_candidate fits dep) out ≡ true)
  unfolding query
  query-fits q q' dep out answers cached h = elim (Option-cases (Map.get q.cache dep)) [
    | inr (found, there) ↦
        let same = ok-injective (rw (query, there) at h) in
        (
          subst CacheFits (ap (λ (x, _). x) same) cached,
          subst (λ t. all (fit_candidate fits dep) t ≡ true) (ap (λ (_, y). y) same)
              (cached dep found there),
        )
    | inl fresh ↦
        let (found, answered, last) =
          bind-eq-ok (answer world q dep)
            (λ out. ok (record q { cache = Map.insert dep out q.cache }, out))
            (rw (query, fresh) at h) in
        let same = ok-injective last in
        let good = answer-fits q dep found answers answered in
        (
          subst CacheFits (ap (λ (x, _). x) same) (stored found good),
          subst (λ t. all (fit_candidate fits dep) t ≡ true) (ap (λ (_, y). y) same) good,
        )
  ]
    where
      stored :
          (found : List (Candidate S V R))
          → all (fit_candidate fits dep) found ≡ true
          → CacheFits (record q { cache = Map.insert dep found q.cache })
      stored found good d o there = elim (Bool-cases (dep == d)) [
        | inl same ↦
            let here = (dependency_eq_iff dep d).0 same in
            let given : found ≡ o = ground (arith, get-insert dep d found q.cache, same, there) in
            rw (sym here, sym given) good
        | inr other ↦ cached d o (rw (get-insert dep d found q.cache, other) at there)
      ]

  pub query_each-fits :
      (q q' : RegistryQueryer S V R U) (deps : List (Dependency S R × List Text))
      (infos : List (DepInfo S V R))
      → AnswersFit
      → CacheFits q
      → query_each world q deps ≡ ok (q', infos)
      → CacheFits q' × (all (fit_info fits) infos ≡ true)
  unfolding query_each
  query_each-fits q q' [] infos answers cached h =
      let same = ok-injective h in
      (
        subst CacheFits (ap (λ (x, _). x) same) cached,
        subst (λ t. all (fit_info fits) t ≡ true) (ap (λ (_, y). y) same) refl,
      )
  query_each-fits q q' ((dep, features) ∷ deps) infos answers cached h =
      let (a, b, first, others, last) = query_each-first world q q' dep features deps infos h in
      let (cached', good) = query-fits q a.0 dep a.1 answers cached first in
      let (cached'', goods) = query_each-fits a.0 b.0 deps b.1 answers cached' others in
      (
        subst CacheFits (ap (λ (x, _). x) last) cached'',
        subst (λ t. all (fit_info fits) t ≡ true) (ap (λ (_, y). y) last)
            (ground (arith, good, goods)),
      )
