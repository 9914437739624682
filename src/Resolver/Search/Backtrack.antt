-- ===== src/Resolver/Search/Backtrack.antt =====
-- Which frame `find_candidate` of core/resolver/mod.rs goes back to.
use toml.Prelude.{
  Bool, true, false, ◌||◌, ◌&&◌, not, Option, none, some, List, [], ◌∷◌, ◌++◌, all, all-append, Eq,
  ◌≡◌, refl, ap, arith, is_some, Bool-cases, Option-cases, inl, inr,
}
use toml.Core.Summary.{Summary}
use toml.Resolver.Queue.{Candidate}
use toml.Map
use toml.Core.PackageId.{package_id_eq}
use toml.Resolver.Context.{is_active, is_conflicting}
use toml.Resolver.Candidates.{Release, RemainingCandidates, next_candidate}
use toml.Resolver.ConflictCache.{Conflicts}
use toml.Resolver.Search.{BacktrackFrame, Found, hopeless, find_candidate}

module _ {S V R : Type 0} ⦃es : Eq S⦄ ⦃ev : Eq V⦄ (release : V → Release) (parent : Summary S V R)
    (backtracked : Bool) (conflicts : Conflicts S V) where
  -- the next candidate of a frame, and what asking for it leaves
  abbrev pub asked :
      BacktrackFrame S V R
      → Option (Candidate S V R × Bool) × RemainingCandidates S V R × Conflicts S V
  asked f = next_candidate release f.context f.dep f.remaining_candidates f.conflicting_activations

  abbrev pub next_of : BacktrackFrame S V R → Option (Candidate S V R × Bool)
  next_of f = (asked f).0

  -- all that conflicted is active in the context of the frame already, the parent with it
  abbrev pub still_conflicting : BacktrackFrame S V R → Bool
  still_conflicting f =
      is_active f.context parent.package_id && all (is_active f.context) (Map.keys conflicts)

  -- a frame that is no use: it has no candidate left, or would lead to the same conflict
  abbrev pub useless : BacktrackFrame S V R → Bool
  useless f = not (is_some (next_of f)) || (not backtracked && still_conflicting f)

  hopeless-still_conflicting :
      (f : BacktrackFrame S V R)
      → hopeless release parent backtracked conflicts f ≡ (not backtracked && still_conflicting f)
  unfolding is_conflicting
  hopeless-still_conflicting f =
      ground (arith, all-append (is_active f.context) (Map.keys conflicts) (parent.package_id ∷ []))

  -- The frame that is found is the first that is of use, with its next candidate; it has moved on by
  -- that candidate, and is as it was otherwise.
  abbrev pub FirstUseful :
      List (BacktrackFrame S V R) → Found S V R → List (BacktrackFrame S V R) → Type 0
  FirstUseful stack none rest = (all useless stack ≡ true) × (rest ≡ [])
  FirstUseful stack (some (c, has_another, f')) rest =
      (skipped : List (BacktrackFrame S V R)) × (f : BacktrackFrame S V R) × (stack
        ≡ skipped ++ f ∷ rest)
      × (all useless skipped ≡ true)
      × (useless f ≡ false)
      × (next_of f ≡ some (c, has_another))
      × (f'
          ≡ record f { remaining_candidates = (asked f).1; conflicting_activations = (asked f).2 })

  skip-FirstUseful :
      (g : BacktrackFrame S V R) (stack : List (BacktrackFrame S V R)) (found : Found S V R)
      (rest : List (BacktrackFrame S V R))
      → useless g ≡ true
      → FirstUseful stack found rest
      → FirstUseful (g ∷ stack) found rest
  skip-FirstUseful g stack none rest u (all_useless, gone) = (ground (arith, u, all_useless), gone)
  skip-FirstUseful g stack (some (c, has_another, f')) rest u
        (skipped, f, split, before, useful, there, frame) =
      (g ∷ skipped, f, ap (λ t. g ∷ t) split, ground (arith, u, before), useful, there, frame)

  -- `find_candidate` takes frames from the top of the stack until one has a candidate left and, when
  -- the search has not gone back before, lacks one of the conflicting packages or the parent among
  -- its active packages. It gives that candidate, whether there is another, and the frame, in which
  -- only the remaining candidates and the conflicts are changed, to those that are left after this
  -- candidate; and it leaves the frames below. When there is no such frame the stack is left empty.
  pub find_candidate-FirstUseful :
      (stack : List (BacktrackFrame S V R))
      → FirstUseful stack
          (find_candidate release parent backtracked conflicts stack).0
          (find_candidate release parent backtracked conflicts stack).1
  unfolding find_candidate
  find_candidate-FirstUseful [] = (refl, refl)
  find_candidate-FirstUseful (f ∷ fs) = elim (Option-cases (next_of f)) [
    | inl nothing ↦
        rw (find_candidate, nothing)
          (skip-FirstUseful f fs (find_candidate release parent backtracked conflicts fs).0
            (find_candidate release parent backtracked conflicts fs).1 (ground (arith, nothing))
            (find_candidate-FirstUseful fs))
    | inr ((c, has_another), there) ↦
        elim (Bool-cases (hopeless release parent backtracked conflicts f)) [
          | inl skip ↦
              rw (find_candidate, there, skip)
                (skip-FirstUseful f fs (find_candidate release parent backtracked conflicts fs).0
                  (find_candidate release parent backtracked conflicts fs).1
                  (ground (arith, skip, hopeless-still_conflicting f))
                  (find_candidate-FirstUseful fs))
          | inr take ↦
              let useful : useless f ≡ false =
                ground (arith, there, take, hopeless-still_conflicting f) in
              rw (find_candidate, there, take) ([], f, refl, refl, useful, there, refl)
        ]
  ]
