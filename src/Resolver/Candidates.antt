-- ===== src/Resolver/Candidates.antt =====
-- `RemainingCandidates` and `compatible` of core/resolver/mod.rs: the candidates for a dependency
-- that may still be activated. `release` reads the three numbers of a version.

use toml.Prelude.{
  ℕ, Text, Bool, true, false, not, Option, none, some, List, [], ◌∷◌, ◌++◌, ◌≡◌, refl, keep, find,
  eqb, is_some, Eq, ◌==◌, list_eq, nat_eq, if◌then◌else◌, arith, Option-cases, inl, inr,
}
use toml.Map
use toml.Map.{Map}
use toml.Core.PackageId.{PackageId, package_id_eq}
use toml.Core.Dependency.{Dependency}
use toml.Resolver.Types.{ConflictReason, semver, links}
use toml.Resolver.Queue.{Candidate}
use toml.Resolver.Context.{Context, prev_active, same_summary}

pub record Release : Type 0 where
  pub major : ℕ
  pub minor : ℕ
  pub patch : ℕ

unfoldable pub compatible : Release → Release → Bool
compatible a b =
    if not (eqb a.major b.major)
    then false
    else if not (eqb a.major 0)
    then true
    else if not (eqb a.minor b.minor)
    then false
    else if not (eqb a.minor 0)
    then true
    else eqb a.patch b.patch

-- `remaining` holds the candidates that the iterator has not given yet.
pub record RemainingCandidates (S V R : Type 0) : Type 0 where
  pub remaining : List (Candidate S V R)
  pub has_another : Option (Candidate S V R)

module _ {S V R : Type 0} where
  abbrev pub new : List (Candidate S V R) → RemainingCandidates S V R
  new candidates = record { remaining = candidates; has_another = none }

module _ {S V : Type 0} ⦃es : Eq S⦄ ⦃ev : Eq V⦄ where
  -- another package that holds the `links` value
  abbrev pub links_blocked :
      PackageId S V → Text → Option (PackageId S V) → Option (PackageId S V × ConflictReason)
  links_blocked id l none = none
  links_blocked id l (some a) = if a == id then none else some (a, links l)

  -- `entry(..).or_insert(..)`
  unfoldable pub note_conflict :
      PackageId S V × ConflictReason
      → Map (PackageId S V) ConflictReason
      → Map (PackageId S V) ConflictReason
  unfolding Map.update_or
  note_conflict (id, reason) m = Map.update_or id reason (λ old. old) m

module _ {S V R : Type 0} ⦃es : Eq S⦄ ⦃ev : Eq V⦄ (release : V → Release) (cx : Context S V R)
    (dep : Dependency S R) where
  abbrev pub links_conflict : Candidate S V R → Option (PackageId S V × ConflictReason)
  links_conflict b = elim b.summary.links [
    | none ↦ none
    | some l ↦ links_blocked b.summary.package_id l (Map.get cx.links_of l)
  ]

  abbrev pub semver_conflict : Candidate S V R → Option (PackageId S V × ConflictReason)
  semver_conflict b =
      elim (find
        (λ a. compatible (release a.package_id.version) (release b.summary.package_id.version))
        (prev_active cx dep)) [
          | none ↦ none
          | some a ↦ if same_summary a b.summary then none else some (a.package_id, semver)
        ]

  -- why a candidate is passed over
  unfoldable pub passed_over : Candidate S V R → Option (PackageId S V × ConflictReason)
  unfolding prev_active Map.get compatible
  passed_over b = elim (links_conflict b) [ some c ↦ some c | none ↦ semver_conflict b ]

  -- The candidate, if any, with whether there is another; the state; and the conflicts.
  abbrev pub Next : Type 0
  Next =
      Option (Candidate S V R × Bool)
      × RemainingCandidates S V R
      × Map (PackageId S V) ConflictReason

  abbrev pub last_one : Option (Candidate S V R) → Option (Candidate S V R × Bool)
  last_one none = none
  last_one (some r) = some (r, false)

  -- `mem::replace(&mut self.has_another, Some(b))`: where nothing was kept back, the loop goes on.
  abbrev pub stash :
      Candidate S V R
      → List (Candidate S V R)
      → Map (PackageId S V) ConflictReason
      → Next
      → Option (Candidate S V R)
      → Next
  stash b bs conflicts goes_on none = goes_on
  stash b bs conflicts goes_on (some r) =
      (some (r, true), record { remaining = bs; has_another = some b }, conflicts)

  unfoldable pub next_loop :
      List (Candidate S V R) → Option (Candidate S V R) → Map (PackageId S V) ConflictReason → Next
  unfolding note_conflict
  next_loop [] another conflicts =
      (last_one another, record { remaining = []; has_another = none }, conflicts)
  next_loop (b ∷ bs) another conflicts = elim (passed_over b) [
    | some c ↦ next_loop bs another (note_conflict c conflicts)
    | none ↦ stash b bs conflicts (next_loop bs (some b) conflicts) another
  ]

  unfoldable pub next_candidate :
      RemainingCandidates S V R → Map (PackageId S V) ConflictReason → Next
  unfolding next_loop
  next_candidate st conflicts = next_loop st.remaining st.has_another conflicts

  -- the candidates that are still to come: the one kept back, and those that are not passed over
  abbrev pub kept_back : Option (Candidate S V R) → List (Candidate S V R)
  kept_back none = []
  kept_back (some r) = r ∷ []

  abbrev pub pending : RemainingCandidates S V R → List (Candidate S V R)
  pending st = kept_back st.has_another ++ keep (λ b. not (is_some (passed_over b))) st.remaining

  -- the first of them, with whether there are more; and the others
  abbrev pub first_of : List (Candidate S V R) → Option (Candidate S V R × Bool)
  first_of [] = none
  first_of (x ∷ []) = some (x, false)
  first_of (x ∷ y ∷ ys) = some (x, true)

  abbrev pub others_of : List (Candidate S V R) → List (Candidate S V R)
  others_of [] = []
  others_of (x ∷ xs) = xs

  next_loop-pending :
      (bs : List (Candidate S V R)) (another : Option (Candidate S V R))
      (conflicts : Map (PackageId S V) ConflictReason)
      → ((next_loop bs another conflicts).0
          ≡ first_of (kept_back another ++ keep (λ b. not (is_some (passed_over b))) bs))
        × (pending (next_loop bs another conflicts).1
            ≡ others_of (kept_back another ++ keep (λ b. not (is_some (passed_over b))) bs))
  unfolding next_loop
  next_loop-pending [] none conflicts = (refl, refl)
  next_loop-pending [] (some r) conflicts = (refl, refl)
  next_loop-pending (b ∷ bs) none conflicts = elim (Option-cases (passed_over b)) [
    | inr (c, blocked) ↦
        rw (next_loop, blocked) (next_loop-pending bs none (note_conflict c conflicts))
    | inl free ↦ rw (next_loop, free) (next_loop-pending bs (some b) conflicts)
  ]
  next_loop-pending (b ∷ bs) (some r) conflicts = elim (Option-cases (passed_over b)) [
    | inr (c, blocked) ↦
        rw (next_loop, blocked) (next_loop-pending bs (some r) (note_conflict c conflicts))
    | inl free ↦ rw (next_loop, free) (refl, refl)
  ]

  -- `next` gives the candidates that are not refused one after the other: it returns the first of
  -- those to come, with whether there is another one, and leaves the others to come.
  pub next_candidate-pending :
      (st : RemainingCandidates S V R) (conflicts : Map (PackageId S V) ConflictReason)
      → ((next_candidate st conflicts).0 ≡ first_of (pending st))
        × (pending (next_candidate st conflicts).1 ≡ others_of (pending st))
  unfolding next_candidate
  next_candidate-pending st conflicts = next_loop-pending st.remaining st.has_another conflicts

  next_loop-last :
      (bs : List (Candidate S V R)) (another : Option (Candidate S V R))
      (conflicts : Map (PackageId S V) ConflictReason) (c : Candidate S V R)
      → (next_loop bs another conflicts).0 ≡ some (c, false)
      → (next_loop bs another conflicts).1 ≡ record { remaining = []; has_another = none }
  unfolding next_loop
  next_loop-last [] another conflicts c h = refl
  next_loop-last (b ∷ bs) none conflicts c h = elim (Option-cases (passed_over b)) [
    | inr (k, blocked) ↦
        rw (next_loop, blocked)
          (next_loop-last bs none (note_conflict k conflicts) c (rw (next_loop, blocked) at h))
    | inl free ↦
        rw (next_loop, free) (next_loop-last bs (some b) conflicts c (rw (next_loop, free) at h))
  ]
  next_loop-last (b ∷ bs) (some r) conflicts c h = elim (Option-cases (passed_over b)) [
    | inr (k, blocked) ↦
        rw (next_loop, blocked)
          (next_loop-last bs (some r) (note_conflict k conflicts) c (rw (next_loop, blocked) at h))
    | inl free ↦ absurd (ground (arith, rw (next_loop, free) at h))
  ]

module _ {S V R : Type 0} ⦃es : Eq S⦄ ⦃ev : Eq V⦄ (release : V → Release) where
  -- Once it has said that there is no other candidate, `next` has none to give, in any context: what
  -- has been activated or undone since does not matter.
  pub next_candidate-exhausted :
      (cx cx' : Context S V R) (dep : Dependency S R) (st : RemainingCandidates S V R)
      (conflicts conflicts' : Map (PackageId S V) ConflictReason) (c : Candidate S V R)
      → (next_candidate release cx dep st conflicts).0 ≡ some (c, false)
      → (next_candidate release cx' dep (next_candidate release cx dep st conflicts).1 conflicts').0
        ≡ none
  unfolding next_candidate
  next_candidate-exhausted cx cx' dep st conflicts conflicts' c h =
      rw (next_loop-last release cx dep st.remaining st.has_another conflicts c h) refl
