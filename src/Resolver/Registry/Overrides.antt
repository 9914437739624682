-- ===== src/Resolver/Registry/Overrides.antt =====
-- `override_all` of `RegistryQueryer::query` in core/resolver/types.rs: the `[replace]` table.
use toml.Prelude.{
  Bool, true, false, not, ◌&&◌, Option, none, some, List, [], ◌∷◌, map, all, Eq, ◌==◌, list_eq,
  nat_eq, Result, ok, err, panic, out_of_fuel, ◌>>=◌, bind-eq-ok, ok-injective, ◌≡◌, refl, sym,
  subst, ap, arith, Bool-cases, inl, inr, if◌then◌else◌,
}
use toml.Core.PackageId.{package_id_eq}
use toml.Core.PackageIdSpec.{PackageIdSpec}
use toml.Core.Dependency.{Dependency}
use toml.Core.Dependency.Equality.{dependency_eq}
use toml.Core.Summary.{Summary}
use toml.Resolver.Queue.{Candidate}
use toml.Resolver.Registry.{
  World, RegistryQueryer, failing, plain, looked_up, overridden, override_with, potential_matches,
  accept, override_by, override_all,
}

module _ {S V R U E : Type 0} ⦃es : Eq S⦄ ⦃ev : Eq V⦄ ⦃eu : Eq U⦄ (world : World S V R U E)
    (q : RegistryQueryer S V R U) where
  -- A replacement has the name and the version of what it replaces, and another source.
  abbrev pub replaces_well : Candidate S V R → Bool
  replaces_well c = elim c.replace [
    | none ↦ true
    | some r ↦
        r.package_id.version == c.summary.package_id.version
        && r.package_id.name == c.summary.package_id.name
        && not (r.package_id.source_id == c.summary.package_id.source_id)
  ]

  -- at most one override matches, and there is a replacement only where one does
  abbrev pub once : List (PackageIdSpec V U × Dependency S R) → Option (Summary S V R) → Bool
  once [] none = true
  once [] (some _) = false
  once (_ ∷ []) r = true
  once (_ ∷ _ ∷ _) r = false

  abbrev pub overridden_once : Candidate S V R → Bool
  overridden_once c = once (potential_matches world q c) c.replace

  abbrev pub settled : Candidate S V R → Bool
  settled c = replaces_well c && overridden_once c

  -- the candidate with its override taken
  abbrev pub taken : Candidate S V R → Summary S V R → Candidate S V R
  taken c s = record c {
    replace = if s.package_id.source_id == c.summary.package_id.source_id then none else some s;
  }

  taken-replaces_well :
      (c : Candidate S V R) (s : Summary S V R)
      → (s.package_id.version == c.summary.package_id.version
          && s.package_id.name == c.summary.package_id.name)
        ≡ true
      → replaces_well (taken c s) ≡ true
  taken-replaces_well c s agrees =
      elim (Bool-cases (s.package_id.source_id == c.summary.package_id.source_id)) [
        | inl same ↦ rw same refl
        | inr other ↦ rw other (ground (arith, agrees, other))
      ]

  settled_of :
      (c : Candidate S V R) (ms : List (PackageIdSpec V U × Dependency S R))
      → potential_matches world q c ≡ ms
      → replaces_well c ≡ true
      → once ms c.replace ≡ true
      → settled c ≡ true
  settled_of c ms found well alone =
      let alone' : overridden_once c ≡ true =
        subst (λ t. once t c.replace ≡ true) (sym found) alone in
      ground (arith, well, alone')

  accept-settled :
      (c c' : Candidate S V R) (spec : PackageIdSpec V U) (dep : Dependency S R)
      (others : List (PackageIdSpec V U × Dependency S R)) (s : Summary S V R)
      → potential_matches world q c ≡ (spec, dep) ∷ others
      → (s.package_id.version == c.summary.package_id.version
          && s.package_id.name == c.summary.package_id.name)
        ≡ true
      → accept world c spec others s ≡ ok c'
      → (settled c' ≡ true) × (c'.summary ≡ c.summary)
  accept-settled c c' spec dep [] s ms agrees h =
      let same : taken c s ≡ c' = ok-injective h in
      (
        subst (λ t. settled t ≡ true) same
            (settled_of (taken c s) ((spec, dep) ∷ []) ms (taken-replaces_well c s agrees) refl),
        sym (ap (λ t. t.summary) same),
      )
  accept-settled c c' spec dep (_ ∷ _) s ms agrees h = absurd cc

  overridden-settled :
      (c c' : Candidate S V R) (spec : PackageIdSpec V U) (dep : Dependency S R)
      (others : List (PackageIdSpec V U × Dependency S R)) (s : Summary S V R)
      → potential_matches world q c ≡ (spec, dep) ∷ others
      → overridden world c spec others s ≡ ok c'
      → (settled c' ≡ true) × (c'.summary ≡ c.summary)
  overridden-settled c c' spec dep others s ms h =
      elim (Bool-cases (
        s.package_id.version == c.summary.package_id.version
        && s.package_id.name == c.summary.package_id.name)) [
          | inr differs ↦ absurd (ground (arith, differs, h))
          | inl agrees ↦ accept-settled c c' spec dep others s ms agrees (rw agrees at h)
        ]

  override_by-settled :
      (c c' : Candidate S V R) (ms : List (PackageIdSpec V U × Dependency S R))
      → c.replace ≡ none
      → potential_matches world q c ≡ ms
      → override_by world q c ms ≡ ok c'
      → (settled c' ≡ true) × (c'.summary ≡ c.summary)
  override_by-settled c c' [] bare ms h =
      let same : c ≡ c' = ok-injective h in
      (
        subst (λ t. settled t ≡ true) same
            (settled_of c [] ms (rw bare refl) (subst (λ t. once [] t ≡ true) (sym bare) refl)),
        sym (ap (λ t. t.summary) same),
      )
  override_by-settled c c' ((spec, dep) ∷ others) bare ms h =
      let (ss, found, rest) =
        bind-eq-ok (looked_up world dep) (override_with world c spec dep others) h in
      by_answer ss rest
    where
      by_answer :
          (ss : List (Summary S V R))
          → override_with world c spec dep others ss ≡ ok c'
          → (settled c' ≡ true) × (c'.summary ≡ c.summary)
      by_answer [] h = absurd cc
      by_answer (s ∷ []) h = overridden-settled c c' spec dep others s ms h
      by_answer (s ∷ s' ∷ ss) h = absurd cc

  pub override_all-settled :
      (ss : List (Summary S V R)) (ret : List (Candidate S V R))
      → override_all world q (map plain ss) ≡ ok ret
      → (all settled ret ≡ true) × (map (λ c. c.summary) ret ≡ ss)
  unfolding override_all
  override_all-settled [] ret h =
      let same : [] ≡ ret = ok-injective h in
      (subst (λ t. all settled t ≡ true) same refl, ap (map (λ c. c.summary)) (sym same))
  override_all-settled (s ∷ ss) ret h =
      let (c', first, rest) =
        bind-eq-ok (override_by world q (plain s) (potential_matches world q (plain s)))
          (λ c'. override_all world q (map plain ss) >>= λ cs'. ok (c' ∷ cs')) h in
      let (cs', others, last) =
        bind-eq-ok (override_all world q (map plain ss)) (λ cs'. ok (c' ∷ cs')) rest in
      let same : c' ∷ cs' ≡ ret = ok-injective last in
      let (good, summary_of) =
        override_by-settled (plain s) c' (potential_matches world q (plain s)) refl refl first in
      let (goods, summaries) = override_all-settled ss cs' others in
      (subst (λ t. all settled t ≡ true) same (ground (arith, good, goods)), rw (sym same) cc)

pub failing-ok :
    {S V R U E A : Type 0} (r : Result E A) {a : A}
    → failing {S = S} {V = V} {R = R} {U = U} r ≡ ok a
    → r ≡ ok a
failing-ok (ok a) h = ap (λ t. ok t) (ok-injective h)
failing-ok (err e) h = absurd cc
failing-ok panic h = absurd cc
failing-ok out_of_fuel h = absurd cc
