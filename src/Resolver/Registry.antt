-- ===== src/Resolver/Registry.antt =====
-- `RegistryQueryer` of core/resolver/types.rs: the candidates for a dependency, with the overrides of
-- the `[replace]` table, the preferred ones first.
pub mod Overrides
pub mod Answers
mod Examples
use toml.Prelude.{
  Text, Bool, true, false, not, ◌||◌, ◌&&◌, Option, none, some, List, [], ◌∷◌, map, keep, Eq, ◌==◌,
  list_eq, nat_eq, contains, Result, ok, err, panic, out_of_fuel, ◌>>=◌, if◌then◌else◌, sort_by,
}
use toml.Map
use toml.Map.{Map}
use toml.Set.{Set}
use toml.Core.PackageId.{PackageId, package_id_eq}
use toml.Core.PackageIdSpec
use toml.Core.PackageIdSpec.{PackageIdSpec}
use toml.Core.Dependency.{Dependency}
use toml.Core.Dependency.Equality.{dependency_eq}
use toml.Core.Summary.{Summary}
use toml.Resolver.Queue.{Candidate}

-- What the resolver calls: `lookup` is `Registry::query`, whose answers are taken to stay the same
-- during a resolution; `version_le` is `<=` of versions, and `url_of` the URL of a source.
pub record World (S V R U E : Type 0) : Type 0 where
  pub lookup : Dependency S R → Result E (List (Summary S V R))
  pub version_le : V → V → Bool
  pub url_of : S → U

-- the error of a lookup, and the messages of `query`
pub data QueryError (S V R U E : Type 0) : Type 0 where
  lookup_failed : E → QueryError S V R U E
  no_match : PackageIdSpec V U → Dependency S R → QueryError S V R U E
  many_matches : PackageIdSpec V U → List (PackageId S V) → QueryError S V R U E
  overlapping : PackageIdSpec V U → PackageIdSpec V U → PackageId S V → QueryError S V R U E

pub record RegistryQueryer (S V R U : Type 0) : Type 0 where
  pub replacements : List (PackageIdSpec V U × Dependency S R)
  pub try_to_use : Set (PackageId S V)
  pub cache : Map (Dependency S R) (List (Candidate S V R))
  pub minimal_versions : Bool

module _ {S V R U : Type 0} where
  abbrev pub new :
      List (PackageIdSpec V U × Dependency S R)
      → Set (PackageId S V)
      → Bool
      → RegistryQueryer S V R U
  new replacements try_to_use minimal_versions = record {
    replacements = replacements;
    try_to_use = try_to_use;
    cache = [];
    minimal_versions = minimal_versions;
  }

module _ {S V R : Type 0} where
  abbrev pub plain : Summary S V R → Candidate S V R
  plain s = record { summary = s; replace = none }

abbrev pub failing : {S V R U E A : Type 0} → Result E A → Result (QueryError S V R U E) A
failing (ok a) = ok a
failing (err e) = err (lookup_failed e)
failing panic = panic
failing out_of_fuel = out_of_fuel

module _ {S V R U E : Type 0} (world : World S V R U E) where
  abbrev pub looked_up : Dependency S R → Result (QueryError S V R U E) (List (Summary S V R))
  looked_up dep = failing (world.lookup dep)

module _ {S V R U E : Type 0} ⦃es : Eq S⦄ ⦃ev : Eq V⦄ (world : World S V R U E) where
  -- What is done with the only answer to an override. `others` are the further specs that match.
  abbrev pub accept :
      Candidate S V R
      → PackageIdSpec V U
      → List (PackageIdSpec V U × Dependency S R)
      → Summary S V R
      → Result (QueryError S V R U E) (Candidate S V R)
  accept c spec ((other, _) ∷ _) s = err (overlapping spec other c.summary.package_id)
  accept c spec [] s = ok (record c {
    replace = if s.package_id.source_id == c.summary.package_id.source_id then none else some s;
  })

  abbrev pub overridden :
      Candidate S V R
      → PackageIdSpec V U
      → List (PackageIdSpec V U × Dependency S R)
      → Summary S V R
      → Result (QueryError S V R U E) (Candidate S V R)
  overridden c spec others s =
      if not (
        s.package_id.version == c.summary.package_id.version
        && s.package_id.name == c.summary.package_id.name)
      then panic
      else accept c spec others s

  abbrev pub override_with :
      Candidate S V R
      → PackageIdSpec V U
      → Dependency S R
      → List (PackageIdSpec V U × Dependency S R)
      → List (Summary S V R)
      → Result (QueryError S V R U E) (Candidate S V R)
  override_with c spec dep others [] = err (no_match spec dep)
  override_with c spec dep others (s ∷ []) = overridden c spec others s
  override_with c spec dep others (s ∷ s' ∷ ss) =
      err (many_matches spec (map (λ t. t.package_id) (s ∷ s' ∷ ss)))

module _ {S V R U E : Type 0} ⦃es : Eq S⦄ ⦃ev : Eq V⦄ ⦃eu : Eq U⦄ (world : World S V R U E)
    (q : RegistryQueryer S V R U) where
  abbrev pub potential_matches : Candidate S V R → List (PackageIdSpec V U × Dependency S R)
  potential_matches c =
      keep (λ (spec, _). PackageIdSpec.matches world.url_of spec c.summary.package_id)
        q.replacements

  abbrev pub override_by :
      Candidate S V R
      → List (PackageIdSpec V U × Dependency S R)
      → Result (QueryError S V R U E) (Candidate S V R)
  override_by c [] = ok c
  override_by c ((spec, dep) ∷ others) =
      looked_up world dep >>= override_with world c spec dep others

  -- the loop over the candidates
  unfoldable pub override_all :
      List (Candidate S V R) → Result (QueryError S V R U E) (List (Candidate S V R))
  unfolding PackageIdSpec.matches
  override_all [] = ok []
  override_all (c ∷ cs) =
      override_by c (potential_matches c) >>= λ c'. override_all cs >>= λ cs'. ok (c' ∷ cs')

  -- the comparison that sorts the candidates
  abbrev pub comes_before : Candidate S V R → Candidate S V R → Bool
  comes_before a b =
      if contains q.try_to_use a.summary.package_id
      then (if contains q.try_to_use b.summary.package_id then version_before a b else true)
      else (if contains q.try_to_use b.summary.package_id then false else version_before a b)
    where
      version_before : Candidate S V R → Candidate S V R → Bool
      version_before a b =
          if q.minimal_versions
          then world.version_le a.summary.package_id.version b.summary.package_id.version
          else world.version_le b.summary.package_id.version a.summary.package_id.version

  -- `query` of a dependency that is not in the cache
  unfoldable pub answer : Dependency S R → Result (QueryError S V R U E) (List (Candidate S V R))
  unfolding override_all sort_by
  answer dep = looked_up world dep >>= λ ss.
      override_all (map plain ss) >>= λ ret. ok (sort_by comes_before ret)

module _ {S V R U E : Type 0} ⦃es : Eq S⦄ ⦃ev : Eq V⦄ ⦃er : Eq R⦄ ⦃eu : Eq U⦄
    (world : World S V R U E) where
  unfoldable pub query :
      RegistryQueryer S V R U
      → Dependency S R
      → Result (QueryError S V R U E) (RegistryQueryer S V R U × List (Candidate S V R))
  unfolding answer Map.get Map.insert
  query q dep = elim (Map.get q.cache dep) [
    | some out ↦ ok (q, out)
    | none ↦ answer world q dep >>= λ out. ok (record q { cache = Map.insert dep out q.cache }, out)
  ]
