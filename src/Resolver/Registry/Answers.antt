-- ===== src/Resolver/Registry/Answers.antt =====
-- What `RegistryQueryer::query` of core/resolver/types.rs answers.
use toml.Prelude.{
  Bool, true, false, ◌||◌, some, contains, All, Bool-and, if◌then◌else◌, List, [], ◌∷◌, map, all,
  keep, length, Eq, ◌==◌, list_eq, nat_eq, Result, ok, err, panic, out_of_fuel, ◌>>=◌, bind-eq-ok,
  ok-injective, ◌≡◌, refl, sym, subst, ap, ◌∙◌, arith, Bool-cases, Option-cases, inl, inr, sort_by,
  sorted, all-sort_by, count-sort_by, sort_by-sorted,
}
use mathlib.Core.Path.{fun_ext}
use toml.Map
use toml.Map.{Map, get-insert}
use toml.Core.PackageId.{package_id_eq}
use toml.Core.Dependency.{Dependency}
use toml.Core.Dependency.Equality.{dependency_eq, dependency_eq_iff}
use toml.Core.Summary.{Summary}
use toml.Resolver.Queue.{Candidate}
use toml.Resolver.Registry.{
  World, RegistryQueryer, plain, looked_up, potential_matches, override_by, override_all,
  comes_before, answer, query,
}
use toml.Resolver.Registry.Overrides.{settled, override_all-settled, failing-ok}

-- `<=` of versions is a total order
pub record VersionOrder {V : Type 0} (le : V → V → Bool) : Type 0 where
  pub total : (v w : V) → (le v w || le w v) ≡ true
  pub trans : (u v w : V) → le u v ≡ true → le v w ≡ true → le u w ≡ true

-- `a` may stand before `b`
pub data Precedes {S V R U : Type 0} ⦃es : Eq S⦄ ⦃ev : Eq V⦄ (le : V → V → Bool)
    (q : RegistryQueryer S V R U) (a b : Candidate S V R) : Type 0 where
  preferred :
      contains q.try_to_use a.summary.package_id ≡ true
      → contains q.try_to_use b.summary.package_id ≡ false
      → Precedes le q a b
  greater :
      contains q.try_to_use a.summary.package_id ≡ contains q.try_to_use b.summary.package_id
      → q.minimal_versions ≡ false
      → le b.summary.package_id.version a.summary.package_id.version ≡ true
      → Precedes le q a b
  lesser :
      contains q.try_to_use a.summary.package_id ≡ contains q.try_to_use b.summary.package_id
      → q.minimal_versions ≡ true
      → le a.summary.package_id.version b.summary.package_id.version ≡ true
      → Precedes le q a b

module _ {S V R U : Type 0} ⦃es : Eq S⦄ ⦃ev : Eq V⦄ (le : V → V → Bool)
    (q : RegistryQueryer S V R U) where
  -- each candidate may stand before all that follow it
  abbrev pub Ordered : List (Candidate S V R) → Type 0
  Ordered [] = Unit {0}
  Ordered (c ∷ cs) = All (Precedes le q c) cs × Ordered cs

  of_versions :
      (a b : Candidate S V R)
      → contains q.try_to_use a.summary.package_id ≡ contains q.try_to_use b.summary.package_id
      → (if q.minimal_versions
          then le a.summary.package_id.version b.summary.package_id.version
          else le b.summary.package_id.version a.summary.package_id.version)
        ≡ true
      → Precedes le q a b
  of_versions a b alike h = elim (Bool-cases q.minimal_versions) [
    | inl minimal ↦ lesser alike minimal (rw minimal at h)
    | inr maximal ↦ greater alike maximal (rw maximal at h)
  ]

module _ {S V R U E : Type 0} ⦃es : Eq S⦄ ⦃ev : Eq V⦄ ⦃eu : Eq U⦄ (world : World S V R U E)
    (q : RegistryQueryer S V R U) where
  comes_before-Precedes :
      (a b : Candidate S V R) → comes_before world q a b ≡ true → Precedes world.version_le q a b
  comes_before-Precedes a b h = elim (Bool-cases (contains q.try_to_use a.summary.package_id)) [
    | inl a_in ↦ elim (Bool-cases (contains q.try_to_use b.summary.package_id)) [
      | inl b_in ↦ of_versions world.version_le q a b (a_in ∙ sym b_in) (rw (a_in, b_in) at h)
      | inr b_out ↦ preferred a_in b_out
    ]
    | inr a_out ↦ elim (Bool-cases (contains q.try_to_use b.summary.package_id)) [
      | inl b_in ↦ absurd (ground (arith, rw (a_out, b_in) at h))
      | inr b_out ↦ of_versions world.version_le q a b (a_out ∙ sym b_out) (rw (a_out, b_out) at h)
    ]
  ]

  all-Precedes :
      (c : Candidate S V R) (cs : List (Candidate S V R))
      → all (comes_before world q c) cs ≡ true
      → All (Precedes world.version_le q c) cs
  all-Precedes c [] h = tt
  all-Precedes c (d ∷ ds) h =
      let (first, rest) = Bool-and h in (comes_before-Precedes c d first, all-Precedes c ds rest)

  sorted-Ordered :
      (cs : List (Candidate S V R))
      → sorted (comes_before world q) cs ≡ true
      → Ordered world.version_le q cs
  sorted-Ordered [] h = tt
  sorted-Ordered (c ∷ cs) h =
      let (first, rest) = Bool-and h in (all-Precedes c cs first, sorted-Ordered cs rest)

  before_total :
      VersionOrder world.version_le
      → (a b : Candidate S V R) → (comes_before world q a b || comes_before world q b a) ≡ true
  before_total order a b =
      ground (arith, order.total a.summary.package_id.version b.summary.package_id.version)

  before_trans :
      VersionOrder world.version_le
      → (a b c : Candidate S V R) → comes_before world q a b ≡ true
      → comes_before world q b c ≡ true
      → comes_before world q a c ≡ true
  before_trans order a b c ab bc =
      let u = a.summary.package_id.version in
      let v = b.summary.package_id.version in
      let w = c.summary.package_id.version in
      ground (arith, order.trans u v w, order.trans w v u, ab, bc)

  count-map :
      (p : Summary S V R → Bool) (cs : List (Candidate S V R))
      → length (keep (λ c. p c.summary) cs) ≡ length (keep p (map (λ c. c.summary) cs))
  count-map p [] = refl
  count-map p (c ∷ cs) = ground (arith, count-map p cs)

  -- A query that reaches the registry and succeeds gives the packages that the registry has for the
  -- dependency, as many times each. No candidate comes before one that is to be preferred to it: those
  -- in `try_to_use` stand before all others, and within both groups the greater versions first, or
  -- the lesser ones where minimal versions are asked for.
  -- A candidate has a replacement only if exactly one override matches it, and the replacement has
  -- its name and version and another source. The order of versions is taken to be total.
  pub answer-sorted :
      (dep : Dependency S R) (out : List (Candidate S V R))
      → VersionOrder world.version_le
      → answer world q dep ≡ ok out
      → Ordered world.version_le q out
        × (all (settled world q) out ≡ true)
        × (ss : List (Summary S V R)) × (world.lookup dep ≡ ok ss)
        × ((p : Summary S V R → Bool) → length (keep (λ c. p c.summary) out) ≡ length (keep p ss))
  unfolding answer
  answer-sorted dep out order h =
      let (ss, found, rest) =
        bind-eq-ok (looked_up world dep)
          (λ ss.
            override_all world q (map plain ss) >>= λ ret. ok (sort_by (comes_before world q) ret))
          h in
      let (ret, overrides, last) =
        bind-eq-ok (override_all world q (map plain ss))
          (λ ret. ok (sort_by (comes_before world q) ret)) rest in
      let same : sort_by (comes_before world q) ret ≡ out = ok-injective last in
      let (good, summaries) = override_all-settled world q ss ret overrides in
      (
        subst (Ordered world.version_le q) same (
            sorted-Ordered (sort_by (comes_before world q) ret) (
              sort_by-sorted (comes_before world q) (before_total order) (before_trans order) ret)),
        subst (λ t. all (settled world q) t ≡ true) same
            (all-sort_by (comes_before world q) (settled world q) ret ∙ good),
        ss,
        failing-ok (world.lookup dep) found,
        λ p. rw (sym same) (
            count-sort_by (comes_before world q) (λ c. p c.summary) ret
            ∙ count-map p ret
            ∙ ap (λ t. length (keep p t)) summaries),
      )

through :
    {E A B : Type 0} (r : Result E A) (f : A → B)
    → (r >>= (λ a. ok (f a, a)) >>= λ (_, a). ok a) ≡ r
through (ok a) f = refl
through (err e) f = refl
through panic f = refl
through out_of_fuel f = refl

module _ {S V R U E : Type 0} ⦃es : Eq S⦄ ⦃ev : Eq V⦄ ⦃er : Eq R⦄ ⦃eu : Eq U⦄
    (world : World S V R U E) where
  -- what the cache has is what the registry answers
  abbrev pub CacheValid : RegistryQueryer S V R U → Type 0
  CacheValid q =
      (dep : Dependency S R) (out : List (Candidate S V R))
      → Map.get q.cache dep ≡ some out
      → answer world q dep ≡ ok out

  override_all-cache :
      (q : RegistryQueryer S V R U) (m : Map (Dependency S R) (List (Candidate S V R)))
      (cs : List (Candidate S V R))
      → override_all world (record q { cache = m }) cs ≡ override_all world q cs
  unfolding override_all
  override_all-cache q m [] = refl
  override_all-cache q m (c ∷ cs) =
      ap
        (λ t.
          override_by world q c (potential_matches world q c) >>= λ c'. t >>= λ cs'. ok (c' ∷ cs'))
        (override_all-cache q m cs)

  answer-cache :
      (q : RegistryQueryer S V R U) (m : Map (Dependency S R) (List (Candidate S V R)))
      (dep : Dependency S R)
      → answer world (record q { cache = m }) dep ≡ answer world q dep
  unfolding answer
  answer-cache q m dep =
      ap
        (λ f. looked_up world dep >>= λ ss.
          f (map plain ss) >>= λ ret. ok (sort_by (comes_before world q) ret))
        (fun_ext (override_all-cache q m))

  -- The cache is not seen. Where it has what the registry answers, a query gives the same candidates,
  -- error or panic as one that does not look into the cache, and after one that succeeds the cache
  -- still has what the registry answers.
  pub query-answer :
      (q : RegistryQueryer S V R U) (dep : Dependency S R)
      → CacheValid q
      → ((query world q dep >>= λ (q', out). ok out) ≡ answer world q dep)
        × ((q' : RegistryQueryer S V R U) (out : List (Candidate S V R))
            → query world q dep ≡ ok (q', out)
            → CacheValid q')
  unfolding query
  query-answer q dep valid = elim (Option-cases (Map.get q.cache dep)) [
    | inr (out, there) ↦ (
      rw (query, there) (sym (valid dep out there)),
      λ q' out' h.
          subst CacheValid (ap (λ (x, _). x) (ok-injective (rw (query, there) at h))) valid,
    )
    | inl fresh ↦ (
      rw (query, fresh)
          (through (answer world q dep) (λ out. record q { cache = Map.insert dep out q.cache })),
      λ q' out' h.
          let (out, answered, last) =
            bind-eq-ok (answer world q dep)
              (λ out. ok (record q { cache = Map.insert dep out q.cache }, out))
              (rw (query, fresh) at h) in
          subst CacheValid (ap (λ (x, _). x) (ok-injective last)) (stored out answered),
    )
  ]
    where
      stored :
          (out : List (Candidate S V R))
          → answer world q dep ≡ ok out
          → CacheValid (record q { cache = Map.insert dep out q.cache })
      stored out answered d found there =
          answer-cache q (Map.insert dep out q.cache) d ∙ elim (Bool-cases (dep == d)) [
            | inl same ↦
                let here = (dependency_eq_iff dep d).0 same in
                let given : out ≡ found =
                  ground (arith, get-insert dep d out q.cache, same, there) in
                subst (λ t. answer world q t ≡ ok found) here (answered ∙ ap (λ t. ok t) given)
            | inr other ↦ valid d found (rw (get-insert dep d out q.cache, other) at there)
          ]
