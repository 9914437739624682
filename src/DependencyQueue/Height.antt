-- ===== src/DependencyQueue/Height.antt =====
-- `queue_finished` of util/dependency_queue.rs: the depth of a key is the length of the longest chain
-- of packages that depend on one another above it.
use toml.Prelude.{
  ℕ, zero, suc, ◌+◌, ◌≤◌, ◌<◌, max, ◌≡◌, ◌∙◌, refl, true, false, Option, none, some, List, [], ◌∷◌,
  ◌⊎◌, arith, Eq, eq_self, contains, Option-cases, inl, inr, is_some, unwrap_or, Result, Never, ok,
  eqb,
}
use toml.Map
use toml.Map.{Map, get-insert, contains-keys}
use toml.Set.{Set}
use toml.DependencyQueue.{
  DependencyQueue, Depths, in_progress, deepest, depth_at, depth, depth_of_all, queue_finished,
}
use toml.DependencyQueue.Invariant.{is_queued}
use toml.DependencyQueue.Depth.{depth_of_all-Covers}

module _ {ℓ} {K : Type ℓ} where
  unfoldable pub highest : (K → ℕ) → List K → ℕ
  highest h [] = 0
  highest h (k ∷ ks) = max (h k) (highest h ks)

module _ {ℓ} {K : Type ℓ} ⦃e : Eq K⦄ where
  -- `h` is the height of each key over the reverse edges `rev`. A graph with a cycle has none.
  pub record IsHeight (rev : Map K (Set K)) (h : K → ℕ) : Type ℓ where
    pub above : (k : K) → h k ≡ 1 + highest h (unwrap_or (Map.get rev k) [])
    pub fits : (k : K) → h k < in_progress

  le-highest : (h : K → ℕ) (ks : List K) (k : K) → contains ks k ≡ true → h k ≤ highest h ks
  unfolding highest
  le-highest h [] k c = cc
  le-highest h (j ∷ ks) k c = ground (arith, le-highest h ks k, e.eq_iff j k)

module _ {ℓ} {K : Type ℓ} ⦃e : Eq K⦄ (rev : Map K (Set K)) (h : K → ℕ) (is : IsHeight rev h) where
  -- An entry is a height, or the mark of a key at or above `b`.
  abbrev Marks : ℕ → Depths K → Type ℓ
  Marks b results =
      (j : K) (n : ℕ) → Map.get results j ≡ some n → (n ≡ in_progress) × (b ≤ h j) ⊎ (n ≡ h j)

  abbrev Extends : Depths K → Depths K → Type ℓ
  Extends a b = (j : K) (n : ℕ) → Map.get b j ≡ some n → (Map.get a j ≡ some n) ⊎ (n ≡ h j)

  abbrev Visits : (K → Depths K → Result Never (ℕ × Depths K)) → ℕ → Type ℓ
  Visits visit bound =
      (key : K) (results : Depths K)
      → h key < bound
      → Marks (suc (h key)) results
      → (results' : Depths K) × (visit key results ≡ ok (h key, results'))
        × Extends results results'

  deepest-lem :
      (visit : K → Depths K → Result Never (ℕ × Depths K)) (bound b : ℕ)
      → Visits visit bound
      → b ≤ bound
      → (deps : List K) (best : ℕ) (results : Depths K)
      → ((k : K) → contains deps k ≡ true → h k < b)
      → Marks b results
      → (results' : Depths K) × (deepest visit deps best results
          ≡ ok (max best (highest h deps), results'))
        × Extends results results'
  unfolding deepest highest
  deepest-lem visit bound b v le [] best results below m = (results, ground arith, λ j n at. inl at)
  deepest-lem visit bound b v le (dep ∷ deps) best results below m =
      let lower = below dep (ground (arith, eq_self dep)) in
      let (results₁, e₁, x₁) = v dep results (omega arith) (λ j n at. ground (arith, m j n at)) in
      let (results₂, e₂, x₂) =
        deepest-lem visit bound b v le deps (max best (h dep)) results₁
          (λ k c. below k (ground (arith, c))) (λ j n at. ground (arith, x₁ j n at, m j n)) in
      let regroup : max (max best (h dep)) (highest h deps)
          ≡ max best (max (h dep) (highest h deps)) =
        omega arith in
      (results₂, rw e₁ (rw (← regroup) e₂), λ j n at. ground (arith, x₂ j n at, x₁ j n))

  depth_at-lem :
      (visit : K → Depths K → Result Never (ℕ × Depths K)) (fuel : ℕ)
      → Visits visit fuel
      → (key : K) (results : Depths K) (o : Option ℕ) → Map.get results key ≡ o
      → h key < suc fuel
      → Marks (suc (h key)) results
      → (results' : Depths K) × (depth_at visit rev key results o ≡ ok (h key, results'))
        × Extends results results'
  depth_at-lem visit fuel v key results (some n) at lt m =
      let mark = m key n at in
      let fit = is.fits key in
      let n_is : n ≡ h key = ground (arith, mark) in
      let other : eqb n in_progress ≡ false = ground (arith, n_is, fit) in
      (results, rw (other, n_is), λ j x a. inl a)
  depth_at-lem visit fuel v key results none at lt m =
      let deps = unwrap_or (Map.get rev key) [] in
      let (results₁, e₁, x₁) =
        deepest-lem visit fuel (h key) v (omega arith) deps 0 (Map.insert key in_progress results)
          (λ k c. omega (arith, le-highest h deps k c, is.above key))
          (λ j n a.
            ground (arith, get-insert key j in_progress results, e.eq_iff key j, a, m j n)) in
      let total : 1 + max 0 (highest h deps) ≡ h key = omega (arith, is.above key) in
      (
        Map.insert key (h key) results₁,
        rw (e₁, total),
        λ j n a. ground (
          arith,
          get-insert key j (h key) results₁,
          get-insert key j in_progress results,
          e.eq_iff key j,
          a,
          x₁ j n,
        ),
      )

  depth-Visits : (fuel : ℕ) → Visits (depth fuel rev) fuel
  unfolding depth
  depth-Visits zero key results lt m = absurd (omega arith)
  depth-Visits (suc fuel) key results lt m =
      depth_at-lem (depth fuel rev) fuel (depth-Visits fuel) key results (Map.get results key) refl
        lt m

  -- no mark is left
  abbrev IsClean : Depths K → Type ℓ
  IsClean results = (j : K) (n : ℕ) → Map.get results j ≡ some n → n ≡ h j

  IsClean-get :
      (results : Depths K) (k : K)
      → IsClean results
      → is_some (Map.get results k) ≡ true
      → Map.get results k ≡ some (h k)
  IsClean-get results k clean there = elim (Option-cases (Map.get results k)) [
    | inl missing ↦ cc (rw missing at there)
    | inr (n, at) ↦ rw (at, clean k n at)
  ]

  depth_of_all-lem :
      (fuel : ℕ) (keys : List K) (results : Depths K)
      → ((k : K) → contains keys k ≡ true → h k < fuel)
      → IsClean results
      → (results' : Depths K) × (depth_of_all fuel rev keys results ≡ ok results')
        × IsClean results'
  unfolding depth_of_all
  depth_of_all-lem fuel [] results enough clean = (results, refl, clean)
  depth_of_all-lem fuel (key ∷ keys) results enough clean =
      let (results₁, e₁, x₁) =
        depth-Visits fuel key results (enough key (ground (arith, eq_self key)))
          (λ j n at. inr (clean j n at)) in
      let (results₂, e₂, clean') =
        depth_of_all-lem fuel keys results₁ (λ k c. enough k (ground (arith, c)))
          (λ j n at. ground (arith, x₁ j n at, clean j n)) in
      (results₂, rw e₁ e₂, clean')

-- If the queue's dependencies have no cycle, so that each key has a height, and the fuel is above
-- the heights, then `queue_finished` returns, and gives each queued key its height, the number of
-- packages on the longest chain from it up through the packages that depend on one another.
pub queue_finished-depths {ℓ} :
    {K V : Type ℓ} ⦃e : Eq K⦄ (q : DependencyQueue K V) (h : K → ℕ) (fuel : ℕ)
    → IsHeight q.reverse_dep_map h
    → q.depths ≡ []
    → ((k : K) → h k < fuel)
    → (q' : DependencyQueue K V) × (queue_finished fuel q ≡ ok q')
      × ((k : K) → is_queued q k ≡ true → Map.get q'.depths k ≡ some (h k))
unfolding queue_finished Map.get
queue_finished-depths q h fuel is none_yet enough =
    let (depths, run, clean) =
      depth_of_all-lem q.reverse_dep_map h is fuel (Map.keys q.dep_map) q.depths (λ k c. enough k)
        (λ j n at. absurd (ground (arith, none_yet, at))) in
    let covered =
      depth_of_all-Covers fuel q.reverse_dep_map (Map.keys q.dep_map) q.depths depths run in
    (
      record q { depths = depths },
      rw run,
      λ k there.
          IsClean-get q.reverse_dep_map h is depths k clean
            (covered.1 k (contains-keys q.dep_map k ∙ there)),
    )
