-- ===== src/DependencyQueue/Depth.antt =====
-- `queue_finished` of util/dependency_queue.rs: every queued key gets a depth.
use toml.Prelude.{
  ℕ, zero, suc, ◌+◌, max, ◌≡◌, refl, true, Option, none, some, List, [], ◌∷◌, arith, Eq, contains,
  is_some, unwrap_or, Result, Never, ok, bind-eq-ok,
}
use toml.Map
use toml.Map.{Map, get-insert}
use toml.Set.{Set}
use toml.DependencyQueue.{Depths, in_progress, deepest, depth_at, depth, depth_of_all}

module _ {ℓ} {K : Type ℓ} ⦃e : Eq K⦄ where
  -- No key loses its entry.
  abbrev Grows : Depths K → Depths K → Type ℓ
  Grows a b = (j : K) → is_some (Map.get a j) ≡ true → is_some (Map.get b j) ≡ true

  abbrev Covers : (K → Depths K → Result Never (ℕ × Depths K)) → Type ℓ
  Covers visit =
      (key : K) (results : Depths K) (d : ℕ) (results' : Depths K)
      → visit key results ≡ ok (d, results')
      → Grows results results' × (is_some (Map.get results' key) ≡ true)

  deepest-Grows :
      (visit : K → Depths K → Result Never (ℕ × Depths K))
      → Covers visit
      → (deps : List K) (best : ℕ) (results : Depths K) (d : ℕ) (results' : Depths K)
      → deepest visit deps best results ≡ ok (d, results')
      → Grows results results'
  unfolding deepest
  deepest-Grows visit c [] best results d results' h j s = ground (arith, h)
  deepest-Grows visit c (dep ∷ deps) best results d results' h j s =
      let ((d₁, results₁), first, rest) =
        bind-eq-ok (visit dep results) (λ (d, results'). deepest visit deps (max best d) results')
          h in
      deepest-Grows visit c deps (max best d₁) results₁ d results' rest j
        ((c dep results d₁ results₁ first).0 j s)

  depth_at-Covers :
      (visit : K → Depths K → Result Never (ℕ × Depths K)) (rev : Map K (Set K))
      → Covers visit
      → (key : K) (results : Depths K) (o : Option ℕ) (d : ℕ) (results' : Depths K)
      → Map.get results key ≡ o
      → depth_at visit rev key results o ≡ ok (d, results')
      → Grows results results' × (is_some (Map.get results' key) ≡ true)
  depth_at-Covers visit rev c key results (some n) d results' at h =
      (λ j s. ground (arith, h), ground (arith, h, at))
  depth_at-Covers visit rev c key results none d results' at h =
      let ((d₁, results₁), below, last) =
        bind-eq-ok
          (deepest visit (unwrap_or (Map.get rev key) []) 0 (Map.insert key in_progress results))
          (λ (d, results'). ok (1 + d, Map.insert key (1 + d) results')) h in
      let grows =
        deepest-Grows visit c (unwrap_or (Map.get rev key) []) 0
          (Map.insert key in_progress results) d₁ results₁ below in
      (
        λ j s. ground (
          arith,
          last,
          grows j,
          s,
          get-insert key j in_progress results,
          get-insert key j (1 + d₁) results₁,
          e.eq_iff key j,
        ),
        ground (arith, last, get-insert key key (1 + d₁) results₁, e.eq_iff key key),
      )

  depth-Covers : (fuel : ℕ) (rev : Map K (Set K)) → Covers (depth fuel rev)
  unfolding depth
  depth-Covers zero rev key results d results' h = cc
  depth-Covers (suc fuel) rev key results d results' h =
      depth_at-Covers (depth fuel rev) rev (depth-Covers fuel rev) key results (Map.get results key)
        d results' refl h

  -- Where the loop of `queue_finished` ends, every key of the queue has a depth.
  pub depth_of_all-Covers :
      (fuel : ℕ) (rev : Map K (Set K)) (keys : List K) (results results' : Depths K)
      → depth_of_all fuel rev keys results ≡ ok results'
      → Grows results results'
        × ((k : K) → contains keys k ≡ true → is_some (Map.get results' k) ≡ true)
  unfolding depth_of_all
  depth_of_all-Covers fuel rev [] results results' h = (λ j s. ground (arith, h), λ k c. cc)
  depth_of_all-Covers fuel rev (key ∷ keys) results results' h =
      let ((d, results₁), first, rest) =
        bind-eq-ok (depth fuel rev key results)
          (λ (d, results'). depth_of_all fuel rev keys results') h in
      let (grows, covered) = depth-Covers fuel rev key results d results₁ first in
      let (grows', covered') = depth_of_all-Covers fuel rev keys results₁ results' rest in
      (
        λ j s. grows' j (grows j s),
        λ k c. ground (arith, c, covered' k, grows' k, covered, e.eq_iff key k),
      )
