-- ===== src/DependencyQueue.antt =====
-- util/dependency_queue.rs: the packages to build, in an order that respects their dependencies.
pub mod Invariant
pub mod Finish
pub mod Dequeue
pub mod Added
pub mod Runs
pub mod RunInvariant
pub mod Order
pub mod Depth
pub mod Height
mod Examples
use toml.Prelude.{
  ℕ, zero, suc, ◌+◌, ◌-◌, max, Bool, true, false, ◌&&◌, Option, none, some, List, [], ◌∷◌, Eq, ◌==◌,
  contains, keep, map, length, eqb, leb, if◌then◌else◌, unwrap_or, Result, Never, ok, panic,
  out_of_fuel, ◌>>=◌,
}
use Prim.Native.Nat.{◌^◌}
use toml.Map
use toml.Map.{Map}
use toml.Set
use toml.Set.{Set}

pub data Freshness : Type 0 where
  fresh dirty : Freshness

unfoldable pub combine : Freshness → Freshness → Freshness
combine fresh other = other
combine dirty other = dirty

abbrev pub is_dirty : Freshness → Bool
is_dirty fresh = false
is_dirty dirty = true

pub record DependencyQueue {ℓ} (K V : Type ℓ) : Type ℓ where
  pub dep_map : Map K (Set K × V)
  pub reverse_dep_map : Map K (Set K)
  pub dirty_set : Set K
  pub pending : Set K
  pub depths : Map K ℕ

module _ {ℓ} {K V : Type ℓ} where
  unfoldable pub new : DependencyQueue K V
  new = record { dep_map = []; reverse_dep_map = []; dirty_set = []; pending = []; depths = [] }

  unfoldable pub is_empty : DependencyQueue K V → Bool
  is_empty q = eqb (length q.dep_map) 0 && eqb (length q.pending) 0

  unfoldable pub len : DependencyQueue K V → ℕ
  len q = length q.dep_map + length q.pending

module _ {ℓ} {K : Type ℓ} ⦃e : Eq K⦄ where
  -- the loop of `queue`: the dependencies as a set, and the reverse edges
  unfoldable pub add_dependencies : K → List K → Set K → Map K (Set K) → Set K × Map K (Set K)
  unfolding Set.insert Map.update_or
  add_dependencies key [] mine reverse = (mine, reverse)
  add_dependencies key (dep ∷ deps) mine reverse =
      add_dependencies key deps (Set.insert dep mine)
        (Map.update_or dep [] (Set.insert key) reverse)

module _ {ℓ} {K V : Type ℓ} ⦃e : Eq K⦄ where
  unfoldable pub queue_vacant :
      DependencyQueue K V → Freshness → K → V → List K → DependencyQueue K V
  unfolding add_dependencies Map.insert
  queue_vacant q freshness key value dependencies =
      let (mine, reverse) = add_dependencies key dependencies [] q.reverse_dep_map in
      record q {
        dep_map = Map.insert key (mine, value) q.dep_map;
        reverse_dep_map = reverse;
        dirty_set = if is_dirty freshness then Set.insert key q.dirty_set else q.dirty_set;
      }

  -- A key that is there already keeps its entry.
  unfoldable pub queue : DependencyQueue K V → Freshness → K → V → List K → DependencyQueue K V
  unfolding queue_vacant Map.get
  queue q freshness key value dependencies =
      if Map.contains_key q.dep_map key then q else queue_vacant q freshness key value dependencies

abbrev pub in_progress : ℕ
in_progress = 2 ^ 64 - 1

abbrev pub Depths {ℓ} : Type ℓ → Type ℓ
Depths K = Map K ℕ

module _ {ℓ} {K : Type ℓ} ⦃e : Eq K⦄ where
  -- `.map(|dep| depth(dep, ..)).max().unwrap_or(0)`, over the call of `depth`; every depth is
  -- positive, so the maximum starts from 0.
  unfoldable pub deepest :
      (K → Depths K → Result Never (ℕ × Depths K))
      → List K
      → ℕ
      → Depths K
      → Result Never (ℕ × Depths K)
  deepest depth [] best results = ok (best, results)
  deepest depth (dep ∷ deps) best results =
      depth dep results >>= λ (d, results'). deepest depth deps (max best d) results'

  abbrev pub known : ℕ → Depths K → Result Never (ℕ × Depths K)
  known d results = if eqb d in_progress then panic else ok (d, results)

  -- the body of `depth`, by what `results` holds for the key
  abbrev pub depth_at :
      (K → Depths K → Result Never (ℕ × Depths K))
      → Map K (Set K)
      → K
      → Depths K
      → Option ℕ
      → Result Never (ℕ × Depths K)
  depth_at depth rev key results (some d) = known d results
  depth_at depth rev key results none =
      deepest depth (unwrap_or (Map.get rev key) []) 0 (Map.insert key in_progress results)
      >>= λ (d, results'). ok (1 + d, Map.insert key (1 + d) results')

  unfoldable pub depth : ℕ → Map K (Set K) → K → Depths K → Result Never (ℕ × Depths K)
  unfolding deepest Map.get Map.insert
  depth zero rev key results = out_of_fuel
  depth (suc fuel) rev key results = depth_at (depth fuel rev) rev key results (Map.get results key)

  -- the loop of `queue_finished`
  unfoldable pub depth_of_all : ℕ → Map K (Set K) → List K → Depths K → Result Never (Depths K)
  unfolding depth
  depth_of_all fuel rev [] results = ok results
  depth_of_all fuel rev (key ∷ keys) results =
      depth fuel rev key results >>= λ (d, results'). depth_of_all fuel rev keys results'

module _ {ℓ} {K : Type ℓ} ⦃e : Eq K⦄ where
  -- `max_by_key(|k| self.depth[k])`: the last of the greatest; the index panics at a missing key
  abbrev pub better : K → ℕ → Option (K × ℕ) → Option (K × ℕ)
  better k d none = some (k, d)
  better k d (some (j, best)) = if leb best d then some (k, d) else some (j, best)

  abbrev pub max_by_depth_step :
      (Option (K × ℕ) → Result Never (Option (K × ℕ)))
      → K
      → Option ℕ
      → Option (K × ℕ)
      → Result Never (Option (K × ℕ))
  max_by_depth_step rest k none best = panic
  max_by_depth_step rest k (some d) best = rest (better k d best)

  unfoldable pub max_by_depth : Depths K → List K → Option (K × ℕ) → Result Never (Option (K × ℕ))
  unfolding Map.get
  max_by_depth depths [] best = ok best
  max_by_depth depths (k ∷ ks) best =
      max_by_depth_step (max_by_depth depths ks) k (Map.get depths k) best

abbrev pub freshness_of : Bool → Freshness
freshness_of true = dirty
freshness_of false = fresh

abbrev pub is_nil {ℓ} : {A : Type ℓ} → List A → Bool
is_nil [] = true
is_nil (_ ∷ _) = false

module _ {ℓ} {K V : Type ℓ} ⦃e : Eq K⦄ where
  -- All nodes have been added. The fuel is one more than the number of keys that can be met.
  unfoldable pub queue_finished : ℕ → DependencyQueue K V → Result Never (DependencyQueue K V)
  unfolding depth_of_all
  queue_finished fuel q =
      depth_of_all fuel q.reverse_dep_map (Map.keys q.dep_map) q.depths >>= λ depths.
      ok (record q { depths = depths })

  -- the keys with no dependency left
  unfoldable pub ready : Map K (Set K × V) → List K
  ready dep_map = Map.keys (keep (λ entry. is_nil entry.1.0) dep_map)

  abbrev pub take_out :
      DependencyQueue K V
      → K
      → Option (Set K × V)
      → Result Never (Option (Freshness × K × V) × DependencyQueue K V)
  take_out q key none = panic
  take_out q key (some (_, value)) = ok (
    some (freshness_of (contains q.dirty_set key), key, value),
    record q { dep_map = Map.remove key q.dep_map; pending = Set.insert key q.pending },
  )

  abbrev pub dequeue_key :
      DependencyQueue K V
      → Option (K × ℕ)
      → Result Never (Option (Freshness × K × V) × DependencyQueue K V)
  dequeue_key q none = ok (none, q)
  dequeue_key q (some (key, _)) = take_out q key (Map.get q.dep_map key)

  unfoldable pub dequeue :
      DependencyQueue K V → Result Never (Option (Freshness × K × V) × DependencyQueue K V)
  unfolding max_by_depth ready Map.get Map.remove Set.insert
  dequeue q = max_by_depth q.depths (ready q.dep_map) none >>= dequeue_key q

  -- `assert!(self.dep_map.get_mut(dep).unwrap().0.remove(key))`
  abbrev pub release_entry :
      Map K (Set K × V) → K → K → Option (Set K × V) → Result Never (Map K (Set K × V))
  release_entry dep_map key dep none = panic
  release_entry dep_map key dep (some (deps, value)) =
      if contains deps key then ok (Map.insert dep (Set.remove key deps, value) dep_map) else panic

  -- one round of the loop of `finish`
  unfoldable pub release :
      K → Freshness → K → DependencyQueue K V → Result Never (DependencyQueue K V)
  unfolding Map.get Map.insert Set.remove Set.insert
  release key freshness dep q =
      release_entry q.dep_map key dep (Map.get q.dep_map dep) >>= λ dep_map. ok (record q {
        dep_map = dep_map;
        dirty_set = if is_dirty freshness then Set.insert dep q.dirty_set else q.dirty_set;
      })

  unfoldable pub release_all :
      K → Freshness → List K → DependencyQueue K V → Result Never (DependencyQueue K V)
  unfolding release
  release_all key freshness [] q = ok q
  release_all key freshness (dep ∷ deps) q =
      release key freshness dep q >>= release_all key freshness deps

  unfoldable pub finish : DependencyQueue K V → K → Freshness → Result Never (DependencyQueue K V)
  unfolding release_all Map.get Set.remove
  finish q key freshness =
      if contains q.pending key
      then release_all key freshness (unwrap_or (Map.get q.reverse_dep_map key) [])
          (record q { pending = Set.remove key q.pending })
      else panic
