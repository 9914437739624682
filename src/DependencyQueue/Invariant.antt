-- ===== src/DependencyQueue/Invariant.antt =====
-- util/dependency_queue.rs: the two maps of the queue mirror one another. `done` is the set of the
-- keys that `finish` was called on; the program does not keep it.
use toml.Prelude.{◌≡◌, Bool, true, false, Option, none, some, [], Eq, contains, Distinct, unwrap_or}
use toml.Map
use toml.Map.{Map}
use toml.Set.{Set}
use toml.DependencyQueue.{DependencyQueue}

module _ {ℓ} {K V : Type ℓ} where
  abbrev pub value_in : Option (Set K × V) → Option V
  value_in none = none
  value_in (some (deps, value)) = some value

module _ {ℓ} {K V : Type ℓ} ⦃e : Eq K⦄ where
  abbrev pub waits_in : Option (Set K × V) → K → Bool
  waits_in none d = false
  waits_in (some (deps, value)) d = contains deps d

  -- `k` is queued and `d` is among the dependencies that it still waits for
  abbrev pub waits_for : DependencyQueue K V → K → K → Bool
  waits_for q k d = waits_in (Map.get q.dep_map k) d

  abbrev pub is_queued : DependencyQueue K V → K → Bool
  is_queued q k = Map.contains_key q.dep_map k

  abbrev pub value_of : DependencyQueue K V → K → Option V
  value_of q k = value_in (Map.get q.dep_map k)

  abbrev pub rev_of : DependencyQueue K V → K → Set K
  rev_of q d = unwrap_or (Map.get q.reverse_dep_map d) []

  -- `k` was queued with `d` among its dependencies
  abbrev pub depends_on : DependencyQueue K V → K → K → Bool
  depends_on q k d = contains (rev_of q d) k

  pub record Mirrors (q : DependencyQueue K V) (done : Set K) : Type ℓ where
    pub unique : Distinct (Map.keys q.dep_map)
    pub unfinished : (k d : K) → contains done d ≡ false → waits_for q k d ≡ depends_on q k d
    pub finished : (k d : K) → contains done d ≡ true → waits_for q k d ≡ false
    pub distinct : (d : K) → Distinct (rev_of q d)
    pub pending_unfinished : (k : K) → contains q.pending k ≡ true → contains done k ≡ false
    pub pending_out : (k : K) → contains q.pending k ≡ true → is_queued q k ≡ false
    pub done_out : (k : K) → contains done k ≡ true → is_queued q k ≡ false
