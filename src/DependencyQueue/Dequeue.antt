-- ===== src/DependencyQueue/Dequeue.antt =====
-- `dequeue` of util/dependency_queue.rs: which package it takes.
use toml.Prelude.{
  ℕ, ◌≤◌, ◌≡◌, refl, ◌∙◌, Bool, true, false, not, ◌&&◌, ◌||◌, Option, none, some, List, [], ◌∷◌,
  ◌⊎◌, arith, Eq, ◌==◌, contains, eq_self, Distinct, Bool-cases, Option-cases, inl, inr, is_some,
  leb, ok,
}
use toml.Map
use toml.Map.{Map, get-remove, contains-keys, Distinct-remove}
use toml.Set
use toml.Set.{Set, contains-insert}
use toml.DependencyQueue.{
  DependencyQueue, Freshness, freshness_of, Depths, better, max_by_depth, is_nil, ready,
  dequeue_key, dequeue,
}
use toml.DependencyQueue.Invariant.{waits_in, waits_for, is_queued, value_of, Mirrors}

module _ {ℓ} {K : Type ℓ} ⦃e : Eq K⦄ where
  -- `o` is the best of `best` and the keys `ks`.
  record Picks (depths : Depths K) (ks : List K) (best o : Option (K × ℕ)) : Type ℓ where
    picked :
        (k : K) (d : ℕ)
        → o ≡ some (k, d)
        → (best ≡ some (k, d)) ⊎ (contains ks k ≡ true) × (Map.get depths k ≡ some d)
    beats : (k : K) (d : ℕ) → o ≡ some (k, d) → (j : K) (n : ℕ) → best ≡ some (j, n) → n ≤ d
    greatest :
        (k : K) (d : ℕ)
        → o ≡ some (k, d)
        → (j : K) (n : ℕ) → contains ks j ≡ true
        → Map.get depths j ≡ some n
        → n ≤ d
    nothing : o ≡ none → (ks ≡ []) × (best ≡ none)

  better-some :
      (k : K) (d : ℕ) (best : Option (K × ℕ))
      → (j : K) × (m : ℕ) × (better k d best ≡ some (j, m)) × (d ≤ m)
  better-some k d none = (k, d, refl, omega arith)
  better-some k d (some (j, m)) = elim (Bool-cases (leb m d)) [
    | inl le ↦ (k, d, rw le, omega arith)
    | inr gt ↦ (j, m, rw gt, ground arith)
  ]

  Picks-step :
      (depths : Depths K) (k : K) (d : ℕ) (ks : List K) (best o : Option (K × ℕ))
      → Map.get depths k ≡ some d
      → Picks depths ks (better k d best) o
      → Picks depths (k ∷ ks) best o
  Picks-step depths k d ks best o at p = record {
    picked = λ j n h. ground (arith, at, p.picked j n h, eq_self k);
    beats = λ j n h i x b. ground (arith, p.beats j n h k d, p.beats j n h i x, b);
    greatest = λ j n h i x c g.
        let (b, m, is_best, at_most) = better-some k d best in
        ground
          (arith, at, p.greatest j n h i x, p.beats j n h b m is_best, at_most, c, g, e.eq_iff k i);
    nothing = λ h. absurd (ground (arith, p.nothing h));
  }

  max_by_depth-Picks :
      (depths : Depths K) (ks : List K) (best : Option (K × ℕ))
      → ((k : K) → contains ks k ≡ true → is_some (Map.get depths k) ≡ true)
      → (o : Option (K × ℕ)) × (max_by_depth depths ks best ≡ ok o) × Picks depths ks best o
  unfolding max_by_depth
  max_by_depth-Picks depths [] best h = (
    best,
    refl,
    record {
      picked = λ k d x. inl x;
      beats = λ k d x j n y. ground (arith, x, y);
      greatest = λ k d x j n c g. cc;
      nothing = λ x. (refl, x);
    },
  )
  max_by_depth-Picks depths (k ∷ ks) best h = elim (Option-cases (Map.get depths k)) [
    | inl missing ↦ absurd (ground (arith, missing, h k, eq_self k))
    | inr (d, at) ↦
        let (o, found, p) =
          max_by_depth-Picks depths ks (better k d best) (λ j c. h j (ground (arith, c))) in
        (o, rw at found, Picks-step depths k d ks best o at p)
  ]

abbrev free_in {ℓ} : {K V : Type ℓ} → Option (Set K × V) → Bool
free_in none = false
free_in (some (deps, value)) = is_nil deps

module _ {ℓ} {K V : Type ℓ} ⦃e : Eq K⦄ where
  contains-ready :
      (m : Map K (Set K × V)) (k : K)
      → Distinct (Map.keys m)
      → contains (ready m) k ≡ free_in (Map.get m k)
  unfolding ready Map.get
  contains-ready [] k u = refl
  contains-ready ((j, ([], v)) ∷ m) k u = ground (arith, contains-ready m k u.1)
  contains-ready ((j, (x ∷ deps, v)) ∷ m) k u =
      ground (arith, contains-ready m k u.1, contains-keys m j, u.0, e.eq_iff j k)

  -- What one call of `dequeue` gives, from `q` to `q'`.
  pub data Dequeued (q : DependencyQueue K V)
      : Option (Freshness × K × V) → DependencyQueue K V → Type ℓ where
    -- every queued key still waits for some dependency, and nothing changes
    idle : ((k : K) → is_queued q k ≡ true → (d : K) × (waits_for q k d ≡ true)) → Dequeued q none q
    -- `k` waits for nothing, and no key that waits for nothing is deeper; it moves to the pending ones
    started :
        {k : K} {v : V} {n : ℕ} {q' : DependencyQueue K V}
        → value_of q k ≡ some v
        → ((d : K) → waits_for q k d ≡ false)
        → Map.get q.depths k ≡ some n
        → ((j : K) (m : ℕ)
            → is_queued q j ≡ true
            → ((d : K) → waits_for q j d ≡ false)
            → Map.get q.depths j ≡ some m
            → m ≤ n)
        → ((j : K) → is_queued q' j ≡ (not (k == j) && is_queued q j))
        → ((j : K) → contains q'.pending j ≡ (k == j || contains q.pending j))
        → (q'.reverse_dep_map ≡ q.reverse_dep_map) × (q'.depths ≡ q.depths)
        → Dequeued q (some (freshness_of (contains q.dirty_set k), k, v)) q'

  free-waits :
      (q : DependencyQueue K V) (k d : K)
      → free_in (Map.get q.dep_map k) ≡ true
      → waits_for q k d ≡ false
  free-waits q k d h = go (Map.get q.dep_map k) h
    where
      go : (o : Option (Set K × V)) → free_in o ≡ true → waits_in o d ≡ false
      go (some ([], v)) h = refl
      go none h = refl
      go (some (x ∷ xs, v)) h = cc

  waits-free :
      (q : DependencyQueue K V) (k : K)
      → is_queued q k ≡ true
      → free_in (Map.get q.dep_map k) ≡ false
      → (d : K) × (waits_for q k d ≡ true)
  waits-free q k h f = go (Map.get q.dep_map k) h f
    where
      go :
          (o : Option (Set K × V))
          → is_some o ≡ true
          → free_in o ≡ false
          → (d : K) × (waits_in o d ≡ true)
      go none h f = cc
      go (some ([], v)) h f = cc
      go (some (x ∷ xs, v)) h f = (x, ground (arith, eq_self x))

  free_of_waits :
      (q : DependencyQueue K V) (k : K)
      → is_queued q k ≡ true
      → ((d : K) → waits_for q k d ≡ false)
      → free_in (Map.get q.dep_map k) ≡ true
  free_of_waits q k h w = elim (Bool-cases (free_in (Map.get q.dep_map k))) [
    | inl free ↦ free
    | inr stuck ↦ let (d, waits) = waits-free q k h stuck in cc (waits, w d)
  ]

  taken : DependencyQueue K V → K → DependencyQueue K V
  taken q k = record q { dep_map = Map.remove k q.dep_map; pending = Set.insert k q.pending }

  taken-Mirrors :
      (q : DependencyQueue K V) (done : Set K) (k : K)
      → Mirrors q done
      → is_queued q k ≡ true
      → ((d : K) → waits_for q k d ≡ false)
      → Mirrors (taken q k) done
  unfolding taken
  taken-Mirrors q done k m h w = record {
    unique = Distinct-remove k q.dep_map m.unique;
    unfinished =
        λ j d u. ground (arith, get-remove k j q.dep_map, m.unfinished j d, w d, e.eq_iff k j);
    finished = λ j d u. ground (arith, get-remove k j q.dep_map, m.finished j d);
    distinct = m.distinct;
    pending_unfinished = λ j p. ground (
      arith,
      contains-insert k j q.pending,
      m.pending_unfinished j,
      m.done_out k,
      h,
      p,
      e.eq_iff k j,
    );
    pending_out = λ j p. ground (
      arith,
      contains-insert k j q.pending,
      m.pending_out j,
      get-remove k j q.dep_map,
      p,
      e.eq_iff k j,
    );
    done_out = λ j p. ground (arith, get-remove k j q.dep_map, m.done_out j, p);
  }

module _ {ℓ} {K V : Type ℓ} ⦃e : Eq K⦄ (q : DependencyQueue K V) (done : Set K)
    (m : Mirrors q done) where
  ready-free : (k : K) → contains (ready q.dep_map) k ≡ free_in (Map.get q.dep_map k)
  ready-free k = contains-ready q.dep_map k m.unique

  dequeue_key-lem :
      (o : Option (K × ℕ))
      → Picks q.depths (ready q.dep_map) none o
      → (r : Option (Freshness × K × V)) × (q' : DependencyQueue K V) × (dequeue_key q o
          ≡ ok (r, q'))
        × Dequeued q r q'
        × Mirrors q' done
  unfolding taken
  dequeue_key-lem none p = (
    none,
    q,
    refl,
    idle (λ k h. waits-free q k h (ground (arith, ready-free k, p.nothing refl))),
    m,
  )
  dequeue_key-lem (some (k, n)) p = elim (p.picked k n refl) [
    | inl h ↦ cc
    | inr (c, g) ↦
        let free : free_in (Map.get q.dep_map k) ≡ true = ground (arith, c, ready-free k) in
        elim (Option-cases (Map.get q.dep_map k)) [
          | inl missing ↦ absurd (ground (arith, missing))
          | inr ((deps, v), there) ↦ (
            some (freshness_of (contains q.dirty_set k), k, v),
            taken q k,
            rw there,
            started (ground (arith, there)) (λ d. free-waits q k d free) g
                (λ j x h w at. p.greatest k n refl j x (ready-free j ∙ free_of_waits q j h w) at)
                (λ j. ground (arith, get-remove k j q.dep_map)) (λ j. contains-insert k j q.pending)
                (refl, refl),
            taken-Mirrors q done k m (ground (arith, there)) (λ d. free-waits q k d free),
          )
        ]
  ]

  dequeue-lem :
      ((k : K) → is_queued q k ≡ true → is_some (Map.get q.depths k) ≡ true)
      → (r : Option (Freshness × K × V)) × (q' : DependencyQueue K V) × (dequeue q ≡ ok (r, q'))
        × Dequeued q r q'
        × Mirrors q' done
  unfolding dequeue
  dequeue-lem deep =
      let (o, found, p) =
        max_by_depth-Picks q.depths (ready q.dep_map) none
          (λ k c. deep k (ground (arith, c, ready-free k))) in
      rw found (dequeue_key-lem o p)

-- Where the two maps mirror one another and every queued key has its depth, `dequeue` returns and
-- keeps them so. It takes a package that waits for nothing, one of the deepest of these, with its
-- value and with `Dirty` exactly if the package is in the dirty set; it returns `None` only if every
-- queued package still waits for another.
pub dequeue-returns {ℓ} :
    {K V : Type ℓ} ⦃e : Eq K⦄ (q : DependencyQueue K V) (done : Set K)
    → Mirrors q done
    → ((k : K) → is_queued q k ≡ true → is_some (Map.get q.depths k) ≡ true)
    → (r : Option (Freshness × K × V)) × (q' : DependencyQueue K V) × (dequeue q ≡ ok (r, q'))
      × Dequeued q r q'
      × Mirrors q' done
dequeue-returns q done m deep = dequeue-lem q done m deep
