-- ===== src/DependencyQueue/Finish.antt =====
-- `finish` of util/dependency_queue.rs: none of its assertions fails, and what it changes.
use toml.Prelude.{
  ◌≡◌, refl, ◌∙◌, eq_self, true, false, not, ◌&&◌, ◌||◌, List, [], ◌∷◌, arith, Eq, ◌==◌, contains,
  Distinct, Option-cases, inl, inr, ok, panic, if◌then◌else◌,
}
use toml.Map
use toml.Map.{get-insert, Distinct-insert}
use toml.Set
use toml.Set.{Set, contains-remove, contains-insert}
use toml.DependencyQueue.{DependencyQueue, Freshness, is_dirty, release, release_all, finish}
use toml.DependencyQueue.Invariant.{waits_for, is_queued, value_of, rev_of, depends_on, Mirrors}

module _ {ℓ} {K V : Type ℓ} ⦃e : Eq K⦄ where
  -- `q'` is `q` with `key` struck from what each of `deps` waits for.
  pub record Releases (key : K) (freshness : Freshness) (deps : List K) (q q' : DependencyQueue K V)
      : Type ℓ where
    pub unique : Distinct (Map.keys q.dep_map) → Distinct (Map.keys q'.dep_map)
    pub reverse : q'.reverse_dep_map ≡ q.reverse_dep_map
    pub pending : q'.pending ≡ q.pending
    pub depths : q'.depths ≡ q.depths
    pub queued : (k : K) → is_queued q' k ≡ is_queued q k
    pub values : (k : K) → value_of q' k ≡ value_of q k
    pub waits :
        (k d : K) → waits_for q' k d ≡ (waits_for q k d && not (key == d && contains deps k))
    pub dirties :
        (k : K)
        → contains q'.dirty_set k
          ≡ (contains q.dirty_set k || is_dirty freshness && contains deps k)

  release-Releases :
      (key : K) (freshness : Freshness) (dep : K) (q : DependencyQueue K V)
      → waits_for q dep key ≡ true
      → (q' : DependencyQueue K V) × (release key freshness dep q ≡ ok q')
        × Releases key freshness (dep ∷ []) q q'
  unfolding release
  release-Releases key freshness dep q w = elim (Option-cases (Map.get q.dep_map dep)) [
    | inl missing ↦ absurd (ground (arith, missing))
    | inr ((deps, value), there) ↦ (
      record q {
        dep_map = Map.insert dep (Set.remove key deps, value) q.dep_map;
        dirty_set = if is_dirty freshness then Set.insert dep q.dirty_set else q.dirty_set;
      },
      ground (arith, there),
      record {
        unique = Distinct-insert dep (Set.remove key deps, value) q.dep_map;
        reverse = refl;
        pending = refl;
        depths = refl;
        queued = λ k.
            ground (
              arith,
              there,
              get-insert dep k (Set.remove key deps, value) q.dep_map,
              e.eq_iff dep k,
            );
        values = λ k.
            ground (
              arith,
              there,
              get-insert dep k (Set.remove key deps, value) q.dep_map,
              e.eq_iff dep k,
            );
        waits = λ k d. ground (
          arith,
          there,
          get-insert dep k (Set.remove key deps, value) q.dep_map,
          contains-remove key d deps,
          e.eq_iff dep k,
        );
        dirties = λ k. ground (arith, contains-insert dep k q.dirty_set);
      },
    )
  ]

  Releases-none :
      (key : K) (freshness : Freshness) (q : DependencyQueue K V) → Releases key freshness [] q q
  Releases-none key freshness q = record {
    unique = λ u. u;
    reverse = refl;
    pending = refl;
    depths = refl;
    queued = λ k. refl;
    values = λ k. refl;
    waits = λ k d. ground arith;
    dirties = λ k. ground arith;
  }

  Releases-cons :
      (key : K) (freshness : Freshness) (dep : K) (deps : List K) (p q r : DependencyQueue K V)
      → Releases key freshness (dep ∷ []) p q
      → Releases key freshness deps q r
      → Releases key freshness (dep ∷ deps) p r
  Releases-cons key freshness dep deps p q r a b = record {
    unique = λ u. b.unique (a.unique u);
    reverse = b.reverse ∙ a.reverse;
    pending = b.pending ∙ a.pending;
    depths = b.depths ∙ a.depths;
    queued = λ k. b.queued k ∙ a.queued k;
    values = λ k. b.values k ∙ a.values k;
    waits = λ k d. ground (arith, a.waits k d, b.waits k d);
    dirties = λ k. ground (arith, a.dirties k, b.dirties k);
  }

  release_all-Releases :
      (key : K) (freshness : Freshness) (deps : List K) (q : DependencyQueue K V)
      → Distinct deps
      → ((k : K) → contains deps k ≡ true → waits_for q k key ≡ true)
      → (q' : DependencyQueue K V) × (release_all key freshness deps q ≡ ok q')
        × Releases key freshness deps q q'
  unfolding release_all
  release_all-Releases key freshness [] q d w = (q, refl, Releases-none key freshness q)
  release_all-Releases key freshness (dep ∷ deps) q d w =
      let (q₁, e₁, r₁) =
        release-Releases key freshness dep q (w dep (ground (arith, eq_self dep))) in
      let (q₂, e₂, r₂) =
        release_all-Releases key freshness deps q₁ d.1
          (λ k h. ground (arith, w k, r₁.waits k key, h, d.0, e.eq_iff dep k)) in
      (q₂, rw e₁ e₂, Releases-cons key freshness dep deps q q₁ q₂ r₁ r₂)

  abbrev pub unpended : DependencyQueue K V → K → DependencyQueue K V
  unpended q key = record q { pending = Set.remove key q.pending }

  pub finish-Releases :
      (q : DependencyQueue K V) (done : Set K) (key : K) (freshness : Freshness)
      → Mirrors q done
      → contains q.pending key ≡ true
      → (q' : DependencyQueue K V) × (finish q key freshness ≡ ok q')
        × Releases key freshness (rev_of q key) (unpended q key) q'
  unfolding finish
  finish-Releases q done key freshness m p =
      let (q', e', r) =
        release_all-Releases key freshness (rev_of q key) (unpended q key) (m.distinct key)
          (λ k h. m.unfinished k key (m.pending_unfinished key p) ∙ h) in
      (q', rw p e', r)

  pub finish-Mirrors :
      (q q' : DependencyQueue K V) (done : Set K) (key : K) (freshness : Freshness)
      → Mirrors q done
      → contains q.pending key ≡ true
      → Releases key freshness (rev_of q key) (unpended q key) q'
      → Mirrors q' (key ∷ done)
  finish-Mirrors q q' done key freshness m p r = record {
    unique = r.unique m.unique;
    unfinished =
        λ k d h. ground (arith, r.reverse, r.waits k d, m.unfinished k d, h, e.eq_iff key d);
    finished = λ k d h. ground (
      arith,
      r.waits k d,
      m.finished k d,
      h,
      m.unfinished k d,
      m.pending_unfinished key p,
      e.eq_iff key d,
    );
    distinct = λ d. rw r.reverse (m.distinct d);
    pending_unfinished = λ k h.
        ground (arith, r.pending, contains-remove key k q.pending, m.pending_unfinished k, h);
    pending_out = λ k h.
        ground (arith, r.pending, contains-remove key k q.pending, m.pending_out k, r.queued k, h);
    done_out =
        λ k h. ground (arith, r.queued k, m.done_out k, m.pending_out key p, h, e.eq_iff key k);
  }

-- In a queue whose two maps mirror one another, `finish` of a pending key passes its assertions and
-- keeps them so; the keys that are queued, and their values, stay; a key waits for what it waited
-- for, but no longer for the finished one; and with `Dirty` exactly the keys that depend on the
-- finished one become dirty.
pub finish-returns {ℓ} :
    {K V : Type ℓ} ⦃e : Eq K⦄ (q : DependencyQueue K V) (done : Set K) (key : K)
    (freshness : Freshness)
    → Mirrors q done
    → contains q.pending key ≡ true
    → (q' : DependencyQueue K V) × (finish q key freshness ≡ ok q')
      × Mirrors q' (key ∷ done)
      × ((k : K) → contains q'.pending k ≡ (not (key == k) && contains q.pending k))
      × ((k : K) → value_of q' k ≡ value_of q k)
      × ((k d : K) → waits_for q' k d ≡ (waits_for q k d && not (key == d)))
      × ((k : K)
          → contains q'.dirty_set k
            ≡ (contains q.dirty_set k || is_dirty freshness && depends_on q k key))
finish-returns ⦃e⦄ q done key freshness m p =
    let (q', done_ok, r) = finish-Releases q done key freshness m p in
    (
      q',
      done_ok,
      finish-Mirrors q q' done key freshness m p r,
      λ k. ground (arith, r.pending, contains-remove key k q.pending),
      r.values,
      λ k d.
          ground (arith, r.waits k d, m.unfinished k d, m.pending_unfinished key p, e.eq_iff key d),
      r.dirties,
    )

-- `finish` of a key that is not pending fails its assertion.
pub finish-panics {ℓ} :
    {K V : Type ℓ} ⦃e : Eq K⦄ (q : DependencyQueue K V) (key : K) (freshness : Freshness)
    → contains q.pending key ≡ false
    → finish q key freshness ≡ panic
unfolding finish
finish-panics q key freshness h = rw h
