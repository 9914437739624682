-- ===== src/DependencyQueue/Runs.antt =====
-- util/dependency_queue.rs: whole runs of the queue, from `new` through `queue`, `queue_finished`,
-- `dequeue` and `finish`.
use toml.Prelude.{
  ℕ, ◌≡◌, refl, Bool, false, Option, none, some, List, [], ◌∷◌, arith, Eq, contains, Bool-cases,
  inl, inr, ok, if◌then◌else◌,
}
use toml.Map
use toml.Map.{Map, get-insert, get-update_or, contains-keys, Distinct-insert}
use toml.Set.{Set}
use toml.DependencyQueue.{
  DependencyQueue, Freshness, new, add_dependencies, queue_vacant, queue, queue_finished, dequeue,
  finish,
}
use toml.DependencyQueue.Invariant.{is_queued, depends_on, Mirrors}
use toml.DependencyQueue.Added.{add_dependencies-Adds}

-- what the calls of `queue` asked for: the first call for a key counts
abbrev pub Calls {ℓ} : Type ℓ → Type ℓ
Calls K = Map K (List K)

module _ {ℓ} {K : Type ℓ} ⦃e : Eq K⦄ where
  abbrev asked_in : Option (List K) → K → Bool
  asked_in none d = false
  asked_in (some deps) d = contains deps d

  abbrev pub asked : Calls K → K → K → Bool
  asked calls k d = asked_in (Map.get calls k) d

module _ {ℓ} {K V : Type ℓ} ⦃e : Eq K⦄ where
  abbrev pub log_call : DependencyQueue K V → K → List K → Calls K → Calls K
  log_call q key deps calls = if is_queued q key then calls else (key, deps) ∷ calls

  -- The queues that calls of `queue` build.
  pub data Built : DependencyQueue K V → Calls K → Type ℓ where
    start : Built new []
    queued :
        {q : DependencyQueue K V} {calls : Calls K} (freshness : Freshness) (key : K) (value : V)
        (deps : List K)
        → Built q calls
        → Built (queue q freshness key value deps) (log_call q key deps calls)

  -- The states of a build: all is queued first, and then packages are taken and finished in any
  -- order.
  pub data Run (calls : Calls K) : DependencyQueue K V → Set K → Type ℓ where
    begun :
        {q q' : DependencyQueue K V} (fuel : ℕ)
        → Built q calls
        → queue_finished fuel q ≡ ok q'
        → Run calls q' []
    dequeued :
        {q q' : DependencyQueue K V} {done : Set K} {r : Option (Freshness × K × V)}
        → Run calls q done
        → dequeue q ≡ ok (r, q')
        → Run calls q' done
    finished :
        {q q' : DependencyQueue K V} {done : Set K} (key : K) (freshness : Freshness)
        → Run calls q done
        → finish q key freshness ≡ ok q'
        → Run calls q' (key ∷ done)

  pub record IsBuilt (q : DependencyQueue K V) (calls : Calls K) : Type ℓ where
    pub mirrors : Mirrors q []
    pub none_pending : q.pending ≡ []
    pub no_depths : q.depths ≡ []
    pub logged : (k d : K) → depends_on q k d ≡ asked calls k d
    pub same_keys : (k : K) → is_queued q k ≡ Map.contains_key calls k

  queue_vacant-IsBuilt :
      (q : DependencyQueue K V) (calls : Calls K) (freshness : Freshness) (key : K) (value : V)
      (deps : List K)
      → is_queued q key ≡ false
      → IsBuilt q calls
      → IsBuilt (queue_vacant q freshness key value deps) ((key, deps) ∷ calls)
  unfolding queue_vacant Map.get
  queue_vacant-IsBuilt q calls freshness key value deps vacant b =
      let added = add_dependencies-Adds key deps [] q.reverse_dep_map in
      let mine = (add_dependencies key deps [] q.reverse_dep_map).0 in
      let m = b.mirrors in
      record {
        mirrors = record {
          unique = Distinct-insert key (mine, value) q.dep_map m.unique;
          unfinished = λ k d u. ground (
            arith,
            get-insert key k (mine, value) q.dep_map,
            added.own d,
            added.back d k,
            m.unfinished k d,
            vacant,
            e.eq_iff key k,
          );
          finished = λ k d u. cc;
          distinct = added.distinct m.distinct;
          pending_unfinished = λ k p. refl;
          pending_out = λ k p. ground (arith, b.none_pending, p);
          done_out = λ k p. cc;
        };
        none_pending = b.none_pending;
        no_depths = b.no_depths;
        logged = λ k d.
            ground (arith, added.back d k, b.logged k d, m.unfinished k d, vacant, e.eq_iff key k);
        same_keys = λ k. ground (arith, get-insert key k (mine, value) q.dep_map, b.same_keys k);
      }

  pub Built-IsBuilt : {q : DependencyQueue K V} {calls : Calls K} → Built q calls → IsBuilt q calls
  unfolding new queue Map.get
  Built-IsBuilt start = record {
    mirrors = record {
      unique = tt;
      unfinished = λ k d u. refl;
      finished = λ k d u. cc;
      distinct = λ d. tt;
      pending_unfinished = λ k p. refl;
      pending_out = λ k p. refl;
      done_out = λ k p. cc;
    };
    none_pending = refl;
    no_depths = refl;
    logged = λ k d. refl;
    same_keys = λ k. refl;
  }
  Built-IsBuilt (queued {q} {calls} freshness key value deps b) =
      elim (Bool-cases (is_queued q key)) [
        | inl there ↦ rw (there) (Built-IsBuilt b)
        | inr vacant ↦
            rw vacant
              (queue_vacant-IsBuilt q calls freshness key value deps vacant (Built-IsBuilt b))
      ]
