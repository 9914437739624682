-- ===== src/DependencyQueue/RunInvariant.antt =====
-- util/dependency_queue.rs: what holds after every run of the queue.
use toml.Prelude.{
  ℕ, ◌≡◌, sym, subst, ok-injective, ◌∙◌, true, ◌||◌, Option, [], ◌∷◌, arith, Eq, contains,
  Bool-cases, inl, inr, is_some, ok, bind-eq-ok,
}
use toml.Map
use toml.Map.{Map, get-insert, get-update_or, contains-keys, Distinct-insert}
use toml.Set.{Set, contains-remove}
use toml.DependencyQueue.{DependencyQueue, Freshness, depth_of_all, queue_finished, finish}
use toml.DependencyQueue.Invariant.{is_queued, depends_on, Mirrors}
use toml.DependencyQueue.Depth.{depth_of_all-Covers}
use toml.DependencyQueue.Dequeue.{Dequeued, idle, started, dequeue-returns}
use toml.DependencyQueue.Finish.{finish-Releases, finish-Mirrors, finish-panics}
use toml.DependencyQueue.Runs.{Calls, asked, Run, begun, dequeued, finished, IsBuilt, Built-IsBuilt}

module _ {ℓ} {K V : Type ℓ} ⦃e : Eq K⦄ where
  pub record IsRun (calls : Calls K) (q : DependencyQueue K V) (done : Set K) : Type ℓ where
    pub mirrors : Mirrors q done
    pub logged : (k d : K) → depends_on q k d ≡ asked calls k d
    pub tracked :
        (k : K)
        → Map.contains_key calls k ≡ (is_queued q k || (contains q.pending k || contains done k))
    pub deep : (k : K) → is_queued q k ≡ true → is_some (Map.get q.depths k) ≡ true

  begun-IsRun :
      (fuel : ℕ) (q q' : DependencyQueue K V) (calls : Calls K)
      → IsBuilt q calls
      → queue_finished fuel q ≡ ok q'
      → IsRun calls q' []
  unfolding queue_finished
  begun-IsRun fuel q q' calls b h =
      let (depths, run, last) =
        bind-eq-ok (depth_of_all fuel q.reverse_dep_map (Map.keys q.dep_map) q.depths)
          (λ depths. ok (record q { depths = depths })) h in
      let same = ok-injective last in
      let covered =
        depth_of_all-Covers fuel q.reverse_dep_map (Map.keys q.dep_map) q.depths depths run in
      subst (λ p. IsRun calls p []) same
        (record {
          mirrors = record {
            unique = b.mirrors.unique;
            unfinished = b.mirrors.unfinished;
            finished = b.mirrors.finished;
            distinct = b.mirrors.distinct;
            pending_unfinished = b.mirrors.pending_unfinished;
            pending_out = b.mirrors.pending_out;
            done_out = b.mirrors.done_out;
          };
          logged = b.logged;
          tracked = λ k. ground (arith, b.same_keys k, b.none_pending);
          deep = λ k there. covered.1 k (contains-keys q.dep_map k ∙ there);
        })

  Dequeued-IsRun :
      {calls : Calls K} {q q' : DependencyQueue K V} {done : Set K} {r : Option (Freshness × K × V)}
      → IsRun calls q done
      → Dequeued q r q'
      → Mirrors q' done
      → IsRun calls q' done
  Dequeued-IsRun i (idle stuck) m = i
  Dequeued-IsRun i (started {k} at free deep best gone pending same) m = record {
    mirrors = m;
    logged = λ j d. ground (arith, same, i.logged j d);
    tracked = λ j. ground (arith, i.tracked j, gone j, pending j, at, e.eq_iff k j);
    deep = λ j there. ground (arith, same, gone j, there, i.deep j);
  }

  finished-IsRun :
      (calls : Calls K) (q q' : DependencyQueue K V) (done : Set K) (key : K)
      (freshness : Freshness)
      → IsRun calls q done
      → finish q key freshness ≡ ok q'
      → IsRun calls q' (key ∷ done)
  finished-IsRun calls q q' done key freshness i h = elim (Bool-cases (contains q.pending key)) [
    | inl p ↦
        let m = i.mirrors in
        let (q₁, e₁, r) = finish-Releases q done key freshness m p in
        let same : q₁ ≡ q' = ok-injective (sym e₁ ∙ h) in
        subst (λ s. IsRun calls s (key ∷ done)) same
          (record {
            mirrors = finish-Mirrors q q₁ done key freshness m p r;
            logged = λ k d. ground (arith, r.reverse, i.logged k d);
            tracked = λ k. ground (
              arith,
              i.tracked k,
              r.queued k,
              r.pending,
              contains-remove key k q.pending,
              p,
              e.eq_iff key k,
            );
            deep = λ k there. ground (arith, r.depths, r.queued k, there, i.deep k);
          })
    | inr absent ↦ cc (finish-panics q key freshness absent)
  ]

  pub Run-IsRun :
      {calls : Calls K} {q : DependencyQueue K V} {done : Set K}
      → Run calls q done
      → IsRun calls q done
  Run-IsRun (begun {q} {q'} fuel b h) = begun-IsRun fuel q q' _ (Built-IsBuilt b) h
  Run-IsRun {calls} (dequeued {q} {q'} {done} {r} run h) =
      let i = Run-IsRun run in
      let (r₁, q₁, e₁, d, m) = dequeue-returns q done i.mirrors i.deep in
      let same = ok-injective (sym e₁ ∙ h) in
      Dequeued-IsRun i (subst (λ p. Dequeued q p.0 p.1) same d)
        (subst (λ p. Mirrors p.1 done) same m)
  Run-IsRun {calls} (finished {q} {q'} {done} key freshness run h) =
      finished-IsRun calls q q' done key freshness (Run-IsRun run) h

  pub Run-Mirrors :
      {calls : Calls K} {q : DependencyQueue K V} {done : Set K} → Run calls q done → Mirrors q done
  Run-Mirrors run = (Run-IsRun run).mirrors

  pub Run-deep :
      {calls : Calls K} {q : DependencyQueue K V} {done : Set K}
      → Run calls q done
      → (k : K) → is_queued q k ≡ true
      → is_some (Map.get q.depths k) ≡ true
  Run-deep run = (Run-IsRun run).deep
