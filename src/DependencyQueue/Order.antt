-- ===== src/DependencyQueue/Order.antt =====
-- util/dependency_queue.rs: in which order the packages of a run come.
use toml.Prelude.{
  ℕ, zero, suc, ◌<◌, ◌≡◌, refl, sym, subst, ok-injective, ◌∙◌, true, false, Option, none, some,
  arith, Eq, contains, Bool-cases, inl, inr, ok,
}
use toml.Map
use toml.Map.{Map, get-insert, get-update_or, contains-keys, Distinct-insert}
use toml.Set.{Set}
use toml.DependencyQueue.{DependencyQueue, Freshness, dequeue, finish}
use toml.DependencyQueue.Invariant.{waits_for, is_queued}
use toml.DependencyQueue.Dequeue.{Dequeued, idle, started, dequeue-returns}
use toml.DependencyQueue.Finish.{finish-returns}
use toml.DependencyQueue.Runs.{Calls, asked, Run}
use toml.DependencyQueue.RunInvariant.{IsRun, Run-IsRun}

module _ {ℓ} {K V : Type ℓ} ⦃e : Eq K⦄ where
  dequeue-Dequeued :
      (calls : Calls K) (q q' : DependencyQueue K V) (done : Set K) (r : Option (Freshness × K × V))
      → IsRun calls q done
      → dequeue q ≡ ok (r, q')
      → Dequeued q r q'
  dequeue-Dequeued calls q q' done r i h =
      let (r₁, q₁, e₁, d, m) = dequeue-returns q done i.mirrors i.deep in
      subst (λ p. Dequeued q p.0 p.1) (ok-injective (sym e₁ ∙ h)) d

  started-after :
      (calls : Calls K) (q q' : DependencyQueue K V) (done : Set K) (f : Freshness) (k : K) (v : V)
      (r : Option (Freshness × K × V))
      → IsRun calls q done
      → Dequeued q r q'
      → r ≡ some (f, k, v)
      → (d : K) → asked calls k d ≡ true
      → contains done d ≡ true
  started-after calls q q' done f k v none i (idle stuck) e d a = cc
  started-after calls q q' done f k v (some x) i
        (started {k = j} at free deep best gone pending same) e d a =
      let is_j : j ≡ k = cc (e) in
      ground (arith, is_j, free d, i.mirrors.unfinished k d, i.logged k d, a)

  started-fresh :
      (calls : Calls K) (q q' : DependencyQueue K V) (done : Set K) (f : Freshness) (k : K) (v : V)
      (r : Option (Freshness × K × V))
      → IsRun calls q done
      → Dequeued q r q'
      → r ≡ some (f, k, v)
      → (contains done k ≡ false) × (contains q.pending k ≡ false)
  started-fresh calls q q' done f k v none i (idle stuck) e = cc
  started-fresh calls q q' done f k v (some x) i
        (started {k = j} at free deep best gone pending same) e =
      let is_j : j ≡ k = cc (e) in
      (
        ground (arith, is_j, at, i.mirrors.done_out k),
        ground (arith, is_j, at, i.mirrors.pending_out k),
      )

-- In every run, when `dequeue` hands out a package, `finish` was called on each of the dependencies
-- that the package was queued with.
pub dequeue_after_dependencies {ℓ} :
    {K V : Type ℓ} ⦃e : Eq K⦄ {calls : Calls K} {q q' : DependencyQueue K V} {done : Set K}
    {f : Freshness} {k : K} {v : V}
    → Run calls q done
    → dequeue q ≡ ok (some (f, k, v), q')
    → (d : K) → asked calls k d ≡ true
    → contains done d ≡ true
dequeue_after_dependencies {calls} {q} {q'} {done} {f} {k} {v} run h =
    let i = Run-IsRun run in
    started-after calls q q' done f k v (some (f, k, v)) i
      (dequeue-Dequeued calls q q' done (some (f, k, v)) i h) refl

-- In every run `dequeue` hands out no package that is being built or was finished.
dequeue_once {ℓ} :
    {K V : Type ℓ} ⦃e : Eq K⦄ {calls : Calls K} {q q' : DependencyQueue K V} {done : Set K}
    {f : Freshness} {k : K} {v : V}
    → Run calls q done
    → dequeue q ≡ ok (some (f, k, v), q')
    → (contains done k ≡ false) × (contains q.pending k ≡ false)
dequeue_once {calls} {q} {q'} {done} {f} {k} {v} run h =
    let i = Run-IsRun run in
    started-fresh calls q q' done f k v (some (f, k, v)) i
      (dequeue-Dequeued calls q q' done (some (f, k, v)) i h) refl

-- In every run `dequeue` returns, and so does `finish` of each pending package: no lookup and no
-- assertion in them panics.
pub Run-returns {ℓ} :
    {K V : Type ℓ} ⦃e : Eq K⦄ {calls : Calls K} {q : DependencyQueue K V} {done : Set K}
    → Run calls q done
    → ((r : Option (Freshness × K × V)) × (q' : DependencyQueue K V) × (dequeue q ≡ ok (r, q')))
      × ((key : K) (freshness : Freshness)
          → contains q.pending key ≡ true
          → (q' : DependencyQueue K V) × (finish q key freshness ≡ ok q'))
Run-returns {q} {done} run =
    let i = Run-IsRun run in
    let (r, q', run_d, _, _) = dequeue-returns q done i.mirrors i.deep in
    (
      (r, q', run_d),
      λ key freshness p.
          let found = finish-returns q done key freshness i.mirrors p in (found.0, found.1),
    )

module _ {ℓ} {K V : Type ℓ} ⦃e : Eq K⦄ where
  stuck-empty :
      (calls : Calls K) (q : DependencyQueue K V) (done : Set K) (rank : K → ℕ)
      → IsRun calls q done
      → ((k d : K) → asked calls k d ≡ true → (Map.contains_key calls d ≡ true) × (rank d < rank k))
      → ((k : K) → contains q.pending k ≡ false)
      → ((k : K) → is_queued q k ≡ true → (d : K) × (waits_for q k d ≡ true))
      → (n : ℕ) (k : K) → rank k < n
      → is_queued q k ≡ false
  stuck-empty calls q done rank i closed idle_now stuck zero k lt = absurd (omega arith)
  stuck-empty calls q done rank i closed idle_now stuck (suc n) k lt =
      elim (Bool-cases (is_queued q k)) [
        | inr out ↦ out
        | inl there ↦
            let (d, waits) = stuck k there in
            let alive : contains done d ≡ false = ground (arith, i.mirrors.finished k d, waits) in
            let want : asked calls k d ≡ true =
              ground (arith, i.mirrors.unfinished k d, i.logged k d, waits, alive) in
            let (known_key, lower) = closed k d want in
            let below = stuck-empty calls q done rank i closed idle_now stuck n d (omega arith) in
            absurd (ground (arith, i.tracked d, known_key, idle_now d, alive, below))
      ]

  Dequeued-none :
      (q q' : DependencyQueue K V) (r : Option (Freshness × K × V))
      → Dequeued q r q'
      → r ≡ none
      → (k : K) → is_queued q k ≡ true
      → (d : K) × (waits_for q k d ≡ true)
  Dequeued-none q q' none (idle stuck) h = stuck
  Dequeued-none q q' (some x) (started at free deep best gone pending same) h = cc

-- No deadlock: in a run whose dependencies were all queued and have no cycle, `dequeue` returns
-- `None` with no package pending only when no package is queued any more.
pub dequeue_progress {ℓ} :
    {K V : Type ℓ} ⦃e : Eq K⦄ {calls : Calls K} {q q' : DependencyQueue K V} {done : Set K}
    (rank : K → ℕ)
    → Run calls q done
    → ((k d : K) → asked calls k d ≡ true → (Map.contains_key calls d ≡ true) × (rank d < rank k))
    → ((k : K) → contains q.pending k ≡ false)
    → dequeue q ≡ ok (none, q')
    → (k : K) → is_queued q k ≡ false
dequeue_progress {calls} {q} {q'} {done} rank run closed idle_now h k =
    let i = Run-IsRun run in
    let stuck = Dequeued-none q q' none (dequeue-Dequeued calls q q' done none i h) refl in
    stuck-empty calls q done rank i closed idle_now stuck (suc (rank k)) k (omega arith)
