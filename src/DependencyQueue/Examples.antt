-- ===== src/DependencyQueue/Examples.antt =====
-- Runs of util/dependency_queue.rs: its test `deep_first`, and the theorems at it.
use toml.Prelude.{
  ℕ, ◌<◌, ◌≡◌, refl, true, false, Option, none, some, [], ◌∷◌, arith, contains, nat_eq, Result,
  Never, ok, ◌>>=◌, not, ◌&&◌, ◌||◌, ◌==◌, if◌then◌else◌,
}
use toml.Map
use toml.DependencyQueue.{
  DependencyQueue, Freshness, fresh, dirty, is_dirty, new, queue, queue_finished, dequeue, finish,
}
use toml.DependencyQueue.Invariant.{waits_for, is_queued, value_of, depends_on, Mirrors}
use toml.DependencyQueue.Finish.{finish-returns}
use toml.DependencyQueue.Dequeue.{Dequeued, dequeue-returns}
use toml.DependencyQueue.Height.{highest, IsHeight, queue_finished-depths}
use toml.DependencyQueue.Runs.{asked, Calls, Run, start, queued, begun, dequeued, finished}
use toml.DependencyQueue.RunInvariant.{Run-Mirrors, Run-deep}
use toml.DependencyQueue.Order.{dequeue_after_dependencies, Run-returns, dequeue_progress}

abbrev Q : Type 0
Q = DependencyQueue ℕ ℕ

abbrev deep_first : Q
deep_first =
    queue
      (queue (queue (queue (queue new fresh 1 10 []) fresh 2 20 (1 ∷ [])) fresh 3 30 []) fresh 4 40
        (2 ∷ 3 ∷ []))
      fresh 5 50 (4 ∷ 3 ∷ [])

abbrev next_key : Result Never (Option (Freshness × ℕ × ℕ) × Q) → ℕ
next_key (ok (some (f, k, v), q)) = k
next_key _ = 0

abbrev after : Result Never (Option (Freshness × ℕ × ℕ) × Q) → Result Never Q
after r = r >>= λ (x, q). ok q

-- the deepest first: 1, then 3, then nothing until one of them is finished
deep_first_order :
    let s₀ = queue_finished 9 deep_first in
    let r₁ = s₀ >>= dequeue in
    let r₂ = after r₁ >>= dequeue in
    let r₃ = after r₂ >>= dequeue in
    let r₄ = after r₃ >>= (λ q. finish q 3 fresh) >>= dequeue in
    let r₅ = after r₄ >>= (λ q. finish q 1 fresh) >>= dequeue in
    (next_key r₁ ≡ 1)
    × (next_key r₂ ≡ 3)
    × (next_key r₃ ≡ 0)
    × (next_key r₄ ≡ 0)
    × (next_key r₅ ≡ 2)
unfolding queue new queue_finished dequeue finish
deep_first_order = (refl, refl, refl, refl, refl)

-- Package 2 depends on package 1.
abbrev pair : Q
pair = queue (queue new dirty 1 10 []) fresh 2 20 (1 ∷ [])

abbrev pair_ready : Q
pair_ready = record {
  dep_map = (1, ([], 10)) ∷ (2, (1 ∷ [], 20)) ∷ [];
  reverse_dep_map = (1, 2 ∷ []) ∷ [];
  dirty_set = 1 ∷ [];
  pending = [];
  depths = (1, 2) ∷ (2, 1) ∷ [];
}

abbrev one_taken : Q
one_taken = record pair_ready { dep_map = (2, (1 ∷ [], 20)) ∷ []; pending = 1 ∷ [] }

abbrev one_done : Q
one_done = record pair_ready { dep_map = (2, ([], 20)) ∷ []; dirty_set = 2 ∷ 1 ∷ [] }

abbrev two_taken : Q
two_taken = record one_done { dep_map = []; pending = 2 ∷ [] }

abbrev two_done : Q
two_done = record two_taken { pending = [] }

abbrev asked_calls : Calls ℕ
asked_calls = (2, 1 ∷ []) ∷ (1, []) ∷ []

pair-Run : Run asked_calls pair_ready []
unfolding queue new queue_finished
pair-Run = begun 9 (queued fresh 2 20 (1 ∷ []) (queued dirty 1 10 [] start)) refl

one_taken-Run : Run asked_calls one_taken []
unfolding dequeue
one_taken-Run = dequeued {r = some (dirty, 1, 10)} pair-Run refl

one_done-Run : Run asked_calls one_done (1 ∷ [])
unfolding finish
one_done-Run = finished 1 dirty one_taken-Run refl

two_done-Run : Run asked_calls two_done (2 ∷ 1 ∷ [])
unfolding finish dequeue
two_done-Run = finished 2 fresh (dequeued {r = some (dirty, 2, 20)} one_done-Run refl) refl

finish-returns_example :
    (q' : Q) × (finish one_taken 1 dirty ≡ ok q')
    × Mirrors q' (1 ∷ [])
    × ((k : ℕ) → contains q'.pending k ≡ (not (1 == k) && contains (1 ∷ []) k))
    × ((k : ℕ) → value_of q' k ≡ value_of one_taken k)
    × ((k d : ℕ) → waits_for q' k d ≡ (waits_for one_taken k d && not (1 == d)))
    × ((k : ℕ)
        → contains q'.dirty_set k
          ≡ (contains (1 ∷ []) k || is_dirty dirty && depends_on one_taken k 1))
finish-returns_example = finish-returns one_taken [] 1 dirty (Run-Mirrors one_taken-Run) refl

dequeue-returns_example :
    (r : Option (Freshness × ℕ × ℕ)) × (q' : Q) × (dequeue pair_ready ≡ ok (r, q'))
    × Dequeued pair_ready r q'
    × Mirrors q' []
dequeue-returns_example = dequeue-returns pair_ready [] (Run-Mirrors pair-Run) (Run-deep pair-Run)

abbrev pair_height : ℕ → ℕ
pair_height k = if 1 == k then 2 else 1

abbrev pair_queued : Q
pair_queued = record pair_ready { depths = [] }

pair-IsHeight : IsHeight pair_queued.reverse_dep_map pair_height
unfolding highest Map.get
pair-IsHeight = record { above = λ k. ground arith; fits = λ k. ground arith }

queue_finished-depths_example :
    (q' : Q) × (queue_finished 3 pair_queued ≡ ok q')
    × ((k : ℕ) → is_queued pair_queued k ≡ true → Map.get q'.depths k ≡ some (pair_height k))
queue_finished-depths_example =
    queue_finished-depths pair_queued pair_height 3 pair-IsHeight refl (λ k. ground arith)

one_done-dequeue : dequeue one_done ≡ ok (some (dirty, 2, 20), two_taken)
unfolding dequeue
one_done-dequeue = refl

dequeue_after_dependencies_example : contains {A = ℕ} (1 ∷ []) 1 ≡ true
dequeue_after_dependencies_example =
    dequeue_after_dependencies one_done-Run one_done-dequeue 1 (unfold Map.get in refl)

Run-returns_example :
    ((r : Option (Freshness × ℕ × ℕ)) × (q' : Q) × (dequeue one_taken ≡ ok (r, q')))
    × ((key : ℕ) (freshness : Freshness)
        → contains (1 ∷ []) key ≡ true
        → (q' : Q) × (finish one_taken key freshness ≡ ok q'))
Run-returns_example = Run-returns one_taken-Run

two_done-dequeue : dequeue two_done ≡ ok (none, two_done)
unfolding dequeue
two_done-dequeue = refl

pair-closed :
    (k d : ℕ) → asked asked_calls k d ≡ true → (Map.contains_key asked_calls d ≡ true) × (d < k)
unfolding Map.get
pair-closed k d h = ground arith

dequeue_progress_example : is_queued two_done 2 ≡ false
dequeue_progress_example =
    dequeue_progress (λ k. k) two_done-Run pair-closed (λ k. refl) two_done-dequeue 2
