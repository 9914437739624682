-- ===== src/Resolver/Queue.antt =====
-- `RcVecIter`, `DepsFrame` and `RemainingDeps` of core/resolver/types.rs: the dependencies that are
-- still to be activated. The binary heap is the list of its frames; of several greatest frames the
-- first is taken.
pub mod Constrained
pub mod Moves
use toml.Prelude.{
  ℕ, zero, suc, ◌+◌, Text, Bool, true, false, not, ◌&&◌, ◌||◌, Option, none, some, List, [], ◌∷◌,
  ◌++◌, map, slice, length, get_elem?, ltb, eqb, Result, Never, ok, out_of_fuel, if◌then◌else◌,
}
use toml.Core.PackageId.{PackageId}
use toml.Core.Dependency.{Dependency}
use toml.Core.Summary.{Summary}

-- `rest` is the range from `from` to `to`.
pub record RcVecIter (A : Type 0) : Type 0 where
  pub vec : List A
  pub from : ℕ
  pub to : ℕ

pub record Candidate (S V R : Type 0) : Type 0 where
  pub summary : Summary S V R
  pub replace : Option (Summary S V R)

pub record DepInfo (S V R : Type 0) : Type 0 where
  pub dep : Dependency S R
  pub candidates : List (Candidate S V R)
  pub features : List Text

pub record DepsFrame (S V R : Type 0) : Type 0 where
  pub parent : Summary S V R
  pub just_for_error_messages : Bool
  pub remaining_siblings : RcVecIter (DepInfo S V R)

module _ {A : Type 0} where
  abbrev pub new : List A → RcVecIter A
  new vec = record { vec = vec; from = 0; to = length vec }

  abbrev pub at_index : ℕ → Option A → Option (ℕ × A)
  at_index i none = none
  at_index i (some a) = some (i, a)

  unfoldable pub peek : RcVecIter A → Option (ℕ × A)
  peek it = if ltb it.from it.to then at_index it.from (get_elem? it.vec it.from) else none

  unfoldable pub iter_next : RcVecIter A → Option (ℕ × A) × RcVecIter A
  iter_next it =
      if ltb it.from it.to
      then (at_index it.from (get_elem? it.vec it.from), record it { from = it.from + 1 })
      else (none, it)

module _ {A : Type 0} where
  -- what is left of an iterator
  abbrev pub rest_of : RcVecIter A → List A
  rest_of it = slice it.vec it.from it.to

-- what `pop_most_constrained` returns, and the frames it leaves
abbrev pub Popped : Type 0 → Type 0 → Type 0 → Type 0
Popped S V R = Option (Bool × Summary S V R × (ℕ × DepInfo S V R)) × List (DepsFrame S V R)

module _ {S V R : Type 0} where
  abbrev pub candidates_of : Option (ℕ × DepInfo S V R) → ℕ
  candidates_of none = 0
  candidates_of (some (i, info)) = length info.candidates

  unfoldable pub min_candidates : DepsFrame S V R → ℕ
  unfolding peek
  min_candidates f = candidates_of (peek f.remaining_siblings)

  -- whether the first frame is the greater one
  unfoldable pub greater : DepsFrame S V R → DepsFrame S V R → Bool
  unfolding min_candidates
  greater f g =
      if f.just_for_error_messages
      then not g.just_for_error_messages || ltb (min_candidates f) (min_candidates g)
      else not g.just_for_error_messages && ltb (min_candidates f) (min_candidates g)

  abbrev pub greatest :
      DepsFrame S V R
      → List (DepsFrame S V R)
      → Option (DepsFrame S V R × List (DepsFrame S V R))
      → DepsFrame S V R × List (DepsFrame S V R)
  greatest f fs none = (f, [])
  greatest f fs (some (g, rest)) = if greater g f then (g, f ∷ rest) else (f, fs)

  -- `BinaryHeap::push`
  abbrev pub push : List (DepsFrame S V R) → DepsFrame S V R → List (DepsFrame S V R)
  push frames x = x ∷ frames

  -- `BinaryHeap::pop`
  unfoldable pub pop : List (DepsFrame S V R) → Option (DepsFrame S V R × List (DepsFrame S V R))
  unfolding greater
  pop [] = none
  pop (f ∷ fs) = some (greatest f fs (pop fs))

  unfoldable pub pop_loop : ℕ → List (DepsFrame S V R) → Result Never (Popped S V R)
  unfolding pop iter_next
  pop_loop zero frames = out_of_fuel
  pop_loop (suc n) frames = elim (pop frames) [
    | none ↦ ok (none, [])
    | some (f, rest) ↦
        let (next_sibling, it) = iter_next f.remaining_siblings in
        elim next_sibling [
          | none ↦ pop_loop n rest
          | some sibling ↦ ok (
            some (f.just_for_error_messages, f.parent, sibling),
            push rest (record f { remaining_siblings = it }),
          )
        ]
  ]

  -- Every round but the last takes a frame out.
  unfoldable pub pop_most_constrained : List (DepsFrame S V R) → Result Never (Popped S V R)
  unfolding pop_loop
  pop_most_constrained frames = pop_loop (suc (length frames)) frames

  -- a dependency that is still to be activated, with the package that has it
  unfoldable pub flatten : DepsFrame S V R → List (PackageId S V × Dependency S R)
  flatten f = map (λ info. (f.parent.package_id, info.dep)) (rest_of f.remaining_siblings)

  unfoldable pub iter : List (DepsFrame S V R) → List (PackageId S V × Dependency S R)
  unfolding flatten
  iter [] = []
  iter (f ∷ frames) = flatten f ++ iter frames
