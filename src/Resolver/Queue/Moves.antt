-- ===== src/Resolver/Queue/Moves.antt =====
-- How `pop_most_constrained` of core/resolver/types.rs changes the heap.
use toml.Prelude.{
  ℕ, zero, suc, ◌+◌, ◌-◌, Bool, true, false, not, ◌||◌, ◌≡◌, refl, Option, none, some, List, [],
  ◌∷◌, map, length, all, all_mono, any, any-append, get_elem?, all-get_elem?, ltb, take,
  take-length, drop, ok, ok-injective, arith, Bool-cases, Option-cases, inl, inr, subst, sym, ap,
  ◌∙◌,
}
use toml.Core.PackageId.{PackageId}
use toml.Core.Dependency.{Dependency}
use toml.Core.Summary.{Summary}
use toml.Resolver.Queue
use toml.Resolver.Queue.{
  RcVecIter, DepInfo, DepsFrame, at_index, peek, iter_next, rest_of, pop, push, pop_loop, Popped,
  pop_most_constrained, flatten, iter,
}
use toml.Resolver.Queue.Constrained.{
  exhausted, Takes, pop_most_constrained-Takes, pop-Split, iter_next-peek,
}

module _ {A : Type 0} where
  drop-get_elem? :
      (xs : List A) (n : ℕ) (a : A) → get_elem? xs n ≡ some a → drop n xs ≡ a ∷ drop (n + 1) xs
  drop-get_elem? [] n a h = absurd cc
  drop-get_elem? (x ∷ xs) zero a h = let same : x ≡ a = cc in ap (λ t. t ∷ xs) same
  drop-get_elem? (x ∷ xs) (suc n) a h =
      let later : suc n + 1 ≡ suc (n + 1) = omega arith in rw later (drop-get_elem? xs n a h)

  drop-get_elem?-none : (xs : List A) (n : ℕ) → get_elem? xs n ≡ none → drop n xs ≡ []
  drop-get_elem?-none [] zero h = refl
  drop-get_elem?-none [] (suc n) h = refl
  drop-get_elem?-none (x ∷ xs) zero h = absurd cc
  drop-get_elem?-none (x ∷ xs) (suc n) h = drop-get_elem?-none xs n h

  take-nil : (n : ℕ) → ◌≡◌ {A = List A} (take n []) []
  take-nil zero = refl
  take-nil (suc n) = refl

  at_index-some : (i : ℕ) (o : Option A) (j : ℕ) (a : A) → at_index i o ≡ some (j, a) → o ≡ some a
  at_index-some i none j a h = absurd cc
  at_index-some i (some b) j a h = cc

  at_index-none : (i : ℕ) (o : Option A) → at_index i o ≡ none → o ≡ none
  at_index-none i none h = refl
  at_index-none i (some b) h = absurd cc

  pub rest_of-new : (xs : List A) → rest_of (Queue.new xs) ≡ xs
  rest_of-new xs = let whole : length xs - 0 ≡ length xs = omega arith in rw whole (take-length xs)

  -- what is left of an iterator that gives an element
  pub rest_of-iter_next :
      (it : RcVecIter A) (i : ℕ) (a : A)
      → (iter_next it).0 ≡ some (i, a)
      → rest_of it ≡ a ∷ rest_of (iter_next it).1
  unfolding iter_next
  rest_of-iter_next it i a h = elim (Bool-cases (ltb it.from it.to)) [
    | inr over ↦ absurd (ground (arith, over, h))
    | inl more ↦
        let here = at_index-some it.from (get_elem? it.vec it.from) i a (rw more at h) in
        let one_less : it.to - it.from ≡ suc (it.to - (it.from + 1)) = ground (arith, more) in
        rw (more, one_less, drop-get_elem? it.vec it.from a here) refl
  ]

  pub iter_next-all :
      (p : A → Bool) (it : RcVecIter A) (i : ℕ) (a : A)
      → all p it.vec ≡ true
      → (iter_next it).0 ≡ some (i, a)
      → p a ≡ true
  unfolding iter_next
  iter_next-all p it i a good h = elim (Bool-cases (ltb it.from it.to)) [
    | inr over ↦ absurd (ground (arith, over, h))
    | inl more ↦
        all-get_elem? p it.vec it.from good
          (at_index-some it.from (get_elem? it.vec it.from) i a (rw more at h))
  ]

  pub iter_next-vec : (it : RcVecIter A) → (iter_next it).1.vec ≡ it.vec
  unfolding iter_next
  iter_next-vec it = elim (Bool-cases (ltb it.from it.to)) [
    | inr over ↦ rw over refl
    | inl more ↦ rw more refl
  ]

  -- and of one that does not
  pub rest_of-peek : (it : RcVecIter A) → peek it ≡ none → rest_of it ≡ []
  unfolding peek
  rest_of-peek it h = elim (Bool-cases (ltb it.from it.to)) [
    | inr over ↦ let nothing : it.to - it.from ≡ 0 = ground (arith, over) in rw nothing refl
    | inl more ↦
        let gone = at_index-none it.from (get_elem? it.vec it.from) (rw more at h) in
        rw (drop-get_elem?-none it.vec it.from gone) (take-nil (it.to - it.from))
  ]

module _ {S V R : Type 0} where
  abbrev pub advance : DepsFrame S V R → DepsFrame S V R
  advance f = record f { remaining_siblings = (iter_next f.remaining_siblings).1 }

  -- The frame that the dependency comes from, the others that stay, and the heap that is left. Any
  -- test that all frames pass is passed by these; and the frames that are gone are exhausted.
  abbrev pub Taken :
      List (DepsFrame S V R) → Summary S V R → ℕ × DepInfo S V R → List (DepsFrame S V R) → Type 0
  Taken frames parent sibling rest =
      (f : DepsFrame S V R) × (others : List (DepsFrame S V R)) × (rest ≡ advance f ∷ others)
      × (parent ≡ f.parent)
      × ((iter_next f.remaining_siblings).0 ≡ some sibling)
      × ((p : DepsFrame S V R → Bool) → all p frames ≡ true → all p (f ∷ others) ≡ true)
      × ((p : DepsFrame S V R → Bool)
          → ((g : DepsFrame S V R) → exhausted g ≡ true → p g ≡ true)
          → all p (f ∷ others) ≡ true
          → all p frames ≡ true)

  pop_loop-Taken :
      (n : ℕ) (frames : List (DepsFrame S V R)) (just : Bool) (parent : Summary S V R)
      (sibling : ℕ × DepInfo S V R) (rest : List (DepsFrame S V R))
      → pop_loop n frames ≡ ok (some (just, parent, sibling), rest)
      → Taken frames parent sibling rest
  unfolding pop_loop
  pop_loop-Taken zero frames just parent sibling rest h = absurd cc
  pop_loop-Taken (suc n) frames just parent sibling rest h = elim (Option-cases (pop frames)) [
    | inl empty ↦ absurd (ground (arith, rw (pop_loop, empty) at h))
    | inr ((f, others), popped) ↦
        let (below, size, same) = pop-Split frames f others popped in
        elim (Option-cases (iter_next f.remaining_siblings).0) [
          | inl over ↦
              let (g, left, at, parent', there, forth, back) =
                pop_loop-Taken n others just parent sibling rest
                  (rw (pop_loop, popped, over) at h) in
              let over' : exhausted f ≡ true =
                ground (arith, over, iter_next-peek f.remaining_siblings) in
              (
                g,
                left,
                at,
                parent',
                there,
                λ p hp. forth p (ground (arith, same p, hp)),
                λ p gone hp. ground (arith, same p, gone f over', back p gone hp),
              )
          | inr (s, there) ↦
              let result = ok-injective (rw (pop_loop, popped, there) at h) in
              let heap : advance f ∷ others ≡ rest = ap (λ (_, r). r) result in
              let given : ◌≡◌ {A = Option (Bool × Summary S V R × (ℕ × DepInfo S V R))}
                  (some (f.just_for_error_messages, f.parent, s)) (some (just, parent, sibling)) =
                ap (λ (o, _). o) result in
              let parents : f.parent ≡ parent = cc in
              let siblings : s ≡ sibling = cc in
              (
                f,
                others,
                sym heap,
                sym parents,
                there ∙ ap (λ t. some t) siblings,
                λ p hp. ground (arith, same p, hp),
                λ p gone hp. ground (arith, same p, hp),
              )
        ]
  ]

  abbrev unlisted : (PackageId S V × Dependency S R → Bool) → DepsFrame S V R → Bool
  unlisted q f = not (any q (flatten f))

  any-iter :
      (q : PackageId S V × Dependency S R → Bool) (frames : List (DepsFrame S V R))
      → any q (iter frames) ≡ not (all (unlisted q) frames)
  unfolding iter
  any-iter q [] = refl
  any-iter q (f ∷ frames) =
      ground (arith, any-append q (flatten f) (iter frames), any-iter q frames)

  exhausted-unlisted :
      (q : PackageId S V × Dependency S R → Bool) (f : DepsFrame S V R)
      → exhausted f ≡ true
      → unlisted q f ≡ true
  unfolding flatten
  exhausted-unlisted q f over = elim (Option-cases (peek f.remaining_siblings)) [
    | inr (s, there) ↦ absurd (ground (arith, there, over))
    | inl nothing ↦ rw (flatten, rest_of-peek f.remaining_siblings nothing) refl
  ]

  flatten-advance :
      (f : DepsFrame S V R) (i : ℕ) (info : DepInfo S V R)
      → (iter_next f.remaining_siblings).0 ≡ some (i, info)
      → flatten f ≡ (f.parent.package_id, info.dep) ∷ flatten (advance f)
  unfolding flatten
  flatten-advance f i info there =
      ap (map (λ info. (f.parent.package_id, info.dep)))
        (rest_of-iter_next f.remaining_siblings i info there)

  -- What `iter` gives after `pop_most_constrained` has taken a dependency is what it gave before but
  -- for that dependency.
  pub iter-Taken :
      (q : PackageId S V × Dependency S R → Bool) (frames rest : List (DepsFrame S V R))
      (parent : Summary S V R) (i : ℕ) (info : DepInfo S V R)
      → Taken frames parent (i, info) rest
      → any q (iter frames) ≡ (q (parent.package_id, info.dep) || any q (iter rest))
  iter-Taken q frames rest parent i info (f, others, left, same, there, forth, back) =
      let first = ap (any q) (flatten-advance f i info there) in
      rw (left, same)
        (ground (
          arith,
          any-iter q frames,
          any-iter q (advance f ∷ others),
          forth (unlisted q),
          back (unlisted q) (exhausted-unlisted q),
          first,
        ))

  -- A test that the moves of an iterator do not matter to, and that all frames pass, is passed by
  -- the frames that are left.
  pub all-Taken :
      (p : DepsFrame S V R → Bool) (frames rest : List (DepsFrame S V R)) (parent : Summary S V R)
      (sibling : ℕ × DepInfo S V R)
      → ((f : DepsFrame S V R) → p (advance f) ≡ p f)
      → Taken frames parent sibling rest
      → all p frames ≡ true
      → all p rest ≡ true
  all-Taken p frames rest parent sibling steady (f, others, left, same, there, forth, back) h =
      rw left (ground (arith, steady f, forth p h))

  -- A heap from which nothing is taken lists nothing.
  pub iter-none :
      (q : PackageId S V × Dependency S R → Bool) (frames rest : List (DepsFrame S V R))
      → pop_most_constrained frames ≡ ok (none, rest)
      → any q (iter frames) ≡ false
  iter-none q frames rest h =
      let (popped, runs, takes) = pop_most_constrained-Takes frames in
      let same : popped ≡ (none, rest) = ok-injective (sym runs ∙ h) in
      let over : all exhausted frames ≡ true = subst (Takes frames) same takes in
      ground (
        arith,
        any-iter q frames,
        all_mono exhausted (unlisted q) frames (exhausted-unlisted q) over,
      )

  pub pop_most_constrained-Taken :
      (frames rest : List (DepsFrame S V R)) (just : Bool) (parent : Summary S V R)
      (sibling : ℕ × DepInfo S V R)
      → pop_most_constrained frames ≡ ok (some (just, parent, sibling), rest)
      → Taken frames parent sibling rest
  unfolding pop_most_constrained
  pop_most_constrained-Taken frames rest just parent sibling h =
      pop_loop-Taken (suc (length frames)) frames just parent sibling rest h
