-- ===== src/Resolver/Queue/Constrained.antt =====
-- Which dependency `pop_most_constrained` of core/resolver/types.rs takes.
use toml.Prelude.{
  ℕ, zero, suc, ◌<◌, Bool, true, false, not, ◌&&◌, ◌||◌, ◌≡◌, refl, Option, none, some, List, [],
  ◌∷◌, length, all, all_mono, ltb, leb, is_some, ok, if◌then◌else◌, arith, Bool-cases, Option-cases,
  inl, inr, subst, sym, ◌∙◌,
}
use toml.Resolver.Queue.{
  RcVecIter, DepsFrame, peek, iter_next, min_candidates, greater, pop, greatest, Popped, pop_loop,
  pop_most_constrained,
}

pub iter_next-peek : {A : Type 0} (it : RcVecIter A) → (iter_next it).0 ≡ peek it
unfolding iter_next peek
iter_next-peek it = elim (Bool-cases (ltb it.from it.to)) [ inl e ↦ rw e refl | inr e ↦ rw e refl ]

module _ {S V R : Type 0} where
  -- no dependency of the frame is left
  abbrev pub exhausted : DepsFrame S V R → Bool
  exhausted f = not (is_some (peek f.remaining_siblings))

  -- whether the first frame may be taken before the second: one for error messages alone comes
  -- before one that is not, and among frames alike in that the fewest candidates come first
  abbrev pub preferred : DepsFrame S V R → DepsFrame S V R → Bool
  preferred f g =
      if f.just_for_error_messages
      then not g.just_for_error_messages || leb (min_candidates f) (min_candidates g)
      else not g.just_for_error_messages && leb (min_candidates f) (min_candidates g)

  preferred-greater : (f g : DepsFrame S V R) → not (greater g f) ≡ true → preferred f g ≡ true
  unfolding greater
  preferred-greater f g h = ground arith

  -- a frame with the rest of the heap, as it comes out of the heap
  abbrev pub Split : List (DepsFrame S V R) → DepsFrame S V R → List (DepsFrame S V R) → Type 0
  Split frames f rest =
      (all (λ g. not (greater g f)) frames ≡ true)
      × (length frames ≡ suc (length rest))
      × ((p : DepsFrame S V R → Bool) → all p frames ≡ (p f && all p rest))

  greater-irreflexive : (f : DepsFrame S V R) → greater f f ≡ false
  unfolding greater
  greater-irreflexive f = ground arith

  greater_trans :
      (f g h : DepsFrame S V R) → greater g f ≡ false → greater h g ≡ false → greater h f ≡ false
  unfolding greater
  greater_trans f g h gf hg = ground arith

  greater_asym : (f g : DepsFrame S V R) → greater g f ≡ true → greater f g ≡ false
  unfolding greater
  greater_asym f g gf = ground arith

  pub pop-none : (frames : List (DepsFrame S V R)) → pop frames ≡ none → frames ≡ []
  unfolding pop
  pop-none [] h = refl
  pop-none (x ∷ xs) h = absurd cc

  greatest-Split :
      (x : DepsFrame S V R) (xs : List (DepsFrame S V R))
      (o : Option (DepsFrame S V R × List (DepsFrame S V R)))
      → (o ≡ none → xs ≡ [])
      → ((g : DepsFrame S V R) (others : List (DepsFrame S V R))
          → o ≡ some (g, others)
          → Split xs g others)
      → Split (x ∷ xs) (greatest x xs o).0 (greatest x xs o).1
  greatest-Split x xs none empty split =
      rw (empty refl) (ground (arith, greater-irreflexive x), refl, λ p. refl)
  greatest-Split x xs (some (g, others)) empty split =
      let (below, size, same) = split g others refl in
      elim (Bool-cases (greater g x)) [
        | inl more ↦
            let chosen : (g, x ∷ others) ≡ greatest x xs (some (g, others)) = rw more refl in
            let split' : Split (x ∷ xs) g (x ∷ others) = (
              ground (arith, greater_asym x g more, below),
              omega (arith, size),
              λ p. ground (arith, same p),
            ) in
            subst (λ r. Split (x ∷ xs) r.0 r.1) chosen split'
        | inr less ↦
            let all_below =
              all_mono (λ h. not (greater h g)) (λ h. not (greater h x)) xs
                (λ h hg. ground (arith, greater_trans x g h less, hg)) below in
            let chosen : (x, xs) ≡ greatest x xs (some (g, others)) = rw less refl in
            let split' : Split (x ∷ xs) x xs =
              (ground (arith, greater-irreflexive x, all_below), refl, λ p. refl) in
            subst (λ r. Split (x ∷ xs) r.0 r.1) chosen split'
      ]

  pub pop-Split :
      (frames : List (DepsFrame S V R)) (f : DepsFrame S V R) (rest : List (DepsFrame S V R))
      → pop frames ≡ some (f, rest)
      → Split frames f rest
  unfolding pop
  pop-Split [] f rest h = absurd cc
  pop-Split (x ∷ xs) f rest h =
      let split = greatest-Split x xs (pop xs) (pop-none xs) (λ g others. pop-Split xs g others) in
      let same : greatest x xs (pop xs) ≡ (f, rest) = ground (arith, h) in
      subst (λ r. Split (x ∷ xs) r.0 r.1) same split

  -- What was taken: nothing when every frame is exhausted, and otherwise the next dependency of one
  -- of the frames, which is preferred to every frame that is not exhausted.
  abbrev pub Takes : List (DepsFrame S V R) → Popped S V R → Type 0
  Takes frames (none, rest) = all exhausted frames ≡ true
  Takes frames (some (just, parent, sibling), rest) =
      (f : DepsFrame S V R) × ((p : DepsFrame S V R → Bool) → all p frames ≡ true → p f ≡ true)
      × (peek f.remaining_siblings ≡ some sibling)
      × (just ≡ f.just_for_error_messages)
      × (parent ≡ f.parent)
      × (all (λ g. exhausted g || preferred f g) frames ≡ true)

  -- An exhausted frame in front changes nothing.
  Takes-exhausted :
      (frames rest : List (DepsFrame S V R)) (f : DepsFrame S V R) (popped : Popped S V R)
      → Split frames f rest
      → exhausted f ≡ true
      → Takes rest popped
      → Takes frames popped
  Takes-exhausted frames rest f (none, left) (below, size, same) over takes =
      ground (arith, same exhausted, over, takes)
  Takes-exhausted frames rest f (some (just, parent, sibling), left) (below, size, same) over
        (g, mem, at, j, p, least) =
      (
        g,
        λ q h. mem q (ground (arith, same q, h)),
        at,
        j,
        p,
        ground (arith, same (λ x. exhausted x || preferred g x), over, least),
      )

  pop_loop-Takes :
      (n : ℕ) (frames : List (DepsFrame S V R))
      → length frames < n
      → (popped : Popped S V R) × (pop_loop n frames ≡ ok popped) × Takes frames popped
  unfolding pop_loop
  pop_loop-Takes zero frames few = absurd (omega (arith, few))
  pop_loop-Takes (suc n) frames few = elim (Option-cases (pop frames)) [
    | inl empty ↦ ((none, []), rw (pop_loop, empty) refl, rw (pop-none frames empty) refl)
    | inr ((f, rest), popped) ↦
        let split = pop-Split frames f rest popped in
        elim (Option-cases (iter_next f.remaining_siblings).0) [
          | inl over ↦
              let (result, runs, takes) = pop_loop-Takes n rest (omega (arith, few, split.1)) in
              let over' : exhausted f ≡ true =
                ground (arith, over, iter_next-peek f.remaining_siblings) in
              let step : pop_loop (suc n) frames ≡ pop_loop n rest =
                rw (pop_loop, popped, over) refl in
              (result, step ∙ runs, Takes-exhausted frames rest f result split over' takes)
          | inr (sibling, there) ↦ (
            (
              some (f.just_for_error_messages, f.parent, sibling),
              record f { remaining_siblings = (iter_next f.remaining_siblings).1 } ∷ rest,
            ),
            rw (pop_loop, popped, there) refl,
            (
              f,
              λ q h. ground (arith, split.2 q, h),
              sym (iter_next-peek f.remaining_siblings) ∙ there,
              refl,
              refl,
              all_mono (λ g. not (greater g f)) (λ g. exhausted g || preferred f g) frames
                  (λ g h. ground (arith, preferred-greater f g h)) split.0,
            ),
          )
        ]
  ]

  -- `pop_most_constrained` ends. When every frame is exhausted it takes nothing. Otherwise it takes
  -- the next dependency of one of the frames, and that frame is preferred to every frame that is not
  -- exhausted: a frame for error messages alone to one that is not, and among frames alike in that
  -- the one whose next dependency has fewer candidates, or as few.
  pub pop_most_constrained-Takes :
      (frames : List (DepsFrame S V R))
      → (popped : Popped S V R) × (pop_most_constrained frames ≡ ok popped) × Takes frames popped
  unfolding pop_most_constrained
  pop_most_constrained-Takes frames = pop_loop-Takes (suc (length frames)) frames (omega arith)
