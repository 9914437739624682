-- ===== src/LevDistance/Edits.antt =====
-- What util/lev_distance.rs is to compute: the least number of edits that turn one text into another.
use toml.Prelude.{
  ℕ, suc, ◌+◌, ◌≤◌, min, Text, [], ◌∷◌, ◌++◌, length, length-append, ◌==◌, nat_eq, eqb_iff, ◌≡◌,
  refl, ap, ◌∙◌, subst, arith, Bool-cases, inl, inr, ◌⊎◌, leb, if◌then◌else◌,
}

-- a way to turn one text into another, with the number of its edits
pub data Edits : ℕ → Text → Text → Type 0 where
  nothing : Edits 0 [] []
  same : {n : ℕ} {a b : Text} (c : ℕ) → Edits n a b → Edits n (c ∷ a) (c ∷ b)
  substitute : {n : ℕ} {a b : Text} (c d : ℕ) → Edits n a b → Edits (suc n) (c ∷ a) (d ∷ b)
  delete : {n : ℕ} {a b : Text} (c : ℕ) → Edits n a b → Edits (suc n) (c ∷ a) b
  insert : {n : ℕ} {a b : Text} (d : ℕ) → Edits n a b → Edits (suc n) a (d ∷ b)

-- the recursion that the columns follow
unfoldable pub edit : Text → Text → ℕ
edit [] b = length b
edit (c ∷ a) [] = suc (length a)
edit (c ∷ a) (d ∷ b) =
    let diagonal = edit a b in
    let above = edit a (d ∷ b) in
    let left = edit (c ∷ a) b in if c == d then diagonal else min (min diagonal above) left + 1

pub edit-nil : (a : Text) → edit a [] ≡ length a
unfolding edit
edit-nil [] = refl
edit-nil (c ∷ a) = refl

-- at most one apart
abbrev Near : ℕ → ℕ → Type 0
Near m n = (m ≤ suc n) × (n ≤ suc m)

-- Near neighbours make near neighbours.
edit-Near_step :
    (c d : ℕ) (a b : Text)
    → Near (edit (c ∷ a) b) (edit a b)
    → Near (edit a (d ∷ b)) (edit a b)
    → Near (edit (c ∷ a) (d ∷ b)) (edit a (d ∷ b)) × Near (edit (c ∷ a) (d ∷ b)) (edit (c ∷ a) b)
unfolding edit
edit-Near_step c d a b l r = elim (Bool-cases (c == d)) [
  | inl equal ↦
      rw (edit, equal) ((omega (arith, r), omega (arith, r)), (omega (arith, l), omega (arith, l)))
  | inr differ ↦
      rw (edit, differ)
        ((omega (arith, r, l), omega (arith, r, l)), (omega (arith, r, l), omega (arith, r, l)))
]

-- One character more changes the distance by one at most.
edit-Near :
    (a b : Text)
    → ((c : ℕ) → Near (edit (c ∷ a) b) (edit a b)) × ((d : ℕ) → Near (edit a (d ∷ b)) (edit a b))
unfolding edit
edit-Near [] [] = (λ c. (omega arith, omega arith), λ d. (omega arith, omega arith))
edit-Near [] (e ∷ b) =
    let (l, r) = edit-Near [] b in
    (λ c. (edit-Near_step c e [] b (l c) (r e)).0, λ d. (omega arith, omega arith))
edit-Near (e ∷ a) [] =
    let (l, r) = edit-Near a [] in
    (λ c. (omega arith, omega arith), λ d. (edit-Near_step e d a [] (l e) (r d)).1)
edit-Near (e ∷ a) (f ∷ b) =
    let (l, r) = edit-Near (e ∷ a) b in
    let (l', r') = edit-Near a (f ∷ b) in
    (
      λ c. (edit-Near_step c f (e ∷ a) b (l c) (r f)).0,
      λ d. (edit-Near_step e d a (f ∷ b) (l' e) (r' d)).1,
    )

edit-diagonal_bound :
    (c d : ℕ) (a b : Text)
    → (edit (c ∷ a) (d ∷ b) ≤ suc (edit a b)) × (c ≡ d → edit (c ∷ a) (d ∷ b) ≡ edit a b)
unfolding edit
edit-diagonal_bound c d a b = elim (Bool-cases (c == d)) [
  | inl equal ↦ rw (edit, equal) (omega arith, λ h. refl)
  | inr differ ↦ (rw (edit, differ) (omega arith), λ h. absurd (ground (arith, differ, h)))
]

-- No way to turn one text into the other has fewer edits.
pub edit_least : {n : ℕ} {a b : Text} → Edits n a b → edit a b ≤ n
unfolding edit
edit_least nothing = omega arith
edit_least (same {n} {a} {b} c e) =
    omega (arith, (edit-diagonal_bound c c a b).1 refl, edit_least e)
edit_least (substitute {n} {a} {b} c d e) =
    omega (arith, (edit-diagonal_bound c d a b).0, edit_least e)
edit_least (delete {n} {a} {b} c e) = omega (arith, (edit-Near a b).0 c, edit_least e)
edit_least (insert {n} {a} {b} d e) = omega (arith, (edit-Near a b).1 d, edit_least e)

min-cases : (x y : ℕ) → (min x y ≡ x) ⊎ (min x y ≡ y)
min-cases x y = elim (Bool-cases (leb x y)) [
  | inl less ↦ inl (ground (arith, less))
  | inr more ↦ inr (ground (arith, more))
]

one_more :
    {x y z : ℕ} (c d : ℕ) (a b : Text)
    → Edits x a b
    → Edits y a (d ∷ b)
    → Edits z (c ∷ a) b
    → Edits (min (min x y) z + 1) (c ∷ a) (d ∷ b)
one_more {x} {y} {z} c d a b diagonal above left = elim (min-cases (min x y) z) [
  | inr last ↦ let n : min (min x y) z + 1 ≡ suc z = omega (arith, last) in rw n (insert d left)
  | inl first ↦ elim (min-cases x y) [
    | inl by_x ↦
        let n : min (min x y) z + 1 ≡ suc x = omega (arith, first, by_x) in
        rw n (substitute c d diagonal)
    | inr by_y ↦
        let n : min (min x y) z + 1 ≡ suc y = omega (arith, first, by_y) in rw n (delete c above)
  ]
]

-- There is one that has as many.
pub edit-Edits : (a b : Text) → Edits (edit a b) a b
unfolding edit
edit-Edits [] [] = nothing
edit-Edits [] (d ∷ b) = insert d (edit-Edits [] b)
edit-Edits (c ∷ a) [] = delete c (subst (λ n. Edits n a []) (edit-nil a) (edit-Edits a []))
edit-Edits (c ∷ a) (d ∷ b) =
    let diagonal = edit-Edits a b in
    let above = edit-Edits a (d ∷ b) in
    let left = edit-Edits (c ∷ a) b in
    elim (Bool-cases (c == d)) [
      | inl equal ↦
          let here = (eqb_iff c d).0 equal in
          rw (edit, equal) (subst (λ t. Edits (edit a b) (c ∷ a) (t ∷ b)) here (same c diagonal))
      | inr differ ↦ rw (edit, differ) (one_more c d a b diagonal above left)
    ]

-- Edits at the other end.
Edits-snoc_same : {n : ℕ} {a b : Text} (c : ℕ) → Edits n a b → Edits n (a ++ c ∷ []) (b ++ c ∷ [])
Edits-snoc_same c nothing = same c nothing
Edits-snoc_same c (same d e) = same d (Edits-snoc_same c e)
Edits-snoc_same c (substitute d f e) = substitute d f (Edits-snoc_same c e)
Edits-snoc_same c (delete d e) = delete d (Edits-snoc_same c e)
Edits-snoc_same c (insert d e) = insert d (Edits-snoc_same c e)

Edits-snoc_substitute :
    {n : ℕ} {a b : Text} (c d : ℕ) → Edits n a b → Edits (suc n) (a ++ c ∷ []) (b ++ d ∷ [])
Edits-snoc_substitute c d nothing = substitute c d nothing
Edits-snoc_substitute c d (same x e) = same x (Edits-snoc_substitute c d e)
Edits-snoc_substitute c d (substitute x y e) = substitute x y (Edits-snoc_substitute c d e)
Edits-snoc_substitute c d (delete x e) = delete x (Edits-snoc_substitute c d e)
Edits-snoc_substitute c d (insert x e) = insert x (Edits-snoc_substitute c d e)

Edits-snoc_delete : {n : ℕ} {a b : Text} (c : ℕ) → Edits n a b → Edits (suc n) (a ++ c ∷ []) b
Edits-snoc_delete c nothing = delete c nothing
Edits-snoc_delete c (same x e) = same x (Edits-snoc_delete c e)
Edits-snoc_delete c (substitute x y e) = substitute x y (Edits-snoc_delete c e)
Edits-snoc_delete c (delete x e) = delete x (Edits-snoc_delete c e)
Edits-snoc_delete c (insert x e) = insert x (Edits-snoc_delete c e)

Edits-snoc_insert : {n : ℕ} {a b : Text} (c : ℕ) → Edits n a b → Edits (suc n) a (b ++ c ∷ [])
Edits-snoc_insert c nothing = insert c nothing
Edits-snoc_insert c (same x e) = same x (Edits-snoc_insert c e)
Edits-snoc_insert c (substitute x y e) = substitute x y (Edits-snoc_insert c e)
Edits-snoc_insert c (delete x e) = delete x (Edits-snoc_insert c e)
Edits-snoc_insert c (insert x e) = insert x (Edits-snoc_insert c e)

abbrev pub reversed : Text → Text
reversed [] = []
reversed (c ∷ a) = reversed a ++ c ∷ []

-- Reversed texts are as far apart.
pub Edits-reversed : {n : ℕ} {a b : Text} → Edits n a b → Edits n (reversed a) (reversed b)
Edits-reversed nothing = nothing
Edits-reversed (same c e) = Edits-snoc_same c (Edits-reversed e)
Edits-reversed (substitute c d e) = Edits-snoc_substitute c d (Edits-reversed e)
Edits-reversed (delete c e) = Edits-snoc_delete c (Edits-reversed e)
Edits-reversed (insert d e) = Edits-snoc_insert d (Edits-reversed e)

pub length-reversed : (a : Text) → length (reversed a) ≡ length a
length-reversed [] = refl
length-reversed (c ∷ a) = omega (arith, length-append (reversed a) (c ∷ []), length-reversed a)

reversed-snoc : (a : Text) (c : ℕ) → reversed (a ++ c ∷ []) ≡ c ∷ reversed a
reversed-snoc [] c = refl
reversed-snoc (d ∷ a) c = ap (λ t. t ++ d ∷ []) (reversed-snoc a c)

pub reversed-reversed : (a : Text) → reversed (reversed a) ≡ a
reversed-reversed [] = refl
reversed-reversed (c ∷ a) = reversed-snoc (reversed a) c ∙ ap (λ t. c ∷ t) (reversed-reversed a)
