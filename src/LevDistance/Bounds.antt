-- ===== src/LevDistance/Bounds.antt =====
-- util/lev_distance.rs: how large the distance can be.
use toml.Prelude.{
  ℕ, suc, ◌+◌, ◌≤◌, max, Text, [], ◌∷◌, length, ok, ◌≡◌, ◌↔◌, refl, ap, subst, arith,
}
use toml.LevDistance.{lev_distance}
use toml.LevDistance.Edits.{Edits, nothing, same, substitute, delete, insert}
use toml.LevDistance.Column.{lev_distance_least}

length-Edits :
    {n : ℕ} {a b : Text} → Edits n a b → (length a ≤ length b + n) × (length b ≤ length a + n)
length-Edits nothing = (omega arith, omega arith)
length-Edits (same {n} {a} {b} c e) =
    let (l, r) = length-Edits e in (omega (arith, l), omega (arith, r))
length-Edits (substitute {n} {a} {b} c d e) =
    let (l, r) = length-Edits e in (omega (arith, l), omega (arith, r))
length-Edits (delete {n} {a} {b} c e) =
    let (l, r) = length-Edits e in (omega (arith, l), omega (arith, r))
length-Edits (insert {n} {a} {b} d e) =
    let (l, r) = length-Edits e in (omega (arith, l), omega (arith, r))

no_more : (a b : Text) → (n : ℕ) × Edits n a b × (n ≤ max (length a) (length b))
no_more [] [] = (0, nothing, omega arith)
no_more [] (d ∷ b) = let (n, e, few) = no_more [] b in (suc n, insert d e, omega (arith, few))
no_more (c ∷ a) [] = let (n, e, few) = no_more a [] in (suc n, delete c e, omega (arith, few))
no_more (c ∷ a) (d ∷ b) =
    let (n, e, few) = no_more a b in (suc n, substitute c d e, omega (arith, few))

no_edits : {n : ℕ} {a b : Text} → Edits n a b → n ≡ 0 → a ≡ b
no_edits nothing none = refl
no_edits (same c e) none = ap (λ t. c ∷ t) (no_edits e none)
no_edits (substitute c d e) none = absurd (omega (arith, none))
no_edits (delete c e) none = absurd (omega (arith, none))
no_edits (insert d e) none = absurd (omega (arith, none))

unchanged : (a : Text) → Edits 0 a a
unchanged [] = nothing
unchanged (c ∷ a) = same c (unchanged a)

-- `lev_distance` returns a number that is at least the difference of the lengths, counted in
-- characters, and at most the longer of them; and it is 0 just when the texts are the same.
pub lev_distance_bounds :
    (me t : Text)
    → (d : ℕ) × (lev_distance me t ≡ ok d)
      × (length me ≤ length t + d)
      × (length t ≤ length me + d)
      × (d ≤ max (length me) (length t))
      × ((d ≡ 0) ↔ (me ≡ t))
lev_distance_bounds me t =
    let (d, returned, edits, least) = lev_distance_least me t in
    let (shorter, longer) = length-Edits edits in
    let (n, e, few) = no_more me t in
    (
      d,
      returned,
      shorter,
      longer,
      omega (arith, least n e, few),
      (
        no_edits edits,
        λ equal. omega (arith, least 0 (subst (λ t. Edits 0 me t) equal (unchanged me))),
      ),
    )
