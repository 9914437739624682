-- ===== src/LevDistance/Column.antt =====
-- The column of util/lev_distance.rs holds the distances from what was read of one text to the
-- beginnings of the other.
use toml.Prelude.{
  ℕ, zero, suc, ◌+◌, ◌-◌, ◌≤◌, Text, List, [], ◌∷◌, ◌++◌, length, get_elem?, list_eq, nat_eq, ok,
  ◌>>=◌, ◌≡◌, refl, sym, ap, ◌∙◌, subst, arith, append_assoc, append-nil, some,
}
use toml.LevDistance.{
  len, range, fill_cells, fill_columns, entry_at, or_panic, t_last, lev_distance,
}
use toml.LevDistance.Edits.{
  Edits, edit, edit-nil, edit_least, edit-Edits, reversed, Edits-reversed, length-reversed,
  reversed-reversed,
}

-- The distances from `p` to `q` followed by each further beginning of a text. Both are in reverse:
-- the character read last comes first.
abbrev column_rest : Text → Text → Text → List ℕ
column_rest p q [] = []
column_rest p q (c ∷ t) = edit p (c ∷ q) ∷ column_rest p (c ∷ q) t

fill_cells-column :
    (sc : ℕ) (p q t : Text) (extra : List ℕ)
    → fill_cells sc (edit (sc ∷ p) q) (edit p q) t (column_rest p q t ++ extra)
      ≡ ok (column_rest (sc ∷ p) q t ++ extra)
unfolding fill_cells edit
fill_cells-column sc p q [] extra = refl
fill_cells-column sc p q (c ∷ t) extra =
    ap (λ r. r >>= λ cells. ok (edit (sc ∷ p) (c ∷ q) ∷ cells))
      (fill_cells-column sc p (c ∷ q) t extra)

-- from a reversed text and what follows it
abbrev onto : Text → Text → Text
onto [] q = q
onto (c ∷ t) q = onto t (c ∷ q)

onto-reversed : (t q : Text) → onto t q ≡ reversed t ++ q
onto-reversed [] q = refl
onto-reversed (c ∷ t) q = onto-reversed t (c ∷ q) ∙ sym (append_assoc (reversed t) (c ∷ []) q)

fill_columns-column :
    (me p t : Text) (extra : List ℕ)
    → fill_columns t (length p) me (length p ∷ (column_rest p [] t ++ extra))
      ≡ ok (length (onto me p) ∷ (column_rest (onto me p) [] t ++ extra))
unfolding fill_columns edit
fill_columns-column [] p t extra = refl
fill_columns-column (sc ∷ me) p t extra =
    let one : length p + 1 ≡ suc (length p) = omega arith in
    let cells : fill_cells sc (suc (length p)) (length p) t (column_rest p [] t ++ extra)
        ≡ ok (column_rest (sc ∷ p) [] t ++ extra) =
      subst
        (λ n.
          fill_cells sc (suc (length p)) n t (column_rest p [] t ++ extra)
          ≡ ok (column_rest (sc ∷ p) [] t ++ extra))
        (edit-nil p) (fill_cells-column sc p [] t extra) in
    rw (one, cells) (fill_columns-column me (sc ∷ p) t extra)

get_elem?-column :
    (p q t : Text) (extra : List ℕ)
    → get_elem? (edit p q ∷ (column_rest p q t ++ extra)) (length t) ≡ some (edit p (onto t q))
get_elem?-column p q [] extra = refl
get_elem?-column p q (c ∷ t) extra = get_elem?-column p (c ∷ q) t extra

-- the first column, and the entries behind it that no character of the text belongs to
range-column :
    (q t : Text) (n : ℕ)
    → length t ≤ n
    → range (length q + 1) n ≡ column_rest [] q t ++ range (length q + 1 + length t) (n - length t)
unfolding edit
range-column q [] n enough =
    let start : length q + 1 + 0 ≡ length q + 1 = omega arith in
    let all_left : n - 0 ≡ n = omega arith in rw (start, all_left) refl
range-column q (c ∷ t) zero enough = absurd (omega (arith, enough))
range-column q (c ∷ t) (suc n) enough =
    let one : length q + 1 ≡ suc (length q) = omega arith in
    let later : length q + 1 + suc (length t) ≡ suc (length q) + 1 + length t = omega arith in
    let fewer : suc n - suc (length t) ≡ n - length t = omega arith in
    rw (later, fewer, one)
      (ap (λ r. suc (length q) ∷ r) (range-column (c ∷ q) t n (omega (arith, enough))))

length-len : (t : Text) → length t ≤ len t
length-len [] = omega arith
length-len (c ∷ t) = ground (arith, length-len t)

-- the characters of the text, with all entries of the column
filled :
    (me t : Text)
    → fill_columns t 0 me (range 0 (len t + 1))
      ≡ ok (
          length (reversed me)
          ∷ (column_rest (reversed me) [] t ++ range (1 + length t) (len t - length t)))
filled me t =
    let more : len t + 1 ≡ suc (len t) = omega arith in
    let none_read : onto me [] ≡ reversed me = onto-reversed me [] ∙ append-nil (reversed me) in
    rw (more, range-column [] t (len t) (length-len t))
      (subst
        (λ r.
          fill_columns t 0 me (0 ∷ (column_rest [] [] t ++ range (1 + length t) (len t - length t)))
          ≡ ok (length r ∷ (column_rest r [] t ++ range (1 + length t) (len t - length t))))
        none_read (fill_columns-column me [] t (range (1 + length t) (len t - length t))))

-- The entry that is returned.
at_last :
    (p t : Text) (extra : List ℕ)
    → suc (t_last t) ≡ length t
    → entry_at (length p ∷ (column_rest p [] t ++ extra)) (t_last t + 1) ≡ ok (edit p (reversed t))
at_last p t extra there =
    let index : t_last t + 1 ≡ length t = omega (arith, there) in
    let all_read : onto t [] ≡ reversed t = onto-reversed t [] ∙ append-nil (reversed t) in
    let found : get_elem? (length p ∷ (column_rest p [] t ++ extra)) (length t)
        ≡ some (edit p (reversed t)) =
      subst
        (λ n. get_elem? (n ∷ (column_rest p [] t ++ extra)) (length t) ≡ some (edit p (reversed t)))
        (edit-nil p) (get_elem?-column p [] t extra ∙ ap (λ r. some (edit p r)) all_read) in
    rw index (ap or_panic found)

lev_distance-edit : (me t : Text) → lev_distance me t ≡ ok (edit (reversed me) (reversed t))
unfolding lev_distance edit
lev_distance-edit [] t = ap (λ n. ok n) (sym (length-reversed t))
lev_distance-edit (c ∷ me) [] =
    ap (λ n. ok n) (sym (edit-nil (reversed (c ∷ me)) ∙ length-reversed (c ∷ me)))
lev_distance-edit (c ∷ me) (d ∷ t) = rw (filled (c ∷ me) (d ∷ t)) (
    at_last (reversed (c ∷ me)) (d ∷ t) (range (1 + length (d ∷ t)) (len (d ∷ t) - length (d ∷ t)))
      (omega arith))

-- `lev_distance` returns, and what it returns is the least number of edits, each of which puts in,
-- takes out or changes one character, that turn one text into the other. No index is out of range,
-- also where characters take several bytes.
pub lev_distance_least :
    (me t : Text)
    → (d : ℕ) × (lev_distance me t ≡ ok d) × Edits d me t × ((n : ℕ) → Edits n me t → d ≤ n)
lev_distance_least me t = (
  edit (reversed me) (reversed t),
  lev_distance-edit me t,
  subst (λ x. Edits (edit (reversed me) (reversed t)) x t) (reversed-reversed me)
      (subst (λ y. Edits (edit (reversed me) (reversed t)) (reversed (reversed me)) y)
        (reversed-reversed t) (Edits-reversed (edit-Edits (reversed me) (reversed t)))),
  λ n e. edit_least (Edits-reversed e),
)
