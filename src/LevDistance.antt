-- ===== src/LevDistance.antt =====
-- util/lev_distance.rs: the spelling distance of two strings. The column `dcol` is walked along with
-- the characters of `t`, so that an index past its end is a list that has run out.
pub mod Edits
pub mod Column
pub mod Bounds
mod Examples
use toml.Prelude.{
  ℕ, zero, suc, ◌+◌, ◌-◌, min, Text, Bool, Option, none, some, List, [], ◌∷◌, length, get_elem?,
  ltb, Eq, ◌==◌, nat_eq, list_eq, Result, Never, ok, panic, ◌>>=◌, if◌then◌else◌,
}

-- `char::len_utf8` and `str::len`
abbrev pub len_utf8 : ℕ → ℕ
len_utf8 c = if ltb c 128 then 1 else if ltb c 2048 then 2 else if ltb c 65536 then 3 else 4

abbrev pub len : Text → ℕ
len [] = 0
len (c ∷ cs) = len_utf8 c + len cs

-- `from..from + n`
abbrev pub range : ℕ → ℕ → List ℕ
range from zero = []
range from (suc n) = from ∷ range (from + 1) n

-- The inner loop from index `j`: `left` is `dcol[j]` and `rest` what stands behind it.
unfoldable pub fill_cells : ℕ → ℕ → ℕ → Text → List ℕ → Result Never (List ℕ)
fill_cells sc left current [] rest = ok rest
fill_cells sc left current (tc ∷ tcs) [] = panic
fill_cells sc left current (tc ∷ tcs) (next ∷ rest) =
    let cell = if sc == tc then current else min (min current next) left + 1 in
    fill_cells sc cell next tcs rest >>= λ cells. ok (cell ∷ cells)

-- The outer loop from index `i`.
unfoldable pub fill_columns : Text → ℕ → Text → List ℕ → Result Never (List ℕ)
unfolding fill_cells
fill_columns t i [] dcol = ok dcol
fill_columns t i (sc ∷ scs) [] = panic
fill_columns t i (sc ∷ scs) (first ∷ rest) =
    fill_cells sc (i + 1) i t rest >>= λ cells. fill_columns t (i + 1) scs ((i + 1) ∷ cells)

abbrev pub or_panic : Option ℕ → Result Never ℕ
or_panic none = panic
or_panic (some d) = ok d

-- `dcol[i]`
abbrev pub entry_at : List ℕ → ℕ → Result Never ℕ
entry_at dcol i = or_panic (get_elem? dcol i)

-- the last index of the inner loop
abbrev pub t_last : Text → ℕ
t_last t = length t - 1

unfoldable pub lev_distance : Text → Text → Result Never ℕ
unfolding fill_columns
lev_distance me t =
    if me == []
    then ok (length t)
    else if t == []
    then ok (length me)
    else fill_columns t 0 me (range 0 (len t + 1)) >>= λ dcol. entry_at dcol (t_last t + 1)
