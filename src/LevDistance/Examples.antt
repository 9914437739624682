-- ===== src/LevDistance/Examples.antt =====
-- util/lev_distance.rs at short words.
use toml.Prelude.{ℕ, codes, ◌≡◌, ◌+◌, ◌≤◌, max, length, ◌↔◌, refl, ok}
use toml.LevDistance.{lev_distance}
use toml.LevDistance.Edits.{Edits}
use toml.LevDistance.Column.{lev_distance_least}
use toml.LevDistance.Bounds.{lev_distance_bounds}

buld-build : lev_distance (codes "buld") (codes "bild") ≡ ok 1
unfolding lev_distance
buld-build = refl

lev_distance_least_example :
    (d : ℕ) × (lev_distance (codes "buid") (codes "build") ≡ ok d)
    × Edits d (codes "buid") (codes "build")
    × ((n : ℕ) → Edits n (codes "buid") (codes "build") → d ≤ n)
lev_distance_least_example = lev_distance_least (codes "buid") (codes "build")

lev_distance_bounds_example :
    (d : ℕ) × (lev_distance (codes "chek") (codes "check") ≡ ok d)
    × (length (codes "chek") ≤ length (codes "check") + d)
    × (length (codes "check") ≤ length (codes "chek") + d)
    × (d ≤ max (length (codes "chek")) (length (codes "check")))
    × ((d ≡ 0) ↔ (codes "chek" ≡ codes "check"))
lev_distance_bounds_example = lev_distance_bounds (codes "chek") (codes "check")
