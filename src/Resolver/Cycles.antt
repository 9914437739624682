-- ===== src/Resolver/Cycles.antt =====
-- `check_cycles` of core/resolver/mod.rs, with what it reads of `Resolve` in core/resolver/resolve.rs.
pub mod Sound
mod Examples
use toml.Prelude.{
  ℕ, zero, suc, Bool, ◌&&◌, Option, none, some, List, [], ◌∷◌, ◌++◌, map, any, length, Eq, contains,
  Result, ok, err, panic, out_of_fuel, ◌>>=◌, if◌then◌else◌, sort_by,
}
use toml.Map
use toml.Map.{Map}
use toml.Set
use toml.Set.{Set}
use toml.Graph.{Graph, edges, iter, path_to_top}
use toml.Core.PackageId.{PackageId, package_id_eq}
use toml.Core.Semver.{Semver}
use toml.Core.Dependency.{Dependency, matches_id, is_transitive}
use toml.Core.Summary.{Summary}

-- the fields of `Resolve` that are read here
pub record Resolve (S V R : Type 0) : Type 0 where
  pub graph : Graph (PackageId S V) (List (Dependency S R))
  pub replacements : Map (PackageId S V) (PackageId S V)

-- the package that depends on itself, and the path of the message
pub data CycleError (S V : Type 0) : Type 0 where
  cyclic : PackageId S V → Option (List (PackageId S V)) → CycleError S V

-- the visited and the checked packages
abbrev pub Marks : Type 0 → Type 0 → Type 0
Marks S V = Set (PackageId S V) × Set (PackageId S V)

module _ {S V R : Type 0} ⦃es : Eq S⦄ ⦃ev : Eq V⦄ where
  -- `activations.values().flat_map(|v| v.iter())` and `collect()`
  abbrev pub collect :
      List (Summary S V R)
      → Map (PackageId S V) (Summary S V R)
      → Map (PackageId S V) (Summary S V R)
  collect [] summaries = summaries
  collect (s ∷ ss) summaries = collect ss (Map.insert s.package_id s summaries)

  abbrev pub collect_all :
      {K : Type 0}
      → Map K (List (Summary S V R))
      → Map (PackageId S V) (Summary S V R)
      → Map (PackageId S V) (Summary S V R)
  collect_all [] summaries = summaries
  collect_all ((k, ss) ∷ activations) summaries = collect_all activations (collect ss summaries)

  abbrev pub deps_not_replaced : Resolve S V R → PackageId S V → List (PackageId S V)
  deps_not_replaced resolve id = map (λ e. e.0) (edges resolve.graph id)

  abbrev pub replacement : Resolve S V R → PackageId S V → Option (PackageId S V)
  replacement resolve id = Map.get resolve.replacements id

-- the replacement is visited after the dependency, with what was visited then
abbrev pub visit_replacement :
    {S V : Type 0}
    → (PackageId S V
        → Set (PackageId S V)
        → Set (PackageId S V)
        → Result (CycleError S V) (Marks S V))
    → Option (PackageId S V)
    → Marks S V
    → Result (CycleError S V) (Marks S V)
visit_replacement go none marks = ok marks
visit_replacement go (some id) (visited, checked) = go id visited checked

module _ {S V R : Type 0} ⦃es : Eq S⦄ ⦃ev : Eq V⦄ (m : Semver V R) (resolve : Resolve S V R)
    (summaries : Map (PackageId S V) (Summary S V R)) where
  unfoldable pub transitive_to : Summary S V R → PackageId S V → Bool
  transitive_to summary dep = any (λ d. matches_id m d dep && is_transitive d) summary.dependencies

  -- The loop over the dependencies; `go` is `visit`. What an intransitive dependency visits is
  -- kept apart.
  unfoldable pub visit_each :
      (PackageId S V
        → Set (PackageId S V)
        → Set (PackageId S V)
        → Result (CycleError S V) (Marks S V))
      → Summary S V R
      → List (PackageId S V)
      → Set (PackageId S V)
      → Set (PackageId S V)
      → Result (CycleError S V) (Marks S V)
  unfolding transitive_to
  visit_each go summary [] visited checked = ok (visited, checked)
  visit_each go summary (dep ∷ deps) visited checked =
      go dep (if transitive_to summary dep then visited else []) checked
      >>= visit_replacement go (replacement resolve dep)
      >>= λ (v, c). visit_each go summary deps (if transitive_to summary dep then v else visited) c

  abbrev pub visit_known :
      (PackageId S V
        → Set (PackageId S V)
        → Set (PackageId S V)
        → Result (CycleError S V) (Marks S V))
      → PackageId S V
      → Option (Summary S V R)
      → Set (PackageId S V)
      → Set (PackageId S V)
      → Result (CycleError S V) (Marks S V)
  visit_known go id none visited checked = panic
  visit_known go id (some summary) visited checked =
      visit_each go summary (deps_not_replaced resolve id) visited checked >>= λ (v, c).
      ok (Set.remove id v, c)

  unfoldable pub visit :
      ℕ
      → PackageId S V
      → Set (PackageId S V)
      → Set (PackageId S V)
      → Result (CycleError S V) (Marks S V)
  unfolding visit_each
  visit zero id visited checked = out_of_fuel
  visit (suc fuel) id visited checked =
      if contains visited id
      then err (cyclic id (path_to_top resolve.graph id))
      else if contains checked id
      then ok (Set.remove id (Set.insert id visited), checked)
      else visit_known (visit fuel) id (Map.get summaries id) (Set.insert id visited)
          (Set.insert id checked)

  unfoldable pub visit_all :
      ℕ → List (PackageId S V) → Set (PackageId S V) → Result (CycleError S V) (Set (PackageId S V))
  unfolding visit
  visit_all fuel [] checked = ok checked
  visit_all fuel (pkg ∷ pkgs) checked =
      (if contains checked pkg then ok ([], checked) else visit fuel pkg [] checked) >>= λ (v, c).
      visit_all fuel pkgs c

module _ {S V R K : Type 0} ⦃es : Eq S⦄ ⦃ev : Eq V⦄ (m : Semver V R)
    (le : PackageId S V → PackageId S V → Bool) where
  unfoldable pub check_cycles :
      Resolve S V R → Map K (List (Summary S V R)) → Result (CycleError S V) (Set (PackageId S V))
  unfolding visit_all
  check_cycles resolve activations =
      let summaries = collect_all activations [] in
      visit_all m resolve summaries (suc (length (Map.keys summaries)))
        (sort_by le (iter resolve.graph)) []
