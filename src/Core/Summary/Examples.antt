-- ===== src/Core/Summary/Examples.antt =====
-- core/summary.rs at a package with an optional dependency and two features.
use toml.Prelude.{
  ℕ, codes, ◌≡◌, refl, true, false, none, some, [], ◌∷◌, all, Result, ok, err, nat_eq, list_eq,
}
use toml.Map
use toml.Core.PackageId.{PackageId}
use toml.Core.Dependency.{Dependency, normal}
use toml.Core.Feature.{feature, krate, krate_feature, build, to_string, to_string-build}
use toml.Core.Summary.{
  Summary, Features, FeatureMap, SummaryError, new, undefined_feature, same_name, made,
}
use toml.Core.Summary.Valid.{available, new-available}

abbrev app : PackageId ℕ ℕ
app = record { name = codes "app"; version = 1; source_id = 0 }

abbrev pub on_serde : Dependency ℕ ℕ
on_serde = record {
  name = codes "serde";
  source_id = 0;
  registry_id = none;
  req = 1;
  specified_req = true;
  kind = normal;
  only_match_name = false;
  explicit_name_in_toml = none;
  optional = true;
  default_features = true;
  features = codes "std" ∷ [];
  platform = none;
}

abbrev pub table : Features
table =
    (codes "default", codes "full" ∷ [])
    ∷ (codes "full", codes "serde" ∷ codes "serde/derive" ∷ [])
    ∷ []

abbrev pub feature_map : FeatureMap
feature_map =
    (codes "default", feature (codes "full") ∷ [])
    ∷ (codes "full", krate (codes "serde") ∷ krate_feature (codes "serde") (codes "derive") ∷ [])
    ∷ []

abbrev pub summary : Summary ℕ ℕ ℕ
summary = made app (on_serde ∷ []) none false feature_map

pub summary-new : new app (on_serde ∷ []) table none false ≡ ok summary
unfolding new
summary-new = refl

full_there :
    Map.get summary.features (codes "full")
    ≡ some (krate (codes "serde") ∷ krate_feature (codes "serde") (codes "derive") ∷ [])
unfolding Map.get
full_there = refl

new-available_example :
    all
      (available summary)
      (krate (codes "serde") ∷ krate_feature (codes "serde") (codes "derive") ∷ [])
    ≡ true
new-available_example =
    new-available app (on_serde ∷ []) table none false summary summary-new (codes "full")
      (krate (codes "serde") ∷ krate_feature (codes "serde") (codes "derive") ∷ []) full_there

to_string-build_example :
    to_string (build (codes "serde/derive") (Map.contains_key table) false) false
    ≡ codes "serde/derive"
to_string-build_example = to_string-build (codes "serde/derive") (Map.contains_key table) false

-- With namespaced features the dependency becomes a feature where a feature names it.
abbrev pub namespaced_map : FeatureMap
namespaced_map =
    (codes "serde", krate (codes "serde") ∷ []) ∷ (codes "full", feature (codes "serde") ∷ []) ∷ []

abbrev pub namespaced_summary : Summary ℕ ℕ ℕ
namespaced_summary = made app (on_serde ∷ []) none true namespaced_map

pub namespaced_new :
    new app (on_serde ∷ []) ((codes "full", codes "serde" ∷ []) ∷ []) none true
    ≡ ok namespaced_summary
unfolding new
namespaced_new = refl

refused :
    ◌≡◌ {A = Result SummaryError (Summary ℕ ℕ ℕ)}
      (new app (on_serde ∷ []) ((codes "serde", []) ∷ []) none false)
      (err (same_name (codes "serde")))
    × (◌≡◌ {A = Result SummaryError (Summary ℕ ℕ ℕ)}
        (new app (on_serde ∷ []) ((codes "full", codes "log" ∷ []) ∷ []) none true)
        (err (undefined_feature (codes "full") (codes "log") false)))
unfolding new
refused = (refl, refl)
