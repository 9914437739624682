-- ===== src/Resolver/Requirements/Examples.antt =====
-- `build_requirements` of core/resolver/context.rs at a package with namespaced features: `serde` turns
-- on the dependency of that name, and `full` the feature `serde`.
use toml.Prelude.{
  codes, ◌≡◌, refl, sym, true, false, Option, none, some, List, [], ◌∷◌, all, ◌==◌, list_eq,
  list_eq_iff, nat_eq, ok, panic, Yields, Text, arith, Bool-cases, inl, inr,
}
use toml.Map
use toml.Core.Feature.{FeatureValue, feature, krate, build}
use toml.Core.Summary.Examples.{namespaced_summary}
use toml.Core.Summary.Known.{all_values-get}
use toml.Resolver.Types.{Required, required}
use toml.Resolver.Requirements.{build_requirements}
use toml.Resolver.Requirements.Closed.{read_requested}
use toml.Resolver.Requirements.Namespaced.{quiet, Refused, undefined-Refused}
use toml.Resolver.Requirements.SameName.{apart, named_by, same_name-unused}

-- what the command line asks for
abbrev asking_for : List Text → Required
asking_for features = record {
  dev_deps = false;
  features = features;
  all_features = false;
  uses_default_features = false;
}

abbrev pub only : Text → Required
only f = asking_for (f ∷ [])

some-injective : {A : Type 0} {a b : A} → ◌≡◌ {A = Option A} (some a) (some b) → a ≡ b
some-injective same = cc

read_log :
    build
      (codes "log")
      (Map.contains_key namespaced_summary.features)
      namespaced_summary.namespaced_features
    ≡ feature (codes "log")
unfolding build
read_log = refl

no_log : Map.get namespaced_summary.features (codes "log") ≡ none
unfolding Map.get
no_log = refl

log_quiet :
    (g : Text) (vs : List FeatureValue)
    → Map.get namespaced_summary.features g ≡ some vs
    → all (quiet (codes "log")) vs ≡ true
log_quiet g vs there =
    all_values-get (quiet (codes "log")) namespaced_summary.features g vs refl there

log_quiet_request :
    all (quiet (codes "log")) (read_requested namespaced_summary (codes "full" ∷ codes "log" ∷ []))
    ≡ true
unfolding build Map.get
log_quiet_request = refl

-- `full` comes first and is a feature.
undefined-Refused_example : Refused (
    build_requirements namespaced_summary (required (asking_for (codes "full" ∷ codes "log" ∷ []))))
undefined-Refused_example =
    undefined-Refused namespaced_summary (codes "log")
      (asking_for (codes "full" ∷ codes "log" ∷ [])) refl refl refl read_log no_log log_quiet
      log_quiet_request

undefined_after_full :
    build_requirements namespaced_summary (required (asking_for (codes "full" ∷ codes "log" ∷ [])))
    ≡ panic
unfolding build_requirements
undefined_after_full = refl

serde_implicit :
    Map.get namespaced_summary.features (codes "serde") ≡ some (krate (codes "serde") ∷ [])
unfolding Map.get
serde_implicit = refl

others_apart :
    (g : Text) (vs : List FeatureValue)
    → Map.get namespaced_summary.features g ≡ some vs
    → (g == codes "serde") ≡ false
    → all (apart namespaced_summary (codes "serde")) vs ≡ true
unfolding Map.get
others_apart g vs there other = elim (Bool-cases (codes "serde" == g)) [
  | inl same ↦
      let here = (list_eq_iff (codes "serde") g).0 same in
      absurd (ground (arith, other, list_eq_iff g (codes "serde"), sym here))
  | inr apart ↦ elim (Bool-cases (codes "full" == g)) [
    | inl full ↦
        let given : feature (codes "serde") ∷ [] ≡ vs =
          some-injective (rw (apart, full) at there) in
        rw (sym given) refl
    | inr neither ↦ absurd (ground (arith, rw (apart, neither) at there))
  ]
]

full_apart :
    all
      (apart namespaced_summary (codes "serde"))
      (named_by namespaced_summary (codes "serde") (required (only (codes "full"))))
    ≡ true
unfolding build Map.get
full_apart = refl

-- `full` names the feature `serde`, which names the dependency.
same_name-unused_example :
    Yields
      (λ r. Map.get r.deps (codes "serde") ≡ none)
      (build_requirements namespaced_summary (required (only (codes "full"))))
same_name-unused_example =
    same_name-unused namespaced_summary (codes "serde") refl serde_implicit others_apart
      (required (only (codes "full"))) full_apart

serde_not_turned_on :
    build_requirements namespaced_summary (required (only (codes "full")))
    ≡ ok (record {
      deps = [];
      used = codes "serde" ∷ codes "full" ∷ [];
      visited = codes "serde" ∷ codes "full" ∷ [];
    })
unfolding build_requirements
serde_not_turned_on = refl
