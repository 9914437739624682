-- ===== src/Resolver/Requirements/Plain.antt =====
-- `build_requirements` of core/resolver/context.rs at a summary that `Summary::new` of
-- core/summary.rs made, where features share the names of dependencies.
use toml.Prelude.{
  Text, true, false, not, ◌&&◌, ◌≡◌, refl, Option, List, [], ◌∷◌, map, all, all-append, any, keep,
  ◌==◌, list_eq, list_eq_iff, nat_eq, contains, ok, Yields, arith, Bool-cases, Option-cases, inl,
  inr, sym, subst, ◌∙◌,
}
use toml.Map
use toml.Map.{Map, contains-keys}
use toml.Core.PackageId.{PackageId}
use toml.Core.Dependency.{Dependency, name_in_toml}
use toml.Core.Feature.{FeatureValue, feature, krate, krate_feature, build, split_once}
use toml.Core.Summary.{Summary, FeatureMap, Features, new}
use toml.Core.Summary.Known.{all_values_mono}
use toml.Core.Summary.Valid.{available, new-all_values}
use toml.Core.Summary.Plain.{new-unnamed}
use toml.Resolver.Types.{Method, everything, required}
use toml.Resolver.Requirements.{build_requirements}
use toml.Resolver.Requirements.Progress.{usable}
use toml.Resolver.Requirements.Closed.{
  wanted, asked_by, asked_default, asked_all, read_requested, asked_dependencies, Closed,
  build_requirements-Closed,
}

build-usable :
    (features : FeatureMap) (f : Text)
    → usable features (build f (Map.contains_key features) false) ≡ true
unfolding build
build-usable features f = elim (Option-cases (split_once b'/' f)) [
  | inl missing ↦ ground (arith, missing)
  | inr (lr, there) ↦ ground (arith, there)
]

usable-features :
    (features : FeatureMap) (fs : List Text)
    → ((g : Text) → contains fs g ≡ true → Map.contains_key features g ≡ true)
    → all (usable features) (map feature fs) ≡ true
usable-features features [] there = refl
usable-features features (f ∷ fs) there = ground (
  arith,
  there f (ground (arith, list_eq_iff f f)),
  usable-features features fs (λ g h. there g (ground (arith, h))),
)

module _ {S R : Type 0} (features : FeatureMap) where
  usable-named :
      (deps : List (Dependency S R)) (n : Text)
      → all (λ d. not (Map.contains_key features (name_in_toml d))) deps ≡ true
      → any (λ d. name_in_toml d == n && d.optional) deps ≡ true
      → not (Map.contains_key features n) ≡ true
  usable-named [] n unnamed h = absurd cc
  usable-named (d ∷ deps) n unnamed h = elim (Bool-cases (name_in_toml d == n)) [
    | inl same ↦
        subst (λ t. not (Map.contains_key features t) ≡ true)
          ((list_eq_iff (name_in_toml d) n).0 same) (ground arith)
    | inr other ↦ usable-named deps n (ground arith) (rw other at h)
  ]

  usable-optional :
      (deps : List (Dependency S R))
      → all (λ d. not (Map.contains_key features (name_in_toml d))) deps ≡ true
      → all (usable features) (map (λ d. krate (name_in_toml d)) (keep (λ d. d.optional) deps))
        ≡ true
  usable-optional [] unnamed = refl
  usable-optional (d ∷ deps) unnamed = elim (Bool-cases d.optional) [
    | inl optional ↦ rw optional (ground (arith, usable-optional deps))
    | inr fixed ↦ rw fixed (usable-optional deps (ground arith))
  ]

module _ {S V R : Type 0} (s : Summary S V R) where
  usable-available :
      all (λ d. not (Map.contains_key s.features (name_in_toml d))) s.dependencies ≡ true
      → (v : FeatureValue) → available s v ≡ true
      → usable s.features v ≡ true
  usable-available unnamed (feature g) h = ground (arith, h)
  usable-available unnamed (krate n) h = usable-named s.features s.dependencies n unnamed h
  usable-available unnamed (krate_feature n k) h = refl

  usable-read_requested :
      s.namespaced_features ≡ false
      → (fs : List Text) → all (usable s.features) (read_requested s fs) ≡ true
  usable-read_requested plain [] = refl
  usable-read_requested plain (f ∷ fs) =
      rw plain (ground (arith, build-usable s.features f, usable-read_requested plain fs))

  usable-wanted :
      s.namespaced_features ≡ false
      → all (λ d. not (Map.contains_key s.features (name_in_toml d))) s.dependencies ≡ true
      → (method : Method) → all (usable s.features) (wanted s method) ≡ true
  usable-wanted plain unnamed method = ground (
    arith,
    all-append (usable s.features) (asked_by s method) (asked_default s method),
    by method,
    default,
  )
    where
      whole : all (usable s.features) (asked_all s) ≡ true
      whole = ground (
        arith,
        all-append (usable s.features) (map feature (Map.keys s.features))
            (asked_dependencies s (keep (λ d. d.optional) s.dependencies)),
        usable-features s.features (Map.keys s.features)
            (λ g h. sym (contains-keys s.features g) ∙ h),
        usable-optional s.features s.dependencies unnamed,
      )

      by : (method : Method) → all (usable s.features) (asked_by s method) ≡ true
      by everything = whole
      by (required m) = ground (arith, whole, usable-read_requested plain m.features)

      default : all (usable s.features) (asked_default s method) ≡ true
      default = ground arith

module _ {S V R : Type 0} where
  -- At a summary without namespaced features that `Summary::new` returns, `build_requirements` ends
  -- whatever the method is and does not panic: it returns the error for a feature that depends on
  -- itself, or requirements that are closed. All that the method asks for is in them, with each
  -- feature all that the feature names, and every feature that was entered counts as used.
  pub new-Closed :
      (id : PackageId S V) (deps : List (Dependency S R)) (features : Features)
      (links : Option Text) (s : Summary S V R)
      → new id deps features links false ≡ ok s
      → (method : Method) → Yields (Closed s method) (build_requirements s method)
  new-Closed id deps features links s h method =
      let (plain, unnamed) = new-unnamed id deps features links s h in
      build_requirements-Closed s
        (all_values_mono (available s) (usable s.features) s.features (usable-available s unnamed)
          (new-all_values id deps features links false s h))
        method (usable-wanted s plain unnamed method)
