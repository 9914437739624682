-- ===== src/Resolver/Requirements/Kept.antt =====
-- What the steps of `build_requirements` in core/resolver/context.rs keep, one feature `f` excepted:
-- what entering that one does is for the user of this file to say.
use toml.Prelude.{
  ℕ, zero, suc, ◌≤◌, ◌<◌, Text, codes, Bool, true, false, not, ◌||◌, ◌≡◌, sym, subst, none, some,
  List, [], ◌∷◌, all, length-keep_mono, ◌==◌, eq_self, list_eq, list_eq_iff, nat_eq, contains,
  Result, ok, err, panic, ◌>>=◌, arith, Bool-cases, Option-cases, inl, inr,
}
use toml.Map
use toml.Map.{contains-keys}
use toml.Core.Feature.{FeatureValue, feature, krate, krate_feature, build}
use toml.Core.Summary.{Summary}
use toml.Resolver.Types.{Method}
use toml.Resolver.Requirements.{
  Requirements, RequirementsError, require_value, require_each, require_feature, require_found,
  require_dependency, require_crate_feature, require_requested, require_features, require_default,
  wants_default, see, fuel, depends_on,
}
use toml.Resolver.Requirements.Progress.{unvisited, unvisited-see}
use toml.Resolver.Requirements.Returns.{fuel-enough}
use toml.Resolver.Requirements.Closed.{read_requested}

-- what was visited stays so
abbrev pub Grows : Requirements → Requirements → Type 0
Grows r r' = (g : Text) → contains r.visited g ≡ true → contains r'.visited g ≡ true

-- An error, or requirements of which `P` holds; a panic only where `Q` lets it.
pub data Kept (Q : Type 0) (P : Requirements → Type 0) (r : Requirements)
    : Result RequirementsError Requirements → Type 0 where
  panicked : Q → Kept Q P r panic
  failed : {e : RequirementsError} → Kept Q P r (err e)
  went_on : {r' : Requirements} → Grows r r' → P r' → Kept Q P r (ok r')

module _ {Q : Type 0} where
  pub Kept-after :
      {P : Requirements → Type 0} {a b : Requirements}
      {result : Result RequirementsError Requirements}
      → Grows a b
      → Kept Q P b result
      → Kept Q P a result
  Kept-after grows (panicked q) = panicked q
  Kept-after grows failed = failed
  Kept-after grows (went_on grows' p) = went_on (λ g h. grows' g (grows g h)) p

  pub Kept-bind :
      {P P' : Requirements → Type 0} {r : Requirements}
      {result : Result RequirementsError Requirements}
      (next : Requirements → Result RequirementsError Requirements)
      → Kept Q P r result
      → ((r' : Requirements) → Grows r r' → P r' → Kept Q P' r' (next r'))
      → Kept Q P' r (result >>= next)
  Kept-bind next (panicked q) goes_on = panicked q
  Kept-bind next failed goes_on = failed
  Kept-bind next (went_on {r'} grows p) goes_on = Kept-after grows (goes_on r' grows p)

see-Grows : (g : Text) (r : Requirements) → Grows r (see g r)
see-Grows g r h there = ground (arith, there)

pub require_dependency-Grows : (d : Text) (r : Requirements) → Grows r (require_dependency d r)
unfolding require_dependency
require_dependency-Grows d r g there = elim (Bool-cases (contains r.visited d)) [
  | inl old ↦ rw old there
  | inr fresh ↦ rw fresh (ground (arith, there))
]

module _ {S V R : Type 0} (s : Summary S V R) (f : Text) (Q : Type 0) (P : Requirements → Type 0)
    (good : FeatureValue → Bool) where
  unvisited-Grows :
      (r r' : Requirements) → Grows r r' → unvisited s.features r' ≤ unvisited s.features r
  unvisited-Grows r r' grows =
      length-keep_mono (λ g. not (contains r.visited g)) (λ g. not (contains r'.visited g))
        (Map.keys s.features) (λ g h. ground (arith, h, grows g))

  -- `f` is excepted; of what else is named, all is `good`
  pub record Keeps : Type 0 where
    pub values :
        (g : Text) (vs : List FeatureValue)
        → Map.get s.features g ≡ some vs
        → (g == f) ≡ false
        → all good vs ≡ true
    pub missing :
        (g : Text) → good (feature g) ≡ true → Map.get s.features g ≡ none → (g == f) ≡ false → Q
    pub on_see : (g : Text) (r : Requirements) → (g == f) ≡ false → P r → P (see g r)
    pub on_dependency :
        (d : Text) (r : Requirements) → good (krate d) ≡ true → P r → P (require_dependency d r)
    pub on_crate_feature :
        (d k : Text) (r : Requirements)
        → good (krate_feature d k) ≡ true
        → P r
        → P (require_crate_feature d k r)
    pub at_itself :
        (require : Text → Requirements → Result RequirementsError Requirements) (r : Requirements)
        → P r
        → Kept Q P (see f r) (require_found s require f (Map.get s.features f) (see f r))

  -- what is asked of `require_feature` with fuel for `n` more features
  abbrev pub Requires : ℕ → (Text → Requirements → Result RequirementsError Requirements) → Type 0
  Requires n require =
      (g : Text) (r : Requirements)
      → good (feature g) ≡ true
      → unvisited s.features r < n
      → P r
      → Kept Q P r (require g r)

  module _ (keeps : Keeps) where
    pub require_value-Kept :
        (n : ℕ) (require : Text → Requirements → Result RequirementsError Requirements)
        → Requires n require
        → (v : FeatureValue) (r : Requirements) → good v ≡ true
        → unvisited s.features r < n
        → P r
        → Kept Q P r (require_value require v r)
    unfolding require_value require_crate_feature
    require_value-Kept n require requires (feature g) r fit few p = requires g r fit few p
    require_value-Kept n require requires (krate d) r fit few p =
        went_on (require_dependency-Grows d r) (keeps.on_dependency d r fit p)
    require_value-Kept n require requires (krate_feature d k) r fit few p =
        went_on (λ g h. h) (keeps.on_crate_feature d k r fit p)

    require_each-Kept :
        (n : ℕ) (require : Text → Requirements → Result RequirementsError Requirements)
        → Requires n require
        → (g : Text) (vs : List FeatureValue) (r : Requirements) → all good vs ≡ true
        → unvisited s.features r < n
        → P r
        → Kept Q P r (require_each require g vs r)
    unfolding require_each
    require_each-Kept n require requires g [] r fit few p = went_on (λ h there. there) p
    require_each-Kept n require requires g (v ∷ vs) r fit few p =
        elim (Bool-cases (depends_on g v)) [
          | inl itself ↦ rw itself failed
          | inr other ↦ rw other (
              Kept-bind (require_each require g vs)
                (require_value-Kept n require requires v r (ground arith) few p)
                (λ r' grows p'.
                  require_each-Kept n require requires g vs r' (ground arith)
                    (omega (arith, few, unvisited-Grows r r' grows)) p'))
        ]

    pub require_feature-Requires : (n : ℕ) → Requires n (require_feature s n)
    unfolding require_feature
    require_feature-Requires zero g r fit few p = absurd (omega (arith, few))
    require_feature-Requires (suc n) g r fit few p =
        elim (Bool-cases (g == [] || contains r.visited g)) [
          | inl skip ↦ rw skip (went_on (λ h there. there) p)
          | inr enter ↦ elim (Bool-cases (g == f)) [
            | inl itself ↦
                let same : g ≡ f = (list_eq_iff g f).0 itself in
                rw enter (
                  subst
                    (λ g.
                      Kept Q P r
                        (require_found s (require_feature s n) g (Map.get s.features g) (see g r)))
                    (sym same)
                    (Kept-after (see-Grows f r) (keeps.at_itself (require_feature s n) r p)))
            | inr other ↦ elim (Option-cases (Map.get s.features g)) [
              | inl missing ↦ rw (enter, missing) (panicked (keeps.missing g fit missing other))
              | inr (vs, there) ↦
                  let key : Map.contains_key s.features g ≡ true = ground (arith, there) in
                  rw (enter, there)
                    (Kept-after (see-Grows g r) (
                      require_each-Kept n (require_feature s n) (require_feature-Requires n) g vs
                        (see g r) (keeps.values g vs there other)
                        (omega
                          (arith, few, unvisited-see s.features r g key (ground (arith, enter))))
                        (keeps.on_see g r other p)))
            ]
          ]
        ]

    pub require_requested-Kept :
        (fs : List Text) (r : Requirements)
        → all good (read_requested s fs) ≡ true
        → P r
        → Kept Q P r (require_requested s fs r)
    unfolding require_requested
    require_requested-Kept [] r fit p = went_on (λ g h. h) p
    require_requested-Kept (g ∷ gs) r fit p =
        Kept-bind (require_requested s gs)
          (require_value-Kept (fuel s) (require_feature s (fuel s))
            (require_feature-Requires (fuel s))
            (build g (Map.contains_key s.features) s.namespaced_features) r (ground arith)
            (fuel-enough s r) p)
          (λ r' grows p'. require_requested-Kept gs r' (ground arith) p')

    pub require_features-Kept :
        (gs : List Text) (r : Requirements)
        → ((g : Text) → contains gs g ≡ true → good (feature g) ≡ true)
        → P r
        → Kept Q P r (require_features s gs r)
    unfolding require_features
    require_features-Kept [] r fit p = went_on (λ g h. h) p
    require_features-Kept (g ∷ gs) r fit p =
        Kept-bind (require_features s gs)
          (require_feature-Requires (fuel s) g r (fit g (ground (arith, eq_self g)))
            (fuel-enough s r) p)
          (λ r' grows p'. require_features-Kept gs r' (λ h there. fit h (ground (arith, there))) p')

    pub require_default-Kept :
        (method : Method) (r : Requirements)
        → (Map.contains_key s.features (codes "default") ≡ true
            → good (feature (codes "default")) ≡ true)
        → P r
        → Kept Q P r (require_default s method r)
    unfolding require_default
    require_default-Kept method r fit p = elim (Bool-cases (wants_default s method)) [
      | inr not_wanted ↦ rw not_wanted (went_on (λ g h. h) p)
      | inl want ↦ elim (Bool-cases (Map.contains_key s.features (codes "default"))) [
        | inr missing ↦ rw (want, missing) (went_on (λ g h. h) p)
        | inl there ↦
            rw (want, there)
              (require_feature-Requires (fuel s) (codes "default") r (fit there) (fuel-enough s r)
                p)
      ]
    ]
