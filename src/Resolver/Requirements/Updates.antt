-- ===== src/Resolver/Requirements/Updates.antt =====
--
use toml.Prelude.{
  Text, Bool, true, false, ◌||◌, ◌≡◌, Option, none, some, List, [], ◌==◌, list_eq, list_eq_iff,
  nat_eq, contains, arith, Bool-cases, Option-cases, inl, inr, ap, ◌∙◌,
}
use toml.Map
use toml.Map.{Map, get-update_or, contains-keys}
use toml.Core.Feature.{FeatureValue, feature, krate, krate_feature}
use toml.Resolver.Requirements.{Requirements}

abbrev pub turned_on : Option (Bool × List Text) → Bool
turned_on none = false
turned_on (some (on, fs)) = on

abbrev pub asked : Text → Option (Bool × List Text) → Bool
asked k none = false
asked k (some (on, fs)) = contains fs k

-- what a value calls for, as far as it is in the requirements
abbrev pub satisfied : Requirements → FeatureValue → Bool
satisfied r (feature g) = g == [] || contains r.visited g
satisfied r (krate d) = turned_on (Map.get r.deps d)
satisfied r (krate_feature d k) = asked k (Map.get r.deps d)

-- what an update of the entry of `d` keeps
module _ (d g : Text) (f : Bool × List Text → Bool × List Text)
    (deps : Map Text (Bool × List Text)) where
  pub turned_on-update_or :
      ((on : Bool) (fs : List Text) → on ≡ true → (f (on, fs)).0 ≡ true)
      → turned_on (Map.get deps g) ≡ true
      → turned_on (Map.get (Map.update_or d (false, []) f deps) g) ≡ true
  turned_on-update_or mono h = elim (Option-cases (Map.get deps g)) [
    | inl missing ↦ absurd (ground (arith, missing, h))
    | inr ((on, fs), there) ↦ elim (Bool-cases (d == g)) [
      | inl same ↦
          let at_d : Map.get deps d ≡ some (on, fs) =
            ap (Map.get deps) ((list_eq_iff d g).0 same) ∙ there in
          rw (get-update_or d g (false, []) f deps, same, at_d) (mono on fs (rw there at h))
      | inr other ↦ rw (get-update_or d g (false, []) f deps, other) h
    ]
  ]

  pub asked-update_or :
      (k : Text)
      → ((on : Bool) (fs : List Text) → contains fs k ≡ true → contains (f (on, fs)).1 k ≡ true)
      → asked k (Map.get deps g) ≡ true
      → asked k (Map.get (Map.update_or d (false, []) f deps) g) ≡ true
  asked-update_or k mono h = elim (Option-cases (Map.get deps g)) [
    | inl missing ↦ absurd (ground (arith, missing, h))
    | inr ((on, fs), there) ↦ elim (Bool-cases (d == g)) [
      | inl same ↦
          let at_d : Map.get deps d ≡ some (on, fs) =
            ap (Map.get deps) ((list_eq_iff d g).0 same) ∙ there in
          rw (get-update_or d g (false, []) f deps, same, at_d) (mono on fs (rw there at h))
      | inr other ↦ rw (get-update_or d g (false, []) f deps, other) h
    ]
  ]

pub satisfied-update_or :
    (r r' : Requirements) (d : Text) (f : Bool × List Text → Bool × List Text)
    → ((on : Bool) (fs : List Text) → on ≡ true → (f (on, fs)).0 ≡ true)
    → ((on : Bool) (fs : List Text) (k : Text)
        → contains fs k ≡ true
        → contains (f (on, fs)).1 k ≡ true)
    → ((g : Text) → contains r.visited g ≡ true → contains r'.visited g ≡ true)
    → r'.deps ≡ Map.update_or d (false, []) f r.deps
    → (v : FeatureValue) → satisfied r v ≡ true
    → satisfied r' v ≡ true
satisfied-update_or r r' d f keeps_on keeps_asked visits same (feature g) h =
    ground (arith, visits g)
satisfied-update_or r r' d f keeps_on keeps_asked visits same (krate n) h =
    rw same (turned_on-update_or d n f r.deps keeps_on h)
satisfied-update_or r r' d f keeps_on keeps_asked visits same (krate_feature n k) h =
    rw same (asked-update_or d n f r.deps k (λ on fs. keeps_asked on fs k) h)
