-- ===== src/Core/Feature.antt =====
-- `FeatureValue` of core/summary.rs: what a feature can require.
use toml.Prelude.{
  ℕ, Text, codes, ◌≡◌, Bool, true, false, Option, none, some, [], ◌∷◌, ◌++◌, inl, inr, arith, eqb,
  drop, Bool-cases, if◌then◌else◌, Option-cases, sym,
}
use toml.Cfg.Key.{starts_with, starts_with→eq}

pub data FeatureValue : Type 0 where
  feature : Text → FeatureValue
  krate : Text → FeatureValue
  krate_feature : Text → Text → FeatureValue

abbrev before : ℕ → Option (Text × Text) → Option (Text × Text)
before c none = none
before c (some (l, r)) = some (c ∷ l, r)

-- `find` of a character, and what stands before and behind it
unfoldable pub split_once : ℕ → Text → Option (Text × Text)
split_once ch [] = none
split_once ch (c ∷ s) =
    let rest = before c (split_once ch s) in if eqb c ch then some ([], s) else rest

abbrev value_without_slash : Text → Bool → Bool → FeatureValue
value_without_slash f is_feature true =
    if starts_with f (codes "crate:") then krate (drop 6 f) else feature f
value_without_slash f is_feature false = if is_feature then feature f else krate f

abbrev value_of_split : Text → Bool → Bool → Option (Text × Text) → FeatureValue
value_of_split f is_feature namespaced (some (dep, dep_feat)) = krate_feature dep dep_feat
value_of_split f is_feature namespaced none = value_without_slash f is_feature namespaced

-- `FeatureValue::build`
unfoldable pub build : Text → (Text → Bool) → Bool → FeatureValue
unfolding split_once
build f is_feature namespaced = value_of_split f (is_feature f) namespaced (split_once b'/' f)

-- `FeatureValue::to_string`, at a summary whose features are `namespaced`
unfoldable pub to_string : FeatureValue → Bool → Text
to_string (feature f) namespaced = f
to_string (krate c) namespaced = if namespaced then codes "crate:" ++ c else c
to_string (krate_feature c f) namespaced = c ++ (codes "/" ++ f)

split_once-eq : (ch : ℕ) (s l r : Text) → split_once ch s ≡ some (l, r) → s ≡ l ++ ch ∷ r
unfolding split_once
split_once-eq ch [] l r h = cc
split_once-eq ch (c ∷ s) l r h = elim (Bool-cases (eqb c ch)) [
  | inl same ↦ ground (arith, same)
  | inr other ↦ elim (Option-cases (split_once ch s)) [
    | inl missing ↦ absurd (ground (arith, missing, other))
    | inr ((l', r'), there) ↦ ground (arith, there, other, split_once-eq ch s l' r' there)
  ]
]

-- What `build` read from a text is written as that text again, whatever the features are and
-- whether or not they are namespaced.
pub to_string-build :
    (f : Text) (is_feature : Text → Bool) (namespaced : Bool)
    → to_string (build f is_feature namespaced) namespaced ≡ f
unfolding to_string build
to_string-build f is_feature namespaced = elim (Option-cases (split_once b'/' f)) [
  | inr ((l, r), there) ↦ rw there (sym (split_once-eq b'/' f l r there))
  | inl missing ↦ rw missing (plain namespaced)
]
  where
    plain : (n : Bool) → to_string (value_without_slash f (is_feature f) n) n ≡ f
    plain true = elim (Bool-cases (starts_with f (codes "crate:"))) [
      | inl dep ↦ rw dep (sym (starts_with→eq f (codes "crate:") dep))
      | inr other ↦ rw other
    ]
    plain false = ground arith
