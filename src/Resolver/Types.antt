-- ===== src/Resolver/Types.antt =====
-- core/resolver/types.rs: what is asked of a package, why one is refused, and what the graph records.
use toml.Prelude.{
  Text, Bool, true, false, List, Result, Eq, ◌==◌, list_eq, list_eq_iff, nat_eq, ◌≡◌, ◌↔◌, refl,
  arith,
}
use toml.Core.PackageId.{PackageId}
use toml.Core.Dependency.{Dependency}

-- the fields of `Method::Required`
pub record Required : Type 0 where
  pub dev_deps : Bool
  pub features : List Text
  pub all_features : Bool
  pub uses_default_features : Bool

pub data Method : Type 0 where
  everything : Method
  required : Required → Method

pub data ConflictReason : Type 0 where
  semver : ConflictReason
  links : Text → ConflictReason
  missing_features : List Text → ConflictReason

unfoldable pub is_links : ConflictReason → Bool
is_links (links l) = true
is_links _ = false

unfoldable pub is_missing_features : ConflictReason → Bool
is_missing_features (missing_features fs) = true
is_missing_features _ = false

-- `E` is the type of the fatal errors.
pub data ActivateError (S V E : Type 0) : Type 0 where
  fatal : E → ActivateError S V E
  conflict : PackageId S V → ConflictReason → ActivateError S V E

abbrev pub ActivateResult : Type 0 → Type 0 → Type 0 → Type 0 → Type 0
ActivateResult S V E A = Result (ActivateError S V E) A

pub data GraphNode (S V R : Type 0) : Type 0 where
  add : PackageId S V → GraphNode S V R
  link : PackageId S V → PackageId S V → Dependency S R → GraphNode S V R

abbrev pub reason_beq : ConflictReason → ConflictReason → Bool
reason_beq semver semver = true
reason_beq (links l) (links k) = l == k
reason_beq (missing_features fs) (missing_features gs) = fs == gs
reason_beq _ _ = false

pub reason_eq_iff : (a b : ConflictReason) → (reason_beq a b ≡ true) ↔ (a ≡ b)
reason_eq_iff semver semver = (λ _. refl, λ _. refl)
reason_eq_iff semver (links k) = ground arith
reason_eq_iff semver (missing_features gs) = ground arith
reason_eq_iff (links l) semver = ground arith
reason_eq_iff (links l) (links k) = ground (arith, list_eq_iff l k)
reason_eq_iff (links l) (missing_features gs) = ground arith
reason_eq_iff (missing_features fs) semver = ground arith
reason_eq_iff (missing_features fs) (links k) = ground arith
reason_eq_iff (missing_features fs) (missing_features gs) = ground (arith, list_eq_iff fs gs)

instance abbrev pub reason_eq : Eq ConflictReason
reason_eq = record { eq = reason_beq; eq_iff = reason_eq_iff }
