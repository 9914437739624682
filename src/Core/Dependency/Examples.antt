-- ===== src/Core/Dependency/Examples.antt =====
-- core/dependency.rs with versions and sources that are numbers: a requirement is a version or none.
use toml.Prelude.{
  ℕ, codes, eqb, eqb_iff, ◌≡◌, ◌↔◌, refl, Bool, true, false, Option, none, some, [], ◌∷◌, Text, ok,
  nat_eq,
}
use toml.Core.PackageId.{PackageId}
use toml.Core.Semver.{Semver, IsSemver, ParsedReq, valid, invalid}
use toml.Core.Dependency.{Dependency, normal, lock_to, matches_id}
use toml.Core.Dependency.Laws.{lock_to-matches_id}

abbrev req_matches : Option ℕ → ℕ → Bool
req_matches none v = true
req_matches (some w) v = eqb w v

abbrev req_to_string : Option ℕ → Text
req_to_string none = codes "*"
req_to_string (some w) = codes "="

abbrev parse_req : Text → ParsedReq (Option ℕ)
parse_req [] = invalid
parse_req (c ∷ cs) = valid none

abbrev numbers : Semver ℕ (Option ℕ)
numbers = record {
  req_matches = req_matches;
  exact = λ v. some v;
  any_req = none;
  req_to_string = req_to_string;
  parse_req = parse_req;
}

numbers-IsSemver : IsSemver numbers
numbers-IsSemver = record { exact_matches = eqb_iff; any_matches = λ v. refl }

abbrev on_libc : Dependency ℕ (Option ℕ)
on_libc = record {
  name = codes "libc";
  source_id = 0;
  registry_id = none;
  req = none;
  specified_req = true;
  kind = normal;
  only_match_name = false;
  explicit_name_in_toml = none;
  optional = false;
  default_features = true;
  features = [];
  platform = none;
}

abbrev libc : PackageId ℕ ℕ
libc = record { name = codes "libc"; version = 2; source_id = 0 }

libc_matches : matches_id numbers on_libc libc ≡ true
unfolding matches_id
libc_matches = refl

lock_to-matches_id_example :
    (d' : Dependency ℕ (Option ℕ)) × (lock_to numbers on_libc libc ≡ ok d')
    × ((other : PackageId ℕ ℕ) → (matches_id numbers d' other ≡ true) ↔ (other ≡ libc))
lock_to-matches_id_example =
    lock_to-matches_id numbers numbers-IsSemver on_libc libc refl libc_matches
