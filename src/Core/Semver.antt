-- ===== src/Core/Semver.antt =====
-- The `semver` crate, which the program calls: versions `V` and version requirements `R`. Its
-- operations are arguments of the definitions that use them.
use toml.Prelude.{Text, Bool, true, ◌≡◌, ◌↔◌}

-- `VersionReq::parse`
pub data ParsedReq (R : Type 0) : Type 0 where
  valid deprecated : R → ParsedReq R
  invalid : ParsedReq R

pub record Semver (V R : Type 0) : Type 0 where
  pub req_matches : R → V → Bool
  pub exact : V → R
  pub any_req : R
  pub req_to_string : R → Text
  pub parse_req : Text → ParsedReq R

-- `VersionReq::exact(v)` matches `v` alone, and `VersionReq::any()` every version.
pub record IsSemver {V R : Type 0} (m : Semver V R) : Type 0 where
  pub exact_matches : (v w : V) → (m.req_matches (m.exact v) w ≡ true) ↔ (v ≡ w)
  pub any_matches : (v : V) → m.req_matches m.any_req v ≡ true
