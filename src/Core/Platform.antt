-- ===== src/Core/Platform.antt =====
-- `Platform` of core/dependency.rs: the platforms that a dependency is for.
mod Examples
use toml.Prelude.{
  Text, codes, Bool, true, false, ◌≡◌, refl, Option, none, some, List, ◌++◌, arith, Eq, ◌==◌,
  list_eq, nat_eq, Result, ok, err, ◌>>=◌,
}
use toml.Cfg
use toml.Cfg.{CfgExpr}
use toml.Cfg.Lexer.{CfgError}
use toml.Cfg.Parser.{expr_from_str}
use toml.Cfg.Display
use toml.Cfg.WellFormed.{well_formed}
use toml.Cfg.RoundTrip.{expr_from_str-display}
use toml.Cfg.Key.{cfg_inner, cfg_inner_iff}

pub data Platform : Type 0 where
  name : Text → Platform
  cfg : CfgExpr → Platform

abbrev cfg_matches : CfgExpr → Option (List Cfg.Cfg) → Bool
cfg_matches p none = false
cfg_matches p (some c) = Cfg.matches p c

unfoldable pub matches : Platform → Text → Option (List Cfg.Cfg) → Bool
unfolding Cfg.matches
matches (name p) n c = p == n
matches (cfg p) n c = cfg_matches p c

abbrev platform_of : Text → Option Text → Result CfgError Platform
platform_of s none = ok (name s)
platform_of s (some inner) = expr_from_str inner >>= λ p. ok (cfg p)

-- `FromStr for Platform`
unfoldable pub from_str : Text → Result CfgError Platform
unfolding cfg_inner expr_from_str
from_str s = platform_of s (cfg_inner s)

unfoldable pub display : Platform → Text
unfolding Display.display
display (name n) = n
display (cfg e) = codes "cfg(" ++ (Display.display e ++ codes ")")

-- a name that does not look like a `cfg(..)`, or an expression that can be written
abbrev pub IsWritable : Platform → Type 0
IsWritable (name n) = cfg_inner n ≡ none
IsWritable (cfg e) = well_formed e ≡ true

-- A platform reads back from its display: a name that is not of the form `cfg(..)`, and every
-- well-formed expression.
pub from_str-display : (p : Platform) → IsWritable p → from_str (display p) ≡ ok p
unfolding from_str display
from_str-display (name n) h = rw h
from_str-display (cfg e) h = rw (
  (cfg_inner_iff (codes "cfg(" ++ (Display.display e ++ codes ")")) (Display.display e)).1 refl,
  expr_from_str-display e h,
)
