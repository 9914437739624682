-- ===== src/Cfg.antt =====
-- util/cfg.rs: `cfg(..)` expressions over the configuration of a target.
pub mod Lexer
pub mod Parser
pub mod Display
pub mod WellFormed
pub mod Sound
pub mod Tokens
pub mod RoundTrip
pub mod Key
mod Examples
use mathlib.Core.Bool
use toml.Prelude.{
  Text, Bool, true, false, ◌&&◌, ◌||◌, List, [], ◌∷◌, Eq, ◌==◌, contains, arith, ◌≡◌, ◌↔◌,
  list_eq_iff, list_eq, nat_eq,
}

pub data Cfg : Type 0 where
  name : Text → Cfg
  key_pair : Text → Text → Cfg

abbrev pub cfg_beq : Cfg → Cfg → Bool
cfg_beq (name a) (name b) = a == b
cfg_beq (key_pair k v) (key_pair j w) = k == j && v == w
cfg_beq _ _ = false

cfg_eq_iff : (a b : Cfg) → (cfg_beq a b ≡ true) ↔ (a ≡ b)
cfg_eq_iff (name a) (name b) = ground (arith, list_eq_iff a b)
cfg_eq_iff (name a) (key_pair j w) = ground arith
cfg_eq_iff (key_pair k v) (name b) = ground arith
cfg_eq_iff (key_pair k v) (key_pair j w) = ground (arith, list_eq_iff k j, list_eq_iff v w)

instance abbrev pub cfg_eq : Eq Cfg
unfolding cfg_eq_iff
cfg_eq = record { eq = cfg_beq; eq_iff = cfg_eq_iff }

mutual
  pub data CfgExpr : Type 0 where
    not : CfgExpr → CfgExpr
    all : CfgExprs → CfgExpr
    any : CfgExprs → CfgExpr
    value : Cfg → CfgExpr

  -- Vec<CfgExpr>
  pub data CfgExprs : Type 0 where
    nil : CfgExprs
    cons : CfgExpr → CfgExprs → CfgExprs

unfoldable mutual
  pub matches : CfgExpr → List Cfg → Bool
  matches (not e) cfg = Bool.not (matches e cfg)
  matches (all es) cfg = all_match es cfg
  matches (any es) cfg = any_match es cfg
  matches (value e) cfg = contains cfg e

  pub all_match : CfgExprs → List Cfg → Bool
  all_match nil cfg = true
  all_match (cons e es) cfg = matches e cfg && all_match es cfg

  pub any_match : CfgExprs → List Cfg → Bool
  any_match nil cfg = false
  any_match (cons e es) cfg = matches e cfg || any_match es cfg
