-- ===== src/Core/Platform/Examples.antt =====
-- `Platform` of core/dependency.rs at two platforms.
use toml.Prelude.{codes, ◌≡◌, refl, true, ok}
use toml.Cfg
use toml.Cfg.{CfgExpr}
use toml.Cfg.WellFormed.{well_formed}
use toml.Core.Platform.{Platform, name, cfg, from_str, display, from_str-display}

abbrev unix : Platform
unix = cfg (CfgExpr.not (CfgExpr.value (Cfg.name (codes "windows"))))

unix-well_formed : well_formed (CfgExpr.not (CfgExpr.value (Cfg.name (codes "windows")))) ≡ true
unfolding well_formed
unix-well_formed = refl

from_str-display_example : from_str (display unix) ≡ ok unix
from_str-display_example = from_str-display unix unix-well_formed

triple : from_str (codes "x86_64-pc-windows-gnu") ≡ ok (name (codes "x86_64-pc-windows-gnu"))
unfolding from_str
triple = refl
