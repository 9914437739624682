-- ===== src/Cfg/Display.antt =====
-- `Display` of util/cfg.rs.
use toml.Prelude.{Text, codes, Bool, true, false, [], ◌++◌, if◌then◌else◌}
use toml.Cfg.{Cfg, CfgExpr, CfgExprs, name, key_pair, value, nil, cons}

unfoldable pub display_cfg : Cfg → Text
display_cfg (name s) = s
display_cfg (key_pair k v) = k ++ (codes " = \"" ++ (v ++ codes "\""))

unfoldable mutual
  unfolding display_cfg

  pub display : CfgExpr → Text
  display (CfgExpr.not e) = codes "not(" ++ (display e ++ codes ")")
  display (CfgExpr.all es) = codes "all(" ++ (comma_sep true es ++ codes ")")
  display (CfgExpr.any es) = codes "any(" ++ (comma_sep true es ++ codes ")")
  display (value c) = display_cfg c

  -- `CommaSep`; `first` is `i == 0`
  pub comma_sep : Bool → CfgExprs → Text
  comma_sep first nil = []
  comma_sep first (cons e es) =
      (if first then [] else codes ", ") ++ (display e ++ comma_sep false es)
