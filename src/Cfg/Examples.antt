-- ===== src/Cfg/Examples.antt =====
-- util/cfg.rs at the expressions of its tests.
use toml.Prelude.{
  Text, codes, Yields, ◌≡◌, ◌↔◌, refl, true, List, [], ◌∷◌, ◌++◌, ok, err, some, none,
}
use toml.Cfg.{Cfg, CfgExpr, name, key_pair, value, nil, cons, matches, cfg_eq}
use toml.Cfg.Lexer.{unterminated_string, expected, more_than_one_expr}
use toml.Cfg.Parser.{expr_from_str, cfg_from_str}
use toml.Cfg.Display.{display}
use toml.Cfg.WellFormed.{well_formed}
use toml.Cfg.Sound.{expr_from_str-Yields}
use toml.Cfg.RoundTrip.{expr_from_str-display, from_str-display-from_str}
use toml.Cfg.Key.{matches_key, matches_key-display, matches_key_iff}

abbrev text : Text
text = codes "all(unix,  not(windows) , k = \"v\")"

abbrev expression : CfgExpr
expression = CfgExpr.all (
    cons (value (name (codes "unix"))) (
      cons (CfgExpr.not (value (name (codes "windows"))))
        (cons (value (key_pair (codes "k") (codes "v"))) nil)))

parsed : expr_from_str text ≡ ok expression
unfolding expr_from_str
parsed = refl

printed : display expression ≡ codes "all(unix, not(windows), k = \"v\")"
unfolding display
printed = refl

refused :
    (expr_from_str (codes "k = \"v") ≡ err unterminated_string)
    × (expr_from_str (codes "a b") ≡ err more_than_one_expr)
    × (expr_from_str (codes "not(a") ≡ err (expected "`)`" none))
    × (expr_from_str (codes "all(a b)") ≡ err (expected "`)`" (some "an identifier")))
unfolding expr_from_str
refused = (refl, refl, refl, refl)

-- The name of an operator is a name by itself, and no expression.
operator_as_cfg :
    (cfg_from_str (codes "all") ≡ ok (name (codes "all")))
    × (expr_from_str (codes "all") ≡ err (expected "`(`" none))
unfolding cfg_from_str expr_from_str
operator_as_cfg = (refl, refl)

expression-well_formed : well_formed expression ≡ true
unfolding well_formed
expression-well_formed = refl

expr_from_str-Yields_example : Yields (λ e. well_formed e ≡ true) (expr_from_str text)
expr_from_str-Yields_example = expr_from_str-Yields text

expr_from_str-display_example : expr_from_str (display expression) ≡ ok expression
expr_from_str-display_example = expr_from_str-display expression expression-well_formed

from_str-display-from_str_example : expr_from_str (display expression) ≡ ok expression
from_str-display-from_str_example = from_str-display-from_str text expression parsed

abbrev linux : List Cfg
linux = name (codes "unix") ∷ key_pair (codes "k") (codes "v") ∷ []

matches_key-display_example :
    matches_key (codes "cfg(" ++ (display expression ++ codes ")")) linux ≡ matches expression linux
matches_key-display_example = matches_key-display expression linux expression-well_formed

matches-linux : matches expression linux ≡ true
unfolding matches cfg_eq
matches-linux = refl

matches_key_iff_example : (matches_key (codes "cfg(unix)") linux ≡ true) ↔ (
    (s : Text) × (e : CfgExpr) × (codes "cfg(unix)" ≡ codes "cfg(" ++ (s ++ codes ")"))
    × (expr_from_str s ≡ ok e)
    × (matches e linux ≡ true))
matches_key_iff_example = matches_key_iff (codes "cfg(unix)") linux
